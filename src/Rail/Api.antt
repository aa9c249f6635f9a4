-- ===== src/Rail/Api.antt =====
-- `fetch_api` of daemon.py.
use irish_rail_nabber.Prelude.{
  ℕ, zero, suc, ◌+◌, ◌*◌, ◌≡◌, refl, String, Option, none, some, nat_beq, ltb, if◌then◌else◌,
}

-- How an attempt ends: a status with a body, or an exception.
pub data Attempt : Type 0 where
  answer : ℕ → String → Attempt
  raised : Attempt

-- The body of a success.
abbrev pub body_of : Attempt → Option String
body_of (answer status body) = if nat_beq status 200 then some body else none
body_of raised = none

-- `2 ** attempt`
abbrev pub backoff : ℕ → ℕ
backoff zero = 1
backoff (suc n) = 2 * backoff n

-- A round that returns, or the seconds it sleeps and the rounds after it.
abbrev after_attempt : Option String → ℕ → Option String × ℕ → Option String × ℕ
after_attempt (some body) sleep rest = (some body, 0)
after_attempt none sleep (result, slept) = (result, sleep + slept)

-- The rounds from `attempt` on, of which `left` are left, with the result and the seconds slept.
unfoldable pub try_attempts : (ℕ → Attempt) → ℕ → ℕ → Option String × ℕ
try_attempts attempts zero attempt = (none, 0)
try_attempts attempts (suc left) attempt =
    let sleep = if ltb attempt 2 then backoff attempt else 0 in
    after_attempt (body_of (attempts attempt)) sleep (try_attempts attempts left (suc attempt))

-- `fetch_api`
unfoldable pub fetch_api : (ℕ → Attempt) → Option String × ℕ
unfolding try_attempts
fetch_api attempts = try_attempts attempts 3 0

abbrev pub IsTried : Option String → Option String → Option String → Option String × ℕ → Type 0
IsTried (some body) second third r = r ≡ (some body, 0)
IsTried none (some body) third r = r ≡ (some body, 1)
IsTried none none third r = r ≡ (third, 3)

-- `fetch_api` returns the body of the first of three attempts whose status is 200, and `None` if there
-- is none. It sleeps 0, 1 or 3 seconds in all if the first, the second or neither of the two succeeds.
pub fetch_api-IsTried :
    (attempts : ℕ → Attempt)
    → IsTried
        (body_of (attempts 0))
        (body_of (attempts 1))
        (body_of (attempts 2))
        (fetch_api attempts)
unfolding fetch_api try_attempts
fetch_api-IsTried attempts =
    tried (body_of (attempts 0)) (body_of (attempts 1)) (body_of (attempts 2))
  where
    tried :
        (first second third : Option String)
        → IsTried first second third
            (after_attempt first 1 (after_attempt second 2 (after_attempt third 0 (none, 0))))
    tried (some body) second third = refl
    tried none (some body) third = refl
    tried none none (some body) = refl
    tried none none none = refl
