-- ===== src/Rail/Movements/All.antt =====
-- `fetch_all_train_movements` of daemon.py, which asks for one train after the other.
use mathlib.Core.List.{List, [], ◌∷◌}
use irish_rail_nabber.Prelude.{
  ℕ, suc, ◌+◌, String, ◌≡◌, refl, Bool, ◌||◌, Option, none, some, inl, inr, if◌then◌else◌,
  Bool-cases,
}
use irish_rail_nabber.Prelude.Int.{ℤ, pos, negsuc}
use irish_rail_nabber.Python.Text.{is_empty}
use irish_rail_nabber.Python.Runtime.{Runtime}
use irish_rail_nabber.Rail.Fields.{Element, text_of}
use irish_rail_nabber.Rail.Movements.{Session, MovementState, elements_of, fetch_train_movements}
use irish_rail_nabber.Rail.Movements.Backed.{IsBacked, fetch_train_movements-IsBacked}

-- What a request for one train meets: the response, and the session of its transaction.
pub record Request : Type 0 where
  pub response : Option String
  pub session : Session

-- What the loop has counted.
pub record MovementLoop : Type 0 where
  pub total : ℕ
  pub unchanged : ℕ
  pub state : MovementState

-- How the cycle ends: the count that `record_fetch` is told, or a failure.
pub data MovementResult : Type 0 where
  no_trains : MovementResult
  counted : ℕ → ℕ → MovementResult

-- The count of one train: -1 where nothing changed.
abbrev count_train : ℤ × MovementState → MovementLoop → MovementLoop
count_train (pos n, s) l = record { total = l.total + n; unchanged = l.unchanged; state = s }
count_train (negsuc n, s) l = record { total = l.total; unchanged = suc l.unchanged; state = s }

module _ (R : Runtime) (is_shut_down : ℕ → Bool) (ask : ℕ → String → String → Request) where
  abbrev fetch_one : ℕ → String → String → MovementLoop → MovementLoop
  fetch_one n code date l =
      let request = ask n code date in
      count_train (fetch_train_movements R request.session request.response date l.state) l

  abbrev fetch_train : ℕ → Element → MovementLoop → MovementLoop
  fetch_train n train l =
      if is_empty (text_of train "TrainCode") || is_empty (text_of train "TrainDate")
      then l
      else fetch_one n (text_of train "TrainCode") (text_of train "TrainDate") l

  -- The loop, which ends at the first train before which the shutdown is set; `n` counts the
  -- trains, so that a train that is listed twice can get two answers.
  unfoldable pub fetch_each : ℕ → List Element → MovementLoop → MovementLoop
  unfolding fetch_train_movements
  fetch_each n [] l = l
  fetch_each n (train ∷ trains) l =
      if is_shut_down n then l else fetch_each (suc n) trains (fetch_train n train l)

  abbrev fetch_elements : Option (List Element) → MovementState → MovementResult × MovementState
  fetch_elements none s = (no_trains, s)
  fetch_elements (some es) s =
      let l = fetch_each 0 es (record { total = 0; unchanged = 0; state = s }) in
      (counted l.total l.unchanged, l.state)

  -- `fetch_all_train_movements`, with the response that names the trains.
  unfoldable pub fetch_all_train_movements :
      Option String → MovementState → MovementResult × MovementState
  unfolding fetch_each
  fetch_all_train_movements response s = fetch_elements (elements_of R response) s

  state-count_train : (r : ℤ × MovementState) (l : MovementLoop) → (count_train r l).state ≡ r.1
  state-count_train (pos n, s) l = refl
  state-count_train (negsuc n, s) l = refl

  fetch_train-IsBacked :
      (n : ℕ) (train : Element) (l : MovementLoop)
      → IsBacked R l.state
      → IsBacked R (fetch_train n train l).state
  fetch_train-IsBacked n train l h =
      elim (Bool-cases
        (is_empty (text_of train "TrainCode") || is_empty (text_of train "TrainDate"))) [
          | inl unnamed ↦ rw unnamed h
          | inr named ↦
              let request = ask n (text_of train "TrainCode") (text_of train "TrainDate") in
              let r =
                fetch_train_movements R request.session request.response (text_of train "TrainDate")
                  l.state in
              rw (named, state-count_train r l)
                (fetch_train_movements-IsBacked R request.session request.response
                  (text_of train "TrainDate") l.state h).0
        ]

  fetch_each-IsBacked :
      (n : ℕ) (trains : List Element) (l : MovementLoop)
      → IsBacked R l.state
      → IsBacked R (fetch_each n trains l).state
  unfolding fetch_each
  fetch_each-IsBacked n [] l h = h
  fetch_each-IsBacked n (train ∷ trains) l h = elim (Bool-cases (is_shut_down n)) [
    | inl stop ↦ rw stop h
    | inr run ↦ rw run (
        fetch_each-IsBacked (suc n) trains (fetch_train n train l)
          (fetch_train-IsBacked n train l h))
  ]

  fetch_elements-IsBacked :
      (es : Option (List Element)) (s : MovementState)
      → IsBacked R s
      → IsBacked R (fetch_elements es s).1
  fetch_elements-IsBacked none s h = h
  fetch_elements-IsBacked (some es) s h = fetch_each-IsBacked 0 es _ h

  -- A cycle over all trains keeps every movement hash in memory the one of the newest row with its key,
  -- whatever each request answers, whichever rows are refused, whichever transactions fail, and before
  -- whichever train the shutdown comes.
  pub fetch_all_train_movements-IsBacked :
      (response : Option String) (s : MovementState)
      → IsBacked R s
      → IsBacked R (fetch_all_train_movements response s).1
  unfolding fetch_all_train_movements
  fetch_all_train_movements-IsBacked response s h =
      fetch_elements-IsBacked (elements_of R response) s h
