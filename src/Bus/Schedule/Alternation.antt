-- ===== src/Bus/Schedule/Alternation.antt =====
-- The choice of the feed after a recorded fetch (bus_daemon.py).
use mathlib.Core.List.{List, [], ◌∷◌, ◌++◌}
use irish_rail_nabber.Prelude.{ℕ, ◌≡◌, refl, ap, true, some, arith, All, string_eq}
use irish_rail_nabber.Bus.Schedule.{
  Feed, trip_updates, vehicles, endpoint_of, Fetch, fetch_of, is_older, is_realtime, latest_fetch,
  feed_after, choose_feed,
}

abbrev pub other_feed : Feed → Feed
other_feed trip_updates = vehicles
other_feed vehicles = trip_updates

-- All rows come before `f` in the order of the query.
abbrev pub IsLast : Fetch → List Fetch → Type 0
IsLast f history = All (λ g. is_older g f ≡ true) history

latest_fetch-last :
    (history : List Fetch) (f : Fetch)
    → is_realtime f ≡ true
    → IsLast f history
    → latest_fetch (history ++ f ∷ []) ≡ some f
unfolding latest_fetch
latest_fetch-last [] f h last = rw h refl
latest_fetch-last (g ∷ history) f h last =
    rw (latest_fetch-last history f h last.1) (ground (arith, last.0))

endpoint_of-is_realtime :
    (feed : Feed) (id fetched_at : ℕ) → is_realtime (fetch_of id feed fetched_at) ≡ true
unfolding endpoint_of
endpoint_of-is_realtime trip_updates id fetched_at = refl
endpoint_of-is_realtime vehicles id fetched_at = refl

-- When the fetch of a feed is recorded as the last row of the history, the next request goes to the
-- other feed, whether the fetch succeeded or failed.
pub choose_feed-alternates :
    (history : List Fetch) (feed : Feed) (id fetched_at : ℕ)
    → IsLast (fetch_of id feed fetched_at) history
    → choose_feed (history ++ fetch_of id feed fetched_at ∷ []) ≡ other_feed feed
unfolding choose_feed feed_after endpoint_of
choose_feed-alternates history trip_updates id fetched_at last = ap feed_after (
    latest_fetch-last history (fetch_of id trip_updates fetched_at)
      (endpoint_of-is_realtime trip_updates id fetched_at) last)
choose_feed-alternates history vehicles id fetched_at last = ap feed_after (
    latest_fetch-last history (fetch_of id vehicles fetched_at)
      (endpoint_of-is_realtime vehicles id fetched_at) last)
