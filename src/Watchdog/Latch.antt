-- ===== src/Watchdog/Latch.antt =====
-- core/src/watchdog.rs: the latch of `check`.
use fieldbus_control_node.Prelude.{
  ℕ, ◌+◌, ◌^◌, ◌<◌, ◌≤◌, ◌≡◌, ◌⊎◌, inl, inr, none, some, List, [], ◌∷◌, arith,
}
use native.Mathlib.Decide.{dec_lt}
use fieldbus_control_node.Watchdog.{SafeState, Watchdog, sensor_stale, feed, check, reset}

-- What the node and its operator call, each at a time.
pub data Call : Type 0 where
  feeds checks resets : ℕ → Call

pub apply : Watchdog → Call → Watchdog
apply w (feeds t) = feed w t
apply w (checks t) = (check w t).0
apply w (resets t) = reset w t

pub run : Watchdog → List Call → Watchdog
run w [] = w
run w (c ∷ cs) = run (apply w c) cs

abbrev pub NoReset : List Call → Type 0
NoReset [] = Unit {0}
NoReset (feeds t ∷ cs) = NoReset cs
NoReset (checks t ∷ cs) = NoReset cs
NoReset (resets t ∷ cs) = ⊥

pub latched-feed : (w : Watchdog) (t : ℕ) → (feed w t).latched ≡ w.latched
unfolding feed
latched-feed w t = ground arith

pub latched-check :
    (w : Watchdog) (t : ℕ) (s : SafeState)
    → w.latched ≡ some s
    → ((check w t).0.latched ≡ some s) × ((check w t).1 ≡ some s)
unfolding check
latched-check w t s e = ground arith

-- Once latched, a watchdog keeps the same safe state, with its first timestamps, through any
-- history of feeds and checks, and every later check returns it.
pub run-latched :
    (w : Watchdog) (cs : List Call) (s : SafeState) (t : ℕ)
    → NoReset cs
    → w.latched ≡ some s
    → ((run w cs).latched ≡ some s) × ((check (run w cs) t).1 ≡ some s)
unfolding run apply
run-latched w [] s t h e = (e, (latched-check w t s e).1)
run-latched w (feeds u ∷ cs) s t h e = run-latched (feed w u) cs s t h (rw latched-feed e)
run-latched w (checks u ∷ cs) s t h e = run-latched (check w u).0 cs s t h (latched-check w u s e).0
run-latched w (resets u ∷ cs) s t h e = absurd h

-- A check of an unlatched watchdog either returns no safe state and the time is within the budget,
-- or returns the one that names the last feed, the check and the budget, and the time is past it;
-- the sum of the last feed and the budget must fit 64 bits.
pub check-unlatched :
    (w : Watchdog) (now : ℕ)
    → w.latched ≡ none
    → w.last_seen_us + w.timeout_us < 2 ^ 64
    → (((check w now).1 ≡ none) × (now ≤ w.last_seen_us + w.timeout_us))
      ⊎ (((check w now).1 ≡ some (record { reason = sensor_stale w.last_seen_us now w.timeout_us }))
          × (w.last_seen_us + w.timeout_us < now))
unfolding check
check-unlatched w now e h = elim (dec_lt (w.last_seen_us + w.timeout_us) now) [
  | yes p ↦ inr (ground arith, p)
  | no p ↦ inl (ground arith, omega arith)
]

pub check-keeps :
    (w : Watchdog) (now : ℕ)
    → ((check w now).0.last_seen_us ≡ w.last_seen_us)
      × ((check w now).0.timeout_us ≡ w.timeout_us)
      × ((check w now).1 ≡ (check w now).0.latched)
unfolding check
check-keeps w now = ground arith
