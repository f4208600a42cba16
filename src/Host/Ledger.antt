-- ===== src/Host/Ledger.antt =====
-- host/src/runner.rs: `PeriodLedger`, which counts the periods in which no cycle started.
use fieldbus_control_node.Prelude.{
  ℕ, ◌+◌, ◌-◌, ◌/◌, ◌^◌, ◌<◌, ◌≤◌, ◌≡◌, arith, max, u64, List, [], ◌∷◌, ltb, if◌then◌else◌,
}
use native.Mathlib.Nat.{div-le_self, le-div_iff_mul-le, div-mul-le_self}
use native.Mathlib.Decide.{dec_lt}

pub record PeriodLedger : Type 0 where
  pub period_us : ℕ
  pub next_unaccounted : ℕ

unfoldable pub new : ℕ → PeriodLedger
new period_us = record { period_us = max period_us 1; next_unaccounted = 0 }

-- The subtraction saturates at zero, as the source's does.
unfoldable pub account_cycle_start : PeriodLedger → ℕ → PeriodLedger × ℕ
account_cycle_start l start_us =
    let period = start_us / l.period_us in
    (record l { next_unaccounted = u64 (period + 1) }, period - l.next_unaccounted)

-- The skipped periods that a run of cycle starts reports, added up.
unfoldable pub account_all : PeriodLedger → List ℕ → PeriodLedger × ℕ
account_all l [] = (l, 0)
account_all l (start ∷ starts) =
    let (l', skipped) = account_cycle_start l start in
    let (l'', rest) = account_all l' starts in (l'', skipped + rest)

-- The starts come in order, after a given one, in 64 bits.
abbrev pub InOrder : ℕ → List ℕ → Type 0
InOrder from [] = Unit {0}
InOrder from (start ∷ starts) = (from ≤ start) × (start < 2 ^ 64 - 1) × InOrder start starts

-- The periods in which some cycle started, counted once each, when `next` is the period after the
-- last of those before.
abbrev pub periods_started : ℕ → ℕ → List ℕ → ℕ
periods_started period next [] = 0
periods_started period next (start ∷ starts) =
    let rest = periods_started period (start / period + 1) starts in
    (if ltb (start / period) next then 0 else 1) + rest

exact_from :
    (l : PeriodLedger) (from : ℕ) (starts : List ℕ)
    → 0 < l.period_us
    → l.next_unaccounted ≤ from / l.period_us + 1
    → InOrder from starts
    → let (l', skipped) = account_all l starts in
      l'.next_unaccounted
      ≡ l.next_unaccounted + skipped + periods_started l.period_us l.next_unaccounted starts
unfolding account_all account_cycle_start
exact_from l from [] pos_period bound h = omega arith
exact_from l from (start ∷ starts) pos_period bound h =
    let mono : from / l.period_us ≤ start / l.period_us =
      (le-div_iff_mul-le pos_period).1 (omega (arith, div-mul-le_self from l.period_us, h.0)) in
    let small : start / l.period_us ≤ start = div-le_self start l.period_us in
    let wraps : u64 (start / l.period_us + 1) ≡ start / l.period_us + 1 = omega arith in
    let rest =
      exact_from (account_cycle_start l start).0 start starts pos_period (omega arith) h.2 in
    elim (dec_lt (start / l.period_us) l.next_unaccounted) [
      | yes p ↦ ground (arith, rest, mono, wraps)
      | no p ↦ ground (arith, rest, mono, wraps)
    ]

-- Each period is counted exactly once, as one with a start or as a skipped one: the periods up to
-- the last start are those skipped and those in which a cycle started, however late the cycles run.
pub account_all-exact :
    (period_us : ℕ) (starts : List ℕ)
    → InOrder 0 starts
    → let l = new period_us in
      let (l', skipped) = account_all l starts in
      l'.next_unaccounted ≡ skipped + periods_started l.period_us 0 starts
unfolding new
account_all-exact period_us starts h =
    omega (arith, exact_from (new period_us) 0 starts (omega arith) (omega arith) h)
