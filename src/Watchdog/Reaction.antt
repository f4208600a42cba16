-- ===== src/Watchdog/Reaction.antt =====
-- core/src/watchdog.rs: the reaction time of a watchdog that is checked once per period.
use fieldbus_control_node.Prelude.{
  ℕ, ◌+◌, ◌^◌, ◌<◌, ◌≤◌, ◌≡◌, refl, sym, subst, ◌⊎◌, inl, inr, none, some, List, [], ◌∷◌, arith,
}
use native.Mathlib.Decide.{dec_lt}
use fieldbus_control_node.Watchdog.{
  SafeState, Watchdog, sensor_stale, check, time_since_last_accepted_us, overshoot_past_budget_us,
}
use fieldbus_control_node.Watchdog.Latch.{latched-check}

-- A trip that came after the budget and at most one period past it.
pub record IsPrompt (period : ℕ) (w : Watchdog) (s : SafeState) : Type 0 where
  pub after_budget : w.timeout_us < time_since_last_accepted_us s
  pub reaction : time_since_last_accepted_us s ≤ w.timeout_us + period
  pub overshoot : overshoot_past_budget_us s ≤ period

-- A watchdog that was within its budget at `prev` and is checked again within a period is either
-- still within it, or trips promptly.
pub check-IsPrompt :
    (w : Watchdog) (period prev now : ℕ)
    → w.latched ≡ none
    → w.last_seen_us + w.timeout_us < 2 ^ 64
    → prev ≤ w.last_seen_us + w.timeout_us
    → now ≤ prev + period
    → (((check w now).0 ≡ w) × (now ≤ w.last_seen_us + w.timeout_us))
      ⊎ ((s : SafeState) × ((check w now).0.latched ≡ some s) × IsPrompt period w s)
unfolding check time_since_last_accepted_us overshoot_past_budget_us
check-IsPrompt w period prev now e fits before soon =
    elim (dec_lt (w.last_seen_us + w.timeout_us) now) [
      | yes late ↦ inr (
        record { reason = sensor_stale w.last_seen_us now w.timeout_us },
        ground arith,
        ground arith,
      )
      | no early ↦ inl (ground arith, omega arith)
    ]

-- Times that follow `prev` in steps of at most a period.
abbrev pub Periodic : ℕ → ℕ → List ℕ → Type 0
Periodic period prev [] = Unit {0}
Periodic period prev (t ∷ ts) = (t ≤ prev + period) × Periodic period t ts

-- The node's check, period after period, with no accepted frame between.
unfoldable pub check_all : Watchdog → List ℕ → Watchdog
check_all w [] = w
check_all w (t ∷ ts) = check_all (check w t).0 ts

check_all-latched :
    (w : Watchdog) (ts : List ℕ) (s : SafeState)
    → w.latched ≡ some s
    → (check_all w ts).latched ≡ some s
unfolding check_all
check_all-latched w [] s e = e
check_all-latched w (t ∷ ts) s e = check_all-latched (check w t).0 ts s (latched-check w t s e).0

abbrev pub Within : ℕ → List ℕ → Type 0
Within limit [] = Unit {0}
Within limit (t ∷ ts) = (t ≤ limit) × Within limit ts

-- An unlatched watchdog within its budget at `prev`, then checked at times that follow at most a
-- period apart and never fed: either every time was within the budget and it is as it was, or it
-- is latched with a state whose reaction is past the budget and by at most one period.
pub check_all-IsPrompt :
    (w : Watchdog) (period prev : ℕ) (ts : List ℕ)
    → w.latched ≡ none
    → w.last_seen_us + w.timeout_us < 2 ^ 64
    → prev ≤ w.last_seen_us + w.timeout_us
    → Periodic period prev ts
    → ((check_all w ts ≡ w) × Within (w.last_seen_us + w.timeout_us) ts)
      ⊎ ((s : SafeState) × ((check_all w ts).latched ≡ some s) × IsPrompt period w s)
unfolding check_all
check_all-IsPrompt w period prev [] e fits before h = inl (refl, tt)
check_all-IsPrompt w period prev (t ∷ ts) e fits before h =
    elim (check-IsPrompt w period prev t e fits before h.0) [
      | inl (same, early) ↦ elim (check_all-IsPrompt w period t ts e fits early h.1) [
        | inl (kept, all) ↦ inl (subst (λ u. check_all u ts ≡ w) (sym same) kept, (early, all))
        | inr (s, l, q) ↦ inr (s, subst (λ u. (check_all u ts).latched ≡ some s) (sym same) l, q)
      ]
      | inr (s, l, q) ↦ inr (s, check_all-latched (check w t).0 ts s l, q)
    ]
