-- ===== src/Demo/Silent.antt =====
-- wasm/src/lib.rs: a sensor that goes silent at a cycle, and the watchdog that notices.
use fieldbus_control_node.Prelude.{
  ℕ, ◌+◌, ◌-◌, ◌*◌, ◌<◌, ◌≤◌, ◌≡◌, refl, ap, ◌∙◌, arith, false, Option, none, some, [], ltb, min,
  lt→ltb, if◌then◌else◌,
}
use native.Mathlib.Decide.{dec_lt}
use fieldbus_control_node.J1939.Validator.{validate_all}
use fieldbus_control_node.J1939.Validator.Sequence.{Expects}
use fieldbus_control_node.Watchdog.{
  Watchdog, SafeState, sensor_stale, check, time_since_last_accepted_us,
}
use fieldbus_control_node.Control.Float.{Float32}
use fieldbus_control_node.Node.{ControlNode, step}
use fieldbus_control_node.Node.Ingest.{step-parts}
use fieldbus_control_node.Demo.{period_us, reaction_or}
use fieldbus_control_node.Demo.Fed.{heard, IsLive, step-IsLive}

-- The time of the last frame when the first `n` cycles had one.
abbrev pub seen_after : ℕ → ℕ
seen_after n = (n - 1) * period_us

-- The first cycle that is late for a sensor that is silent from cycle `f` on.
abbrev pub trip_at : ℕ → ℕ
trip_at f = (if ltb f 1 then 1 else f) + 8

abbrev pub stale : ℕ → SafeState
stale f = record { reason = sensor_stale (seen_after f) (trip_at f * period_us) 80000 }

-- The latch before a cycle.
abbrev pub latch : ℕ → ℕ → Option SafeState
latch f cycle = if ltb (trip_at f) cycle then some (stale f) else none

abbrev pub reaction : ℕ → ℕ → ℕ
reaction f cycle = if ltb (trip_at f) cycle then 90000 else 0

stale-reaction : (f : ℕ) → time_since_last_accepted_us (stale f) ≡ 90000
unfolding time_since_last_accepted_us
stale-reaction f = ground arith

pub reaction_or-latch :
    (f cycle : ℕ) → reaction_or (reaction f cycle) (latch f (cycle + 1)) ≡ reaction f (cycle + 1)
unfolding reaction_or
reaction_or-latch f cycle = elim (dec_lt (trip_at f) (cycle + 1)) [
  | yes p ↦ rw (lt→ltb (trip_at f) (cycle + 1) p) (stale-reaction f)
  | no p ↦ ground arith
]

check-latch :
    (w : Watchdog) (f cycle : ℕ)
    → f ≤ cycle
    → cycle < 2001
    → w.latched ≡ latch f cycle
    → w.timeout_us ≡ 80000
    → w.last_seen_us ≡ seen_after f
    → (check w (cycle * period_us)).0 ≡ record w { latched = latch f (cycle + 1) }
unfolding check
check-latch w f cycle late small l t s = ground arith

check-early :
    (w : Watchdog) (cycle : ℕ)
    → cycle < 2001
    → w.latched ≡ none
    → w.timeout_us ≡ 80000
    → w.last_seen_us ≡ seen_after cycle
    → (check w (cycle * period_us)).0.latched ≡ none
unfolding check
check-early w cycle small l t s = ground arith

module _ (fl : Float32) where
  -- The check behind the last cycle, when every cycle had its frame.
  pub silent-IsLive :
      (cycle rejected : ℕ) (n : ControlNode fl)
      → cycle < 2001
      → IsLive fl cycle rejected (seen_after cycle) n
      → let out = (step fl n (cycle * period_us) []).1 in
        (out.accepted ≡ cycle) × (out.rejected ≡ rejected) × (out.safe_state ≡ none)
  unfolding validate_all
  silent-IsLive cycle rejected n small s =
      let p = step-parts fl n (cycle * period_us) [] in
      (
        p.accepted ∙ ap (λ v. v.accepted) p.validator ∙ s.counted.accepts,
        p.rejected ∙ ap (λ v. v.rejected) p.validator ∙ s.counted.rejects,
        p.safe_state
            ∙ ap (λ w. w.latched) p.watchdog
            ∙ check-early n.watchdog cycle small s.unlatched s.budget s.last_seen,
      )

  -- Before a cycle of a run whose sensor is silent from cycle `f` on.
  pub record IsStale (f cycle : ℕ) (n : ControlNode fl) (last_reaction_us : ℕ) : Type 0 where
    pub accepts : n.validator.accepted ≡ min cycle f
    pub rejects : n.validator.rejected ≡ 0
    pub expects : cycle ≤ f → Expects n.validator cycle
    pub budget : n.watchdog.timeout_us ≡ 80000
    pub last_seen : n.watchdog.last_seen_us ≡ seen_after (min cycle f)
    pub latched : n.watchdog.latched ≡ latch f cycle
    pub reacted : last_reaction_us ≡ reaction f cycle

  -- A cycle before the silence.
  pub heard-IsStale :
      (f cycle : ℕ) (n : ControlNode fl) (last : ℕ)
      → cycle < f
      → cycle < 2001
      → IsStale f cycle n last
      → let r = step fl n (cycle * period_us) (heard false cycle) in
        IsStale f (cycle + 1) r.0 (reaction_or last r.1.safe_state)
        × (r.1.safe_state ≡ latch f (cycle + 1))
  unfolding reaction_or
  heard-IsStale f cycle n last early small s =
      let live : IsLive fl cycle 0 (seen_after cycle) n = record {
        counted = record {
          accepts = ground (arith, s.accepts);
          rejects = s.rejects;
          expects = s.expects (omega arith);
        };
        unlatched = ground (arith, s.latched);
        budget = s.budget;
        last_seen = ground (arith, s.last_seen);
      } in
      let (l, quiet) =
        step-IsLive fl false cycle 0 (seen_after cycle) n small (omega arith) (omega arith) live in
      let same : reaction f cycle ≡ reaction f (cycle + 1) = ground arith in
      (
        record {
          accepts = ground (arith, l.counted.accepts);
          rejects = l.counted.rejects;
          expects = λ h. l.counted.expects;
          budget = l.budget;
          last_seen = ground (arith, l.last_seen);
          latched = l.unlatched ∙ ground arith;
          reacted = rw quiet (s.reacted ∙ same);
        },
        quiet ∙ ground arith,
      )

  -- A cycle of the silence.
  pub silent-IsStale :
      (f cycle : ℕ) (n : ControlNode fl) (last : ℕ)
      → f ≤ cycle
      → cycle < 2001
      → IsStale f cycle n last
      → let r = step fl n (cycle * period_us) [] in
        IsStale f (cycle + 1) r.0 (reaction_or last r.1.safe_state)
        × (r.1.safe_state ≡ latch f (cycle + 1))
  unfolding validate_all
  silent-IsStale f cycle n last late small s =
      let p = step-parts fl n (cycle * period_us) [] in
      let w =
        check-latch n.watchdog f cycle late small s.latched s.budget
          (ground (arith, s.last_seen)) in
      let after = p.watchdog ∙ w in
      let shown : (step fl n (cycle * period_us) []).1.safe_state ≡ latch f (cycle + 1) =
        p.safe_state ∙ rw after refl in
      (
        record {
          accepts = ap (λ v. v.accepted) p.validator ∙ ground (arith, s.accepts);
          rejects = ap (λ v. v.rejected) p.validator ∙ s.rejects;
          expects = λ h. absurd (omega arith);
          budget = rw after s.budget;
          last_seen = rw after (ground (arith, s.last_seen));
          latched = rw after refl;
          reacted =
              rw shown (
                ap (λ d. reaction_or d (latch f (cycle + 1))) s.reacted
                ∙ reaction_or-latch f cycle);
        },
        shown,
      )
