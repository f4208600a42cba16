-- ===== src/Demo/Loop.antt =====
-- wasm/src/lib.rs: the loop of `run_demo`, in each of its modes.
use fieldbus_control_node.Prelude.{
  ℕ, zero, suc, ◌+◌, ◌*◌, ◌<◌, ◌≤◌, ◌≡◌, refl, sym, ap, ◌∙◌, subst, arith, false, ◌&&◌, none, [],
  ltb, ◌==◌, if◌then◌else◌, inl, inr, All, same_text, Bool-cases,
}
use Prim.Native.String.{String}
use native.Mathlib.Decide.{dec_lt}
use fieldbus_control_node.Control.Float.{Float32}
use fieldbus_control_node.Node.{ControlNode, step, is_some}
use fieldbus_control_node.Demo.{period_us, received, reaction_or, sample_of, play, Sample}
use fieldbus_control_node.Demo.Fed.{heard, faults, IsLive, step-IsLive}
use fieldbus_control_node.Demo.Silent.{
  seen_after, trip_at, latch, stale, IsStale, heard-IsStale, silent-IsStale,
}

received-early : (f cycle : ℕ) → cycle < f → received "sensor_stale" f cycle ≡ heard false cycle
unfolding received
received-early f cycle h = ground arith

received-late : (f cycle : ℕ) → f ≤ cycle → received "sensor_stale" f cycle ≡ []
unfolding received
received-late f cycle h = ground arith

received-live :
    (mode : String) (f cycle : ℕ)
    → same_text mode "sensor_stale" ≡ false
    → received mode f cycle ≡ heard (same_text mode "bad_crc" && cycle == f) cycle
unfolding received
received-live mode f cycle h = elim (Bool-cases (same_text mode "bad_crc" && cycle == f)) [
  | inl e ↦ rw (h, e) refl
  | inr e ↦ rw (h, e) refl
]

-- The refusals before a cycle.
abbrev pub refused : String → ℕ → ℕ → ℕ
refused mode f cycle = if same_text mode "bad_crc" && ltb f cycle then 1 else 0

corrupted_once :
    (f cycle : ℕ)
    → (if ltb f cycle then 1 else 0) + faults (cycle == f) ≡ (if ltb f (cycle + 1) then 1 else 0)
corrupted_once f cycle = ground arith

refused-step :
    (mode : String) (f cycle : ℕ)
    → refused mode f cycle + faults (same_text mode "bad_crc" && cycle == f)
      ≡ refused mode f (cycle + 1)
refused-step mode f cycle = elim (Bool-cases (same_text mode "bad_crc")) [
  | inl e ↦ rw e (corrupted_once f cycle)
  | inr e ↦ rw e refl
]

refused-lt : (mode : String) (f cycle : ℕ) → refused mode f cycle < 2
refused-lt mode f cycle = ground arith

module _ (fl : Float32) where
  step-IsStale :
      (f cycle : ℕ) (n : ControlNode fl) (last : ℕ)
      → cycle < 2001
      → IsStale fl f cycle n last
      → let r = step fl n (cycle * period_us) (received "sensor_stale" f cycle) in
        IsStale fl f (cycle + 1) r.0 (reaction_or last r.1.safe_state)
        × (r.1.safe_state ≡ latch f (cycle + 1))
  step-IsStale f cycle n last small s = elim (dec_lt cycle f) [
    | yes early ↦ rw (received-early f cycle early) (heard-IsStale fl f cycle n last early small s)
    | no late ↦
        rw (received-late f cycle (omega arith))
          (silent-IsStale fl f cycle n last (omega arith) small s)
  ]

  -- The safe samples are those from the trip on.
  abbrev pub FromTrip : ℕ → Sample fl → Type 0
  FromTrip f s = s.safe ≡ ltb (trip_at f) (s.cycle + 1)

  pub play-IsStale :
      (f left cycle : ℕ) (n : ControlNode fl) (last : ℕ)
      → cycle + left < 2001
      → IsStale fl f cycle n last
      → let p = play fl "sensor_stale" f left cycle n last in
        IsStale fl f (cycle + left) p.node p.last_reaction_us × All (FromTrip f) p.samples
  unfolding play sample_of
  play-IsStale f zero cycle n last h s = (subst (λ k. IsStale fl f k n last) (omega arith) s, tt)
  play-IsStale f (suc left) cycle n last h s =
      let r = step fl n (cycle * period_us) (received "sensor_stale" f cycle) in
      let last' = reaction_or last r.1.safe_state in
      let (stale, shown) = step-IsStale f cycle n last (omega arith) s in
      let rest = play-IsStale f left (cycle + 1) r.0 last' (omega arith) stale in
      let p = play fl "sensor_stale" f left (cycle + 1) r.0 last' in
      (
        subst (λ k. IsStale fl f k p.node p.last_reaction_us) (omega arith) rest.0,
        (ap is_some shown ∙ ground arith, rest.1),
      )

  -- A run without the stale mode: every frame is on time.
  pub play-IsLive :
      (mode : String) (f left cycle : ℕ) (n : ControlNode fl) (last : ℕ)
      → same_text mode "sensor_stale" ≡ false
      → cycle + left < 2001
      → IsLive fl cycle (refused mode f cycle) (seen_after cycle) n
      → let p = play fl mode f left cycle n last in
        IsLive fl (cycle + left) (refused mode f (cycle + left)) (seen_after (cycle + left)) p.node
        × (p.last_reaction_us ≡ last)
        × All (λ (s : Sample fl). s.safe ≡ false) p.samples
  unfolding play reaction_or sample_of
  play-IsLive mode f zero cycle n last m h s =
      let same : cycle ≡ cycle + 0 = omega arith in
      (subst (λ k. IsLive fl k (refused mode f k) (seen_after k) n) same s, refl, tt)
  play-IsLive mode f (suc left) cycle n last m h s =
      let b = same_text mode "bad_crc" && cycle == f in
      let r = step fl n (cycle * period_us) (received mode f cycle) in
      let (live, quiet) =
        subst
          (λ fs.
            let q = step fl n (cycle * period_us) fs in
            IsLive fl (cycle + 1) (refused mode f cycle + faults b) (cycle * period_us) q.0
            × (q.1.safe_state ≡ none))
          (sym (received-live mode f cycle m))
          (step-IsLive fl b cycle (refused mode f cycle) (seen_after cycle) n (omega arith)
            (refused-lt mode f cycle) (omega arith) s) in
      let next : IsLive fl (cycle + 1) (refused mode f (cycle + 1)) (seen_after (cycle + 1)) r.0 =
        let at : cycle * period_us ≡ seen_after (cycle + 1) = omega arith in
        subst (λ k. IsLive fl (cycle + 1) (refused mode f (cycle + 1)) k r.0) at
          (subst (λ k. IsLive fl (cycle + 1) k (cycle * period_us) r.0) (refused-step mode f cycle)
            live) in
      let last' = reaction_or last r.1.safe_state in
      let rest = play-IsLive mode f left (cycle + 1) r.0 last' m (omega arith) next in
      let p = play fl mode f left (cycle + 1) r.0 last' in
      let whole : cycle + 1 + left ≡ cycle + suc left = omega arith in
      (
        subst (λ k. IsLive fl k (refused mode f k) (seen_after k) p.node) whole rest.0,
        rest.1 ∙ ap (reaction_or last) quiet,
        (ap is_some quiet, rest.2),
      )
