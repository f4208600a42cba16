-- ===== src/Demo/Fed.antt =====
-- wasm/src/lib.rs: the cycles in which the node receives the sensor's frame.
use fieldbus_control_node.Prelude.{
  ℕ, ◌+◌, ◌*◌, ◌<◌, ◌≤◌, ◌^◌, ◌≡◌, refl, ap, ◌∙◌, arith, Bool, true, false, none, List, [], ◌∷◌, u8,
  inr, bit_xor, ok, err,
}
use fieldbus_control_node.Prelude.Bits.{bit_xor-ne}
use fieldbus_control_node.J1939.Ident.{priority, pgn_sensor, sa_sensor}
use fieldbus_control_node.J1939.Ident.Roundtrip.{unpack-pack-from_pgn}
use fieldbus_control_node.J1939.Payload.{Frame, Payload, encode, sensor_frame, status_ok}
use fieldbus_control_node.J1939.Payload.Roundtrip.{IsPayload, encode-checked}
use fieldbus_control_node.J1939.Validator.{
  Validator, bad_crc, classify, validate, validate_all, validate_all-cons, record_outcome,
}
use fieldbus_control_node.J1939.Validator.Accounting.{outcomes, accepted_in}
use fieldbus_control_node.J1939.Validator.Sequence.{IsInRange, Expects, reading, expected_accepted}
use fieldbus_control_node.Watchdog.{Watchdog, feed, check}
use fieldbus_control_node.Control.Float.{Float32}
use fieldbus_control_node.Node.{ControlNode, step}
use fieldbus_control_node.Node.Ingest.{fed, step-parts}
use fieldbus_control_node.Demo.{reading_at, demo_frame, corrupt, period_us}

reading_at-IsInRange : (cycle : ℕ) → IsInRange (reading_at cycle)
unfolding reading_at
reading_at-IsInRange cycle = ground arith

-- The demonstration's frame is accepted where its number is the next.
demo_frame-accepted :
    (v : Validator) (cycle : ℕ)
    → Expects v cycle
    → classify v (demo_frame cycle) ≡ ok (reading cycle (reading_at cycle))
unfolding demo_frame
demo_frame-accepted v cycle w =
    expected_accepted v cycle (reading_at cycle) w (reading_at-IsInRange cycle)

-- Its copy with a flipped bit in the checksum is refused for its checksum, in any state.
corrupt-refused :
    (v : Validator) (cycle : ℕ) → classify v (corrupt (demo_frame cycle)) ≡ err bad_crc
unfolding classify sensor_frame demo_frame corrupt
corrupt-refused v cycle =
    let p : Payload = record { seq = u8 cycle; value = reading_at cycle; status = status_ok } in
    let range = reading_at-IsInRange cycle in
    let w : IsPayload p = record {
      seq_fits = omega arith;
      value_fits = omega arith;
      status_fits = omega arith;
    } in
    let id = unpack-pack-from_pgn priority pgn_sensor sa_sensor (omega arith) in
    let codec = encode-checked p w in
    let flipped : bit_xor (encode p).b7 0x01 ≡ (encode p).b7 → ⊥ =
      bit_xor-ne (encode p).b7 0x01 (omega arith) in
    ground (arith, id.0, id.1, codec.0, codec.1, flipped)

-- A validator that counted `accepted` and `rejected` frames and takes number `cycle` next.
pub record Counted (v : Validator) (cycle accepted rejected : ℕ) : Type 0 where
  pub accepts : v.accepted ≡ accepted
  pub rejects : v.rejected ≡ rejected
  pub expects : Expects v cycle

frame-Counted :
    (v : Validator) (cycle accepted rejected : ℕ)
    → accepted + 1 < 2 ^ 32
    → Counted v cycle accepted rejected
    → Counted
        (record_outcome v (ok (reading cycle (reading_at cycle))))
        (cycle + 1)
        (accepted + 1)
        rejected
unfolding record_outcome
frame-Counted v cycle accepted rejected h c = record {
  accepts = omega (arith, c.accepts);
  rejects = c.rejects;
  expects = inr (u8 cycle, refl, omega arith, omega arith);
}

-- The frames of a cycle that is not frozen: the good one and, at the fault, its corrupted copy.
abbrev pub heard : Bool → ℕ → List Frame
heard true cycle = demo_frame cycle ∷ corrupt (demo_frame cycle) ∷ []
heard false cycle = demo_frame cycle ∷ []

abbrev pub faults : Bool → ℕ
faults true = 1
faults false = 0

pub heard-accepted :
    (b : Bool) (v : Validator) (cycle : ℕ)
    → Expects v cycle
    → accepted_in (outcomes v (heard b cycle)) ≡ 1
unfolding validate
heard-accepted true v cycle w =
    let v' = record_outcome v (ok (reading cycle (reading_at cycle))) in
    rw (demo_frame-accepted v cycle w, corrupt-refused v' cycle) refl
heard-accepted false v cycle w = rw (demo_frame-accepted v cycle w) refl

pub heard-Counted :
    (b : Bool) (v : Validator) (cycle accepted rejected : ℕ)
    → accepted + 1 < 2 ^ 32
    → rejected + 1 < 2 ^ 32
    → Counted v cycle accepted rejected
    → Counted (validate_all v (heard b cycle)) (cycle + 1) (accepted + 1) (rejected + faults b)
unfolding record_outcome validate_all
heard-Counted true v cycle accepted rejected h g c =
    let v' = record_outcome v (ok (reading cycle (reading_at cycle))) in
    let k = frame-Counted v cycle accepted rejected h c in
    rw
      (
        validate_all-cons v (demo_frame cycle) _ _ (demo_frame-accepted v cycle c.expects),
        validate_all-cons v' (corrupt (demo_frame cycle)) [] _ (corrupt-refused v' cycle),
      )
      (record { accepts = k.accepts; rejects = omega (arith, k.rejects); expects = k.expects })
heard-Counted false v cycle accepted rejected h g c =
    let k = frame-Counted v cycle accepted rejected h c in
    rw (validate_all-cons v (demo_frame cycle) _ _ (demo_frame-accepted v cycle c.expects))
      (record { accepts = k.accepts; rejects = omega (arith, k.rejects); expects = k.expects })

fed_check :
    (w : Watchdog) (now : ℕ)
    → w.latched ≡ none
    → w.timeout_us ≡ 80000
    → w.last_seen_us ≤ now
    → now + 80000 < 2 ^ 64
    → (check (feed w now) now).0 ≡ record w { last_seen_us = now }
unfolding check feed
fed_check w now l t s h = ground arith

module _ (fl : Float32) where
  -- Before a cycle up to which every cycle's frame arrived: nothing was late.
  pub record IsLive (cycle rejected seen : ℕ) (n : ControlNode fl) : Type 0 where
    pub counted : Counted n.validator cycle cycle rejected
    pub unlatched : n.watchdog.latched ≡ none
    pub budget : n.watchdog.timeout_us ≡ 80000
    pub last_seen : n.watchdog.last_seen_us ≡ seen

  -- A cycle whose frame arrives keeps the node live, and reports no safe state.
  pub step-IsLive :
      (b : Bool) (cycle rejected seen : ℕ) (n : ControlNode fl)
      → cycle < 2001
      → rejected < 2
      → seen ≤ cycle * period_us
      → IsLive cycle rejected seen n
      → let r = step fl n (cycle * period_us) (heard b cycle) in
        IsLive (cycle + 1) (rejected + faults b) (cycle * period_us) r.0 × (r.1.safe_state ≡ none)
  step-IsLive b cycle rejected seen n small few late live =
      let now = cycle * period_us in
      let fs = heard b cycle in
      let p = step-parts fl n now fs in
      let one = heard-accepted b n.validator cycle live.counted.expects in
      let w =
        fed_check n.watchdog now live.unlatched live.budget (omega (arith, live.last_seen))
          (omega arith) in
      let after : (step fl n now fs).0.watchdog ≡ record n.watchdog { last_seen_us = now } =
        p.watchdog ∙ ap (λ k. (check (fed fl n.watchdog now k) now).0) one ∙ w in
      (
        record {
          counted = rw p.validator (
              heard-Counted b n.validator cycle cycle rejected (omega arith) (omega arith)
                live.counted);
          unlatched = rw after live.unlatched;
          budget = rw after live.budget;
          last_seen = rw after refl;
        },
        p.safe_state ∙ rw after live.unlatched,
      )
