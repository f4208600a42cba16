-- ===== src/Host/Hog/Wakes.antt =====
-- host/src/hog.rs: the lock and the condition variable lose no wake-up.
use fieldbus_control_node.Prelude.{
  ℕ, zero, suc, ◌+◌, ◌≤◌, ◌≡◌, inl, inr, refl, subst, arith, Bool, true, false, some, List, [], ◌∷◌,
  Option-cases, Option-map-some,
}
use mathlib.Core.Option.{none-ne-some, some-injective}
use fieldbus_control_node.Host.Hog.{SignalState, idle}
use fieldbus_control_node.Host.Hog.Spin.{
  Setter, outside, locking, stored, notified, Shared, launched, initial, turn_at, stir_at, proceed,
  call, ThreadEvent, sets, proceeds, turns, stirs, happen, play,
}
use fieldbus_control_node.Host.Hog.Turns.{
  holders, setting, taken, AllSound, IsGuarded, turn_at-keeps, stir_at-keeps, notify_all-keeps,
  store-keeps, moved-keeps,
}

call-IsGuarded :
    (s s' : Shared) (next : SignalState) (l : Bool) (setter : Setter)
    → s.locked ≡ l
    → s.setter ≡ setter
    → call s next l setter ≡ some s'
    → IsGuarded s
    → IsGuarded s'
unfolding call
call-IsGuarded s s' next true setter el es e g = absurd (none-ne-some _ e)
call-IsGuarded s s' next false outside el es e g = subst IsGuarded (some-injective _ _ e) (record {
  one_holder = ground (arith, el, es, g.one_holder);
  sound =
      moved-keeps s.state s.setter (locking next) s.spinners (λ w. ground (arith, w, es)) g.sound;
})
call-IsGuarded s s' next false (locking n) el es e g = absurd (none-ne-some _ e)
call-IsGuarded s s' next false stored el es e g = absurd (none-ne-some _ e)
call-IsGuarded s s' next false notified el es e g = absurd (none-ne-some _ e)

-- One thread at most is inside the lock.
taken_le : (b : Bool) → taken b ≤ 1
taken_le true = omega arith
taken_le false = omega arith

proceed-IsGuarded :
    (s s' : Shared) (setter : Setter)
    → s.setter ≡ setter
    → proceed s setter ≡ some s'
    → IsGuarded s
    → IsGuarded s'
unfolding proceed
proceed-IsGuarded s s' outside es e g = absurd (none-ne-some _ e)
proceed-IsGuarded s s' (locking next) es e g =
    let le = taken_le s.locked in
    let one : 1 + holders s.spinners ≡ taken s.locked =
      subst (λ c. setting c + holders s.spinners ≡ taken s.locked) es g.one_holder in
    subst IsGuarded (some-injective _ _ e) (record {
      one_holder = one;
      sound = store-keeps s.state next s.setter s.spinners (omega arith) g.sound;
    })
proceed-IsGuarded s s' stored es e g =
    let all =
      notify_all-keeps s.state s.spinners (subst (λ c. AllSound s.state c s.spinners) es g.sound) in
    let one : 1 + holders s.spinners ≡ taken s.locked =
      subst (λ c. setting c + holders s.spinners ≡ taken s.locked) es g.one_holder in
    subst IsGuarded (some-injective _ _ e)
      (record { one_holder = omega (arith, one, all.0); sound = all.1 })
proceed-IsGuarded s s' notified es e g =
    let le = taken_le s.locked in
    let one : 1 + holders s.spinners ≡ taken s.locked =
      subst (λ c. setting c + holders s.spinners ≡ taken s.locked) es g.one_holder in
    subst IsGuarded (some-injective _ _ e) (record {
      one_holder = omega arith;
      sound = moved-keeps s.state s.setter outside s.spinners (λ w. ground (arith, w, es)) g.sound;
    })

happen-IsGuarded :
    (s s' : Shared) (e : ThreadEvent) → happen s e ≡ some s' → IsGuarded s → IsGuarded s'
unfolding happen
happen-IsGuarded s s' (sets next) e g = call-IsGuarded s s' next s.locked s.setter refl refl e g
happen-IsGuarded s s' proceeds e g = proceed-IsGuarded s s' s.setter refl e g
happen-IsGuarded s s' (turns i) e g =
    let (r, step, same) = Option-map-some _ (turn_at s.state s.locked i s.spinners) s' e in
    let t =
      turn_at-keeps s.state s.setter s.locked i s.spinners r.0 r.1 step
        (omega (arith, g.one_holder)) g.sound in
    subst IsGuarded same (record { one_holder = omega (arith, g.one_holder, t.0); sound = t.1 })
happen-IsGuarded s s' (stirs i) e g =
    let (r, step, same) = Option-map-some _ (stir_at i s.spinners) s' e in
    let t = stir_at-keeps s.state s.setter i s.spinners r step g.sound in
    subst IsGuarded same (record { one_holder = omega (arith, g.one_holder, t.0); sound = t.1 })

pub initial-IsGuarded : (threads : ℕ) → IsGuarded (initial threads)
unfolding initial launched
initial-IsGuarded threads = record { one_holder = none_held threads; sound = all_testing threads }
  where
    none_held : (n : ℕ) → 0 + holders (launched n) ≡ 0
    none_held zero = refl
    none_held (suc n) = omega (arith, none_held n)

    all_testing : (n : ℕ) → AllSound idle outside (launched n)
    all_testing zero = tt
    all_testing (suc n) = (tt, all_testing n)

pub play-cons :
    (s s' : Shared) (e : ThreadEvent) (es : List ThreadEvent)
    → play s (e ∷ es) ≡ some s'
    → (t : Shared) × (happen s e ≡ some t) × (play t es ≡ some s')
unfolding play
play-cons s s' e es h = elim (Option-cases (happen s e)) [
  | inl n ↦ absurd (none-ne-some s' (rw (play, n) at h))
  | inr (t, step) ↦ (t, step, rw (play, step) at h)
]

pub play-IsGuarded :
    (es : List ThreadEvent) (s s' : Shared) → play s es ≡ some s' → IsGuarded s → IsGuarded s'
unfolding play
play-IsGuarded [] s s' e g = subst IsGuarded (some-injective _ _ e) g
play-IsGuarded (ev ∷ es) s s' e g =
    let (t, step, rest) = play-cons s s' ev es e in
    play-IsGuarded es t s' rest (happen-IsGuarded s t ev step g)

-- No wake-up of a spinner is lost, in any interleaving of the spinners, of any calls that set the
-- state and of wake-ups that no one signalled: at most one thread is in the lock, and a spinner
-- that waits, or has decided to, does so while the state is IDLE, unless the state has been stored
-- and the spinners that wait are notified next.
pub play-AllSound :
    (threads : ℕ) (es : List ThreadEvent) (s : Shared)
    → play (initial threads) es ≡ some s
    → (setting s.setter + holders s.spinners ≤ 1) × AllSound s.state s.setter s.spinners
play-AllSound threads es s h =
    let g = play-IsGuarded es (initial threads) s h (initial-IsGuarded threads) in
    (omega (arith, g.one_holder, taken_le s.locked), g.sound)
