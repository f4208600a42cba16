-- ===== src/Host/Hog/Turns.antt =====
-- host/src/hog.rs: what one step of a thread does to the lock and to those who wait.
use fieldbus_control_node.Prelude.{
  ℕ, zero, suc, ◌+◌, ◌≤◌, ◌≡◌, ◌≢◌, ◌⊎◌, inl, inr, refl, subst, arith, Bool, true, false, some,
  List, [], ◌∷◌, map, Option-map-some,
}
use mathlib.Core.Option.{none-ne-some}
use fieldbus_control_node.Host.Hog.{SignalState, idle, active, terminate}
use fieldbus_control_node.Host.Hog.Spin.{
  Spinner, testing, burning, idling, holding, parking, waiting, woken, finished, Setter, outside,
  locking, stored, notified, Shared, turn, stir, notify, turn_at, stir_at,
}

-- One where a spinner has the lock.
abbrev pub held : Spinner → ℕ
held testing = 0
held burning = 0
held idling = 0
held holding = 1
held parking = 1
held waiting = 0
held woken = 0
held finished = 0

abbrev pub holders : List Spinner → ℕ
holders [] = 0
holders (p ∷ ps) = held p + holders ps

abbrev pub setting : Setter → ℕ
setting outside = 0
setting (locking next) = 1
setting stored = 1
setting notified = 1

abbrev pub taken : Bool → ℕ
taken true = 1
taken false = 0

-- A spinner waits, or is about to, only while the state says so; one that waits while the state
-- has changed is about to be notified.
abbrev pub IsSound : SignalState → Setter → Spinner → Type 0
IsSound state setter testing = Unit {0}
IsSound state setter burning = Unit {0}
IsSound state setter idling = Unit {0}
IsSound state setter holding = Unit {0}
IsSound state setter parking = state ≡ idle
IsSound state setter waiting = (state ≡ idle) ⊎ (setter ≡ stored)
IsSound state setter woken = Unit {0}
IsSound state setter finished = Unit {0}

abbrev pub AllSound : SignalState → Setter → List Spinner → Type 0
AllSound state setter [] = Unit {0}
AllSound state setter (p ∷ ps) = IsSound state setter p × AllSound state setter ps

pub record IsGuarded (s : Shared) : Type 0 where
  pub one_holder : setting s.setter + holders s.spinners ≡ taken s.locked
  pub sound : AllSound s.state s.setter s.spinners

turn-keeps :
    (state : SignalState) (setter : Setter) (l : Bool) (p p' : Spinner) (l' : Bool)
    → turn state l p ≡ some (p', l')
    → held p ≤ taken l
    → IsSound state setter p
    → (held p' + taken l ≡ held p + taken l') × IsSound state setter p'
unfolding turn
turn-keeps idle setter l testing p' l' e h s = ground arith
turn-keeps active setter l testing p' l' e h s = ground arith
turn-keeps terminate setter l testing p' l' e h s = ground arith
turn-keeps state setter l burning p' l' e h s = ground arith
turn-keeps state setter true idling p' l' e h s = ground arith
turn-keeps state setter false idling p' l' e h s = ground arith
turn-keeps idle setter l holding p' l' e h s = ground arith
turn-keeps active setter l holding p' l' e h s = ground arith
turn-keeps terminate setter l holding p' l' e h s = ground arith
turn-keeps state setter l parking p' l' e h s = ground arith
turn-keeps state setter l waiting p' l' e h s = ground arith
turn-keeps state setter true woken p' l' e h s = ground arith
turn-keeps state setter false woken p' l' e h s = ground arith
turn-keeps state setter l finished p' l' e h s = ground arith

pub turn_at-keeps :
    (state : SignalState) (setter : Setter) (l : Bool) (i : ℕ) (ps ps' : List Spinner) (l' : Bool)
    → turn_at state l i ps ≡ some (ps', l')
    → holders ps ≤ taken l
    → AllSound state setter ps
    → (holders ps' + taken l ≡ holders ps + taken l') × AllSound state setter ps'
unfolding turn_at
turn_at-keeps state setter l i [] ps' l' e h s = absurd (none-ne-some _ e)
turn_at-keeps state setter l zero (p ∷ ps) ps' l' e h s =
    let (r, step, same) = Option-map-some _ (turn state l p) (ps', l') e in
    let one = turn-keeps state setter l p r.0 r.1 step (omega arith) s.0 in
    subst
      (λ (q : List Spinner × Bool).
        (holders q.0 + taken l ≡ held p + holders ps + taken q.1) × AllSound state setter q.0)
      same (omega (arith, one.0), (one.1, s.1))
turn_at-keeps state setter l (suc i) (p ∷ ps) ps' l' e h s =
    let (r, step, same) = Option-map-some _ (turn_at state l i ps) (ps', l') e in
    let rest = turn_at-keeps state setter l i ps r.0 r.1 step (omega arith) s.1 in
    subst
      (λ (q : List Spinner × Bool).
        (holders q.0 + taken l ≡ held p + holders ps + taken q.1) × AllSound state setter q.0)
      same (omega (arith, rest.0), (s.0, rest.1))

stir-keeps :
    (state : SignalState) (setter : Setter) (p p' : Spinner)
    → stir p ≡ some p'
    → (held p' ≡ held p) × IsSound state setter p'
unfolding stir
stir-keeps state setter testing p' e = ground arith
stir-keeps state setter burning p' e = ground arith
stir-keeps state setter idling p' e = ground arith
stir-keeps state setter holding p' e = ground arith
stir-keeps state setter parking p' e = ground arith
stir-keeps state setter waiting p' e = ground arith
stir-keeps state setter woken p' e = ground arith
stir-keeps state setter finished p' e = ground arith

pub stir_at-keeps :
    (state : SignalState) (setter : Setter) (i : ℕ) (ps ps' : List Spinner)
    → stir_at i ps ≡ some ps'
    → AllSound state setter ps
    → (holders ps' ≡ holders ps) × AllSound state setter ps'
unfolding stir_at
stir_at-keeps state setter i [] ps' e s = absurd (none-ne-some _ e)
stir_at-keeps state setter zero (p ∷ ps) ps' e s =
    let (q, step, same) = Option-map-some _ (stir p) ps' e in
    let one = stir-keeps state setter p q step in
    subst (λ qs. (holders qs ≡ held p + holders ps) × AllSound state setter qs) same
      (omega (arith, one.0), (one.1, s.1))
stir_at-keeps state setter (suc i) (p ∷ ps) ps' e s =
    let (r, step, same) = Option-map-some _ (stir_at i ps) ps' e in
    let rest = stir_at-keeps state setter i ps r step s.1 in
    subst (λ qs. (holders qs ≡ held p + holders ps) × AllSound state setter qs) same
      (omega (arith, rest.0), (s.0, rest.1))

notify-keeps :
    (state : SignalState) (p : Spinner)
    → IsSound state stored p
    → (held (notify p) ≡ held p) × IsSound state notified (notify p)
unfolding notify
notify-keeps state testing s = (refl, tt)
notify-keeps state burning s = (refl, tt)
notify-keeps state idling s = (refl, tt)
notify-keeps state holding s = (refl, tt)
notify-keeps state parking s = (refl, s)
notify-keeps state waiting s = (refl, tt)
notify-keeps state woken s = (refl, tt)
notify-keeps state finished s = (refl, tt)

pub notify_all-keeps :
    (state : SignalState) (ps : List Spinner)
    → AllSound state stored ps
    → (holders (map notify ps) ≡ holders ps) × AllSound state notified (map notify ps)
notify_all-keeps state [] s = (refl, tt)
notify_all-keeps state (p ∷ ps) s =
    let one = notify-keeps state p s.0 in
    let rest = notify_all-keeps state ps s.1 in (omega (arith, one.0, rest.0), (one.1, rest.1))

-- With no spinner in the lock, the store leaves all sound.
pub store-keeps :
    (state next : SignalState) (setter : Setter) (ps : List Spinner)
    → holders ps ≡ 0
    → AllSound state setter ps
    → AllSound next stored ps
store-keeps state next setter [] h s = tt
store-keeps state next setter (p ∷ ps) h s =
    (store_one p (omega arith), store-keeps state next setter ps (omega arith) s.1)
  where
    store_one : (p : Spinner) → held p ≡ 0 → IsSound next stored p
    store_one testing e = tt
    store_one burning e = tt
    store_one idling e = tt
    store_one holding e = tt
    store_one parking e = absurd (omega arith)
    store_one waiting e = inr refl
    store_one woken e = tt
    store_one finished e = tt

-- Where the setter is does not matter, but after the store.
pub moved-keeps :
    (state : SignalState) (setter setter' : Setter) (ps : List Spinner)
    → setter ≢ stored
    → AllSound state setter ps
    → AllSound state setter' ps
moved-keeps state setter setter' [] h s = tt
moved-keeps state setter setter' (p ∷ ps) h s =
    (move_one p s.0, moved-keeps state setter setter' ps h s.1)
  where
    move_one : (p : Spinner) → IsSound state setter p → IsSound state setter' p
    move_one testing e = tt
    move_one burning e = tt
    move_one idling e = tt
    move_one holding e = tt
    move_one parking e = e
    move_one waiting (inl e) = inl e
    move_one waiting (inr e) = absurd (h e)
    move_one woken e = tt
    move_one finished e = tt
