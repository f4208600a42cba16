-- ===== src/Host/Hog/Stops.antt =====
-- host/src/hog.rs: the end of the spinners, after `stop` has set the state to TERMINATE.
use fieldbus_control_node.Prelude.{
  ℕ, zero, suc, ◌+◌, ◌*◌, ◌≤◌, ◌<◌, ◌≡◌, refl, sym, subst, arith, Bool, true, false, Option, none,
  some, List, [], ◌∷◌, length, Option-map-some,
}
use mathlib.Core.Option
use mathlib.Core.Option.{none-ne-some, some-injective}
use fieldbus_control_node.Host.Hog.{terminate}
use fieldbus_control_node.Host.Hog.Spin.{
  Spinner, testing, burning, idling, holding, parking, waiting, woken, finished, outside, Shared,
  initial, turn, stir, turn_at, stir_at, ThreadEvent, sets, proceeds, turns, stirs, happen, play,
}
use fieldbus_control_node.Host.Hog.Turns.{
  held, holders, setting, taken, IsSound, AllSound, IsGuarded,
}
use fieldbus_control_node.Host.Hog.Wakes.{play-cons, play-IsGuarded, initial-IsGuarded}

-- How many steps a spinner has left at most, once the state is TERMINATE.
abbrev rank : Spinner → ℕ
rank testing = 1
rank burning = 2
rank idling = 3
rank holding = 2
rank parking = 5
rank waiting = 4
rank woken = 3
rank finished = 0

abbrev ranks : List Spinner → ℕ
ranks [] = 0
ranks (p ∷ ps) = rank p + ranks ps

turn-rank :
    (l : Bool) (p p' : Spinner) (l' : Bool) → turn terminate l p ≡ some (p', l') → rank p' < rank p
unfolding turn
turn-rank l testing p' l' e = ground arith
turn-rank l burning p' l' e = ground arith
turn-rank true idling p' l' e = ground arith
turn-rank false idling p' l' e = ground arith
turn-rank l holding p' l' e = ground arith
turn-rank l parking p' l' e = ground arith
turn-rank l waiting p' l' e = ground arith
turn-rank true woken p' l' e = ground arith
turn-rank false woken p' l' e = ground arith
turn-rank l finished p' l' e = ground arith

turn_at-ranks :
    (l : Bool) (i : ℕ) (ps ps' : List Spinner) (l' : Bool)
    → turn_at terminate l i ps ≡ some (ps', l')
    → ranks ps' < ranks ps
unfolding turn_at
turn_at-ranks l i [] ps' l' e = absurd (none-ne-some _ e)
turn_at-ranks l zero (p ∷ ps) ps' l' e =
    let (r, step, same) = Option-map-some _ (turn terminate l p) (ps', l') e in
    subst (λ (q : List Spinner × Bool). ranks q.0 < rank p + ranks ps) same
      (omega (arith, turn-rank l p r.0 r.1 step))
turn_at-ranks l (suc i) (p ∷ ps) ps' l' e =
    let (r, step, same) = Option-map-some _ (turn_at terminate l i ps) (ps', l') e in
    subst (λ (q : List Spinner × Bool). ranks q.0 < rank p + ranks ps) same
      (omega (arith, turn_at-ranks l i ps r.0 r.1 step))

stir-rank : (p p' : Spinner) → stir p ≡ some p' → rank p' < rank p
unfolding stir
stir-rank testing p' e = ground arith
stir-rank burning p' e = ground arith
stir-rank idling p' e = ground arith
stir-rank holding p' e = ground arith
stir-rank parking p' e = ground arith
stir-rank waiting p' e = ground arith
stir-rank woken p' e = ground arith
stir-rank finished p' e = ground arith

stir_at-ranks : (i : ℕ) (ps ps' : List Spinner) → stir_at i ps ≡ some ps' → ranks ps' < ranks ps
unfolding stir_at
stir_at-ranks i [] ps' e = absurd (none-ne-some _ e)
stir_at-ranks zero (p ∷ ps) ps' e =
    let (q, step, same) = Option-map-some _ (stir p) ps' e in
    subst (λ qs. ranks qs < rank p + ranks ps) same (omega (arith, stir-rank p q step))
stir_at-ranks (suc i) (p ∷ ps) ps' e =
    let (r, step, same) = Option-map-some _ (stir_at i ps) ps' e in
    subst (λ qs. ranks qs < rank p + ranks ps) same (omega (arith, stir_at-ranks i ps r step))

ranks_le : (ps : List Spinner) → ranks ps ≤ 5 * length ps
ranks_le [] = omega arith
ranks_le (p ∷ ps) = omega (arith, rank_le p, ranks_le ps)
  where
    rank_le : (p : Spinner) → rank p ≤ 5
    rank_le p = ground arith

-- Only the spinners step: the control thread waits in `join`.
abbrev pub IsJoining : List ThreadEvent → Type 0
IsJoining [] = Unit {0}
IsJoining (sets next ∷ es) = ⊥
IsJoining (proceeds ∷ es) = ⊥
IsJoining (turns i ∷ es) = IsJoining es
IsJoining (stirs i ∷ es) = IsJoining es

-- The control thread has set TERMINATE, and is done with it.
pub record IsStopping (s : Shared) : Type 0 where
  pub state : s.state ≡ terminate
  pub setter : s.setter ≡ outside

joining-ranks :
    (es : List ThreadEvent) (s s' : Shared)
    → IsJoining es
    → IsStopping s
    → play s es ≡ some s'
    → (length es + ranks s'.spinners ≤ ranks s.spinners) × IsStopping s'
unfolding play happen
joining-ranks [] s s' j t e =
    subst (λ u. (0 + ranks u.spinners ≤ ranks s.spinners) × IsStopping u) (some-injective _ _ e)
      (omega arith, t)
joining-ranks (sets next ∷ es) s s' j t e = absurd j
joining-ranks (proceeds ∷ es) s s' j t e = absurd j
joining-ranks (turns i ∷ es) s s' j t e =
    let (u, step, rest) = play-cons s s' (turns i) es e in
    let (r, moved, same) = Option-map-some _ (turn_at s.state s.locked i s.spinners) u step in
    let less =
      turn_at-ranks s.locked i s.spinners r.0 r.1
        (subst (λ c. turn_at c s.locked i s.spinners ≡ some r) t.state moved) in
    let u-stops : (ranks u.spinners < ranks s.spinners) × IsStopping u =
      subst (λ v. (ranks v.spinners < ranks s.spinners) × IsStopping v) same
        (less, record { state = t.state; setter = t.setter }) in
    let later = joining-ranks es u s' j u-stops.1 rest in
    (omega (arith, u-stops.0, later.0), later.1)
joining-ranks (stirs i ∷ es) s s' j t e =
    let (u, step, rest) = play-cons s s' (stirs i) es e in
    let (r, moved, same) = Option-map-some _ (stir_at i s.spinners) u step in
    let less = stir_at-ranks i s.spinners r moved in
    let u-stops : (ranks u.spinners < ranks s.spinners) × IsStopping u =
      subst (λ v. (ranks v.spinners < ranks s.spinners) × IsStopping v) same
        (less, record { state = t.state; setter = t.setter }) in
    let later = joining-ranks es u s' j u-stops.1 rest in
    (omega (arith, u-stops.0, later.0), later.1)

abbrev pub AllFinished : List Spinner → Type 0
AllFinished [] = Unit {0}
AllFinished (p ∷ ps) = (p ≡ finished) × AllFinished ps

-- No spinner can step.
abbrev pub IsStuck : Shared → Type 0
IsStuck s = (i : ℕ) → happen s (turns i) ≡ none

Option-map-none : {A B : Type 0} (f : A → B) (o : Option A) → Option.map f o ≡ none → o ≡ none
Option-map-none f none e = refl
Option-map-none f (some a) e = absurd (none-ne-some _ (sym e))

abbrev AllBlocked : Bool → List Spinner → Type 0
AllBlocked l [] = Unit {0}
AllBlocked l (p ∷ ps) = (turn terminate l p ≡ none) × AllBlocked l ps

stuck-AllBlocked :
    (l : Bool) (ps : List Spinner) → ((i : ℕ) → turn_at terminate l i ps ≡ none) → AllBlocked l ps
unfolding turn_at
stuck-AllBlocked l [] h = tt
stuck-AllBlocked l (p ∷ ps) h = (
  Option-map-none _ (turn terminate l p) (h 0),
  stuck-AllBlocked l ps (λ i. Option-map-none _ (turn_at terminate l i ps) (h (suc i))),
)

-- Whoever has the lock can step.
blocked-held : (l : Bool) (p : Spinner) → turn terminate l p ≡ none → held p ≡ 0
unfolding turn
blocked-held l testing e = refl
blocked-held l burning e = refl
blocked-held l idling e = refl
blocked-held l holding e = absurd (none-ne-some _ (sym e))
blocked-held l parking e = absurd (none-ne-some _ (sym e))
blocked-held l waiting e = refl
blocked-held l woken e = refl
blocked-held l finished e = refl

AllBlocked-holders : (l : Bool) (ps : List Spinner) → AllBlocked l ps → holders ps ≡ 0
AllBlocked-holders l [] h = refl
AllBlocked-holders l (p ∷ ps) h = omega (arith, blocked-held l p h.0, AllBlocked-holders l ps h.1)

-- With the lock free, whoever cannot step has ended.
blocked-finished :
    (p : Spinner) → turn terminate false p ≡ none → IsSound terminate outside p → p ≡ finished
unfolding turn
blocked-finished testing e s = absurd (none-ne-some _ (sym e))
blocked-finished burning e s = absurd (none-ne-some _ (sym e))
blocked-finished idling e s = absurd (none-ne-some _ (sym e))
blocked-finished holding e s = absurd (none-ne-some _ (sym e))
blocked-finished parking e s = absurd (none-ne-some _ (sym e))
blocked-finished waiting e s = ground arith
blocked-finished woken e s = absurd (none-ne-some _ (sym e))
blocked-finished finished e s = refl

AllBlocked-AllFinished :
    (ps : List Spinner) → AllBlocked false ps → AllSound terminate outside ps → AllFinished ps
AllBlocked-AllFinished [] h s = tt
AllBlocked-AllFinished (p ∷ ps) h s =
    (blocked-finished p h.0 s.0, AllBlocked-AllFinished ps h.1 s.1)

stuck-AllFinished : (s : Shared) → IsGuarded s → IsStopping s → IsStuck s → AllFinished s.spinners
unfolding happen
stuck-AllFinished s g t h =
    let at : (i : ℕ) → turn_at terminate s.locked i s.spinners ≡ none = λ i.
      subst (λ c. turn_at c s.locked i s.spinners ≡ none) t.state
        (Option-map-none _ (turn_at s.state s.locked i s.spinners) (h i)) in
    let blocked = stuck-AllBlocked s.locked s.spinners at in
    let free = AllBlocked-holders s.locked s.spinners blocked in
    let one : 0 + holders s.spinners ≡ taken s.locked =
      subst (λ c. setting c + holders s.spinners ≡ taken s.locked) t.setter g.one_holder in
    let open_lock : s.locked ≡ false = not_taken s.locked (omega arith) in
    AllBlocked-AllFinished s.spinners (subst (λ l. AllBlocked l s.spinners) open_lock blocked) (
      subst (λ c. AllSound c outside s.spinners) t.state
        (subst (λ c. AllSound s.state c s.spinners) t.setter g.sound))
  where
    not_taken : (l : Bool) → taken l ≡ 0 → l ≡ false
    not_taken true e = absurd (omega arith)
    not_taken false e = refl

-- After any history, once TERMINATE is set and `set` has returned, the spinners end: however they
-- interleave, they take together at most five times as many steps as there are spinners, and when
-- none of them can step, all have left their loops, so that every `join` of `stop` returns.
pub play-AllFinished :
    (threads : ℕ) (history rest : List ThreadEvent) (s s' : Shared)
    → play (initial threads) history ≡ some s
    → IsStopping s
    → IsJoining rest
    → play s rest ≡ some s'
    → (length rest ≤ 5 * length s.spinners) × (IsStuck s' → AllFinished s'.spinners)
play-AllFinished threads history rest s s' h t j e =
    let g = play-IsGuarded history (initial threads) s h (initial-IsGuarded threads) in
    let r = joining-ranks rest s s' j t e in
    (
      omega (arith, r.0, ranks_le s.spinners),
      stuck-AllFinished s' (play-IsGuarded rest s s' e g) r.1,
    )
