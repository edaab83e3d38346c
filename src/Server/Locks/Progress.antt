-- ===== src/Server/Locks/Progress.antt =====
-- Tasks that take the mutexes of server/inner.rs in one order, and where they get to.

use frclib_nettables.Base.{
  ℕ, zero, suc, ◌+◌, ◌≤◌, ◌<◌, ◌≡◌, ◌≢◌, refl, sym, subst, ◌⊎◌, inl, inr, true, false, not, some,
  List, [], ◌∷◌, length, any, retain, All, In, In-of_any, ◌==◌, arith, Bool-cases, Option-cases,
}
use frclib_nettables.Server.Locks.{
  Mutex, mutexes, Action, acquire, release, returns, Task, holds, is_taken, advance, advance_by,
  run_at, Reach, here, later,
}

-- Every mutex that is taken stands behind all that are held, and none is held at the end.
abbrev pub IsOrderly : List Mutex → List Action → Type 0
IsOrderly held [] = held ≡ []
IsOrderly held (acquire m ∷ rest) =
    (m < mutexes) × All (λ k. k < m) held × IsOrderly (m ∷ held) rest
IsOrderly held (release m ∷ rest) = IsOrderly (retain (λ k. not (k == m)) held) rest
IsOrderly held (returns ∷ rest) = IsOrderly [] rest

abbrev pub AreOrderly : List Task → Type 0
AreOrderly ts = All (λ t. IsOrderly t.held t.rest) ts

abbrev pub AreDone : List Task → Type 0
AreDone ts = All (λ t. (t.held ≡ []) × (t.rest ≡ [])) ts

-- The actions that are left.
pub work : List Task → ℕ
work [] = 0
work (t ∷ ts) = length t.rest + work ts

abbrev CanMove : List Task → Type 0
CanMove ts = (t : Task) × (u : Task) × In t ts × (advance ts t ≡ some u)

All-In : (P : Task → Type 0) (ts : List Task) (t : Task) → All P ts → In t ts → P t
All-In P [] t h m = absurd m
All-In P (x ∷ xs) t h (inl e) = subst P (sym e) h.0
All-In P (x ∷ xs) t h (inr m) = All-In P xs t h.1 m

held_below :
    (m m' : ℕ) (held : List ℕ) → All (λ k. k < m') held → any (λ k. k == m) held ≡ true → m < m'
held_below m m' [] below h = cc
held_below m m' (k ∷ held) below h = ground (arith, held_below m m' held below.1)

acquire-moves :
    (m : ℕ) (held : List ℕ) (rest : List Action) (ts : List Task)
    → In (record { held = held; rest = acquire m ∷ rest }) ts
    → is_taken m ts ≡ false
    → CanMove ts
unfolding advance_by
acquire-moves m held rest ts t free = (_, record { held = m ∷ held; rest = rest }, t, rw free refl)

-- A task that holds a mutex moves, or waits for a later one.
holder-moves :
    (m : ℕ) (held : List ℕ) (rest : List Action) (ts : List Task)
    → ((m' : ℕ) → m < m' → m' < mutexes → is_taken m' ts ≡ true → CanMove ts)
    → In (record { held = held; rest = rest }) ts
    → IsOrderly held rest
    → any (λ k. k == m) held ≡ true
    → CanMove ts
unfolding advance_by
holder-moves m held [] ts other t orderly h = absurd (cc)
holder-moves m held (acquire m' ∷ rest) ts other t orderly h = elim (Bool-cases (is_taken m' ts)) [
  | inl taken ↦ other m' (held_below m m' held orderly.1 h) orderly.0 taken
  | inr free ↦ acquire-moves m' held rest ts t free
]
holder-moves m held (release m' ∷ rest) ts other t orderly h = (_, _, t, refl)
holder-moves m held (returns ∷ rest) ts other t orderly h = (_, _, t, refl)

taken-moves :
    (b m : ℕ) (ts : List Task)
    → mutexes ≤ m + b
    → m < mutexes
    → AreOrderly ts
    → is_taken m ts ≡ true
    → CanMove ts
unfolding is_taken holds
taken-moves zero m ts enough below orderly taken = absurd (omega arith)
taken-moves (suc b) m ts enough below orderly taken =
    let (t, t_in, h) = In-of_any (holds m) ts taken in
    holder-moves m t.held t.rest ts
      (λ m' later below' taken'. taken-moves b m' ts (omega arith) below' orderly taken') t_in
      (All-In (λ t. IsOrderly t.held t.rest) ts t orderly t_in) h

-- An orderly task that is not done moves, or another one does.
unfinished-moves :
    (held : List ℕ) (rest : List Action) (ts : List Task)
    → AreOrderly ts
    → In (record { held = held; rest = rest }) ts
    → rest ≢ []
    → IsOrderly held rest
    → CanMove ts
unfolding advance_by
unfinished-moves held [] ts all t more orderly = absurd (more refl)
unfinished-moves held (acquire m ∷ rest) ts all t more orderly = elim (Bool-cases (is_taken m ts)) [
  | inl taken ↦ taken-moves mutexes m ts (omega arith) orderly.0 all taken
  | inr free ↦ acquire-moves m held rest ts t free
]
unfinished-moves held (release m ∷ rest) ts all t more orderly = (_, _, t, refl)
unfinished-moves held (returns ∷ rest) ts all t more orderly = (_, _, t, refl)

Unfinished : List Task → Type 0
Unfinished ts = (t : Task) × In t ts × (t.rest ≢ []) × IsOrderly t.held t.rest

done_or_Unfinished_step :
    (held : List ℕ) (rest : List Action) (ts : List Task)
    → IsOrderly held rest
    → AreDone ts ⊎ Unfinished ts
    → AreDone (record { held = held; rest = rest } ∷ ts)
      ⊎ Unfinished (record { held = held; rest = rest } ∷ ts)
unfolding Unfinished
done_or_Unfinished_step held [] ts orderly (inl ended) = inl ((orderly, refl), ended)
done_or_Unfinished_step held [] ts orderly (inr (u, u_in, more, o)) = inr (u, inr u_in, more, o)
done_or_Unfinished_step held (a ∷ rest) ts orderly ends = inr (_, inl refl, (λ e. cc), orderly)

-- The tasks are done, or one of them is not.
done_or_Unfinished : (ts : List Task) → AreOrderly ts → AreDone ts ⊎ Unfinished ts
done_or_Unfinished [] orderly = inl tt
done_or_Unfinished (t ∷ ts) orderly =
    done_or_Unfinished_step t.held t.rest ts orderly.0 (done_or_Unfinished ts orderly.1)

run_at-of_In :
    (all ts : List Task) (t u : Task)
    → In t ts
    → advance all t ≡ some u
    → (i : ℕ) × (us : List Task) × (run_at all i ts ≡ some us)
unfolding run_at
run_at-of_In all [] t u m e = absurd m
run_at-of_In all (x ∷ ts) t u (inl same) e = (zero, u ∷ ts, rw (← same, e) refl)
run_at-of_In all (x ∷ ts) t u (inr m) e =
    let (i, us, f) = run_at-of_In all ts t u m e in (suc i, x ∷ us, rw f refl)

advance-IsOrderly :
    (all : List Task) (held : List ℕ) (rest : List Action) (u : Task)
    → IsOrderly held rest
    → advance_by all held rest ≡ some u
    → IsOrderly u.held u.rest × (length rest ≡ suc (length u.rest))
unfolding advance_by
advance-IsOrderly all held [] u orderly e = absurd (cc)
advance-IsOrderly all held (acquire m ∷ rest) u orderly e = ground arith
advance-IsOrderly all held (release m ∷ rest) u orderly e = ground arith
advance-IsOrderly all held (returns ∷ rest) u orderly e = ground arith

run_at-orderly :
    (all : List Task) (i : ℕ) (ts us : List Task)
    → AreOrderly ts
    → run_at all i ts ≡ some us
    → AreOrderly us × (work ts ≡ suc (work us))
unfolding run_at work
run_at-orderly all i [] us orderly e = absurd (cc)
run_at-orderly all zero (t ∷ ts) us orderly e = elim (Option-cases (advance all t)) [
  | inl f ↦ absurd (cc)
  | inr (u, f) ↦
      let (o, l) = advance-IsOrderly all t.held t.rest u orderly.0 f in
      subst (λ us. AreOrderly us × (work (t ∷ ts) ≡ suc (work us))) {x = u ∷ ts} (cc)
        ((o, orderly.1), omega (arith, l))
]
run_at-orderly all (suc i) (t ∷ ts) us orderly e = elim (Option-cases (run_at all i ts)) [
  | inl f ↦ absurd (cc)
  | inr (vs, f) ↦
      let (o, l) = run_at-orderly all i ts vs orderly.1 f in
      subst (λ us. AreOrderly us × (work (t ∷ ts) ≡ suc (work us))) {x = t ∷ vs} (cc)
        ((orderly.0, o), omega (arith, l))
]

pub Reach-orderly : (ts us : List Task) → AreOrderly ts → Reach ts us → AreOrderly us
Reach-orderly ts us orderly here = orderly
Reach-orderly ts vs orderly (later {us} i r e) =
    (run_at-orderly us i us vs (Reach-orderly ts us orderly r) e).0

Reach-trans : (ts us vs : List Task) → Reach ts us → Reach us vs → Reach ts vs
Reach-trans ts us vs r here = r
Reach-trans ts us vs r (later {us = ws} i q e) = later i (Reach-trans ts us ws r q) e

-- Orderly tasks can be run to the end.
pub finishes :
    (n : ℕ) (ts : List Task)
    → work ts ≤ n
    → AreOrderly ts
    → (us : List Task) × Reach ts us × AreDone us
unfolding Unfinished
finishes zero ts enough orderly = elim (done_or_Unfinished ts orderly) [
  | inl ended ↦ (ts, here, ended)
  | inr (t, t_in, more, o) ↦
      let (x, u, x_in, e) = unfinished-moves t.held t.rest ts orderly t_in more o in
      let (i, us, f) = run_at-of_In ts ts x u x_in e in
      absurd (omega (arith, (run_at-orderly ts i ts us orderly f).1))
]
finishes (suc n) ts enough orderly = elim (done_or_Unfinished ts orderly) [
  | inl ended ↦ (ts, here, ended)
  | inr (t, t_in, more, o) ↦
      let (x, u, x_in, e) = unfinished-moves t.held t.rest ts orderly t_in more o in
      let (i, us, f) = run_at-of_In ts ts x u x_in e in
      let (o', l) = run_at-orderly ts i ts us orderly f in
      let (vs, r, ended) = finishes n us (omega (arith, l)) o' in
      (vs, Reach-trans ts us vs (later i here f) r, ended)
]
