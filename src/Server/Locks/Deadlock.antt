-- ===== src/Server/Locks/Deadlock.antt =====
-- Tasks of server/inner.rs and server/runner.rs that wait for each other for ever.

use frclib_nettables.Base.{
  ℕ, zero, suc, ◌≡◌, ◌≢◌, refl, subst, inl, inr, Bool, true, false, not, ◌&&◌, ◌||◌, some, List, [],
  ◌∷◌, any, retain, In, any-of_In, ◌==◌, arith, Option-cases,
}
use frclib_nettables.Server.Locks.{
  Mutex, Action, acquire, release, returns, Task, holds, is_taken, advance, advance_by, run_at,
  Reach, here, later, task_of, clients, sub_values, subscriptions, topics, topic_map,
}
use frclib_nettables.Server.Locks.Operations.{
  Operation, subscribe, receive_value, send_out, locks_of, publish_again,
}

-- Whether a task takes `b` before it gives `a` back.
needs : Mutex → Mutex → List Action → Bool
needs a b [] = false
needs a b (acquire m ∷ rest) = m == b || needs a b rest
needs a b (release m ∷ rest) = not (m == a) && needs a b rest
needs a b (returns ∷ rest) = false

abbrev IsCaught : Mutex → Mutex → List Mutex → List Action → Type 0
IsCaught a b held rest = (any (λ k. k == a) held ≡ true) × (needs a b rest ≡ true)

abbrev SomeCaught : Mutex → Mutex → List Task → Type 0
SomeCaught a b ts = (t : Task) × In t ts × IsCaught a b t.held t.rest

retain-holds :
    (a m : ℕ) (held : List ℕ)
    → (m == a) ≡ false
    → any (λ k. k == a) held ≡ true
    → any (λ k. k == a) (retain (λ k. not (k == m)) held) ≡ true
retain-holds a m [] other h = h
retain-holds a m (k ∷ held) other h = ground (arith, retain-holds a m held other)

advance-IsCaught :
    (a b : ℕ) (all : List Task) (held : List ℕ) (rest : List Action) (u : Task)
    → is_taken b all ≡ true
    → IsCaught a b held rest
    → advance_by all held rest ≡ some u
    → IsCaught a b u.held u.rest
unfolding advance_by needs
advance-IsCaught a b all held [] u taken caught e = absurd (cc)
advance-IsCaught a b all held (acquire m ∷ rest) u taken caught e = ground arith
advance-IsCaught a b all held (release m ∷ rest) u taken caught e =
    ground (arith, retain-holds a m held)
advance-IsCaught a b all held (returns ∷ rest) u taken caught e = absurd (cc)

run_at-caught :
    (a b : ℕ) (all : List Task) (i : ℕ) (ts us : List Task)
    → is_taken b all ≡ true
    → SomeCaught a b ts
    → run_at all i ts ≡ some us
    → SomeCaught a b us
unfolding run_at
run_at-caught a b all i [] us taken caught e = absurd (cc)
run_at-caught a b all zero (x ∷ ts) us taken (t, m, c) e = elim (Option-cases (advance all x)) [
  | inl f ↦ absurd (cc)
  | inr (u, f) ↦ subst (SomeCaught a b) {x = u ∷ ts} (cc) (elim m [
    | inl same ↦ (
      u,
      inl refl,
      advance-IsCaught a b all x.held x.rest u taken
          (subst (λ t. IsCaught a b t.held t.rest) same c) f,
    )
    | inr behind ↦ (t, inr behind, c)
  ])
]
run_at-caught a b all (suc i) (x ∷ ts) us taken (t, m, c) e =
    elim (Option-cases (run_at all i ts)) [
      | inl f ↦ absurd (cc)
      | inr (vs, f) ↦ subst (SomeCaught a b) {x = x ∷ vs} (cc) (elim m [
        | inl same ↦ (t, inl same, c)
        | inr behind ↦
            let (u, u_in, c') = run_at-caught a b all i ts vs taken (t, behind, c) f in
            (u, inr u_in, c')
      ])
    ]

caught-is_taken : (a b : ℕ) (ts : List Task) → SomeCaught a b ts → is_taken a ts ≡ true
unfolding is_taken holds
caught-is_taken a b ts (t, t_in, c) = any-of_In (holds a) ts t t_in c.0

-- Two tasks that each hold what the other waits for.
Reach-caught :
    (a b : ℕ) (ts us : List Task)
    → SomeCaught a b ts
    → SomeCaught b a ts
    → Reach ts us
    → SomeCaught a b us × SomeCaught b a us
Reach-caught a b ts us one two here = (one, two)
Reach-caught a b ts vs one two (later {us} i r e) =
    let (p, q) = Reach-caught a b ts us one two r in
    (
      run_at-caught a b us i us vs (caught-is_taken b a us q) p e,
      run_at-caught b a us i us vs (caught-is_taken a b us p) q e,
    )

-- The mutexes are never free again.
abbrev pub StaysTaken : Mutex → Mutex → List Task → Type 0
StaysTaken a b us = (vs : List Task) → Reach us vs → (is_taken a vs ≡ true) × (is_taken b vs ≡ true)

caught-StaysTaken :
    (a b : ℕ) (us : List Task) → SomeCaught a b us → SomeCaught b a us → StaysTaken a b us
caught-StaysTaken a b us one two vs r =
    let (p, q) = Reach-caught a b us vs one two r in
    (caught-is_taken a b vs p, caught-is_taken b a vs q)

-- The operations of the task that parses messages which store something for a subscription.
pub data Parsing : Operation → Type 0 where
  subscribing : Parsing subscribe
  receiving : Parsing receive_value

abbrev pub beside : Operation → Operation → List Task → List Task
beside one two others = task_of (locks_of one) ∷ task_of (locks_of two) ∷ others

-- The first of two tasks takes `a`, and the second one takes `k` and then `b`.
both_begin :
    (a k b : ℕ) (one two : List Action) (others : List Task)
    → k ≢ a
    → b ≢ a
    → b ≢ k
    → is_taken a others ≡ false
    → is_taken k others ≡ false
    → is_taken b others ≡ false
    → Reach
        (task_of (acquire a ∷ one) ∷ task_of (acquire k ∷ acquire b ∷ two) ∷ others)
        (record { held = a ∷ []; rest = one } ∷ record { held = b ∷ k ∷ []; rest = two } ∷ others)
unfolding advance_by is_taken holds run_at
both_begin a k b one two others ka ba bk free_a free_k free_b =
    let t0 : Task = task_of (acquire a ∷ one) in
    let t1 : Task = record { held = a ∷ []; rest = one } in
    let u0 : Task = task_of (acquire k ∷ acquire b ∷ two) in
    let u1 : Task = record { held = k ∷ []; rest = acquire b ∷ two } in
    later {us = t1 ∷ u1 ∷ others} 1
      (later {us = t1 ∷ u0 ∷ others} 1 (later {us = t0 ∷ u0 ∷ others} 0 here (ground arith))
        (ground arith))
      (ground arith)

-- The first of two tasks looks at `m` and takes `a`, and the second one takes `b`.
publisher_begins :
    (m a b : ℕ) (one two : List Action) (others : List Task)
    → m ≢ a
    → b ≢ a
    → is_taken m others ≡ false
    → is_taken a others ≡ false
    → is_taken b others ≡ false
    → Reach
        (task_of (acquire m ∷ release m ∷ acquire a ∷ one) ∷ task_of (acquire b ∷ two) ∷ others)
        (record { held = a ∷ []; rest = one } ∷ record { held = b ∷ []; rest = two } ∷ others)
unfolding advance_by is_taken holds run_at
publisher_begins m a b one two others ma ba free_m free_a free_b =
    let t0 : Task = task_of (acquire m ∷ release m ∷ acquire a ∷ one) in
    let t1 : Task = record { held = m ∷ []; rest = release m ∷ acquire a ∷ one } in
    let t2 : Task = task_of (acquire a ∷ one) in
    let t3 : Task = record { held = a ∷ []; rest = one } in
    let u0 : Task = task_of (acquire b ∷ two) in
    later {us = t3 ∷ u0 ∷ others} 1
      (later {us = t2 ∷ u0 ∷ others} 0
        (later {us = t1 ∷ u0 ∷ others} 0 (later {us = t0 ∷ u0 ∷ others} 0 here (ground arith))
          (ground arith))
        (ground arith))
      (ground arith)

-- The task that parses messages and the task that sends values can come to a standstill, whatever
-- tasks that hold neither `clients`, `subscriptions` nor `sub_values` are beside them: while the
-- one subscribes or stores a value and the other begins a pass, they reach a state after which
-- `clients` and `sub_values` are never free again.
pub send_out-deadlock :
    (op : Operation) (others : List Task)
    → Parsing op
    → is_taken clients others ≡ false
    → is_taken subscriptions others ≡ false
    → is_taken sub_values others ≡ false
    → (us : List Task) × Reach (beside op send_out others) us × StaysTaken clients sub_values us
unfolding locks_of needs
send_out-deadlock op others subscribing free_a free_k free_b = (
  _,
  both_begin clients subscriptions sub_values _ _ others (λ e. omega (arith, e))
      (λ e. omega (arith, e)) (λ e. omega (arith, e)) free_a free_k free_b,
  caught-StaysTaken clients sub_values _ (_, inl refl, (refl, refl))
      (_, inr (inl refl), (refl, refl)),
)
send_out-deadlock op others receiving free_a free_k free_b = (
  _,
  both_begin clients subscriptions sub_values _ _ others (λ e. omega (arith, e))
      (λ e. omega (arith, e)) (λ e. omega (arith, e)) free_a free_k free_b,
  caught-StaysTaken clients sub_values _ (_, inl refl, (refl, refl))
      (_, inr (inl refl), (refl, refl)),
)

-- A task of the server's side publishes a topic that there is, while the task that parses messages
-- subscribes for a client. Whatever tasks that hold neither `clients`, `topics` nor `topic_map` are
-- beside them, they can reach a state after which `clients` and `topics` are never free again.
pub publish_again-deadlock :
    (others : List Task)
    → is_taken clients others ≡ false
    → is_taken topics others ≡ false
    → is_taken topic_map others ≡ false
    → (us : List Task) × Reach (beside publish_again subscribe others) us
      × StaysTaken topics clients us
unfolding locks_of needs
publish_again-deadlock others free_c free_t free_m = (
  _,
  publisher_begins topic_map topics clients _ _ others (λ e. omega (arith, e))
      (λ e. omega (arith, e)) free_m free_t free_c,
  caught-StaysTaken topics clients _ (_, inl refl, (refl, refl)) (_, inr (inl refl), (refl, refl)),
)
