-- ===== src/Server/Announce/Notified.antt =====
-- Which clients `announce_topic` of server/inner.rs notifies.
use frclib_nettables.Base.{
  ℕ, ◌≡◌, refl, ap, subst, ◌↔◌, ◌⊎◌, inl, inr, true, List, [], ◌∷◌, In, arith, ◌==◌, Bool-cases,
  In-of_any,
}
use frclib_nettables.Base.Map.{Map}
use frclib_nettables.Base.Text.{Text}
use frclib_nettables.Server.Announce.{clients_to_notify}
use frclib_nettables.Server.Connected.{set_contains, set_insert}
use frclib_nettables.Spec.Subscription.{Subscription, cares_about}

set_contains-In : (i : ℕ) (s : List ℕ) → set_contains i s ≡ true → In i s
set_contains-In i s h =
    let (j, there, hit) = In-of_any (λ j. j == i) s h in
    let e : j ≡ i = ground arith in subst (λ x. In x s) e there

In-set_insert_from : (c i : ℕ) (s : List ℕ) → In c (set_insert i s) → (c ≡ i) ⊎ In c s
In-set_insert_from c i s h = elim (Bool-cases (set_contains i s)) [
  | inl there ↦ inr (rw there at h)
  | inr absent ↦ rw absent at h
]

In-set_insert_to : (c i : ℕ) (s : List ℕ) → (c ≡ i) ⊎ In c s → In c (set_insert i s)
In-set_insert_to c i s (inl e) = elim (Bool-cases (set_contains i s)) [
  | inl there ↦ rw (there, e) (set_contains-In i s there)
  | inr absent ↦ rw absent (inl e)
]
In-set_insert_to c i s (inr m) = elim (Bool-cases (set_contains i s)) [
  | inl there ↦ rw there m
  | inr absent ↦ rw absent (inr m)
]

abbrev pub IsInterested : Text → Map ℕ (Subscription × ℕ) → ℕ → Type 0
IsInterested name subs c =
    (k : ℕ) × (sub : Subscription) × In (k, (sub, c)) subs × (cares_about sub name ≡ true)

notified-IsInterested :
    (name : Text) (subs : Map ℕ (Subscription × ℕ)) (c : ℕ)
    → In c (clients_to_notify name subs)
    → IsInterested name subs c
unfolding clients_to_notify
notified-IsInterested name [] c h = absurd h
notified-IsInterested name ((k, (sub, d)) ∷ subs) c h = elim (Bool-cases (cares_about sub name)) [
  | inl cares ↦ elim (In-set_insert_from c d (clients_to_notify name subs) (rw cares at h)) [
    | inl e ↦ (k, sub, inl (rw e refl), cares)
    | inr m ↦
        let (j, sub', there, cares') = notified-IsInterested name subs c m in
        (j, sub', inr there, cares')
  ]
  | inr not_it ↦
      let (j, sub', there, cares') = notified-IsInterested name subs c (rw not_it at h) in
      (j, sub', inr there, cares')
]

interested-notified :
    (name : Text) (subs : Map ℕ (Subscription × ℕ)) (c k : ℕ) (sub : Subscription)
    → In (k, (sub, c)) subs
    → cares_about sub name ≡ true
    → In c (clients_to_notify name subs)
unfolding clients_to_notify
interested-notified name [] c k sub m cares = absurd m
interested-notified name ((j, (sub', d)) ∷ subs) c k sub (inl e) cares =
    let same : sub ≡ sub' = ap (λ (x : ℕ × (Subscription × ℕ)). x.1.0) e in
    let here : cares_about sub' name ≡ true = subst (λ x. cares_about x name ≡ true) same cares in
    rw here (In-set_insert_to c d _ (inl (ap (λ (x : ℕ × (Subscription × ℕ)). x.1.1) e)))
interested-notified name ((j, (sub', d)) ∷ subs) c k sub (inr m) cares =
    let rest = interested-notified name subs c k sub m cares in
    elim (Bool-cases (cares_about sub' name)) [
      | inl here ↦ rw here (In-set_insert_to c d _ (inr rest))
      | inr off ↦ rw off rest
    ]

-- A client is notified of a topic exactly when one of its subscriptions cares about it.
clients_to_notify_iff :
    (name : Text) (subs : Map ℕ (Subscription × ℕ)) (c : ℕ)
    → In c (clients_to_notify name subs) ↔ IsInterested name subs c
clients_to_notify_iff name subs c =
    (notified-IsInterested name subs c, λ h. interested-notified name subs c h.0 h.1 h.2 h.3)
