-- ===== src/Server/Runner/Due.antt =====
-- Which subscriptions a pass of `send_out` in server/runner.rs serves.
use frclib_nettables.Base.{
  ℕ, ◌+◌, ◌≤◌, ◌<◌, arith, ◌-◌, ◌≡◌, refl, ap, ◌∙◌, true, some, [], ◌∷◌, In, Bool-cases, inl, inr,
}
use frclib_nettables.Base.Map.{Map, nat_key, lookup}
use frclib_nettables.Server.Runner.{is_near, period_of, topics_only_of, visit, visit_all, send_out}
use frclib_nettables.Server.State.{InnerServer, M, ◌>>=◌}
use frclib_nettables.Spec.Error.{Outcome, ok, err, panicked}
use frclib_nettables.Spec.Subscription.{Subscription}
use frclib_nettables.Spec.Wire.{Wire}

bind-ok :
    {V A B : Type 0} (m : M V A) (f : A → M V B) (s t : InnerServer V) (a : A)
    → m s ≡ (ok a, t)
    → (m >>= f) s ≡ f a t
unfolding ◌>>=◌
bind-ok {V} {A} {B} m f s t a e =
    ap
      (λ (r : Outcome A × InnerServer V). elim r.0 as (λ _. Outcome B × InnerServer V) [
        | ok a ↦ f a r.1
        | err e ↦ (err e, r.1)
        | panicked ↦ (panicked, r.1)
      ])
      e

-- The time since the last frame of a subscription differs from its period by less than a
-- millisecond.
abbrev pub IsDue : {V : Type 0} → ℕ → InnerServer V → ℕ → Subscription → Type 0
IsDue now s k subscription =
    (at : ℕ) × (lookup k s.sub_send_timestamps ≡ some at)
    × (at ≤ now)
    × (now < at + period_of subscription + 1000)
    × (at + period_of subscription < now + 1000)

near :
    (at now period : ℕ)
    → at ≤ now
    → now < at + period + 1000
    → at + period < now + 1000
    → is_near (now - at) period ≡ true
unfolding is_near
near at now period before late early = ground (arith, before, late, early)

module _ {V : Type 0} (w : Wire V) (now : ℕ) where
  visit-due :
      (k c : ℕ) (sub : Subscription) (s : InnerServer V)
      → IsDue now s k sub
      → visit w now k sub c s ≡ (ok tt, s)
  unfolding visit ◌>>=◌
  visit-due k c sub s (at, e, before, late, early) = elim (Bool-cases (topics_only_of sub)) [
    | inl only ↦ rw only refl
    | inr rest ↦ rw (rest, e, near at now (period_of sub) before late early) refl
  ]

  visit_all-due :
      (subs : Map ℕ (Subscription × ℕ)) (s : InnerServer V)
      → ((k c : ℕ) (sub : Subscription) → In (k, (sub, c)) subs → IsDue now s k sub)
      → visit_all w now subs s ≡ (ok tt, s)
  unfolding visit_all
  visit_all-due [] s due = refl
  visit_all-due ((k, (sub, c)) ∷ subs) s due =
      bind-ok (visit w now k sub c) (λ _. visit_all w now subs) s s tt
        (visit-due k c sub s (due k c sub (inl refl)))
      ∙ visit_all-due subs s λ j d x m. due j d x (inr m)

  -- A pass serves nobody and changes nothing when for every subscription the time since its last
  -- frame differs from the period by less than a millisecond, be it less or more than the period.
  pub send_out-due :
      (s : InnerServer V)
      → ((k c : ℕ) (sub : Subscription) → In (k, (sub, c)) s.subscriptions → IsDue now s k sub)
      → send_out w now s ≡ (ok tt, s)
  unfolding send_out ◌>>=◌
  send_out-due s due = visit_all-due s.subscriptions s due
