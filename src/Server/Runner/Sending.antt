-- ===== src/Server/Runner/Sending.antt =====
-- `send_out` of server/runner.rs keeps the invariant, also where an `expect` in it panics.
use frclib_nettables.Base.{
  ℕ, ◌-◌, Option, none, some, List, [], ◌∷◌, Bool-cases, Option-cases, inl, inr,
}
use frclib_nettables.Base.Map.{Map, nat_key, lookup, insert}
use frclib_nettables.Server.Connected.{ConnectedClient, send_binary}
use frclib_nettables.Server.Invariant.Stores.{Wf-stores, lookup-adjust_kept, lookup-insert_kept}
use frclib_nettables.Server.Runner.{
  warn, send_values, serve, visit, visit_all, send_out, is_near, period_of, topics_only_of,
  encode_values,
}
use frclib_nettables.Server.State.{InnerServer, M, pure, gets, modify, unwrap, with_client, ◌>>=◌}
use frclib_nettables.Server.Topics.Wf.{IsWfTo}
use frclib_nettables.Server.Util.{ServerSendableValue, take_values}
use frclib_nettables.Spec.Error.{Outcome, ok, err, panicked}
use frclib_nettables.Spec.Subscription.{Subscription}
use frclib_nettables.Spec.Wire.{Wire}

-- The invariant after an operation, whatever its outcome.
pub record Stays {V A : Type 0} (n : ℕ) (r : Outcome A × InnerServer V) : Type 0 where
  pub after : IsWfTo n r.1

module _ {V : Type 0} (n : ℕ) where
  go_on :
      {A B : Type 0} (f : A → M V B) (r : Outcome A) (t : InnerServer V)
      → IsWfTo n t
      → ((a : A) → Stays n (f a t))
      → Stays {V = V} {A = B} n
          (elim r [ ok a ↦ f a t | err e ↦ (err e, t) | panicked ↦ (panicked, t) ])
  go_on f (ok a) t v k = k a
  go_on f (err e) t v k = record { after = v }
  go_on f panicked t v k = record { after = v }

  Stays-bind :
      {A B : Type 0} (m : M V A) (f : A → M V B) (s : InnerServer V)
      → Stays n (m s)
      → ((a : A) (t : InnerServer V) → IsWfTo n t → Stays n (f a t))
      → Stays n ((m >>= f) s)
  unfolding ◌>>=◌
  Stays-bind m f s v k = go_on f (m s).0 (m s).1 v.after (λ a. k a (m s).1 v.after)

  warned :
      {A : Type 0} (r : Outcome A) (t : InnerServer V)
      → IsWfTo n t
      → Stays {V = V} {A = Unit {0}} n
          (elim r [ ok a ↦ (ok tt, t) | err e ↦ (ok tt, t) | panicked ↦ (panicked, t) ])
  warned (ok a) t v = record { after = v }
  warned (err e) t v = record { after = v }
  warned panicked t v = record { after = v }

  Stays-warn : {A : Type 0} (m : M V A) (s : InnerServer V) → Stays n (m s) → Stays n (warn m s)
  unfolding warn
  Stays-warn m s v = warned (m s).0 (m s).1 v.after

  Stays-unwrap : {A : Type 0} (o : Option A) (s : InnerServer V) → IsWfTo n s → Stays n (unwrap o s)
  Stays-unwrap none s v = record { after = v }
  Stays-unwrap (some a) s v = record { after = v }

  Stays-pure : {A : Type 0} (a : A) (s : InnerServer V) → IsWfTo n s → Stays n (pure a s)
  Stays-pure a s v = record { after = v }

  Stays-gets :
      {A B : Type 0} (g : InnerServer V → A) (f : A → M V B) (s : InnerServer V)
      → Stays n (f (g s) s)
      → Stays n ((gets g >>= f) s)
  unfolding ◌>>=◌
  Stays-gets g f s v = v

  Stays-modify :
      {B : Type 0} (g : InnerServer V → InnerServer V) (f : Unit {0} → M V B) (s : InnerServer V)
      → Stays n (f tt (g s))
      → Stays n ((modify g >>= f) s)
  unfolding ◌>>=◌
  Stays-modify g f s v = v

  Stays-with_client :
      (i : ℕ) (method : ConnectedClient → Outcome (Unit {0}) × ConnectedClient) (s : InnerServer V)
      → IsWfTo n s
      → Stays n (with_client i (pure tt) method s)
  unfolding with_client
  Stays-with_client i method s v = elim (Option-cases (lookup i s.clients)) [
    | inl e ↦ rw (e, with_client) (record { after = v })
    | inr (c, e) ↦ rw (e, with_client) (record { after = v })
  ]

  module _ (w : Wire V) (now : ℕ) where
    send_values-Stays :
        (client_idx : ℕ) (values : Map ℕ (List (ServerSendableValue V))) (s : InnerServer V)
        → IsWfTo n s
        → Stays n (send_values w now client_idx values s)
    unfolding send_values
    send_values-Stays c [] s v = Stays-pure _ s v
    send_values-Stays c ((i, vals) ∷ rest) s v =
        Stays-bind (unwrap (encode_values w now i vals)) _ s (Stays-unwrap _ s v) λ buf t u.
          Stays-bind (warn (with_client c (pure tt) (send_binary buf))) _ t
            (Stays-warn (with_client c (pure tt) (send_binary buf)) t
              (Stays-with_client c (send_binary buf) t u))
            λ _ x y. send_values-Stays c rest x y

    serve-Stays :
        (sub_idx client_idx : ℕ) (s : InnerServer V)
        → IsWfTo n s
        → Stays n (serve w now sub_idx client_idx s)
    unfolding serve
    serve-Stays k c s v = Stays-modify _ _ s (
        Stays-gets _ _ _ (elim (Option-cases (lookup c s.clients)) [
          | inl e ↦ rw e (Stays-pure _ _ (stamped s v))
          | inr (client, e) ↦ rw e (
              Stays-gets _ _ _ (
                Stays-bind (unwrap (lookup k s.sub_values)) _ _ (Stays-unwrap _ _ (stamped s v))
                  λ stored t u. Stays-modify _ _ t (
                    send_values-Stays c _ _ (
                      Wf-stores u.0 _ _
                          (λ j.
                            lookup-adjust_kept k j (λ stored. (take_values stored).1) t.sub_values)
                          (λ j h. h),
                      u.1,
                    ))))
        ]))
      where
        stamped :
            (s : InnerServer V)
            → IsWfTo n s
            → IsWfTo n (record s { sub_send_timestamps = insert k now s.sub_send_timestamps })
        stamped s v = (
          Wf-stores v.0 _ _ (λ j h. h) (λ j. lookup-insert_kept k j now s.sub_send_timestamps),
          v.1,
        )

    visit-Stays :
        (sub_idx : ℕ) (subscription : Subscription) (client_idx : ℕ) (s : InnerServer V)
        → IsWfTo n s
        → Stays n (visit w now sub_idx subscription client_idx s)
    unfolding visit
    visit-Stays k sub c s v = elim (Bool-cases (topics_only_of sub)) [
      | inl only ↦ rw (visit, only) (Stays-pure _ s v)
      | inr values ↦
          rw (visit, values)
            (Stays-gets _ _ s (
              Stays-bind (unwrap (lookup k s.sub_send_timestamps)) _ s (Stays-unwrap _ s v)
                λ at t u. elim (Bool-cases (is_near (now - at) (period_of sub))) [
                  | inl near ↦ rw near (Stays-pure _ t u)
                  | inr far ↦ rw far (serve-Stays k c t u)
                ]))
    ]

    visit_all-Stays :
        (subs : Map ℕ (Subscription × ℕ)) (s : InnerServer V)
        → IsWfTo n s
        → Stays n (visit_all w now subs s)
    unfolding visit_all
    visit_all-Stays [] s v = Stays-pure _ s v
    visit_all-Stays ((k, (sub, c)) ∷ subs) s v =
        Stays-bind (visit w now k sub c) _ s (visit-Stays k sub c s v)
          λ _ t u. visit_all-Stays subs t u

    pub send_out-Stays : (s : InnerServer V) → IsWfTo n s → Stays n (send_out w now s)
    unfolding send_out
    send_out-Stays s v = Stays-gets _ _ s (visit_all-Stays s.subscriptions s v)
