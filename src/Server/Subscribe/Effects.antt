-- ===== src/Server/Subscribe/Effects.antt =====
-- What `unsubscribe` of server/inner.rs leaves of a subscription.
use frclib_nettables.Base.{ℕ, ◌≡◌, refl, none, some, List, In, arith}
use frclib_nettables.Base.Int.{as_u32}
use frclib_nettables.Base.Map.{nat_key, lookup, lookup-remove_same}
use frclib_nettables.BiMap.{PrimBiMap, get_by_left, remove_by_left}
use frclib_nettables.Server.Connected.{ConnectedClient}
use frclib_nettables.Server.State.{InnerServer}
use frclib_nettables.Server.State.Holds.{
  Holds, Holds-bind, Holds-ok_or, Holds-pure, Holds-gets, Holds-with_client_ok,
}
use frclib_nettables.Server.Subscribe.{drop_subscription, forget_subuid, unsubscribe}
use frclib_nettables.Server.Subscribe.Wf.{leave_all-shrunk}
use frclib_nettables.Spec.Error.{ok}
use frclib_nettables.Spec.Messages.{Unsubscribe}

forgotten :
    (subuid : ℕ) (connected : ConnectedClient)
    → forget_subuid subuid connected ≡ (ok tt, (forget_subuid subuid connected).1)
unfolding forget_subuid
forgotten subuid connected = refl

remove_by_left-found :
    (l k : ℕ) (b : PrimBiMap) → get_by_left l b ≡ some k → (remove_by_left l b).0 ≡ some k
unfolding get_by_left remove_by_left
remove_by_left-found l k b e = e

module _ {V : Type 0} where
  -- Nothing that is sent out later can come from the subscription.
  abbrev pub IsForgotten : ℕ → InnerServer V → Type 0
  IsForgotten k t =
      (lookup k t.subscriptions ≡ none)
      × (lookup k t.sub_values ≡ none)
      × (lookup k t.sub_send_timestamps ≡ none)
      × ((i : ℕ) (subs : List ℕ) → In (i, subs) t.topic_sub_map → ¬ In k subs)

  drop_subscription-IsForgotten :
      (k : ℕ) (s : InnerServer V) → IsForgotten k (drop_subscription k s)
  unfolding drop_subscription
  drop_subscription-IsForgotten k s = (
    lookup-remove_same k s.subscriptions,
    lookup-remove_same k s.sub_values,
    lookup-remove_same k s.sub_send_timestamps,
    λ i subs m there. (leave_all-shrunk k s.topic_sub_map i k subs m there).3 refl,
  )

  -- A client that holds a subscription under an id succeeds in unsubscribing by that id, and then
  -- the subscription, its store, its instant and its place in the lists of all topics are gone.
  pub unsubscribe-forgets :
      (unsub : Unsubscribe) (c k : ℕ) (connected : ConnectedClient) (s : InnerServer V)
      → lookup c s.clients ≡ some connected
      → get_by_left (as_u32 unsub.subuid) connected.subuid_to_subidx ≡ some k
      → Holds (λ _ t. IsForgotten k t) (λ _. ⊥) (unsubscribe unsub c s)
  unfolding unsubscribe
  unsubscribe-forgets unsub c k connected s e f = Holds-gets _ _ s (
      Holds-ok_or _ _ _ s (λ h. ground (arith, e))
        λ connected' e'.
          let same : connected' ≡ connected = ground (arith, e) in
          Holds-bind (λ _ t. Unit {0}) _ _ s
            (Holds-with_client_ok c _ _ s connected _ e (forgotten (as_u32 unsub.subuid) connected)
              tt)
            λ _ t u.
              Holds-ok_or _ _ _ t
                (λ h. ground (
                  arith,
                  same,
                  remove_by_left-found (as_u32 unsub.subuid) k connected.subuid_to_subidx f,
                ))
                λ k' f'.
                  let same' : k' ≡ k = ground (
                    arith,
                    same,
                    remove_by_left-found (as_u32 unsub.subuid) k connected.subuid_to_subidx f,
                  ) in
                  rw same' (Holds-pure _ _ (drop_subscription-IsForgotten k t)))
