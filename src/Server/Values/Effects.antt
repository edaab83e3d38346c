-- ===== src/Server/Values/Effects.antt =====
-- What `set_value` of server/inner.rs does to the values and to the subscriptions of a topic.
use frclib_nettables.Base.{
  ℕ, ◌≡◌, ◌≢◌, refl, ◌∙◌, ap, false, Option, none, some, List, [], ◌∷◌, arith, Option-cases, inl,
  inr, In, ite,
}
use frclib_nettables.Base.Map.{
  Map, nat_key, text_key, lookup, insert, adjust, lookup-insert, lookup-adjust,
}
use frclib_nettables.Server.Invariant.Stores.{lookup-adjust_kept}
use frclib_nettables.Server.State.{InnerServer, ◌>>=◌}
use frclib_nettables.Server.State.Holds.{
  Holds, Holds-bind, Holds-ok_or, Holds-pure, Holds-gets, Holds-unwrap, Holds-weaken,
}
use frclib_nettables.Server.Topics.{is_meta_name}
use frclib_nettables.Server.Util.{ServerSendableValue, StoredSubValue, normal_value, add_value}
use frclib_nettables.Server.Values.{
  queue_one, queue_value, check_normal, set_value, get_value, latest,
}
use frclib_nettables.Spec.Error.{ok}
use frclib_nettables.Spec.Extensions.{TimestampedValue}
use frclib_nettables.Spec.Topic.{Topic}

module _ {V : Type 0} where
  -- A store once a value was added, as often as its subscription stands in a list.
  abbrev pub received : ℕ → ServerSendableValue V → ℕ → List ℕ → StoredSubValue V → StoredSubValue V
  received i v j [] stored = stored
  received i v j (k ∷ ks) stored =
      received i v j ks (ite (nat_key.decide k j) (add_value i v stored) stored)

  abbrev pub received? :
      ℕ → ServerSendableValue V → ℕ → List ℕ → Option (StoredSubValue V) → Option (StoredSubValue V)
  received? i v j ks none = none
  received? i v j ks (some stored) = some (received i v j ks stored)

  -- The stores after the loop, and all else as it was.
  abbrev Queued : ℕ → ServerSendableValue V → List ℕ → InnerServer V → InnerServer V → Type 0
  Queued i v subs s t =
      (t ≡ record s { sub_values = t.sub_values })
      × ((j : ℕ) → lookup j t.sub_values ≡ received? i v j subs (lookup j s.sub_values))

  received?-step :
      (i : ℕ) (v : ServerSendableValue V) (j k : ℕ) (ks : List ℕ) (m : Map ℕ (StoredSubValue V))
      → received? i v j ks (lookup j (adjust k (add_value i v) m))
        ≡ received? i v j (k ∷ ks) (lookup j m)
  received?-step i v j k ks m = rw (lookup-adjust k j (add_value i v) m) (split (lookup j m))
    where
      split :
          (o : Option (StoredSubValue V))
          → received? i v j ks (
              ite (nat_key.decide k j) (elim o [ none ↦ none | some x ↦ some (add_value i v x) ]) o)
            ≡ received? i v j (k ∷ ks) o
      split none = ground arith
      split (some x) = ground arith

  queue_value-Queued :
      (i : ℕ) (v : ServerSendableValue V) (subs : List ℕ) (s : InnerServer V)
      → ((j : ℕ) → In j subs → lookup j s.sub_values ≢ none)
      → Holds (λ _ t. Queued i v subs s t) (λ _. ⊥) (queue_value i v subs s)
  unfolding queue_value queue_one
  queue_value-Queued i v [] s known = Holds-pure _ _ (refl, λ j. ground arith)
  queue_value-Queued i v (k ∷ ks) s known = elim (Option-cases (lookup k s.sub_values)) [
    | inl e ↦ absurd (known k (inl refl) e)
    | inr (x, e) ↦
        Holds-bind (λ _ t. t ≡ record s { sub_values = adjust k (add_value i v) s.sub_values }) _ _
          s (rw (e, queue_one) (Holds-pure _ _ refl))
          λ _ t u. rw u (
            Holds-weaken
              (λ _ y.
                Queued i v ks (record s { sub_values = adjust k (add_value i v) s.sub_values }) y)
              (λ _. ⊥) _ (λ _ y q. (q.0, λ j. q.1 j ∙ received?-step i v j k ks s.sub_values))
              (λ y h. h)
              (queue_value-Queued i v ks _
                λ j m. lookup-adjust_kept k j (add_value i v) s.sub_values (known j (inr m))))
  ]

  get_value-some :
      (i : ℕ) (v : TimestampedValue V) (t : InnerServer V)
      → lookup i t.topic_value_map ≡ some v
      → get_value i t ≡ (ok v, t)
  unfolding get_value ◌>>=◌
  get_value-some i v t e = rw e refl

  -- A value for a topic that there is and that is no metatopic is kept if it is newer, is queued
  -- for every subscription of the topic, as often as it stands in the list of the topic, and
  -- changes no other store, no other value and nothing else. Then `get_value` reads what is kept.
  pub set_value-effect :
      (value : TimestampedValue V) (i : ℕ) (s : InnerServer V) (topic : Topic) (subs : List ℕ)
      → lookup i s.topics ≡ some topic
      → is_meta_name topic.name ≡ false
      → lookup i s.topic_sub_map ≡ some subs
      → ((j : ℕ) → In j subs → lookup j s.sub_values ≢ none)
      → Holds
          (λ _ t.
            (get_value i t ≡ (ok (latest (lookup i s.topic_value_map) value), t))
            × ((k : ℕ)
                → lookup k t.topic_value_map
                  ≡ ite
                      (nat_key.decide i k)
                      (some (latest (lookup i s.topic_value_map) value))
                      (lookup k s.topic_value_map))
            × ((j : ℕ)
                → lookup j t.sub_values
                  ≡ received? i (normal_value value) j subs (lookup j s.sub_values))
            × (t ≡ record s { sub_values = t.sub_values; topic_value_map = t.topic_value_map }))
          (λ _. ⊥)
          (set_value value i s)
  unfolding set_value check_normal
  set_value-effect value i s topic subs e plain f known =
      Holds-bind (λ _ t. t ≡ s) _ _ s (checked s e plain)
        λ _ t u. rw u (
          Holds-gets _ _ s (
            Holds-unwrap _ _ s (λ h. ground (arith, f))
              λ subs' f'.
                let same : subs' ≡ subs = ground (arith, f) in
                Holds-bind (λ _ x. Queued i (normal_value value) subs s x) _ _ s
                  (rw same (queue_value-Queued i (normal_value value) subs s known))
                  λ _ x q. Holds-pure _ _ (final x q.0 q.1)))
    where
      checked :
          (s : InnerServer V)
          → lookup i s.topics ≡ some topic
          → is_meta_name topic.name ≡ false
          → Holds (λ _ t. t ≡ s) (λ _. ⊥) (check_normal i s)
      checked s e plain = Holds-gets _ _ s (
          Holds-ok_or _ _ _ s (λ h. ground (arith, e))
            λ topic' e'.
              let same : topic' ≡ topic = ground (arith, e) in
              rw (same, plain) (Holds-pure _ _ refl))

      final :
          (x : InnerServer V)
          → x ≡ record s { sub_values = x.sub_values }
          → ((j : ℕ)
              → lookup j x.sub_values
                ≡ received? i (normal_value value) j subs (lookup j s.sub_values))
          → let t = record x {
            topic_value_map =
                insert i (latest (lookup i x.topic_value_map) value) x.topic_value_map;
          } in
            (get_value i t ≡ (ok (latest (lookup i s.topic_value_map) value), t))
            × ((k : ℕ)
                → lookup k t.topic_value_map
                  ≡ ite
                      (nat_key.decide i k)
                      (some (latest (lookup i s.topic_value_map) value))
                      (lookup k s.topic_value_map))
            × ((j : ℕ)
                → lookup j t.sub_values
                  ≡ received? i (normal_value value) j subs (lookup j s.sub_values))
            × (t ≡ record s { sub_values = t.sub_values; topic_value_map = t.topic_value_map })
      final x e stores =
          let same : x.topic_value_map ≡ s.topic_value_map =
            ap (λ (y : InnerServer V). y.topic_value_map) e in
          (
            get_value-some i _ _ (
                ground (
                  arith,
                  lookup-insert i i (latest (lookup i x.topic_value_map) value) x.topic_value_map,
                  same,
                )),
            (λ k. ground (
              arith,
              lookup-insert i k (latest (lookup i x.topic_value_map) value) x.topic_value_map,
              same,
            )),
            stores,
            ap
                (λ (y : InnerServer V). record y {
                  topic_value_map =
                      insert i (latest (lookup i x.topic_value_map) value) x.topic_value_map;
                })
                e,
          )
