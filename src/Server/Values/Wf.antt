-- ===== src/Server/Values/Wf.antt =====
-- Values and properties in server/inner.rs keep the invariant and never panic.
use frclib_nettables.Base.{
  ℕ, ◌≡◌, ◌≢◌, refl, sym, subst, none, List, [], ◌∷◌, arith, Option-cases, Bool-cases, inl, inr, In,
}
use frclib_nettables.Base.Map.{nat_key, text_key, lookup, In-of_lookup}
use frclib_nettables.Server.Invariant.Stores.{Wf-stores, Wf-adjust_topic, lookup-adjust_kept}
use frclib_nettables.Server.State.{InnerServer}
use frclib_nettables.Server.State.Holds.{
  Holds, Keeps, Holds-bind, Holds-ok_or, Holds-pure, Holds-fail, Holds-gets, Holds-unwrap,
}
use frclib_nettables.Server.Topics.{is_meta_name}
use frclib_nettables.Server.Topics.Wf.{IsWfTo}
use frclib_nettables.Server.Util.{ServerSendableValue, add_value}
use frclib_nettables.Server.Values.{
  queue_one, queue_value, check_normal, set_value, set_properties, update_properties,
}
use frclib_nettables.Spec.Extensions.{TimestampedValue}
use frclib_nettables.Spec.Messages.{SetProperties}
use frclib_nettables.Spec.Topic.{Topic, PublishProperties}

update_properties-name : (p : PublishProperties) (t : Topic) → (update_properties p t).name ≡ t.name
unfolding update_properties
update_properties-name p t = ground arith

module _ {V : Type 0} (n : ℕ) where
  queue_one-IsWf :
      (topic_idx : ℕ) (value : ServerSendableValue V) (j : ℕ) (s : InnerServer V)
      → IsWfTo n s
      → lookup j s.sub_values ≢ none
      → Holds
          (λ _ t.
            IsWfTo n t × ((k : ℕ) → lookup k s.sub_values ≢ none → lookup k t.sub_values ≢ none))
          (IsWfTo n)
          (queue_one topic_idx value j s)
  unfolding queue_one
  queue_one-IsWf i value j s v known = elim (Option-cases (lookup j s.sub_values)) [
    | inl e ↦ absurd (known e)
    | inr (_, e) ↦
        rw (e, queue_one)
          (Holds-pure _ _ (
            (
              Wf-stores v.0 _ _ (λ k. lookup-adjust_kept j k (add_value i value) s.sub_values)
                  (λ k h. h),
              v.1,
            ),
            λ k. lookup-adjust_kept j k (add_value i value) s.sub_values,
          ))
  ]

  queue_value-IsWf :
      (topic_idx : ℕ) (value : ServerSendableValue V) (subs : List ℕ) (s : InnerServer V)
      → IsWfTo n s
      → ((j : ℕ) → In j subs → lookup j s.sub_values ≢ none)
      → Keeps (IsWfTo n) (queue_value topic_idx value subs s)
  unfolding queue_value
  queue_value-IsWf i value [] s v known = Holds-pure _ _ v
  queue_value-IsWf i value (j ∷ rest) s v known =
      Holds-bind
        (λ _ t.
          IsWfTo n t × ((k : ℕ) → lookup k s.sub_values ≢ none → lookup k t.sub_values ≢ none))
        _ _ s (queue_one-IsWf i value j s v (known j (inl refl)))
        λ _ t u. queue_value-IsWf i value rest t u.0 (λ k m. u.1 k (known k (inr m)))

  check_normal-there :
      (topic_idx : ℕ) (s : InnerServer V)
      → IsWfTo n s
      → Holds
          (λ _ t. (t ≡ s) × (lookup topic_idx s.topics ≢ none))
          (IsWfTo n)
          (check_normal topic_idx s)
  unfolding check_normal
  check_normal-there i s v = Holds-gets _ _ s (
      Holds-ok_or _ _ _ s (λ _. v)
        λ topic e. elim (Bool-cases (is_meta_name topic.name)) [
          | inl meta ↦ rw meta (Holds-fail _ _ v)
          | inr plain ↦ rw plain (Holds-pure _ _ (refl, λ h. ground arith))
        ])

  -- From a well-formed server `set_value` leads to a well-formed server, whether it succeeds or
  -- fails, and none of its `unwrap`s panics.
  pub set_value-IsWf :
      (value : TimestampedValue V) (topic_idx : ℕ) (s : InnerServer V)
      → IsWfTo n s
      → Keeps (IsWfTo n) (set_value value topic_idx s)
  unfolding set_value
  set_value-IsWf value i s v = Holds-bind _ _ _ s (check_normal-there i s v) λ _ t u.
      let vt : IsWfTo n t = subst (IsWfTo n) (sym u.0) v in
      let there : lookup i t.topics ≢ none = rw u.0 u.1 in
      Holds-gets _ _ t (
        Holds-unwrap _ _ t (topics_listed i t vt there) λ subs e.
          Holds-bind (λ _ x. IsWfTo n x) _ _ t
            (queue_value-IsWf i _ subs t vt
              (λ j m. vt.0.listed i j subs (In-of_lookup i subs t.topic_sub_map e) m))
            (λ _ x y. Holds-pure _ _ y))
    where
      topics_listed :
          (i : ℕ) (t : InnerServer V)
          → IsWfTo n t
          → lookup i t.topics ≢ none
          → lookup i t.topic_sub_map ≢ none
      topics_listed i t v h = elim (Option-cases (lookup i t.topics)) [
        | inl e ↦ absurd (h e)
        | inr (topic, e) ↦ v.0.topics_subs i topic e
      ]

  -- From a well-formed server `set_properties` leads to a well-formed server, whether it succeeds
  -- or fails, and never panics.
  pub set_properties-IsWf :
      (msg : SetProperties) (s : InnerServer V)
      → IsWfTo n s
      → Keeps (IsWfTo n) (set_properties msg s)
  unfolding set_properties
  set_properties-IsWf msg s v = Holds-gets _ _ s (
      Holds-ok_or _ _ _ s (λ _. v)
        λ i e. Holds-gets _ _ s (
          Holds-ok_or _ _ _ s (λ _. v)
            λ topic f. Holds-pure _ _ (
              Wf-adjust_topic v.0 i (update_properties msg.update)
                  (update_properties-name msg.update),
              v.1,
            )))
