-- ===== src/Server/Handles/Effects.antt =====
-- What the operations of server/handles.rs do.
use frclib_nettables.Base.{
  ℕ, ◌+◌, ◌^◌, ◌<◌, ◌≡◌, refl, ◌∙◌, ap, subst, sym, false, Option, some, Option-cases, inl, inr,
}
use frclib_nettables.Base.Map.{nat_key, text_key, Map, lookup, In-of_lookup}
use frclib_nettables.Base.Text.{Text}
use frclib_nettables.Server.Clients.{server_client_idx}
use frclib_nettables.Server.Handles.{
  publish_topic_w_props, set_topic_value_w_timestamp, set_topic_value, get_topic_value,
}
use frclib_nettables.Server.Publish.Effects.{SameTopics, inner_publish_topic-known}
use frclib_nettables.Server.Publish.Wf.{inner_publish_topic-IsWf}
use frclib_nettables.Server.State.{InnerServer, ◌>>=◌}
use frclib_nettables.Server.State.Holds.{Holds, Keeps, Holds-bind, Holds-weaken}
use frclib_nettables.Server.Topics.{is_meta_name}
use frclib_nettables.Server.Topics.Wf.{IsWfTo}
use frclib_nettables.Server.Values.{set_value, get_topic_idx, get_value, latest}
use frclib_nettables.Server.Values.Effects.{set_value-effect}
use frclib_nettables.Server.Values.Wf.{set_value-IsWf}
use frclib_nettables.Server.Wording.{topic_name_not_found_text}
use frclib_nettables.Spec.Error.{Outcome, ok, err, panicked, server_error, topic_does_not_exist}
use frclib_nettables.Spec.Extensions.{TimestampedValue}
use frclib_nettables.Spec.Topic.{Topic, PublishProperties}
use frclib_nettables.Spec.Wire.{Wire}

Holds-both :
    {S A : Type 0} {Q P : A → S → Type 0} {E F : S → Type 0} (r : Outcome A × S)
    → Holds Q E r
    → Holds P F r
    → Holds (λ a t. Q a t × P a t) (λ t. E t × F t) r
Holds-both (ok a, t) h k = record { ends = (h.ends, k.ends) }
Holds-both (err e, t) h k = record { ends = (h.ends, k.ends) }
Holds-both (panicked, t) h k = absurd h.ends

module _ {V : Type 0} where
  -- The values of the server can neither be set nor read by name: for every name, also of a topic
  -- that there is, the operations fail and leave the server as it was.
  by_name-fails :
      (topic_name : Text) (value : V) (now : ℕ) (s : InnerServer V)
      → (set_topic_value now topic_name value s
          ≡ (err (server_error (topic_does_not_exist (topic_name_not_found_text topic_name))), s))
        × (get_topic_value topic_name s
            ≡ (err (server_error (topic_does_not_exist (topic_name_not_found_text topic_name))), s))
  unfolding set_topic_value set_topic_value_w_timestamp get_topic_value get_topic_idx ◌>>=◌
  by_name-fails topic_name value now s = (refl, refl)

  -- Publishing through a handle leads from a well-formed server to one, and never panics.
  pub publish_topic_w_props-IsWf :
      (w : Wire V) (uid now : ℕ) (name : Text) (value : V) (props : Option PublishProperties)
      (n : ℕ) (s : InnerServer V)
      → n + 3 < 2 ^ 32
      → IsWfTo n s
      → Keeps (IsWfTo (n + 3)) (publish_topic_w_props w uid now name value props s)
  unfolding publish_topic_w_props
  publish_topic_w_props-IsWf w uid now name value props n s room wf =
      Holds-bind (λ _ t. IsWfTo (n + 3) t) _ _ s (inner_publish_topic-IsWf n w _ _ s room wf)
        λ i t v. set_value-IsWf (n + 3) _ i t v

  set_value-latest :
      (value : TimestampedValue V) (n i : ℕ) (topic : Topic) (t : InnerServer V)
      → IsWfTo n t
      → lookup i t.topics ≡ some topic
      → is_meta_name topic.name ≡ false
      → Holds
          (λ _ u. get_value i u ≡ (ok (latest (lookup i t.topic_value_map) value), u))
          (λ _. ⊥)
          (set_value value i t)
  set_value-latest value n i topic t (wf, bound) f plain =
      elim (Option-cases (lookup i t.topic_sub_map)) [
        | inl missing ↦ absurd (wf.topics_subs i topic f missing)
        | inr (subs, g) ↦
            Holds-weaken _ (λ _. ⊥) _ (λ _ u h. h.0) (λ _ h. h)
              (set_value-effect value i t topic subs f plain g
                (λ j m. wf.listed i j subs (In-of_lookup i subs t.topic_sub_map g) m))
      ]

  -- A well-formed server with room for three more topics publishes a topic that there is and that
  -- is no metatopic. If it succeeds, the topic
  -- has the value given, or keeps the one that it had if that is as new; if it fails, all values
  -- are as they were.
  pub publish_topic_w_props-value :
      (w : Wire V) (uid now : ℕ) (name : Text) (value : V) (props : Option PublishProperties)
      (n i : ℕ) (topic : Topic) (s : InnerServer V)
      → n + 3 < 2 ^ 32
      → IsWfTo n s
      → lookup name s.topic_map ≡ some i
      → lookup i s.topics ≡ some topic
      → is_meta_name topic.name ≡ false
      → Holds
          (λ _ t. get_value i t ≡ (
            ok (latest (lookup i s.topic_value_map) (record { timestamp = now; value = value })),
            t,
          ))
          (λ t. t.topic_value_map ≡ s.topic_value_map)
          (publish_topic_w_props w uid now name value props s)
  unfolding publish_topic_w_props
  publish_topic_w_props-value w uid now name value props n i topic s room wf e f plain =
      Holds-bind (λ j t. ((j ≡ i) × SameTopics s t) × IsWfTo (n + 3) t) _ _ s
        (Holds-weaken _ (λ t. SameTopics s t × IsWfTo (n + 3) t) _ (λ j t h. h) (λ t h. h.0.4)
          (Holds-both _ (inner_publish_topic-known w _ server_client_idx i s e)
            (inner_publish_topic-IsWf n w _ server_client_idx s room wf)))
        λ j t ((same, u), v).
          let new : TimestampedValue V = record { timestamp = now; value = value } in
          Holds-weaken _ (λ _. ⊥) _ (λ _ x h. h ∙ ap (λ m. (ok (latest (lookup i m) new), x)) u.4)
            (λ _ h. absurd h)
            (subst
              (λ k.
                Holds (λ _ x. get_value i x ≡ (ok (latest (lookup i t.topic_value_map) new), x))
                  (λ _. ⊥) (set_value new k t))
              (sym same)
              (set_value-latest new (n + 3) i topic t v
                (ap (λ (m : Map ℕ Topic). lookup i m) u.1 ∙ f) plain))
