-- ===== src/Server/Publish/Wf.antt =====
-- Publishing and unpublishing in server/inner.rs keep the invariant and never panic.
use frclib_nettables.Base.{ℕ, ◌+◌, ◌^◌, ◌<◌, Bool-cases, inl, inr, ◌==◌}
use frclib_nettables.Base.Map.{nat_key, lookup}
use frclib_nettables.Server.Clients.{count_down, server_client_idx}
use frclib_nettables.Server.Publish.{
  enter_publisher, update_publishers, release_topic, inner_publish_topic, inner_unpublish_topic,
  topic_name_or_default,
}
use frclib_nettables.Server.State.{InnerServer}
use frclib_nettables.Server.State.Holds.{
  Keeps, Holds-bind, Holds-ok_or, Holds-pure, Holds-fail, Holds-gets, Holds-modify,
  Holds-with_client, ok-ne-panicked,
}
use frclib_nettables.Server.Topics.Wf.{
  IsWfTo, add_topic-IsWf, remove_topic-IsWf, announce_topic-IsWf,
}
use frclib_nettables.Spec.Messages.{PublishTopic, UnpublishTopic, from_publish_topic}
use frclib_nettables.Spec.MetaTopic.{MetaTopicValue, ClientPublisherMte, merge, reduce}
use frclib_nettables.Spec.Wire.{Wire}

module _ {V : Type 0} (n : ℕ) where
  update_publishers-IsWf :
      (change : MetaTopicValue → MetaTopicValue → MetaTopicValue) (mte : ClientPublisherMte)
      (client_idx : ℕ) (s : InnerServer V)
      → IsWfTo n s
      → Keeps (IsWfTo n) (update_publishers change mte client_idx s)
  unfolding update_publishers
  update_publishers-IsWf change mte c s v = elim (Bool-cases (c == server_client_idx)) [
    | inl server ↦ rw server (Holds-pure _ _ v)
    | inr external ↦
        rw external (Holds-gets _ _ s (Holds-ok_or _ _ _ s (λ _. v) λ (p, q) e. Holds-pure _ _ v))
  ]

  release_topic-IsWf :
      (topic_idx : ℕ) (s : InnerServer V)
      → IsWfTo n s
      → Keeps (IsWfTo n) (release_topic topic_idx s)
  unfolding release_topic
  release_topic-IsWf i s v = Holds-gets _ _ s (
      Holds-ok_or _ _ _ s (λ _. v)
        λ count e. Holds-modify _ _ s (elim (Bool-cases (count_down count == 0)) [
          | inl last ↦ rw last (
              Holds-bind (λ _ t. IsWfTo n t) _ _ _ (remove_topic-IsWf i n _ v)
                λ _ t u. Holds-pure _ _ u)
          | inr more ↦ rw more (Holds-pure _ _ v)
        ]))

  -- From a well-formed server `inner_unpublish_topic` leads to a well-formed server, whether it
  -- succeeds or fails, and never panics.
  pub inner_unpublish_topic-IsWf :
      (msg : UnpublishTopic) (client_idx : ℕ) (s : InnerServer V)
      → IsWfTo n s
      → Keeps (IsWfTo n) (inner_unpublish_topic msg client_idx s)
  unfolding inner_unpublish_topic
  inner_unpublish_topic-IsWf msg c s v = Holds-gets _ _ s (
      Holds-ok_or _ _ _ s (λ _. v)
        λ connected e.
          Holds-bind (λ _ t. IsWfTo n t) _ _ s
            (Holds-with_client c _ _ s (λ _. Holds-pure _ _ v) (λ _. ok-ne-panicked) (λ _. v)
              (λ _. v))
            λ _ t u.
              Holds-ok_or _ _ _ t (λ _. u)
                λ i f. Holds-gets _ _ t (
                  Holds-bind (λ _ x. IsWfTo n x) _ _ t (release_topic-IsWf i t u)
                    λ _ x y.
                      update_publishers-IsWf reduce
                        (record {
                          topic = topic_name_or_default (lookup i t.topics);
                          uid = msg.pubuid;
                        })
                        c x y))

module _ {V : Type 0} (n : ℕ) where
  -- From a well-formed server with room for three more topics, `inner_publish_topic` leads to a
  -- well-formed server with at most three more topics, whether it succeeds or fails, and never
  -- panics.
  pub inner_publish_topic-IsWf :
      (w : Wire V) (msg : PublishTopic) (client_idx : ℕ) (s : InnerServer V)
      → n + 3 < 2 ^ 32
      → IsWfTo n s
      → Keeps (IsWfTo (n + 3)) (inner_publish_topic w msg client_idx s)
  unfolding inner_publish_topic enter_publisher
  inner_publish_topic-IsWf w msg c s room v =
      Holds-bind (λ _ t. IsWfTo (n + 3) t) _ _ s
        (add_topic-IsWf w (from_publish_topic msg) n s room v)
        λ i t u.
          Holds-bind (λ _ x. IsWfTo (n + 3) x) _ _ t (announce_topic-IsWf w i _ (n + 3) t u)
            λ _ x y.
              Holds-bind (λ _ x. IsWfTo (n + 3) x) _ _ x
                (Holds-with_client c _ _ x (λ _. Holds-fail _ _ y) (λ _. ok-ne-panicked) (λ _. y)
                  (λ _. y))
                λ _ z q.
                  Holds-bind (λ _ x. IsWfTo (n + 3) x) _ _ z
                    (update_publishers-IsWf (n + 3) merge
                      (record { topic = msg.name; uid = msg.pubuid }) c z q)
                    λ _ z' q'. Holds-pure _ _ q'
