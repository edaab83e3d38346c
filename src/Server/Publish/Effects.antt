-- ===== src/Server/Publish/Effects.antt =====
-- What publishing in server/inner.rs does to the numbers of publishers.
use frclib_nettables.Base.{ℕ, ◌≡◌, refl, ◌∙◌, ap, sym, arith, some, Bool-cases, inl, inr, ◌==◌}
use frclib_nettables.Base.Map.{Map, nat_key, text_key, lookup}
use frclib_nettables.Server.Announce.{announce_topic}
use frclib_nettables.Server.Announce.Frame.{announce_topic-Frame}
use frclib_nettables.Server.Clients.{server_client_idx}
use frclib_nettables.Server.Publish.{update_publishers, enter_publisher, inner_publish_topic}
use frclib_nettables.Server.Topics.Effects.{IsKnown, Kept, add_topic-Enters}
use frclib_nettables.Base.Text.{Text}
use frclib_nettables.Server.State.{InnerServer}
use frclib_nettables.Server.State.Frame.{Frame}
use frclib_nettables.Server.State.Holds.{
  Holds, Keeps, Holds-bind, Holds-ok_or, Holds-pure, Holds-fail, Holds-gets, Holds-weaken,
  Holds-with_client, ok-ne-panicked,
}
use frclib_nettables.Server.Topics.{add_topic, add_topic_fuel}
use frclib_nettables.Spec.Error.{ok}
use frclib_nettables.Spec.Messages.{PublishTopic, from_publish_topic}
use frclib_nettables.Spec.MetaTopic.{MetaTopicValue, ClientPublisherMte, merge}
use frclib_nettables.Spec.Topic.{Topic}
use frclib_nettables.Spec.Wire.{Wire}

module _ {V : Type 0} where
  -- The topics, their values and the numbers of their publishers are as they were.
  abbrev pub SameTopics : InnerServer V → InnerServer V → Type 0
  SameTopics s t =
      (t.pub_count ≡ s.pub_count)
      × (t.topics ≡ s.topics)
      × (t.topic_map ≡ s.topic_map)
      × (t.counters ≡ s.counters)
      × (t.topic_value_map ≡ s.topic_value_map)

  Frame-SameTopics : (s t : InnerServer V) → Frame s t → SameTopics s t
  Frame-SameTopics s t e = (
    ap (λ (x : InnerServer V). x.pub_count) e,
    ap (λ (x : InnerServer V). x.topics) e,
    ap (λ (x : InnerServer V). x.topic_map) e,
    ap (λ (x : InnerServer V). x.counters) e,
    ap (λ (x : InnerServer V). x.topic_value_map) e,
  )

  update_publishers-SameTopics :
      (s : InnerServer V) (change : MetaTopicValue → MetaTopicValue → MetaTopicValue)
      (mte : ClientPublisherMte) (c : ℕ) (t : InnerServer V)
      → SameTopics s t
      → Keeps (SameTopics s) (update_publishers change mte c t)
  unfolding update_publishers
  update_publishers-SameTopics s change mte c t v = elim (Bool-cases (c == server_client_idx)) [
    | inl server ↦ rw server (Holds-pure _ _ v)
    | inr external ↦
        rw external (Holds-gets _ _ t (Holds-ok_or _ _ _ t (λ _. v) λ (p, q) e. Holds-pure _ _ v))
  ]

  add_topic-known :
      (w : Wire V) (topic : Topic) (i : ℕ) (s : InnerServer V)
      → lookup topic.name s.topic_map ≡ some i
      → add_topic w topic s ≡ (ok i, s)
  unfolding add_topic add_topic_fuel
  add_topic-known w topic i s e = rw (e, add_topic_fuel) refl

  -- Once the topic is there, publishing changes neither topics nor names.
  enter_publisher-SameTopics :
      (w : Wire V) (msg : PublishTopic) (c i : ℕ) (t : InnerServer V)
      → Holds (λ j x. (j ≡ i) × SameTopics t x) (SameTopics t) (enter_publisher w msg c i t)
  unfolding enter_publisher
  enter_publisher-SameTopics w msg c i t =
      Holds-bind (λ _ x. SameTopics t x) _ _ t announced
        λ _ x y.
          Holds-bind (λ _ x. SameTopics t x) _ _ x
            (Holds-with_client c _ _ x (λ _. Holds-fail _ _ y) (λ _. ok-ne-panicked) (λ _. y)
              (λ _. y))
            λ _ z q.
              Holds-bind (λ _ x. SameTopics t x) _ _ z
                (update_publishers-SameTopics t merge
                  (record { topic = msg.name; uid = msg.pubuid }) c z q)
                λ _ z' q'. Holds-pure _ _ (refl, q')
    where
      announced : Keeps (SameTopics t) (announce_topic w i (some (msg.pubuid, c)) t)
      announced =
          Holds-weaken (λ _ x. Frame t x) (Frame t) _ (λ _ x f. Frame-SameTopics t x f)
            (λ x f. Frame-SameTopics t x f) (announce_topic-Frame w i _ t)

  -- A further publisher of a topic that there is gets the index of the topic. It adds no topic, and
  -- it is not counted: the number of publishers stays as it was.
  pub inner_publish_topic-known :
      (w : Wire V) (msg : PublishTopic) (c i : ℕ) (s : InnerServer V)
      → lookup msg.name s.topic_map ≡ some i
      → Holds (λ j t. (j ≡ i) × SameTopics s t) (SameTopics s) (inner_publish_topic w msg c s)
  unfolding inner_publish_topic from_publish_topic
  inner_publish_topic-known w msg c i s e =
      Holds-bind (λ j t. (j ≡ i) × (t ≡ s)) _ _ s
        (rw (add_topic-known w (from_publish_topic msg) i s e) (record { ends = (refl, refl) }))
        λ j t (same, u). rw (same, u) (enter_publisher-SameTopics w msg c i s)

  -- Publishing a topic makes its name known, whether it succeeds or fails, and every name that was
  -- known before leads where it led.
  pub inner_publish_topic-enters :
      (w : Wire V) (msg : PublishTopic) (c : ℕ) (s : InnerServer V)
      → Keeps (λ t. Kept s t × IsKnown msg.name t) (inner_publish_topic w msg c s)
  unfolding inner_publish_topic from_publish_topic
  inner_publish_topic-enters w msg c s =
      Holds-bind (λ i t. Kept s t × (lookup msg.name t.topic_map ≡ some i)) _ _ s
        (add_topic-Enters w (from_publish_topic msg) s)
        λ i t (kept, here).
          Holds-weaken _ (SameTopics t) _ (λ j x h. after t x kept (λ h. ground (arith, here)) h.1)
            (λ x h. after t x kept (λ h. ground (arith, here)) h)
            (enter_publisher-SameTopics w msg c i t)
    where
      after :
          (t x : InnerServer V)
          → Kept s t
          → IsKnown msg.name t
          → SameTopics t x
          → Kept s x × IsKnown msg.name x
      after t x kept here same =
          let names = ap (λ (m : Map Text ℕ). lookup msg.name m) same.2 in
          (
            λ name known. ap (λ (m : Map Text ℕ). lookup name m) same.2 ∙ kept name known,
            λ h. here (sym names ∙ h),
          )
