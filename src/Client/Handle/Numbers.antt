-- ===== src/Client/Handle/Numbers.antt =====
-- The ids that a client of client/async_handle.rs gives out.
use frclib_nettables.Base.{
  ℕ, ◌+◌, ◌^◌, ◌≤◌, ◌<◌, ◌≡◌, ◌≢◌, sym, ap, ◌∙◌, subst, Option, none, some, Option-cases, In, arith,
  inl, inr, if_neg,
}
use frclib_nettables.Base.Map.{
  Map, nat_key, lookup, insert, lookup-insert, lookup-insert_same, In-of_lookup, In-insert,
}
use frclib_nettables.Base.Text.{Text}
use frclib_nettables.Client.Clock.{new_topic_id}
use frclib_nettables.Client.Handle.{keep_published, publish_topic}
use frclib_nettables.Client.Handle.Effects.{publish_topic-ok}
use frclib_nettables.Client.Sending.{ClientWire}
use frclib_nettables.Client.State.{InnerClient}
use frclib_nettables.Spec.Error.{ok}
use frclib_nettables.Spec.Extensions.{FrcType}
use frclib_nettables.Spec.Topic.{PublishedTopic, PublishProperties}

-- No id of a published topic is larger than the counter.
abbrev pub IsNumbered : {R : Type 0} → InnerClient R → Type 0
IsNumbered c =
    (i : ℕ) (t : PublishedTopic) → In (i, t) c.client_published_topics → i ≤ c.topic_counter

module _ {R : Type 0} where
  lookup-fresh :
      (c : InnerClient R) (i : ℕ)
      → IsNumbered c
      → c.topic_counter < i
      → lookup i c.client_published_topics ≡ none
  lookup-fresh c i numbered fresh = elim (Option-cases (lookup i c.client_published_topics)) [
    | inl e ↦ e
    | inr (t, e) ↦
        absurd (omega (arith, numbered i t (In-of_lookup i t c.client_published_topics e), fresh))
  ]

  new_topic_id-next :
      (c : InnerClient R)
      → c.topic_counter + 1 < 2 ^ 32
      → ((new_topic_id c).0 ≡ c.topic_counter + 1)
        × ((new_topic_id c).1.topic_counter ≡ c.topic_counter + 1)
  unfolding new_topic_id
  new_topic_id-next c room = ground arith

  -- As long as the counter does not start again, a topic that is published by a client whose topics
  -- all have ids up to the counter gets an id that no
  -- published topic of the client has, is found under it, and leaves the other topics in place.
  pub publish_topic-fresh :
      (w : ClientWire R) (name : Text) (type : FrcType) (properties : Option PublishProperties)
      (c d : InnerClient R) (topic : PublishedTopic)
      → c.topic_counter + 1 < 2 ^ 32
      → IsNumbered c
      → publish_topic w name type properties c ≡ (ok topic, d)
      → (lookup topic.pubuid c.client_published_topics ≡ none)
        × (lookup topic.pubuid d.client_published_topics ≡ some topic)
        × ((i : ℕ)
            → i ≢ topic.pubuid
            → lookup i d.client_published_topics ≡ lookup i c.client_published_topics)
        × IsNumbered d
  unfolding new_topic_id keep_published
  publish_topic-fresh w name type properties c d topic room numbered h =
      let (json, same, e, f) = publish_topic-ok w name type properties c d topic h in
      let (next, count) = new_topic_id-next c room in
      let id : topic.pubuid ≡ c.topic_counter + 1 = ap (λ t. t.pubuid) same ∙ next in
      let map_of : d.client_published_topics ≡ insert topic.pubuid topic c.client_published_topics =
        ap (λ x. x.client_published_topics) f in
      let counter : d.topic_counter ≡ c.topic_counter + 1 = ap (λ x. x.topic_counter) f ∙ count in
      (
        lookup-fresh c topic.pubuid numbered (omega (arith, id)),
        ap (λ (m : Map ℕ PublishedTopic). lookup topic.pubuid m) map_of
            ∙ lookup-insert_same topic.pubuid topic c.client_published_topics,
        λ i other.
            ap (λ (m : Map ℕ PublishedTopic). lookup i m) map_of
            ∙ lookup-insert topic.pubuid i topic c.client_published_topics
            ∙ if_neg (nat_key.decide topic.pubuid i) (λ e. other (sym e)) (some topic) _,
        λ i t m.
            let here = subst (λ (m : Map ℕ PublishedTopic). In (i, t) m) map_of m in
            elim (In-insert topic.pubuid i topic t c.client_published_topics here) [
              | inl (e, _) ↦ omega (arith, e, id, counter)
              | inr (_, before) ↦ omega (arith, numbered i t before, counter)
            ],
      )
