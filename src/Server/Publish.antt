-- ===== src/Server/Publish.antt =====
-- `inner_publish_topic` and `inner_unpublish_topic` of server/inner.rs.
pub mod Wf
pub mod Effects
use frclib_nettables.Base.{ℕ, Bool, Option, none, some, List, [], ◌∷◌, ◌==◌, if◌then◌else◌}
use frclib_nettables.Base.Map.{Map, nat_key, lookup, insert, remove}
use frclib_nettables.BiMap.{insert_pair, remove_by_left}
use frclib_nettables.Server.Announce.{announce_topic}
use frclib_nettables.Server.Clients.{
  server_client_idx, server_pub_metatopic, update_or_insert, count_down,
}
use frclib_nettables.Server.Connected.{ConnectedClient}
use frclib_nettables.Server.State.{
  InnerServer, M, pure, fail, ok_or, gets, modify, with_client, ◌>>=◌, ◌>>◌,
}
use frclib_nettables.Server.Topics.{add_topic, remove_topic}
use frclib_nettables.Server.Wording.{
  client_id_text, no_metatopic_text, no_pubuid_text, no_pub_count_text,
}
use frclib_nettables.Spec.Error.{Outcome, ok, client_does_not_exist, topic_does_not_exist}
use frclib_nettables.Spec.Messages.{PublishTopic, UnpublishTopic, from_publish_topic}
use frclib_nettables.Spec.MetaTopic.{
  MetaTopicValue, ClientPublisherMte, client_publisher, server_publisher, merge, reduce,
}
use frclib_nettables.Spec.Topic.{Topic}
use frclib_nettables.Spec.Wire.{Wire}

-- `pubuid_to_topicidx.insert(pubuid, topic_idx)` for a client that there is.
record_publisher : ℕ → ℕ → ConnectedClient → Outcome (Unit {0}) × ConnectedClient
record_publisher pubuid topic_idx connected = (
  ok tt,
  record connected {
    pubuid_to_topicidx = (insert_pair pubuid topic_idx connected.pubuid_to_topicidx).1;
  },
)

-- `pubuid_to_topicidx.remove_by_left(&pubuid)` of a client that there is.
forget_publisher : ℕ → ConnectedClient → Outcome (Unit {0}) × ConnectedClient
forget_publisher pubuid connected = (
  ok tt,
  record connected { pubuid_to_topicidx = (remove_by_left pubuid connected.pubuid_to_topicidx).1 },
)

-- The name of a topic, or the empty text.
topic_name_or_default : Option Topic → List ℕ
topic_name_or_default none = []
topic_name_or_default (some topic) = topic.name

module _ {V : Type 0} where
  -- The metatopics' part of both operations: `change` is `merge` or `reduce`.
  update_publishers :
      (MetaTopicValue → MetaTopicValue → MetaTopicValue) → ClientPublisherMte → ℕ → M V (Unit {0})
  update_publishers change pub_mte client_idx =
      if client_idx == server_client_idx
      then modify (λ s. record s {
        metatopic_value_map =
            update_or_insert server_pub_metatopic (server_publisher [])
              (λ value. change value (server_publisher (pub_mte ∷ []))) s.metatopic_value_map;
      })
      else (do
        (pub_idx, _) ←
            ok_or (← gets (λ s. lookup client_idx s.client_metatopic_map))
              (topic_does_not_exist (no_metatopic_text client_idx))
        modify (λ s. record s {
          metatopic_value_map =
              update_or_insert pub_idx (client_publisher [])
                (λ value. change value (client_publisher (pub_mte ∷ []))) s.metatopic_value_map;
        }))

  -- A topic whose count has reached 0.
  forget_topic : ℕ → M V (Unit {0})
  forget_topic topic_idx = do
    remove_topic topic_idx
    modify (λ s. record s { pub_count = remove topic_idx s.pub_count })

  -- "reduces the pub count for the topic, if reaches 0 remove the topic".
  release_topic : ℕ → M V (Unit {0})
  unfolding forget_topic
  release_topic topic_idx = do
    count ←
        ok_or (← gets (λ s. lookup topic_idx s.pub_count))
          (topic_does_not_exist (no_pub_count_text topic_idx))
    modify (λ s. record s { pub_count = insert topic_idx (count_down count) s.pub_count })
    if count_down count == 0 then forget_topic topic_idx else pure tt

  unfoldable pub inner_unpublish_topic : UnpublishTopic → ℕ → M V (Unit {0})
  unfolding update_publishers release_topic forget_publisher topic_name_or_default
  inner_unpublish_topic pub_topic client_idx = do
    connected ←
        ok_or (← gets (λ s. lookup client_idx s.clients))
          (client_does_not_exist (client_id_text client_idx))
    with_client client_idx (pure tt) (forget_publisher pub_topic.pubuid)
    topic_idx ←
        ok_or (remove_by_left pub_topic.pubuid connected.pubuid_to_topicidx).0
          (topic_does_not_exist (no_pubuid_text pub_topic.pubuid client_idx))
    name ← gets (λ s. topic_name_or_default (lookup topic_idx s.topics))
    release_topic topic_idx
    update_publishers reduce (record { topic = name; uid = pub_topic.pubuid }) client_idx

  -- What `inner_publish_topic` does once the topic is there.
  enter_publisher : (w : Wire V) → PublishTopic → ℕ → ℕ → M V ℕ
  unfolding update_publishers record_publisher
  enter_publisher w pub_topic client_idx topic_idx = do
    announce_topic w topic_idx (some (pub_topic.pubuid, client_idx))
    with_client client_idx (fail (client_does_not_exist (client_id_text client_idx)))
        (record_publisher pub_topic.pubuid topic_idx)
    update_publishers merge (record { topic = pub_topic.name; uid = pub_topic.pubuid }) client_idx
    pure topic_idx

  unfoldable pub inner_publish_topic : (w : Wire V) → PublishTopic → ℕ → M V ℕ
  unfolding enter_publisher
  inner_publish_topic w pub_topic client_idx = do
    topic_idx ← add_topic w (from_publish_topic pub_topic)
    enter_publisher w pub_topic client_idx topic_idx
