-- ===== src/Server/Locks/Operations.antt =====
-- Which mutexes the operations of server/inner.rs and the tasks of server/runner.rs take, in order.
use frclib_nettables.Base.{Bool, if◌then◌else◌, List, [], ◌∷◌}
use frclib_nettables.Server.Locks.{
  Action, acquire, release, returns, briefly, clients, topic_map, topic_sub_map, topic_value_map,
  topics, pub_count, counters, client_map, metatopic_value_map, client_metatopic_map,
  sub_send_timestamps, sub_values, subscriptions,
}

pub data Operation : Type 0 where
  -- Whether the names of the two metatopics of the client are known.
  connect_client : Bool → Bool → Operation
  subscribe : Operation
  unsubscribe : Operation
  set_properties : Operation
  un_announce_topics : Operation
  inner_publish_topic : Operation
  publish_again : Operation
  inner_unpublish_topic : Operation
  disconnect_client : Operation
  get_topic_idx : Operation
  get_value : Operation
  flush_client : Operation
  set_value : Operation
  receive_value : Operation
  send_out : Operation

-- `add_topic` of a metatopic.
abbrev add_metatopic : List Action → List Action
add_metatopic rest = briefly topic_map (
    acquire topics
    ∷ briefly counters
        (release topics ∷ briefly pub_count (briefly topic_map (briefly topic_sub_map rest))))

-- `announce_topic` for nobody in particular, and with an answer to a client.
abbrev announcing : List Action → List Action
announcing rest = briefly topics (briefly subscriptions (briefly clients rest))

abbrev answering : List Action → List Action
answering rest =
    acquire topics ∷ briefly clients (release topics ∷ briefly subscriptions (briefly clients rest))

-- `add_topic` of a new topic that is no metatopic.
abbrev add_new_topic : List Action → List Action
add_new_topic rest = add_metatopic (add_metatopic (announcing (add_metatopic (announcing rest))))

-- The metatopic of a client that is not the server.
abbrev merging : List Action → List Action
merging rest =
    acquire client_metatopic_map ∷ briefly metatopic_value_map (release client_metatopic_map ∷ rest)

-- `remove_topic`, the last three until it returns.
abbrev removing : List Action → List Action
removing rest =
    acquire topics
    ∷ acquire topic_map
    ∷ release topics
    ∷ release topic_map
    ∷ acquire topic_sub_map
    ∷ acquire topic_value_map
    ∷ acquire metatopic_value_map
    ∷ release metatopic_value_map
    ∷ release topic_value_map
    ∷ release topic_sub_map
    ∷ rest

abbrev setting : List Action → List Action
setting rest = briefly topics (
    acquire sub_values
    ∷ acquire topic_sub_map
    ∷ release topic_sub_map
    ∷ release sub_values
    ∷ briefly topic_value_map rest)

-- `add_topic` of a metatopic, whose name may be known.
abbrev enter_metatopic : Bool → List Action → List Action
enter_metatopic known rest = if known then briefly topic_map rest else add_metatopic rest

-- The whole way through each operation.
abbrev pub connect_client_locks : Bool → Bool → List Action
connect_client_locks pub_known sub_known = briefly client_map (
    acquire clients
    ∷ acquire counters
    ∷ briefly client_map (
        briefly metatopic_value_map (
          release clients
          ∷ release counters
          ∷ enter_metatopic pub_known
              (enter_metatopic sub_known (briefly client_metatopic_map (returns ∷ []))))))

abbrev pub subscribe_locks : List Action
subscribe_locks =
    acquire clients
    ∷ acquire topic_map
    ∷ acquire topic_sub_map
    ∷ acquire topic_value_map
    ∷ briefly counters (
        acquire topics
        ∷ briefly sub_send_timestamps (briefly sub_values (briefly subscriptions (returns ∷ []))))

abbrev pub unsubscribe_locks : List Action
unsubscribe_locks =
    acquire clients
    ∷ acquire topic_sub_map
    ∷ briefly subscriptions (briefly sub_values (briefly sub_send_timestamps (returns ∷ [])))

abbrev pub set_properties_locks : List Action
set_properties_locks = briefly topic_map (briefly topics (returns ∷ []))

abbrev pub un_announce_topics_locks : List Action
un_announce_topics_locks = acquire clients ∷ returns ∷ []

-- A client with a new topic, and the server itself with one that there is.
abbrev pub inner_publish_topic_locks : List Action
inner_publish_topic_locks = add_new_topic (answering (briefly clients (merging (returns ∷ []))))

abbrev pub publish_again_locks : List Action
publish_again_locks =
    briefly topic_map (answering (briefly clients (briefly metatopic_value_map (returns ∷ []))))

-- With the last publisher of a topic.
abbrev pub inner_unpublish_topic_locks : List Action
inner_unpublish_topic_locks =
    acquire clients
    ∷ briefly topics (release clients ∷ acquire pub_count ∷ removing (merging (returns ∷ [])))

-- With a client that is the last publisher of one topic. The guard of the scrutinee of a `match` or
-- an `if let` lives as long as that.
abbrev pub disconnect_client_locks : List Action
disconnect_client_locks = briefly client_map (
    acquire clients
    ∷ acquire pub_count
    ∷ removing (
        release pub_count
        ∷ briefly client_metatopic_map (removing (removing (release clients ∷ returns ∷ [])))))

abbrev pub get_topic_idx_locks : List Action
get_topic_idx_locks = briefly topic_map (returns ∷ [])

abbrev pub get_value_locks : List Action
get_value_locks = briefly topic_value_map (returns ∷ [])

abbrev pub flush_client_locks : List Action
flush_client_locks = acquire clients ∷ returns ∷ []

abbrev pub set_value_locks : List Action
set_value_locks = setting (returns ∷ [])

abbrev pub receive_value_locks : List Action
receive_value_locks = acquire clients ∷ setting (returns ∷ [])

abbrev pub send_out_locks : List Action
send_out_locks =
    acquire subscriptions
    ∷ acquire sub_values
    ∷ acquire sub_send_timestamps
    ∷ acquire clients
    ∷ release subscriptions
    ∷ release sub_send_timestamps
    ∷ release sub_values
    ∷ release clients
    ∷ []

unfoldable pub locks_of : Operation → List Action
locks_of (connect_client pub_known sub_known) = connect_client_locks pub_known sub_known
locks_of subscribe = subscribe_locks
locks_of unsubscribe = unsubscribe_locks
locks_of set_properties = set_properties_locks
locks_of un_announce_topics = un_announce_topics_locks
locks_of inner_publish_topic = inner_publish_topic_locks
locks_of publish_again = publish_again_locks
locks_of inner_unpublish_topic = inner_unpublish_topic_locks
locks_of disconnect_client = disconnect_client_locks
locks_of get_topic_idx = get_topic_idx_locks
locks_of get_value = get_value_locks
locks_of flush_client = flush_client_locks
locks_of set_value = set_value_locks
locks_of receive_value = receive_value_locks
locks_of send_out = send_out_locks
