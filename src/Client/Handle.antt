-- ===== src/Client/Handle.antt =====
-- `AsyncClientHandle` of client/async_handle.rs: the operations of a client that its user calls. A
-- stream that the user holds is its subscription, with the channel in the client's map.
pub mod Names
pub mod Effects
pub mod Published
pub mod Numbers
pub mod Subscribed
use frclib_nettables.Base.{
  ℕ, Bool, true, false, not, ◌&&◌, Option, none, some, List, [], ◌∷◌, ◌++◌, map, retain, ◌==◌,
  if◌then◌else◌,
}
use frclib_nettables.Base.Int.{ℤ, pos}
use frclib_nettables.Base.Map.{Map, nat_key, insert, remove}
use frclib_nettables.Base.Text.{Text}
use frclib_nettables.Client.Clock.{new_topic_id, new_sub_id}
use frclib_nettables.Client.Receive.{int_key}
use frclib_nettables.Client.Sending.{
  ClientWire, send_message, unsigned_int, publish_value as inner_publish_value,
  publish_value_w_timestamp as inner_publish_value_w_timestamp, publish_of, subscribe_of,
}
use frclib_nettables.Client.State.{
  InnerClient, HeldSub, MessageData, C, pure, encoded, modify, ◌>>=◌, ◌>>◌,
}
use frclib_nettables.Spec.Error.{Outcome, ok, err, panicked, serde_json}
use frclib_nettables.Spec.Extensions.{FrcType, stringify}
use frclib_nettables.Spec.Messages.{NtMessage, set_properties, unsubscribe, as_unpublish}
use frclib_nettables.Spec.Subscription.{Subscription, SubscriptionOptions}
use frclib_nettables.Spec.Topic.{PublishedTopic, PublishProperties}
use frclib_nettables.Spec.Wire.{text}

-- `replace("//", "")`: from left to right, and each match is left behind.
unfoldable pub remove_double : Text → Text
remove_double [] = []
remove_double (c ∷ []) = c ∷ []
remove_double (c ∷ d ∷ rest) = elim (c == b'/' && d == b'/') [
  | true ↦ remove_double rest
  | false ↦ c ∷ remove_double (d ∷ rest)
]

abbrev pub slash_for_colon : ℕ → ℕ
slash_for_colon c = if c == b':' then b'/' else c

unfoldable pub clean_name : Text → Text
unfolding remove_double
clean_name name = map slash_for_colon (remove_double (retain (λ c. not (c == b'$')) name))

-- `SubscriptionStream::as_unsubscribe` of spec/subscription.rs.
unfoldable pub as_unsubscribe : Subscription → NtMessage
as_unsubscribe sub = unsubscribe (record { subuid = sub.subuid })

-- The next value of a stream, as `next` and `try_next` of spec/subscription.rs take it.
unfoldable pub next_value : {R : Type 0} → HeldSub R → Option (MessageData R) × HeldSub R
next_value held = elim held.queue [
  | [] ↦ (none, held)
  | message ∷ rest ↦ (some message, record held { queue = rest })
]

-- The messages of `publish_topic`.
unfoldable pub publishing : PublishedTopic → List NtMessage
unfolding publish_of
publishing topic = elim topic.properties [
  | some properties ↦
      publish_of topic ∷ set_properties (record { name = topic.name; update = properties }) ∷ []
  | none ↦ publish_of topic ∷ []
]

abbrev pub data_of : ℤ → List Text → Option SubscriptionOptions → Subscription
data_of subuid topic_names options = record {
  subuid = subuid;
  topics = topic_names;
  options = options;
}

-- The next id, and the counter moves on.
unfoldable pub take_id : {R A : Type 0} → (InnerClient R → A × InnerClient R) → C R A
take_id next c = let (id, c') = next c in (ok id, c')

unfoldable pub keep_published : {R : Type 0} → PublishedTopic → InnerClient R → InnerClient R
keep_published topic c = record c {
  client_published_topics = insert topic.pubuid topic c.client_published_topics;
}

module _ {R : Type 0} (w : ClientWire R) where
  -- `serde_json::to_string(..)?`, and the text is sent.
  unfoldable pub send_messages : List NtMessage → C R (Unit {0})
  send_messages messages = do
    json ← encoded (w.wire.to_json messages) serde_json
    send_message (text json)

  unfoldable pub publish_topic : Text → FrcType → Option PublishProperties → C R PublishedTopic
  unfolding take_id send_messages publishing clean_name
  publish_topic name topic_type properties = do
    pubuid ← take_id new_topic_id
    let topic : PublishedTopic = record {
      name = clean_name name;
      pubuid = pubuid;
      type = stringify topic_type;
      properties = properties;
    }
    send_messages (publishing topic)
    modify (keep_published topic)
    pure topic

  unfoldable pub unpublish : PublishedTopic → C R (Unit {0})
  unfolding send_messages
  unpublish topic = send_messages (as_unpublish topic ∷ [])

  -- The set of the topics' names is a list.
  unfoldable pub subscribe_w_options : List Text → Option SubscriptionOptions → C R Subscription
  unfolding take_id send_messages
  subscribe_w_options topic_names options = do
    subuid ← take_id new_sub_id
    let stream = data_of (pos subuid) topic_names options
    send_messages (subscribe_of stream ∷ [])
    modify (λ c. record c {
      subscriptions =
          insert (pos subuid)
            (record {
              sub = record { subscription = some stream };
              queue = [];
              capacity = 256;
              closed = false;
            })
            c.subscriptions;
    })
    pure stream

  unfoldable pub subscribe : List Text → C R Subscription
  unfolding subscribe_w_options
  subscribe topic_names = subscribe_w_options topic_names none

  unfoldable pub unsubscribe_stream : Subscription → C R (Unit {0})
  unfolding send_messages as_unsubscribe
  unsubscribe_stream sub = do
    send_messages (as_unsubscribe sub ∷ [])
    modify (λ c. record c { subscriptions = remove sub.subuid c.subscriptions })

  unfoldable pub publish_value_w_timestamp : PublishedTopic → FrcType → ℕ → R → C R (Unit {0})
  publish_value_w_timestamp topic type timestamp value =
      inner_publish_value_w_timestamp w (unsigned_int topic.pubuid) type timestamp value

  unfoldable pub publish_value : ℕ → PublishedTopic → FrcType → R → C R (Unit {0})
  publish_value now topic type value =
      inner_publish_value w now (unsigned_int topic.pubuid) type value
