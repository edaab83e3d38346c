-- ===== src/Client/Sending.antt =====
-- How the client of client/inner.rs sends messages and values, keeps its clock and opens a
-- connection. Sending waits for room in a channel, which Client/Task accounts for. The crate holds
-- the type of a topic as a text in spec/topic.rs and as a `FrcType` in the client: here it is a
-- text, which `type_of` reads.
pub mod Opening
pub mod Live
pub mod Sent
pub mod Opens
use frclib_nettables.Base.{
  ℕ, Bool, true, false, Option, none, some, List, [], ◌∷◌, ◌++◌, if◌then◌else◌,
}
use frclib_nettables.Base.Int.{ℤ, negsuc}
use frclib_nettables.Base.Map.{Map, lookup}
use frclib_nettables.Base.Text.{Text, codes}
use frclib_nettables.Client.Clock.{client_time, value_timestamp}
use frclib_nettables.Client.Receive.{int_key}
use frclib_nettables.Client.State.{
  InnerClient, HeldSub, C, pure, encoded, expected, gets, attempt, modify, ◌>>=◌, ◌>>◌,
}
use frclib_nettables.Spec.Error.{
  Outcome, ok, err, panicked, NetworkTablesError, serde_json, msg_pack_write,
}
use frclib_nettables.Spec.Extensions.{FrcType, int, as_u8, stringify}
use frclib_nettables.Spec.Messages.{NtMessage, publish, subscribe}
use frclib_nettables.Spec.Subscription.{Subscription, InternalSub}
use frclib_nettables.Spec.Topic.{Topic, PublishedTopic}
use frclib_nettables.Spec.Wire.{Wire, Bytes, Message, text, binary}

-- `UnsignedIntOrNegativeOne` of client/util.rs.
pub data UnsignedIntOrNegativeOne : Type 0 where
  negative_one : UnsignedIntOrNegativeOne
  unsigned_int : ℕ → UnsignedIntOrNegativeOne

-- Further external functions of the client: rmp's for a `u32`, rmpv's integer value, and the type
-- that a text names.
pub record ClientWire (R : Type 0) : Type 0 where
  pub wire : Wire R
  pub write_u32 : ℕ → Option Bytes
  pub integer : ℕ → R
  pub type_of : Text → FrcType

unfoldable pub write_to_buf : {R : Type 0} → ClientWire R → UnsignedIntOrNegativeOne → Option Bytes
write_to_buf w negative_one = w.wire.write_i32 (negsuc 0)
write_to_buf w (unsigned_int u_int) = w.write_u32 u_int

module _ {R : Type 0} where
  -- The error is received once.
  unfoldable pub check_task_panic : C R (Unit {0})
  check_task_panic c = elim c.socket.left [
    | some e ↦ (err e, record c { socket = record c.socket { left = none } })
    | none ↦ (ok tt, c)
  ]

  -- `send(message).await.unwrap()`: the receiver goes with the task.
  unfoldable pub into_socket : Message → C R (Unit {0})
  into_socket message c =
      if c.socket.ended
      then (panicked, c)
      else (ok tt, record c { socket = record c.socket { sent = c.socket.sent ++ message ∷ [] } })

  unfoldable pub send_message : Message → C R (Unit {0})
  unfolding check_task_panic into_socket
  send_message message = do check_task_panic; into_socket message

  module _ (w : ClientWire R) where
    unfoldable pub publish_value_w_timestamp :
        UnsignedIntOrNegativeOne → FrcType → ℕ → R → C R (Unit {0})
    unfolding check_task_panic write_to_buf send_message
    publish_value_w_timestamp id type timestamp value = do
      check_task_panic
      head ← encoded (w.wire.write_array_len 4) msg_pack_write
      uid ← expected (write_to_buf w id)
      time ← encoded (w.wire.write_uint timestamp) msg_pack_write
      code ← encoded (w.wire.write_u8 (as_u8 type)) msg_pack_write
      bytes ← encoded (w.wire.write_value value) msg_pack_write
      send_message (binary (head ++ uid ++ time ++ code ++ bytes))

    unfoldable pub publish_value : ℕ → UnsignedIntOrNegativeOne → FrcType → R → C R (Unit {0})
    unfolding publish_value_w_timestamp
    publish_value now id type value = do
      timestamp ← gets (value_timestamp now)
      publish_value_w_timestamp id type timestamp value

    unfoldable pub update_time : ℕ → C R (Unit {0})
    unfolding publish_value_w_timestamp
    update_time now = do
      time_topic ← gets (λ c. lookup (negsuc 0) c.announced_topics)
      time ← gets (client_time now)
      elim time_topic [
        | some topic ↦
            publish_value_w_timestamp negative_one (w.type_of topic.type) 0 (w.integer time)
        | none ↦ pure tt
      ]

  unfoldable pub reset_time : ℕ → InnerClient R → InnerClient R
  reset_time now c = record c { server_time_offset = 0; start_instant = now }

-- The first topic that a client knows.
abbrev pub time_topic : Topic
time_topic = record { name = codes "Time"; type = stringify int; properties = none }

unfoldable pub publish_of : PublishedTopic → NtMessage
publish_of topic = publish (record {
  name = topic.name;
  pubuid = topic.pubuid;
  type = topic.type;
  properties = topic.properties;
})

unfoldable pub subscribe_of : Subscription → NtMessage
subscribe_of sub =
    subscribe (record { subuid = sub.subuid; topics = sub.topics; options = sub.options })

publish_messages : Map ℕ PublishedTopic → List NtMessage
unfolding publish_of
publish_messages [] = []
publish_messages ((id, topic) ∷ published) = publish_of topic ∷ publish_messages published

-- `retain(|_, sub| sub.is_valid())`.
pub retain_valid : {R : Type 0} → Map ℤ (HeldSub R) → Map ℤ (HeldSub R)
retain_valid [] = []
retain_valid ((id, held) ∷ subs) =
    let rest = retain_valid subs in
    elim held.sub.subscription [ some _ ↦ (id, held) ∷ rest | none ↦ rest ]

-- `filter_map` of the subscriptions that the user still holds.
unfoldable pub subscribe_messages : {R : Type 0} → Map ℤ (HeldSub R) → List NtMessage
unfolding subscribe_of
subscribe_messages [] = []
subscribe_messages ((id, held) ∷ subs) =
    let rest = subscribe_messages subs in
    elim held.sub.subscription [ some sub ↦ subscribe_of sub ∷ rest | none ↦ rest ]

-- What is sent on a new connection.
unfoldable pub opening_messages : {R : Type 0} → InnerClient R → List NtMessage
unfolding publish_messages subscribe_messages
opening_messages c =
    publish_messages c.client_published_topics ++ subscribe_messages c.subscriptions

unfoldable pub on_open : {R : Type 0} → ClientWire R → ℕ → C R (Unit {0})
unfolding retain_valid opening_messages
on_open w now = do
  modify (λ c. record c {
    announced_topics = (negsuc 0, time_topic) ∷ [];
    subscriptions = retain_valid c.subscriptions;
  })
  messages ← gets opening_messages
  modify (reset_time now)
  attempt (update_time w now)
  json ← expected (w.wire.to_json messages)
  attempt (send_message (text json))
