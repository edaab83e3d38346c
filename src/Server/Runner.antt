-- ===== src/Server/Runner.antt =====
-- server/runner.rs: what the task that parses messages does with one message, and one pass of the
-- task that sends values out. The sockets, the channels between the tasks and the sleeps are left
-- out. A panic ends a task, so nothing after it is done.
pub mod Wf
pub mod Due
pub mod Sending
use mathlib.Core.Option
use frclib_nettables.Base.{
  ℕ, ◌+◌, ◌-◌, ◌<◌, ◌^◌, Bool, true, false, Option, none, some, List, [], ◌∷◌, ◌++◌, unwrap_or, ltb,
  leb, if◌then◌else◌, ◌||◌,
}
use frclib_nettables.Base.Int.{ℤ, as_i32, pos}
use frclib_nettables.Base.Map.{Map, nat_key, lookup, insert, adjust}
use frclib_nettables.BiMap.{get_by_left}
use frclib_nettables.Server.Clients.{disconnect_client}
use frclib_nettables.Server.Connected.{ConnectedClient, send_binary}
use frclib_nettables.Server.Publish.{inner_publish_topic, inner_unpublish_topic}
use frclib_nettables.Server.State.{
  InnerServer, M, pure, fail, panic, ok_or, unwrap, gets, modify, with_client, ◌>>=◌, ◌>>◌,
}
use frclib_nettables.Server.Subscribe.{subscribe, unsubscribe}
use frclib_nettables.Server.Util.{
  ClientMsg, ServerSendableValue, StoredSubValue, sendable_as_bytes, take_values,
}
use frclib_nettables.Server.Values.{set_properties, set_value}
use frclib_nettables.Spec.Error.{Outcome, ok, err, panicked}
use frclib_nettables.Spec.Messages.{
  NtMessage, publish, unpublish, subscribe as subscribe_msg, unsubscribe as unsubscribe_msg,
  set_properties as set_properties_msg, close,
}
use frclib_nettables.Spec.Subscription.{Subscription, default_options}
use frclib_nettables.Spec.Wire.{Wire, Bytes, Message, text, binary}

-- rmp_serde's decoder and rmpv's values, of an unknown type `R`. `read_all` gives what `from_read`
-- gives until its first error: the elements of an array, or `none` for any other value.
pub record Msgpack (R V : Type 0) : Type 0 where
  pub read_all : Bytes → List (Option (List R))
  pub as_u64 : R → Option ℕ
  pub try_value : R → Option V

module _ {V : Type 0} where
  -- `if let Err(e) = … { tracing::warn!(…) }`.
  unfoldable pub warn : {A : Type 0} → M V A → M V (Unit {0})
  warn m s =
      let (r, s') = m s in
      elim r [ ok a ↦ (ok tt, s') | err e ↦ (ok tt, s') | panicked ↦ (panicked, s') ]

  -- One message of a text frame; `now` is the clock's instant.
  unfoldable pub dispatch : Wire V → ℕ → ℕ → NtMessage → M V (Unit {0})
  unfolding warn
  dispatch w now client_idx (publish pub_topic) = warn (inner_publish_topic w pub_topic client_idx)
  dispatch w now client_idx (unpublish pub_topic) =
      warn (inner_unpublish_topic pub_topic client_idx)
  dispatch w now client_idx (set_properties_msg set_props) = warn (set_properties set_props)
  dispatch w now client_idx (subscribe_msg sub) = warn (subscribe w now sub client_idx)
  dispatch w now client_idx (unsubscribe_msg unsub) = warn (unsubscribe unsub client_idx)
  dispatch w now client_idx (close ident) =
      warn (disconnect_client (record { addr = ident.addr; name = ident.name }))
  dispatch w now client_idx _ = pure tt

  unfoldable pub dispatch_all : Wire V → ℕ → ℕ → List NtMessage → M V (Unit {0})
  dispatch_all w now client_idx [] = pure tt
  dispatch_all w now client_idx (msg ∷ msgs) = do
    dispatch w now client_idx msg
    dispatch_all w now client_idx msgs

-- `pop_back`.
unfoldable pub last : {A : Type 0} → List A → Option A
last [] = none
last (x ∷ []) = some x
last (x ∷ y ∷ xs) = last (y ∷ xs)

-- `u32::try_from`, and `i32::try_from` of a `u32`.
try_u32 : ℕ → Option ℕ
try_u32 n = if ltb n (2 ^ 32) then some n else none

try_i32 : ℕ → Option ℤ
try_i32 n = if ltb n (2 ^ 31) then some (pos n) else none

module _ {R V : Type 0} (p : Msgpack R V) where
  -- The id, the timestamp and the value of an array; `none` is a failed `expect`.
  unfoldable pub read_value : List R → Option (ℕ × ℕ × V)
  unfolding last try_u32
  read_value (id ∷ time ∷ rest) = Option.bind (Option.bind (p.as_u64 id) try_u32) λ topic_uid.
      Option.bind (p.as_u64 time) λ timestamp.
        Option.bind (Option.bind (last rest) p.try_value)
          λ value. some (topic_uid, timestamp, value)
  read_value _ = none

  -- One value of a binary frame.
  unfoldable pub receive_value : ℕ → Option (List R) → M V (Unit {0})
  unfolding read_value warn
  receive_value client_idx none s = (ok tt, s)
  receive_value client_idx (some array) s = elim (read_value array) [
    | none ↦ (panicked, s)
    | some (topic_uid, timestamp, value) ↦ elim (lookup client_idx s.clients) [
      | none ↦ (ok tt, s)
      | some connected ↦ elim (get_by_left topic_uid connected.pubuid_to_topicidx) [
        | none ↦ (ok tt, s)
        | some topic_idx ↦
            warn (set_value (record { timestamp = timestamp; value = value }) topic_idx) s
      ]
    ]
  ]

  unfoldable pub receive_all : ℕ → List (Option (List R)) → M V (Unit {0})
  receive_all client_idx [] = pure tt
  receive_all client_idx (item ∷ items) = do
    receive_value client_idx item
    receive_all client_idx items

  -- One round of `parse_in`; a text that is no list of messages is passed over.
  unfoldable pub parse_in : Wire V → ℕ → ClientMsg → M V (Unit {0})
  parse_in w now cmsg = elim cmsg.msg [
    | text json ↦ elim (w.from_json json) [
      | some msgs ↦ dispatch_all w now cmsg.client_idx msgs
      | none ↦ pure tt
    ]
    | binary bytes ↦ receive_all cmsg.client_idx (p.read_all bytes)
    | _ ↦ pure tt
  ]

  -- The messages of a run, each with the instant at which it is read.
  unfoldable pub parse_all : Wire V → List (ℕ × ClientMsg) → M V (Unit {0})
  parse_all w [] = pure tt
  parse_all w ((now, cmsg) ∷ cmsgs) = do parse_in w now cmsg; parse_all w cmsgs

-- `(elapsed - periodic).abs() < 0.001`, in microseconds.
unfoldable pub is_near : ℕ → ℕ → Bool
is_near elapsed periodic = ltb (elapsed - periodic + (periodic - elapsed)) 1000

-- `options.periodic.unwrap_or(0.1)`, in microseconds.
unfoldable pub period_of : Subscription → ℕ
period_of subscription = unwrap_or (unwrap_or subscription.options default_options).periodic 100000

unfoldable pub topics_only_of : Subscription → Bool
topics_only_of subscription =
    unwrap_or (unwrap_or subscription.options default_options).topics_only false

module _ {V : Type 0} (w : Wire V) where
  -- The values of one topic in one frame; `none` is a failed `expect`.
  encode_values : ℕ → ℕ → List (ServerSendableValue V) → Option Bytes
  unfolding try_i32
  encode_values now topic_idx [] = some []
  encode_values now topic_idx (val ∷ vals) = Option.bind (try_i32 topic_idx) λ id.
      elim (sendable_as_bytes ⦃w = w⦄ now val id) [
        | ok bytes ↦ Option.bind (encode_values now topic_idx vals) λ rest. some (bytes ++ rest)
        | err e ↦ none
        | panicked ↦ none
      ]

  -- `for value in values_to_send`; a failed send is passed over.
  send_values : ℕ → ℕ → Map ℕ (List (ServerSendableValue V)) → M V (Unit {0})
  unfolding encode_values warn
  send_values now client_idx [] = pure tt
  send_values now client_idx ((topic_idx, vals) ∷ rest) = do
    buf ← unwrap (encode_values now topic_idx vals)
    warn (with_client client_idx (pure tt) (send_binary buf))
    send_values now client_idx rest

  -- A subscription that is served: its values are taken and sent to its client, if it is there.
  serve : ℕ → ℕ → ℕ → M V (Unit {0})
  unfolding send_values
  serve now sub_idx client_idx = do
    modify (λ s. record s { sub_send_timestamps = insert sub_idx now s.sub_send_timestamps })
    connected ← gets (λ s. lookup client_idx s.clients)
    elim connected [
      | none ↦ pure tt
      | some _ ↦ (do
        stored ← unwrap (← gets (λ s. lookup sub_idx s.sub_values))
        modify (λ s. record s {
          sub_values = adjust sub_idx (λ stored. (take_values stored).1) s.sub_values;
        })
        send_values now client_idx (take_values stored).0)
    ]

  -- One subscription in a pass of `send_out`.
  visit : ℕ → ℕ → Subscription → ℕ → M V (Unit {0})
  unfolding serve
  visit now sub_idx subscription client_idx = if topics_only_of subscription then pure tt else (do
    send_instant ← unwrap (← gets (λ s. lookup sub_idx s.sub_send_timestamps))
    if is_near (now - send_instant) (period_of subscription)
        then pure tt
        else serve now sub_idx client_idx)

  visit_all : ℕ → Map ℕ (Subscription × ℕ) → M V (Unit {0})
  unfolding visit
  visit_all now [] = pure tt
  visit_all now ((sub_idx, (subscription, client_idx)) ∷ rest) = do
    visit now sub_idx subscription client_idx
    visit_all now rest

  -- One pass over the subscriptions; the instant does not move within it.
  unfoldable pub send_out : ℕ → M V (Unit {0})
  unfolding visit_all
  send_out now = do subs ← gets (λ s. s.subscriptions); visit_all now subs
