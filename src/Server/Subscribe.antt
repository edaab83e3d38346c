-- ===== src/Server/Subscribe.antt =====
-- `subscribe` and `unsubscribe` of server/inner.rs.
pub mod Wf
pub mod Effects
pub mod Joins
use frclib_nettables.Base.{
  ℕ, Bool, true, false, not, Option, none, some, List, [], ◌∷◌, ◌++◌, retain, unwrap_or, ◌==◌,
  if◌then◌else◌,
}
use frclib_nettables.Base.Int.{as_i32, as_u32}
use frclib_nettables.Base.Map.{Map, nat_key, lookup, insert, remove, adjust}
use frclib_nettables.Base.Text.{Text, codes}
use frclib_nettables.BiMap.{insert_pair, remove_by_left}
use frclib_nettables.Server.Connected.{ConnectedClient, send_nt_messages, send_binary}
use frclib_nettables.Server.State.{
  InnerServer, M, pure, fail, ok_or, gets, modify, with_client, ◌>>=◌, ◌>>◌,
}
use frclib_nettables.Server.Topics.{is_meta_name}
use frclib_nettables.Server.Util.{next_sub_idx, StoredSubValue, new_all, new_one}
use frclib_nettables.Server.Wording.{client_id_text, topic_id_text, no_subuid_text}
use frclib_nettables.Spec.Encode.{value_as_bytes}
use frclib_nettables.Spec.Error.{
  Outcome, ok, err, panicked, client_does_not_exist, topic_does_not_exist,
  subscription_does_not_exist,
}
use frclib_nettables.Spec.Extensions.{TimestampedValue, stringify}
use frclib_nettables.Spec.Messages.{Announce, NtMessage, Subscribe, Unsubscribe, announce}
use frclib_nettables.Spec.Subscription.{Subscription, cares_about, default_options}
use frclib_nettables.Spec.Topic.{Topic, default_properties}
use frclib_nettables.Spec.Wire.{Wire, Bytes}

-- The topics that a subscription cares about.
pub interested_topics : Subscription → Map Text ℕ → List (ℕ × Text)
interested_topics subscription [] = []
interested_topics subscription ((topic_name, topic_idx) ∷ names) =
    let rest = interested_topics subscription names in
    if cares_about subscription topic_name then (topic_idx, topic_name) ∷ rest else rest

-- `options.all`, false unless it is given.
pub wants_all : Subscription → Bool
wants_all subscription = unwrap_or (unwrap_or subscription.options default_options).all false

-- `vectr.retain_mut(|elem| *elem != subidx)` for every topic.
pub leave_all : ℕ → Map ℕ (List ℕ) → Map ℕ (List ℕ)
leave_all sub_idx [] = []
leave_all sub_idx ((topic_idx, subs) ∷ m) =
    (topic_idx, retain (λ elem. not (elem == sub_idx)) subs) ∷ leave_all sub_idx m

-- `subuid_to_subidx.remove_by_left(..)` of a client that there is.
forget_subuid : ℕ → ConnectedClient → Outcome (Unit {0}) × ConnectedClient
forget_subuid subuid connected = (
  ok tt,
  record connected { subuid_to_subidx = (remove_by_left subuid connected.subuid_to_subidx).1 },
)

module _ {V : Type 0} (w : Wire V) where
  -- The type that an announcement names; `none` passes the topic over.
  announced_type : Text → Option (TimestampedValue V) → Option Topic → Option Text
  announced_type topic_name value topic =
      if is_meta_name topic_name then some (codes "raw") else (elim value [
        | some timestamped ↦ some (stringify (w.get_type timestamped.value))
        | none ↦ elim topic [ some found ↦ some found.type | none ↦ none ]
      ])

  -- The binary frame of the value that the topic has, if it has one that can be encoded.
  frame_of : ℕ → Option (TimestampedValue V) → Bytes
  frame_of topic_idx none = []
  frame_of topic_idx (some value) = elim (value_as_bytes ⦃w = w⦄ value (as_i32 topic_idx)) [
    | ok buf ↦ buf
    | err e ↦ []
    | panicked ↦ []
  ]

  -- What one topic adds to the announcements and to the values.
  greeting : ℕ → Text → Option (TimestampedValue V) → Option Topic → List NtMessage × Bytes
  unfolding announced_type frame_of
  greeting topic_idx topic_name value topic = elim (announced_type topic_name value topic) [
    | none ↦ ([], [])
    | some type ↦ (
      announce (record {
        name = topic_name;
        id = as_i32 topic_idx;
        type = type;
        pubuid = none;
        properties = elim topic [
          | none ↦ default_properties
          | some found ↦ unwrap_or found.properties default_properties
        ];
      })
          ∷ [],
      frame_of topic_idx value,
    )
  ]

module _ {V : Type 0} where
  -- `topic_sub_map.get_mut(&topic_idx)` and `vectr.push(sub_idx)`.
  join_topic : ℕ → ℕ → M V (Unit {0})
  join_topic sub_idx topic_idx s = elim (lookup topic_idx s.topic_sub_map) [
    | none ↦ fail (topic_does_not_exist (topic_id_text topic_idx)) s
    | some _ ↦ (
      ok tt,
      record s { topic_sub_map = adjust topic_idx (λ subs. subs ++ sub_idx ∷ []) s.topic_sub_map },
    )
  ]

  -- The loop of `subscribe` over the interested topics.
  join_topics : Wire V → ℕ → List (ℕ × Text) → M V (List NtMessage × Bytes)
  unfolding greeting join_topic
  join_topics w sub_idx [] = pure ([], [])
  join_topics w sub_idx ((topic_idx, topic_name) ∷ rest) = do
    join_topic sub_idx topic_idx
    (msg, frame) ← gets (λ s.
        greeting w topic_idx topic_name (lookup topic_idx s.topic_value_map)
          (lookup topic_idx s.topics))
    (msgs, frames) ← join_topics w sub_idx rest
    pure (msg ++ msgs, frame ++ frames)

  -- The maps of a new subscription.
  store_subscription : ℕ → ℕ → Subscription → ℕ → InnerServer V → InnerServer V
  unfolding wants_all
  store_subscription now sub_idx subscription client_idx s = record s {
    sub_send_timestamps = insert sub_idx now s.sub_send_timestamps;
    sub_values = insert sub_idx (if wants_all subscription then new_all else new_one) s.sub_values;
    subscriptions = insert sub_idx (subscription, client_idx) s.subscriptions;
  }

  -- The client learns of the subscription and is sent what it asked for.
  pub greet :
      Wire V
      → ℕ
      → ℕ
      → List NtMessage
      → Bytes
      → ConnectedClient
      → Outcome (Unit {0}) × ConnectedClient
  greet w subuid sub_idx msgs frames connected =
      let (r, connected') = send_nt_messages w msgs (record connected {
        subuid_to_subidx = (insert_pair subuid sub_idx connected.subuid_to_subidx).1;
      }) in
      elim r [
        | ok _ ↦ send_binary frames connected'
        | err e ↦ (err e, connected')
        | panicked ↦ (panicked, connected')
      ]

  -- `now` is the clock's instant.
  unfoldable pub subscribe : Wire V → ℕ → Subscribe → ℕ → M V (Unit {0})
  unfolding join_topics store_subscription greet interested_topics next_sub_idx
  subscribe w now sub client_idx = do
    connected ←
        ok_or (← gets (λ s. lookup client_idx s.clients))
          (client_does_not_exist (client_id_text client_idx))
    let subscription : Subscription = record {
      subuid = sub.subuid;
      topics = sub.topics;
      options = sub.options;
    }
    interested ← gets (λ s. interested_topics subscription s.topic_map)
    (sub_idx, counters) ← gets (λ s. next_sub_idx s.counters)
    modify (λ s. record s { counters = counters })
    (msgs, frames) ← join_topics w sub_idx interested
    modify (store_subscription now sub_idx subscription client_idx)
    with_client client_idx (pure tt) (greet w (as_u32 sub.subuid) sub_idx msgs frames)

  -- The maps without a subscription.
  drop_subscription : ℕ → InnerServer V → InnerServer V
  unfolding leave_all
  drop_subscription sub_idx s = record s {
    topic_sub_map = leave_all sub_idx s.topic_sub_map;
    subscriptions = remove sub_idx s.subscriptions;
    sub_values = remove sub_idx s.sub_values;
    sub_send_timestamps = remove sub_idx s.sub_send_timestamps;
  }

  unfoldable pub unsubscribe : Unsubscribe → ℕ → M V (Unit {0})
  unfolding drop_subscription forget_subuid
  unsubscribe unsub client_idx = do
    connected ←
        ok_or (← gets (λ s. lookup client_idx s.clients))
          (client_does_not_exist (client_id_text client_idx))
    with_client client_idx (pure tt) (forget_subuid (as_u32 unsub.subuid))
    sub_idx ←
        ok_or (remove_by_left (as_u32 unsub.subuid) connected.subuid_to_subidx).0
          (subscription_does_not_exist (no_subuid_text unsub.subuid))
    modify (drop_subscription sub_idx)
