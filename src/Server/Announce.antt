-- ===== src/Server/Announce.antt =====
-- The announcements of server/inner.rs: `announce_topic`, `announce_all_topics_for` and
-- `un_announce_topics`. They change the clients only.
pub mod Frame
pub mod Notified
use frclib_nettables.Base.{
  ℕ, Bool, Option, none, some, List, [], ◌∷◌, ◌++◌, if◌then◌else◌, unwrap_or,
}
use frclib_nettables.Base.Int.{ℤ, as_i32}
use frclib_nettables.Base.Map.{Map, nat_key, lookup}
use frclib_nettables.Base.Text.{Text}
use frclib_nettables.Server.Connected.{
  ConnectedClient, set_contains, set_insert, set_remove, set_extend, send_nt_messages,
  for_each_client,
}
use frclib_nettables.Server.State.{
  InnerServer, M, pure, fail, ok_or, gets, with_client, ◌>>=◌, ◌>>◌,
}
use frclib_nettables.Server.Wording.{
  client_id_text, client_unannounced_text, topic_unannounced_text, no_subscription_text,
}
use frclib_nettables.Spec.Error.{
  Outcome, ok, err, panicked, client_does_not_exist, topic_does_not_exist,
  subscription_does_not_exist,
}
use frclib_nettables.Spec.Messages.{Announce, NtMessage, announce, un_announce}
use frclib_nettables.Spec.Subscription.{Subscription, cares_about}
use frclib_nettables.Spec.Topic.{Topic, default_properties}
use frclib_nettables.Spec.Wire.{Wire}

-- The message that announces a topic under a name.
abbrev pub announcement : Text → ℕ → Topic → Announce
announcement name topic_idx topic = record {
  name = name;
  id = as_i32 topic_idx;
  type = topic.type;
  pubuid = none;
  properties = unwrap_or topic.properties default_properties;
}

-- The clients whose subscriptions care about a topic.
unfoldable pub clients_to_notify : Text → Map ℕ (Subscription × ℕ) → List ℕ
clients_to_notify topic_name [] = []
clients_to_notify topic_name ((_, (subscription, client_idx)) ∷ subs) =
    let rest = clients_to_notify topic_name subs in
    if cares_about subscription topic_name then set_insert client_idx rest else rest

-- The announcements of a new subscription, with the topics that they name.
announcements : Subscription → Map ℕ Topic → Map Text ℕ → List NtMessage × List ℕ
announcements subscription topics [] = ([], [])
announcements subscription topics ((topic_name, topic_idx) ∷ names) =
    let (msgs, idxs) = announcements subscription topics names in
    if cares_about subscription topic_name
    then (elim (lookup topic_idx topics) [
      | some topic ↦ (announce (announcement topic_name topic_idx topic) ∷ msgs, topic_idx ∷ idxs)
      | none ↦ (msgs, idxs)
    ])
    else (msgs, idxs)

module _ {V : Type 0} (w : Wire V) where
  -- The answer to a publisher, once for each topic.
  announce_once : ℕ → Announce → ConnectedClient → Outcome (Unit {0}) × ConnectedClient
  announce_once topic_idx new_msg client =
      if set_contains topic_idx client.announced_topics
      then (ok tt, client)
      else (let (r, client') = send_nt_messages w (announce new_msg ∷ []) client in
          elim r [
            | ok _ ↦ (
              ok tt,
              record client' { announced_topics = set_insert topic_idx client'.announced_topics },
            )
            | err e ↦ (err e, client')
            | panicked ↦ (panicked, client')
          ])

  respond : ℕ → Announce → Option (ℕ × ℕ) → M V (Unit {0})
  unfolding announce_once
  respond topic_idx announce_msg none = pure tt
  respond topic_idx announce_msg (some (pubuid, client_idx)) =
      with_client client_idx (fail (client_does_not_exist (client_unannounced_text client_idx)))
        (announce_once topic_idx (record announce_msg { pubuid = some (as_i32 pubuid) }))

  announce_to : ℕ → List NtMessage → ConnectedClient → Outcome (Unit {0}) × ConnectedClient
  announce_to topic_idx announce_msgs client =
      send_nt_messages w announce_msgs
        (record client { announced_topics = set_insert topic_idx client.announced_topics })

  -- `for client_idx in clients_to_notify`: a missing client is passed over.
  notify : ℕ → List NtMessage → List ℕ → M V (Unit {0})
  unfolding announce_to
  notify topic_idx announce_msgs [] = pure tt
  notify topic_idx announce_msgs (client_idx ∷ rest) = do
    with_client client_idx (pure tt) (announce_to topic_idx announce_msgs)
    notify topic_idx announce_msgs rest

  unfoldable pub announce_topic : ℕ → Option (ℕ × ℕ) → M V (Unit {0})
  unfolding respond notify
  announce_topic topic_idx response_opt = do
    topic ←
        ok_or (← gets (λ s. lookup topic_idx s.topics))
          (topic_does_not_exist (topic_unannounced_text topic_idx))
    let announce_msg = announcement topic.name topic_idx topic
    respond topic_idx announce_msg response_opt
    idxs ← gets (λ s. clients_to_notify topic.name s.subscriptions)
    notify topic_idx (announce announce_msg ∷ []) idxs

  unfoldable pub announce_all_topics_for : ℕ → M V (Unit {0})
  unfolding announcements
  announce_all_topics_for sub_idx = do
    (subscription, client_idx) ←
        ok_or (← gets (λ s. lookup sub_idx s.subscriptions))
          (subscription_does_not_exist (no_subscription_text sub_idx))
    (msgs, idxs) ← gets (λ s. announcements subscription s.topics s.topic_map)
    with_client client_idx (fail (client_does_not_exist (client_unannounced_text client_idx)))
        (λ client.
          send_nt_messages w msgs
            (record client { announced_topics = set_extend idxs client.announced_topics }))

  un_announce_to : Text → ℕ → ConnectedClient → Outcome (Unit {0}) × ConnectedClient
  un_announce_to topic_name topic_idx client =
      if set_contains topic_idx client.announced_topics
      then send_nt_messages w (un_announce (record { name = topic_name; id = topic_idx }) ∷ [])
          (record client { announced_topics = set_remove topic_idx client.announced_topics })
      else (ok tt, client)

  unfoldable pub un_announce_topics : Text → ℕ → M V (Unit {0})
  unfolding un_announce_to
  un_announce_topics topic_name topic_idx s =
      let (r, clients') = for_each_client (un_announce_to topic_name topic_idx) s.clients in
      (r, record s { clients = clients' })
