-- ===== src/Server/Clients.antt =====
-- The clients of server/inner.rs: `try_new`, `connect_client`, `disconnect_client` and the small
-- operations on one client.
pub mod Wf
pub mod Start
use frclib_nettables.Base.{
  ℕ, ◌+◌, ◌-◌, ◌%◌, ◌^◌, Bool, true, false, Option, none, some, List, [], ◌∷◌, ◌++◌, ltb, ◌==◌,
  if◌then◌else◌, unwrap_or,
}
use frclib_nettables.Base.Map.{Map, nat_key, lookup, insert, remove, adjust, contains_key}
use frclib_nettables.Base.Net.{SocketAddr}
use frclib_nettables.Base.Text.{Text, codes, show, contains}
use frclib_nettables.BiMap.{iter_lr, new}
use frclib_nettables.Server.Connected.{
  ConnectedClient, Channel, open_channel, new_client, flush, for_each_client,
}
use frclib_nettables.Server.State.{
  InnerServer, M, pure, fail, ok_or, gets, modify, with_client, on_client_connect, ◌>>=◌, ◌>>◌,
}
use frclib_nettables.Server.Topics.{add_topic, remove_topic}
use frclib_nettables.Server.Util.{
  ClientIdentity, identity_key, show_identity, server_identity, update_name, to_mte, new_counter,
  next_client_idx,
}
use frclib_nettables.Server.Wording.{client_id_text}
use frclib_nettables.Spec.Error.{Outcome, ok, err, client_does_not_exist, client_already_exists}
use frclib_nettables.Spec.MetaTopic.{MetaTopicValue, merge}
use frclib_nettables.Spec.Topic.{new_meta}
use frclib_nettables.Spec.Wire.{Wire}

abbrev pub client_metatopic : ℕ
client_metatopic = 0

abbrev pub server_sub_metadata : ℕ
server_sub_metadata = 1

abbrev pub server_pub_metatopic : ℕ
server_pub_metatopic = 2

abbrev pub server_client_idx : ℕ
server_client_idx = 0

-- `map.entry(idx).or_insert_with(default)` and a method on the value.
abbrev pub update_or_insert :
    ℕ
    → MetaTopicValue
    → (MetaTopicValue → MetaTopicValue)
    → Map ℕ MetaTopicValue
    → Map ℕ MetaTopicValue
update_or_insert idx default f m = insert idx (f (unwrap_or (lookup idx m) default)) m

-- `*count -= 1` on a `u16`, which wraps in a release build.
abbrev pub count_down : ℕ → ℕ
count_down count = (count + 2 ^ 16 - 1) % 2 ^ 16

-- How many clients have the name in theirs.
instances_of : Text → Map ℕ ConnectedClient → ℕ
instances_of name [] = 0
instances_of name ((_, connected) ∷ clients) =
    let rest = instances_of name clients in
    if contains connected.identity.name name then rest + 1 else rest

-- "ensures no duplicate names".
unfoldable pub rename : ClientIdentity → Map ℕ ConnectedClient → ClientIdentity
unfolding instances_of
rename identity clients =
    let instances_of_ident = instances_of identity.name clients in
    if ltb 0 instances_of_ident
    then update_name (identity.name ++ codes "@" ++ show instances_of_ident) identity
    else identity

-- The server's own client.
server_client : ConnectedClient
server_client = record {
  identity = server_identity;
  kill_bool = server_client_idx;
  pubuid_to_topicidx = new;
  subuid_to_subidx = new;
  subs = [];
  sub_ouput = none;
  announced_topics = [];
}

module _ {V : Type 0} where
  unfoldable pub is_client_connected : ClientIdentity → M V Bool
  is_client_connected ident = gets (λ s. contains_key ident s.client_map)

  unfoldable pub get_client_ident : ℕ → M V (Option ClientIdentity)
  get_client_ident client_idx =
      gets
        (λ s. elim (lookup client_idx s.clients) [ none ↦ none | some found ↦ some found.identity ])

  unfoldable pub flush_client : ℕ → M V (Unit {0})
  flush_client client_idx =
      with_client client_idx (fail (client_does_not_exist (client_id_text client_idx))) flush

  unfoldable pub flush_all : M V (Unit {0})
  flush_all s =
      let (r, clients') = for_each_client flush s.clients in (r, record s { clients = clients' })

  -- One round of the loop of `disconnect_client` over the topics that the client published.
  leave_topic : ℕ → Option ℕ → M V (Unit {0})
  leave_topic topic_idx none = pure tt
  leave_topic topic_idx (some count) = do
    modify (λ s. record s { pub_count = insert topic_idx (count_down count) s.pub_count })
    if count_down count == 0 then remove_topic topic_idx else pure tt

  leave_topics : List (ℕ × ℕ) → M V (Unit {0})
  unfolding leave_topic
  leave_topics [] = pure tt
  leave_topics ((_, topic_idx) ∷ rest) = do
    leave_topic topic_idx (← gets (λ s. lookup topic_idx s.pub_count))
    leave_topics rest

  remove_metatopics : Option (ℕ × ℕ) → M V (Unit {0})
  remove_metatopics none = pure tt
  remove_metatopics (some (pub_idx, sub_idx)) = do remove_topic pub_idx; remove_topic sub_idx

  unfoldable pub disconnect_client : ClientIdentity → M V (Unit {0})
  unfolding leave_topics remove_metatopics
  disconnect_client ident = do
    found ← gets (λ s. lookup ident s.client_map)
    modify (λ s. record s { client_map = remove ident s.client_map })
    idx ← ok_or found (client_does_not_exist (show_identity ident))
    removed ← gets (λ s. lookup idx s.clients)
    modify (λ s. record s { clients = remove idx s.clients })
    connected ← ok_or removed (client_does_not_exist (show_identity ident))
    modify (λ s. record s { kill_switches = insert connected.kill_bool true s.kill_switches })
    leave_topics (iter_lr connected.pubuid_to_topicidx)
    meta_idxs ← gets (λ s. lookup idx s.client_metatopic_map)
    modify (λ s. record s { client_metatopic_map = remove idx s.client_metatopic_map })
    remove_metatopics meta_idxs

  -- The client's entry in every map that `connect_client` writes before it adds the metatopics.
  admit : ClientIdentity → ℕ → InnerServer V → InnerServer V
  admit identity idx s = record s {
    clients = insert idx (new_client identity idx open_channel) s.clients;
    kill_switches = insert idx false s.kill_switches;
    client_map = insert identity idx s.client_map;
    metatopic_value_map =
        update_or_insert client_metatopic (MetaTopicValue.client [])
          (λ value. merge value (MetaTopicValue.client (to_mte identity ∷ [])))
          s.metatopic_value_map;
  }

  empty_server : SocketAddr → InnerServer V
  empty_server server_addr = record {
    server_addr = server_addr;
    topics = [];
    topic_map = [];
    pub_count = [];
    topic_value_map = [];
    metatopic_value_map = [];
    client_map = [];
    clients = [];
    client_metatopic_map = [];
    subscriptions = [];
    topic_sub_map = [];
    sub_send_timestamps = [];
    sub_values = [];
    counters = new_counter;
    kill_switches = [];
    callbacks = [];
  }

module _ {V : Type 0} (w : Wire V) where
  -- The index of the new client, and its identity with the name that it was given.
  unfoldable pub connect_client : ClientIdentity → M V (ℕ × ClientIdentity)
  unfolding admit is_client_connected
  connect_client identity = do
    connected ← is_client_connected identity
    if connected then fail (client_already_exists (show_identity identity)) else pure tt
    modify (λ s. record s { callbacks = s.callbacks ++ on_client_connect ∷ [] })
    identity' ← gets (λ s. rename identity s.clients)
    (idx, counters) ← gets (λ s. next_client_idx s.counters)
    modify (λ s. admit identity' idx (record s { counters = counters }))
    pub_idx ← add_topic w (new_meta (codes "$clientpub$" ++ identity'.name))
    sub_idx ← add_topic w (new_meta (codes "$clientsub$" ++ identity'.name))
    modify (λ s. record s {
      client_metatopic_map = insert idx (pub_idx, sub_idx) s.client_metatopic_map;
    })
    pure (idx, identity')

  -- The three metatopics of the server itself.
  add_metatopics : M V (Unit {0})
  add_metatopics = do
    clients_idx ← add_topic w (new_meta (codes "$clients"))
    sub_idx ← add_topic w (new_meta (codes "$serversub"))
    pub_idx ← add_topic w (new_meta (codes "$serverpub"))
    pure tt

  unfoldable pub try_new : SocketAddr → Outcome (Unit {0}) × InnerServer V
  unfolding add_metatopics empty_server server_client next_client_idx
  try_new server_addr =
      let (idx, counters) = next_client_idx new_counter in
      add_metatopics (record (empty_server server_addr) {
        counters = counters;
        clients = insert idx server_client [];
        kill_switches = insert idx false [];
      })
