-- ===== src/Server/Connected.antt =====
-- `ConnectedClient` of server/inner.rs. A channel to a client is the list of the frames sent, the
-- latest last, and whether the receiver is gone; its capacity, which only delays a sender, is left
-- out. `kill_bool` is the address of a switch in the server's store. An `IntSet` is a list.
pub mod Quiet
use frclib_nettables.Base.{
  ℕ, Bool, true, false, not, Option, none, some, List, [], ◌∷◌, ◌++◌, any, retain, ◌==◌,
  if◌then◌else◌,
}
use frclib_nettables.Base.Map.{Map}
use frclib_nettables.Base.Text.{Text, codes}
use frclib_nettables.BiMap.{PrimBiMap, new}
use frclib_nettables.Server.Util.{ClientIdentity}
use frclib_nettables.Spec.Error.{Outcome, ok, err, panicked, serde_json, tokio_channel_message_send}
use frclib_nettables.Spec.Messages.{NtMessage}
use frclib_nettables.Spec.Subscription.{Subscription}
use frclib_nettables.Spec.Wire.{Wire, Bytes, Message, text, binary}

pub record Channel : Type 0 where
  pub closed : Bool
  pub sent : List Message

abbrev pub open_channel : Channel
open_channel = record { closed = false; sent = [] }

pub record ConnectedClient : Type 0 where
  pub identity : ClientIdentity
  pub kill_bool : ℕ
  pub pubuid_to_topicidx : PrimBiMap
  pub subuid_to_subidx : PrimBiMap
  pub subs : List Subscription
  pub sub_ouput : Option Channel
  pub announced_topics : List ℕ

unfoldable pub new_client : ClientIdentity → ℕ → Channel → ConnectedClient
new_client identity kill_bool sub_output = record {
  identity = identity;
  kill_bool = kill_bool;
  pubuid_to_topicidx = new;
  subuid_to_subidx = new;
  subs = [];
  sub_ouput = some sub_output;
  announced_topics = [];
}

-- `IntSet::contains`, `insert` and `remove`.
abbrev pub set_contains : ℕ → List ℕ → Bool
set_contains i s = any (λ j. j == i) s

abbrev pub set_insert : ℕ → List ℕ → List ℕ
set_insert i s = if set_contains i s then s else i ∷ s

abbrev pub set_remove : ℕ → List ℕ → List ℕ
set_remove i s = retain (λ j. not (j == i)) s

abbrev pub set_extend : List ℕ → List ℕ → List ℕ
set_extend [] s = s
set_extend (i ∷ is) s = set_extend is (set_insert i s)

-- `output.send(message).await?` through the client's channel, if it has one.
pub send : Message → ConnectedClient → Outcome (Unit {0}) × ConnectedClient
send message client = elim client.sub_ouput [
  | none ↦ (ok tt, client)
  | some output ↦ if output.closed then (err tokio_channel_message_send, client) else (
    ok tt,
    record client { sub_ouput = some (record output { sent = output.sent ++ message ∷ [] }) },
  )
]

unfoldable pub send_nt_messages :
    {V : Type 0} (w : Wire V)
    → List NtMessage
    → ConnectedClient
    → Outcome (Unit {0}) × ConnectedClient
unfolding send
send_nt_messages w messages client = elim client.sub_ouput [
  | none ↦ (ok tt, client)
  | some _ ↦ elim (w.to_json messages) [
    | some json ↦ send (text json) client
    | none ↦ (err serde_json, client)
  ]
]

unfoldable pub send_binary : Bytes → ConnectedClient → Outcome (Unit {0}) × ConnectedClient
unfolding send
send_binary message client = send (binary message) client

unfoldable pub flush : ConnectedClient → Outcome (Unit {0}) × ConnectedClient
unfolding send
flush client = send (binary (codes "flush")) client

-- `for client in clients.iter_mut() { … .await?; }`: the first error ends the loop.
unfoldable pub for_each_client :
    (ConnectedClient → Outcome (Unit {0}) × ConnectedClient)
    → Map ℕ ConnectedClient
    → Outcome (Unit {0}) × Map ℕ ConnectedClient
for_each_client method [] = (ok tt, [])
for_each_client method ((client_idx, client) ∷ clients) =
    let (r, client') = method client in
    let (rest, clients') = for_each_client method clients in
    elim r [
      | ok _ ↦ (rest, (client_idx, client') ∷ clients')
      | err e ↦ (err e, (client_idx, client') ∷ clients)
      | panicked ↦ (panicked, (client_idx, client') ∷ clients)
    ]
