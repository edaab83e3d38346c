-- ===== src/Server/State.antt =====
-- `InnerServer` of server/inner.rs: the maps behind the mutexes, and operations as functions from
-- state to state, each of which runs to its end before the next one; Server/Locks has the mutexes
-- that the operations take. The state is kept when an operation fails, since what was written stays
-- written.
pub mod Frame
pub mod Holds
use frclib_nettables.Base.{ℕ, Bool, false, Option, none, some, List, [], ◌∷◌, ◌++◌, if◌then◌else◌}
use frclib_nettables.Base.Map.{Map, nat_key, lookup, adjust}
use frclib_nettables.Base.Net.{SocketAddr}
use frclib_nettables.Base.Text.{Text}
use frclib_nettables.Server.Connected.{ConnectedClient}
use frclib_nettables.Server.Util.{ClientIdentity, Counter, StoredSubValue}
use frclib_nettables.Spec.Error.{
  Outcome, ok, err, panicked, NetworkTablesError, NtServerError, server_error,
}
use frclib_nettables.Spec.Extensions.{TimestampedValue}
use frclib_nettables.Spec.MetaTopic.{MetaTopicValue}
use frclib_nettables.Spec.Subscription.{Subscription}
use frclib_nettables.Spec.Topic.{Topic}

-- The calls of the callbacks in server/config.rs, in order.
pub data Callback : Type 0 where
  on_client_connect : Callback

pub record InnerServer (V : Type 0) : Type 0 where
  pub server_addr : SocketAddr
  pub topics : Map ℕ Topic
  pub topic_map : Map Text ℕ
  pub pub_count : Map ℕ ℕ
  pub topic_value_map : Map ℕ (TimestampedValue V)
  pub metatopic_value_map : Map ℕ MetaTopicValue
  pub client_map : Map ClientIdentity ℕ
  pub clients : Map ℕ ConnectedClient
  pub client_metatopic_map : Map ℕ (ℕ × ℕ)
  pub subscriptions : Map ℕ (Subscription × ℕ)
  pub topic_sub_map : Map ℕ (List ℕ)
  pub sub_send_timestamps : Map ℕ ℕ
  pub sub_values : Map ℕ (StoredSubValue V)
  pub counters : Counter
  pub kill_switches : Map ℕ Bool
  pub callbacks : List Callback

abbrev pub M : Type 0 → Type 0 → Type 0
M V A = InnerServer V → Outcome A × InnerServer V

module _ {V A : Type 0} where
  abbrev pub pure : A → M V A
  pure a s = (ok a, s)

  abbrev pub fail : NtServerError → M V A
  fail e s = (err (server_error e), s)

  abbrev pub panic : M V A
  panic s = (panicked, s)

  -- `ok_or(e)?`.
  abbrev pub ok_or : Option A → NtServerError → M V A
  ok_or none e = fail e
  ok_or (some a) e = pure a

  -- `unwrap` and `expect`.
  abbrev pub unwrap : Option A → M V A
  unwrap none = panic
  unwrap (some a) = pure a

  abbrev pub gets : (InnerServer V → A) → M V A
  gets f s = (ok (f s), s)

infixl 5 ◌>>=◌ ◌>>◌
unfoldable pub ◌>>=◌ : {V A B : Type 0} → M V A → (A → M V B) → M V B
◌>>=◌ m f s =
    let (r, s') = m s in elim r [ ok a ↦ f a s' | err e ↦ (err e, s') | panicked ↦ (panicked, s') ]

abbrev pub ◌>>◌ : {V B : Type 0} → M V (Unit {0}) → M V B → M V B
m >> k = m >>= λ _. k

module _ {V : Type 0} where
  abbrev pub modify : (InnerServer V → InnerServer V) → M V (Unit {0})
  modify f s = (ok tt, f s)

  -- A method of a connected client, called through `clients.get_mut(&idx)`; `missing` is the
  -- branch for no such client.
  unfoldable pub with_client :
      ℕ → M V (Unit {0}) → (ConnectedClient → Outcome (Unit {0}) × ConnectedClient) → M V (Unit {0})
  with_client client_idx missing method s = elim (lookup client_idx s.clients) [
    | none ↦ missing s
    | some client ↦
        let (r, client') = method client in
        (r, record s { clients = adjust client_idx (λ _. client') s.clients })
  ]
