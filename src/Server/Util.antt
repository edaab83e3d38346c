-- ===== src/Server/Util.antt =====
-- server/util.rs: the identity of a client, the counters, and the values that wait for a
-- subscription. The indices are `u32` numbers.
pub mod Display
pub mod Stored
use frclib_nettables.Base.{
  ℕ, ◌+◌, ◌%◌, ◌^◌, ◌≡◌, Option, none, some, List, [], ◌∷◌, ◌++◌, map, ℕ_discrete,
}
use frclib_nettables.Base.Int.{ℤ}
use frclib_nettables.Base.Map.{Key, Map, nat_key, lookup, insert, adjust}
use frclib_nettables.Base.Net.{SocketAddr, SocketAddr-discrete, v4, show_addr}
use frclib_nettables.Base.Text.{Text, Text-discrete, codes}
use frclib_nettables.Spec.Encode.{value_as_bytes, metatopic_as_bytes}
use frclib_nettables.Spec.Error.{Outcome}
use frclib_nettables.Spec.Extensions.{TimestampedValue}
use frclib_nettables.Spec.Messages.{NtMessage, close}
use frclib_nettables.Spec.MetaTopic.{MetaTopicValue, ClientMte}
use frclib_nettables.Spec.Wire.{Wire, Bytes, Message}

pub record ClientMsg : Type 0 where
  pub client_idx : ℕ
  pub msg : Message

pub record ClientIdentity : Type 0 where
  pub addr : SocketAddr
  pub name : Text

unfoldable pub ClientIdentity-discrete : Discrete ClientIdentity
unfolding SocketAddr-discrete Text-discrete
ClientIdentity-discrete = hlevel (SocketAddr-discrete, Text-discrete)

instance abbrev pub identity_key : Key ClientIdentity
identity_key = record { decide = ClientIdentity-discrete }

-- `Display`: the name, `@`, the address.
unfoldable pub show_identity : ClientIdentity → Text
show_identity ident = ident.name ++ codes "@" ++ show_addr ident.addr

abbrev pub server_identity : ClientIdentity
server_identity = record { addr = v4 0 0 0 0 0; name = [] }

unfoldable pub update_name : Text → ClientIdentity → ClientIdentity
update_name name ident = record ident { name = name }

unfoldable pub as_close : ClientIdentity → NtMessage
as_close ident = close (record { addr = ident.addr; name = ident.name })

unfoldable pub to_mte : ClientIdentity → ClientMte
to_mte ident = record { id = ident.name; conn = show_addr ident.addr }

pub record Counter : Type 0 where
  pub topic_idx : ℕ
  pub sub_idx : ℕ
  pub client_idx : ℕ

abbrev pub new_counter : Counter
new_counter = record { topic_idx = 0; sub_idx = 0; client_idx = 0 }

-- A `u32` counter wraps in a release build.
unfoldable pub next_topic_idx : Counter → ℕ × Counter
next_topic_idx c = (c.topic_idx, record c { topic_idx = (c.topic_idx + 1) % 2 ^ 32 })

unfoldable pub next_sub_idx : Counter → ℕ × Counter
next_sub_idx c = (c.sub_idx, record c { sub_idx = (c.sub_idx + 1) % 2 ^ 32 })

unfoldable pub next_client_idx : Counter → ℕ × Counter
next_client_idx c = (c.client_idx, record c { client_idx = (c.client_idx + 1) % 2 ^ 32 })

pub data ServerSendableValue (V : Type 0) : Type 0 where
  normal_value : TimestampedValue V → ServerSendableValue V
  mte_value : MetaTopicValue → ServerSendableValue V

pub data StoredSubValue (V : Type 0) : Type 0 where
  all : Map ℕ (List (ServerSendableValue V)) → StoredSubValue V
  one : Map ℕ (ServerSendableValue V) → StoredSubValue V

module _ {V : Type 0} where
  abbrev pub new_all : StoredSubValue V
  new_all = all []

  abbrev pub new_one : StoredSubValue V
  new_one = one []

  unfoldable pub add_value : ℕ → ServerSendableValue V → StoredSubValue V → StoredSubValue V
  add_value topic_idx value (all m) = elim (lookup topic_idx m) [
    | some vec ↦ all (adjust topic_idx (λ vec. vec ++ value ∷ []) m)
    | none ↦ all (insert topic_idx (value ∷ []) m)
  ]
  add_value topic_idx value (one m) = one (insert topic_idx value m)

  -- The loop of `take_values` over the drained map.
  drain_one : Map ℕ (ServerSendableValue V) → Map ℕ (List (ServerSendableValue V))
  drain_one [] = []
  drain_one ((topic_idx, value) ∷ m) = insert topic_idx (value ∷ []) (drain_one m)

  -- The values taken, and what stays.
  unfoldable pub take_values :
      StoredSubValue V → Map ℕ (List (ServerSendableValue V)) × StoredSubValue V
  unfolding drain_one
  take_values (all m) = (m, all [])
  take_values (one m) = (drain_one m, one [])

-- `ServerSendableValue::as_bytes`; `now` is the server's clock.
unfoldable pub sendable_as_bytes :
    {V : Type 0} ⦃w : Wire V⦄ → ℕ → ServerSendableValue V → ℤ → Outcome Bytes
sendable_as_bytes now (normal_value value) topic_id = value_as_bytes value topic_id
sendable_as_bytes ⦃w⦄ now (mte_value mte) topic_id = metatopic_as_bytes w now mte topic_id
