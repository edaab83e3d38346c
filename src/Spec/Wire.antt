-- ===== src/Spec/Wire.antt =====
-- The external encoders. JSON is serde_json's, MessagePack is rmp's, rmpv's and rmp_serde's, and
-- the type of a value is the value crate's. A client writes frames of bytes or of text.
use frclib_nettables.Base.{ℕ, Option, List}
use frclib_nettables.Base.Int.{ℤ}
use frclib_nettables.Base.Text.{Text}
use frclib_nettables.Spec.Extensions.{FrcType}
use frclib_nettables.Spec.Messages.{NtMessage}
use frclib_nettables.Spec.MetaTopic.{
  PublisherMte, ClientPublisherMte, SubscriptionMte, ClientSubscriptionMte, ClientMte,
}

abbrev pub Bytes : Type 0
Bytes = List ℕ

-- `tungstenite::Message`.
pub data Message : Type 0 where
  text : Text → Message
  binary : Bytes → Message
  ping pong : Message
  close_frame : Message

-- The external functions, over the unknown type `V` of values. `none` is their error.
pub record Wire (V : Type 0) : Type 0 where
  pub to_json : List NtMessage → Option Text
  pub from_json : Text → Option (List NtMessage)
  pub get_type : V → FrcType
  pub write_array_len : ℕ → Option Bytes
  pub write_i32 : ℤ → Option Bytes
  pub write_uint : ℕ → Option Bytes
  pub write_u8 : ℕ → Option Bytes
  pub write_value : V → Option Bytes
  pub publisher_to_vec : PublisherMte → Option Bytes
  pub client_publisher_to_vec : ClientPublisherMte → Option Bytes
  pub subscription_to_vec : SubscriptionMte → Option Bytes
  pub client_subscription_to_vec : ClientSubscriptionMte → Option Bytes
  pub client_to_vec : ClientMte → Option Bytes
