-- ===== src/Spec/Error.antt =====
-- error.rs and server/error.rs, and how an operation of the server ends.
use frclib_nettables.Base.Text.{Text}
use frclib_nettables.Spec.Extensions.{FrcType}

pub data NtServerError : Type 0 where
  client_does_not_exist : Text → NtServerError
  client_already_exists : Text → NtServerError
  topic_does_not_exist : Text → NtServerError
  subscription_does_not_exist : Text → NtServerError
  wrong_value_type : FrcType → FrcType → NtServerError
  not_meta_topic : Text → NtServerError
  not_normal_topic : Text → NtServerError

-- The errors of other crates carry no more than their kind.
pub data NetworkTablesError : Type 0 where
  tungstenite serde_json io tokio_channel_message_send msg_pack_write : NetworkTablesError
  connect_timeout : NetworkTablesError
  server_error : NtServerError → NetworkTablesError
  wrong_meta_topic_type : NetworkTablesError

-- `panicked` is a panic: an `unwrap` or `expect` that fails.
pub data Outcome (A : Type 0) : Type 0 where
  ok : A → Outcome A
  err : NetworkTablesError → Outcome A
  panicked : Outcome A
