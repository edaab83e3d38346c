-- ===== src/Server/Connected/Quiet.antt =====
-- The methods of a connected client in server/inner.rs never panic.
use frclib_nettables.Base.{◌≢◌, List, arith}
use frclib_nettables.Server.Connected.{ConnectedClient, send, send_nt_messages, send_binary}
use frclib_nettables.Spec.Error.{panicked}
use frclib_nettables.Spec.Messages.{NtMessage}
use frclib_nettables.Spec.Wire.{Wire, Message, Bytes}

send-quiet : (m : Message) (c : ConnectedClient) → (send m c).0 ≢ panicked
unfolding send
send-quiet m c h = ground arith

pub send_nt_messages-quiet :
    {V : Type 0} (w : Wire V) (msgs : List NtMessage) (c : ConnectedClient)
    → (send_nt_messages w msgs c).0 ≢ panicked
unfolding send_nt_messages
send_nt_messages-quiet w msgs c h = ground arith

pub send_binary-quiet : (bytes : Bytes) (c : ConnectedClient) → (send_binary bytes c).0 ≢ panicked
unfolding send_binary
send_binary-quiet bytes c h = ground arith
