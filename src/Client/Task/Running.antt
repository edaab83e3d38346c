-- ===== src/Client/Task/Running.antt =====
-- How long the task of a client's socket in client/inner.rs runs.

use frclib_nettables.Base.{
  ℕ, ◌+◌, ◌≤◌, length, ◌≡◌, ◌≢◌, Bool, true, Option, none, some, List, [], ◌∷◌, In, arith,
}
use frclib_nettables.Client.Reconnect.{SocketError, already_closed}
use frclib_nettables.Client.Sending.{negative_one, write_to_buf}
use frclib_nettables.Client.Sending.Live.{IsLive}
use frclib_nettables.Client.Task.{
  Outside, SocketTask, Woken, from_server, server_ended, server_failed, from_client, fits,
}
use frclib_nettables.Spec.Error.{Outcome, ok}
use frclib_nettables.Spec.Messages.{NtMessage}
use frclib_nettables.Spec.Wire.{Message, binary}

-- One of the attempts to reconnect succeeds.
abbrev pub Succeeds : List (Option ℕ) → Type 0
Succeeds attempts = (now : ℕ) × In (some now) attempts

-- If the socket fails, the client reconnects, and it gets through.
abbrev pub IsAnswered : (SocketError → Bool) → Woken → Type 0
IsAnswered again (from_server t message) = Unit
IsAnswered again (server_ended attempts) = (again already_closed ≡ true) × Succeeds attempts
IsAnswered again (server_failed e attempts) = (again e ≡ true) × Succeeds attempts
IsAnswered again (from_client none attempts) = Unit
IsAnswered again (from_client (some e) attempts) = (again e ≡ true) × Succeeds attempts

module _ {R : Type 0} where
  pub fits-room :
      (task u : SocketTask R) → length u.client.socket.sent ≤ u.taken + 100 → fits task u ≡ true
  fits-room task u room = ground arith

  -- How many frames the task puts into its channel at most when it handles a frame of the server.
  abbrev answers : Outside R → Message → ℕ
  answers out (binary msgpack) = length (out.read_all msgpack)
  answers out _ = 0

  abbrev pub frames_of : Outside R → Woken → ℕ
  frames_of out (from_server t message) = answers out message
  frames_of out (server_ended attempts) = 2
  frames_of out (server_failed error attempts) = 2
  frames_of out (from_client none attempts) = 0
  frames_of out (from_client (some error) attempts) = 2

  abbrev pub frames_of_all : Outside R → List Woken → ℕ
  frames_of_all out [] = 0
  frames_of_all out (woken ∷ more) = frames_of out woken + frames_of_all out more

  module _ (out : Outside R) (writes : write_to_buf out.client_wire negative_one ≢ none)
      (prints : (messages : List NtMessage) → out.client_wire.wire.to_json messages ≢ none) where
    -- A round that succeeds, leaves the task running, and puts so many frames into the channel at
    -- most.
    abbrev GoesOn : ℕ → SocketTask R → Option (Outcome (Unit {0}) × SocketTask R) → Type 0
    GoesOn k task r =
        (u : SocketTask R) × (r ≡ some (ok tt, u))
        × IsLive u.client
        × (length u.client.socket.sent ≤ length task.client.socket.sent + k)
        × (task.taken ≤ u.taken)
