-- ===== src/Client/Task.antt =====
-- The task of a client's socket, which `setup_socket` of client/inner.rs starts, and
-- `handle_message` there. The task also sends into the channel of 100 frames that it alone empties
-- (`start` of client/async_handle.rs): where there is no room for what it sends it waits for ever.
-- What the user sends waits outside of it.
pub mod Running
pub mod Losing
pub mod Blocking
use mathlib.Core.Option
use frclib_nettables.Base.{
  ℕ, zero, suc, ◌+◌, Bool, true, Option, none, some, List, [], ◌∷◌, ◌++◌, leb, length, ◌||◌,
  if◌then◌else◌,
}
use frclib_nettables.Client.Receive.{handle_nt_message}
use frclib_nettables.Client.Reconnect.{SocketError, already_closed, handle_disconnect}
use frclib_nettables.Client.Sending.{ClientWire}
use frclib_nettables.Client.State.{InnerClient, C, pure, ◌>>=◌, ◌>>◌}
use frclib_nettables.Client.Values.{Readings, Instants, handle_value}
use frclib_nettables.Spec.Error.{Outcome, ok, err, panicked}
use frclib_nettables.Spec.Messages.{NtMessage}
use frclib_nettables.Spec.Wire.{Bytes, Message, text, binary}

-- The external functions that the task calls. `read_all` gives what `from_read` gives until its
-- first error: the elements of an array, or `none` for any other value.
pub record Outside (R : Type 0) : Type 0 where
  pub client_wire : ClientWire R
  pub readings : Readings R
  pub read_all : Bytes → List (Option (List R))
  pub should_reconnect : SocketError → Bool

-- A client, how many frames of its channel the task has taken out, and which of them a socket
-- took.
pub record SocketTask (R : Type 0) : Type 0 where
  pub client : InnerClient R
  pub taken : ℕ
  pub delivered : List Message

-- What wakes the task: a frame of the server, the end of its frames or an error in place of one, or
-- a frame of the client, with the result of sending it. Instants and attempts to reconnect are
-- those that the task will see.
pub data Woken : Type 0 where
  from_server : (ℕ → Instants) → Message → Woken
  server_ended : List (Option ℕ) → Woken
  server_failed : SocketError → List (Option ℕ) → Woken
  from_client : Option SocketError → List (Option ℕ) → Woken

-- The frame at a place in the channel.
unfoldable pub frame_at : ℕ → List Message → Option Message
frame_at i [] = none
frame_at zero (frame ∷ frames) = some frame
frame_at (suc i) (frame ∷ frames) = frame_at i frames

module _ {R : Type 0} where
  -- A frame that was taken out goes to the socket, if there was no error.
  abbrev pub deliver : Option SocketError → Message → SocketTask R → SocketTask R
  deliver none frame task = record task {
    taken = task.taken + 1;
    delivered = task.delivered ++ frame ∷ [];
  }
  deliver (some error) frame task = record task { taken = task.taken + 1 }

  -- Nothing was sent, or the frames that wait in the channel are 100 at most.
  abbrev pub fits : SocketTask R → SocketTask R → Bool
  fits before after =
      leb (length after.client.socket.sent) (length before.client.socket.sent)
      || leb (length after.client.socket.sent) (after.taken + 100)

  -- A round that sends no more than there was room for; any other never ends.
  abbrev pub if_room :
      SocketTask R
      → Option (Outcome (Unit {0}) × SocketTask R)
      → Option (Outcome (Unit {0}) × SocketTask R)
  if_room before none = none
  if_room before (some r) = if fits before r.1 then some r else none

  -- The end of a round: an error is left for the client and ends the task, and so does a panic,
  -- which leaves nothing.
  unfoldable pub finish : Outcome (Unit {0}) → SocketTask R → SocketTask R
  finish (ok done) task = task
  finish (err e) task = record task {
    client = record task.client {
      socket = record task.client.socket { ended = true; left = some e };
    };
  }
  finish panicked task = record task {
    client = record task.client { socket = record task.client.socket { ended = true } };
  }

module _ {R : Type 0} (out : Outside R) where
  unfoldable pub handle_messages : List NtMessage → InnerClient R → InnerClient R
  handle_messages [] c = c
  handle_messages (message ∷ messages) c = handle_messages messages (handle_nt_message message c)

  -- The values of a binary frame from the `i`th on.
  unfoldable pub handle_arrays : (ℕ → Instants) → ℕ → List (Option (List R)) → C R (Unit {0})
  handle_arrays t i [] = pure tt
  handle_arrays t i (none ∷ items) = handle_arrays t (suc i) items
  handle_arrays t i (some array ∷ items) = do
    handle_value out.client_wire out.readings (t i) array
    handle_arrays t (suc i) items

  unfoldable pub handle_message : (ℕ → Instants) → Message → C R (Unit {0})
  unfolding handle_messages handle_arrays
  handle_message t (text message) c = elim (out.client_wire.wire.from_json message) [
    | none ↦ (ok tt, c)
    | some messages ↦ (ok tt, handle_messages messages c)
  ]
  handle_message t (binary msgpack) c = handle_arrays t zero (out.read_all msgpack) c
  handle_message t _ c = (ok tt, c)

  -- `handle_disconnect` with the result of using the socket.
  unfoldable pub after_use :
      Option SocketError
      → List (Option ℕ)
      → SocketTask R
      → Option (Outcome (Unit {0}) × SocketTask R)
  after_use result attempts task =
      Option.map (λ r. (r.0, record task { client = r.1 }))
        (handle_disconnect out.client_wire out.should_reconnect result attempts task.client)

  -- What the task does in one round of the loop, with no bound on the channel; `none` is a client
  -- that still tries to reconnect. A frame is taken out only where one waits.
  unfoldable pub act : Woken → SocketTask R → Option (Outcome (Unit {0}) × SocketTask R)
  unfolding handle_message after_use frame_at
  act (from_server t message) task =
      let (r, c) = handle_message t message task.client in some (r, record task { client = c })
  act (server_ended attempts) task = after_use (some already_closed) attempts task
  act (server_failed error attempts) task = after_use (some error) attempts task
  act (from_client result attempts) task = elim (frame_at task.taken task.client.socket.sent) [
    | none ↦ some (ok tt, task)
    | some frame ↦ after_use result attempts (deliver result frame task)
  ]

  -- One round of the loop; `none` is a task that still tries to reconnect or waits for room.
  unfoldable pub turn : Woken → SocketTask R → Option (Outcome (Unit {0}) × SocketTask R)
  unfolding act
  turn woken task = if_room task (act woken task)

  -- The loop, until the task ends or nothing more wakes it.
  unfoldable pub run : List Woken → SocketTask R → Option (SocketTask R)
  unfolding turn finish
  run [] task = some task
  run (woken ∷ more) task = elim (turn woken task) [
    | none ↦ none
    | some r ↦
        let next = finish r.0 r.1 in
        let rest = run more next in if next.client.socket.ended then some next else rest
  ]
