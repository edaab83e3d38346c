-- ===== src/Client/Task/Blocking.antt =====
-- The task of a client's socket in client/inner.rs that waits for itself.
use frclib_nettables.Base.{
  ℕ, ◌+◌, ◌≤◌, ◌≡◌, ◌≢◌, refl, sym, ap, subst, inl, inr, ◌⊎◌, Bool, true, false, Option, none, some,
  List, [], ◌∷◌, ◌++◌, length, arith, if◌then◌else◌, length-append,
}
use frclib_nettables.Base.Text.{Text}
use frclib_nettables.Client.Reconnect.{SocketError, already_closed, handle_disconnect, reconnect}
use frclib_nettables.Client.Sending.{negative_one, write_to_buf, opening_messages, on_open}
use frclib_nettables.Client.Sending.Live.{IsLive}
use frclib_nettables.Client.Sending.Sent.{on_open-sends}
use frclib_nettables.Client.State.{InnerClient}
use frclib_nettables.Client.Task.{
  Outside, SocketTask, Woken, from_server, server_ended, server_failed, from_client, after_use,
  fits, if_room, act, turn, run,
}
use frclib_nettables.Spec.Wire.{Message, text}

-- The connection breaks while the task waits for the server, by an error after which the client
-- reconnects.
abbrev pub IsBroken : (SocketError → Bool) → Woken → Type 0
IsBroken again (server_ended attempts) = again already_closed ≡ true
IsBroken again (server_failed error attempts) = again error ≡ true
IsBroken again _ = ⊥

module _ {R : Type 0} (out : Outside R) where
  reconnect-opens :
      (attempts : List (Option ℕ)) (c : InnerClient R)
      → (reconnect out.client_wire attempts c ≡ none)
        ⊎ ((now : ℕ) × (reconnect out.client_wire attempts c
              ≡ some (on_open out.client_wire now c)))
  unfolding reconnect
  reconnect-opens [] c = inl refl
  reconnect-opens (none ∷ attempts) c = reconnect-opens attempts c
  reconnect-opens (some now ∷ attempts) c = inr (now, refl)

  fits-none :
      (task u : SocketTask R)
      → length task.client.socket.sent + 1 ≤ length u.client.socket.sent
      → u.taken + 100 ≤ length task.client.socket.sent
      → fits task u ≡ false
  fits-none task u more full = ground (arith, more, full)

  -- The task with a client in place of its own.
  abbrev with_client : SocketTask R → InnerClient R → SocketTask R
  with_client task c = record task { client = c }

  longer :
      (frames before : List Message) (message : Message)
      → length before + 1 ≤ length (before ++ (frames ++ message ∷ []))
  longer frames before message =
      rw (length-append before (frames ++ message ∷ []), length-append frames (message ∷ []))
        (omega arith)

  use-blocks :
      (error : SocketError) (attempts : List (Option ℕ)) (json : Text) (task : SocketTask R)
      → out.should_reconnect error ≡ true
      → IsLive task.client
      → write_to_buf out.client_wire negative_one ≢ none
      → out.client_wire.wire.to_json (opening_messages task.client) ≡ some json
      → task.taken + 100 ≤ length task.client.socket.sent
      → if_room task (after_use out (some error) attempts task) ≡ none
  unfolding after_use handle_disconnect
  use-blocks error attempts json task again live writes e full =
      elim (reconnect-opens attempts task.client) [
        | inl f ↦ rw (again, f) refl
        | inr (now, f) ↦
            let r = on_open out.client_wire now task.client in
            let (done, running, kept, (frames, one, sent)) =
              on_open-sends out.client_wire now json task.client live writes e in
            let more : length task.client.socket.sent + 1 ≤ length r.1.socket.sent =
              subst (λ x. length task.client.socket.sent + 1 ≤ length x) (sym sent)
                (longer frames task.client.socket.sent (text json)) in
            rw (again, f)
              (ap (λ b. if b then some (r.0, with_client task r.1) else none)
                (fits-none task (with_client task r.1) more full))
      ]

  -- While 100 frames wait in the channel, the connection breaks by an error after which the client
  -- reconnects. Then the task, as long as it runs and the id -1 and the messages of a new
  -- connection can be written, never ends this round, whatever its attempts to reconnect come to:
  -- what it sends on a new connection waits for room that only the task itself makes.
  pub run-blocks :
      (woken : Woken) (more : List Woken) (json : Text) (task : SocketTask R)
      → IsBroken out.should_reconnect woken
      → IsLive task.client
      → write_to_buf out.client_wire negative_one ≢ none
      → out.client_wire.wire.to_json (opening_messages task.client) ≡ some json
      → task.taken + 100 ≤ length task.client.socket.sent
      → run out (woken ∷ more) task ≡ none
  unfolding run turn act
  run-blocks (server_ended attempts) more json task again live writes e full =
      rw (use-blocks already_closed attempts json task again live writes e full, run) refl
  run-blocks (server_failed error attempts) more json task again live writes e full =
      rw (use-blocks error attempts json task again live writes e full, run) refl
  run-blocks (from_server t message) more json task broken live writes e full = absurd broken
  run-blocks (from_client result attempts) more json task broken live writes e full = absurd broken
