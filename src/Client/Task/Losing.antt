-- ===== src/Client/Task/Losing.antt =====
-- What is lost when the socket of a client of client/inner.rs fails.

use frclib_nettables.Base.{
  ap, length, ◌≤◌, ◌∙◌, sym, subst, arith, if◌then◌else◌, ℕ, ◌+◌, ◌≡◌, ◌≢◌, refl, Bool, true, false,
  Option, none, some, Option-cases, inl, inr, List, [], ◌∷◌, ◌++◌, In,
}
use frclib_nettables.Base.Text.{Text}
use frclib_nettables.Client.Handle.Effects.{send_message-after_end}
use frclib_nettables.Client.Reconnect.{SocketError, already_closed, handle_disconnect}
use frclib_nettables.Client.Reconnect.Reopens.{handle_disconnect-reopens}
use frclib_nettables.Client.Sending.{negative_one, write_to_buf, opening_messages, send_message}
use frclib_nettables.Client.Sending.Live.{AtMostOne, sent_two, IsLive}
use frclib_nettables.Client.Task.Running.{fits-room}
use frclib_nettables.Client.Task.{
  Outside, SocketTask, Woken, from_server, server_ended, server_failed, from_client, after_use,
  deliver, fits, if_room, act, frame_at, turn, finish, run,
}
use frclib_nettables.Spec.Error.{Outcome, ok, err, panicked, tungstenite}
use frclib_nettables.Spec.Wire.{Message, text}

-- The socket fails by an error after which the client does not reconnect.
abbrev pub IsFatal : {R : Type 0} → (SocketError → Bool) → Woken → SocketTask R → Type 0
IsFatal again (from_server t message) task = ⊥
IsFatal again (server_ended attempts) task = again already_closed ≡ false
IsFatal again (server_failed e attempts) task = again e ≡ false
IsFatal again (from_client none attempts) task = ⊥
IsFatal again (from_client (some e) attempts) task =
    (again e ≡ false) × (frame_at task.taken task.client.socket.sent ≢ none)

module _ {R : Type 0} (out : Outside R) where
  fits-same :
      (task u : SocketTask R)
      → length u.client.socket.sent ≡ length task.client.socket.sent
      → fits task u ≡ true
  fits-same task u same = ground (arith, same)

  -- A frame of the client whose sending fails by an error after which the client reconnects and
  -- gets through is lost, as long as the task runs, the id -1 and the messages of the new
  -- connection can be written, and the channel has room for one frame more. The frame is taken out
  -- of the channel and given to no socket, and behind the frames of the channel come no others than
  -- at most one value under the id -1, a request for the time, and the text of all topics and
  -- subscriptions.
  pub turn-loses :
      (error : SocketError) (attempts : List (Option ℕ)) (now : ℕ) (json : Text) (frame : Message)
      (task : SocketTask R)
      → out.should_reconnect error ≡ true
      → In (some now) attempts
      → IsLive task.client
      → write_to_buf out.client_wire negative_one ≢ none
      → out.client_wire.wire.to_json (opening_messages task.client) ≡ some json
      → frame_at task.taken task.client.socket.sent ≡ some frame
      → length task.client.socket.sent + 1 ≤ task.taken + 100
      → (u : SocketTask R) × (frames : List Message) × (turn out
            (from_client (some error) attempts)
            task
          ≡ some (ok tt, u))
        × (u.taken ≡ task.taken + 1)
        × (u.delivered ≡ task.delivered)
        × AtMostOne out.client_wire negative_one frames
        × (u.client.socket.sent ≡ task.client.socket.sent ++ (frames ++ text json ∷ []))
  unfolding after_use act turn
  turn-loses error attempts now json frame task again m live writes e here room =
      let (d, frames, f, running, one, sent) =
        handle_disconnect-reopens out.client_wire out.should_reconnect error attempts now json
          task.client again m live writes e in
      (
        record task { client = d; taken = task.taken + 1 },
        frames,
        rw (turn, act, here, f)
            (ap
              (λ b.
                if b
                then some (ok tt, record task { client = d; taken = task.taken + 1 })
                else none)
              (fits-room task (record task { client = d; taken = task.taken + 1 })
                (omega (
                  arith,
                  subst (λ x. length x ≤ length task.client.socket.sent + 2) (sym sent)
                      (sent_two out.client_wire negative_one frames task.client.socket.sent
                        (text json) one),
                )))),
        refl,
        refl,
        one,
        sent,
      )

  -- After a failure the task gives the error back.
  gives_up :
      (error : SocketError) (attempts : List (Option ℕ)) (task : SocketTask R)
      → out.should_reconnect error ≡ false
      → after_use out (some error) attempts task ≡ some (err tungstenite, task)
  unfolding after_use handle_disconnect
  gives_up error attempts task never = rw never refl

  -- A round that sends nothing ends.
  quiet_turn :
      (woken : Woken) (task u : SocketTask R) (r : Outcome (Unit {0}))
      → act out woken task ≡ some (r, u)
      → u.client.socket.sent ≡ task.client.socket.sent
      → turn out woken task ≡ some (r, u)
  unfolding turn
  quiet_turn woken task u r e same =
      ap (if_room task) e
      ∙ ap (λ b. if b then some (r, u) else none) (fits-same task u (ap length same))

  ends_after :
      (woken : Woken) (more : List Woken) (task u : SocketTask R)
      → turn out woken task ≡ some (err tungstenite, u)
      → run out (woken ∷ more) task ≡ some (finish (err tungstenite) u)
  unfolding finish run
  ends_after woken more task u e = rw (run, e) refl

  reported :
      (first second : Message) (u : SocketTask R)
      → let c = (finish (err tungstenite) u).client in
        ((send_message first c).0 ≡ err tungstenite)
        × ((send_message second (send_message first c).1).0 ≡ panicked)
  unfolding finish
  reported first second u =
      send_message-after_end first second tungstenite (finish (err tungstenite) u).client refl refl

  fatal-act :
      (woken : Woken) (task : SocketTask R)
      → IsFatal out.should_reconnect woken task
      → (u : SocketTask R) × (act out woken task ≡ some (err tungstenite, u))
        × (u.client.socket.sent ≡ task.client.socket.sent)
  unfolding act
  fatal-act (from_server t message) task fatal = absurd fatal
  fatal-act (server_ended attempts) task fatal =
      (task, gives_up already_closed attempts task fatal, refl)
  fatal-act (server_failed e attempts) task fatal = (task, gives_up e attempts task fatal, refl)
  fatal-act (from_client none attempts) task fatal = absurd fatal
  fatal-act (from_client (some e) attempts) task (never, waits) =
      elim (Option-cases (frame_at task.taken task.client.socket.sent)) [
        | inl f ↦ absurd (waits f)
        | inr (frame, f) ↦ (
          deliver (some e) frame task,
          rw (act, f) (gives_up e attempts (deliver (some e) frame task) never),
          refl,
        )
      ]

  -- When the socket fails by an error after which the client does not reconnect, be it at a frame
  -- that waits to be sent or at what the server sends, the task ends,
  -- whatever would have woken it later. The next message of the client reports the error, and the
  -- message after it panics.
  pub run-reported :
      (woken : Woken) (more : List Woken) (task : SocketTask R) (first second : Message)
      → IsFatal out.should_reconnect woken task
      → (u : SocketTask R) × (run out (woken ∷ more) task ≡ some u)
        × ((send_message first u.client).0 ≡ err tungstenite)
        × ((send_message second (send_message first u.client).1).0 ≡ panicked)
  run-reported woken more task first second fatal =
      let (u, a, same) = fatal-act woken task fatal in
      let e = quiet_turn woken task u (err tungstenite) a same in
      let (r, s) = reported first second u in
      (finish (err tungstenite) u, ends_after woken more task u e, r, s)
