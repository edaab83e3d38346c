-- ===== src/Client/Reconnect/Reopens.antt =====
-- A client of client/inner.rs that loses its connection.
use frclib_nettables.Base.{
  ℕ, ◌≡◌, ◌≢◌, refl, ap, ◌∙◌, inl, inr, Bool, true, Option, none, some, List, [], ◌∷◌, ◌++◌, In,
}
use frclib_nettables.Base.Text.{Text}
use frclib_nettables.Client.Reconnect.{SocketError, reconnect, handle_disconnect}
use frclib_nettables.Client.Sending.{
  ClientWire, negative_one, write_to_buf, opening_messages, on_open,
}
use frclib_nettables.Client.Sending.Live.{AtMostOne, IsLive}
use frclib_nettables.Client.Sending.Sent.{on_open-sends}
use frclib_nettables.Client.State.{InnerClient}
use frclib_nettables.Spec.Error.{ok}
use frclib_nettables.Spec.Wire.{Message, text}

module _ {R : Type 0} (w : ClientWire R) where
  -- The first attempt that succeeds opens the connection.
  reconnect-some :
      (attempts : List (Option ℕ)) (now : ℕ) (c : InnerClient R)
      → In (some now) attempts
      → (first : ℕ) × (reconnect w attempts c ≡ some (on_open w first c))
  unfolding reconnect
  reconnect-some [] now c m = absurd m
  reconnect-some (some first ∷ attempts) now c m = (first, refl)
  reconnect-some (none ∷ attempts) now c (inl e) = absurd (cc)
  reconnect-some (none ∷ attempts) now c (inr m) = reconnect-some attempts now c m

  -- A client loses its connection by an error after which it reconnects, and one of its attempts
  -- succeeds. Then the connection opens, without an error, the task of the socket goes on, and
  -- behind what was sent before come a request for the time at most and one text with the messages
  -- of all its topics and subscriptions.
  pub handle_disconnect-reopens :
      (should_reconnect : SocketError → Bool) (error : SocketError) (attempts : List (Option ℕ))
      (now : ℕ) (json : Text) (c : InnerClient R)
      → should_reconnect error ≡ true
      → In (some now) attempts
      → IsLive c
      → write_to_buf w negative_one ≢ none
      → w.wire.to_json (opening_messages c) ≡ some json
      → (d : InnerClient R) × (frames : List Message) × (handle_disconnect w should_reconnect
            (some error)
            attempts
            c
          ≡ some (ok tt, d))
        × IsLive d
        × AtMostOne w negative_one frames
        × (d.socket.sent ≡ c.socket.sent ++ (frames ++ text json ∷ []))
  unfolding handle_disconnect
  handle_disconnect-reopens should_reconnect error attempts now json c again m live writes e =
      let (first, f) = reconnect-some attempts now c m in
      let (done, running, kept, (frames, one, sent)) = on_open-sends w first json c live writes e in
      (
        (on_open w first c).1,
        frames,
        rw again (f ∙ ap (λ r. some (r, (on_open w first c).1)) done),
        running,
        one,
        sent,
      )
