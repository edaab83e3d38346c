-- ===== src/Client/Sending/Opens.antt =====
-- What `on_open` of client/inner.rs sends and keeps.
use frclib_nettables.Base.{
  ℕ, ◌≡◌, ◌≢◌, true, none, some, List, [], ◌∷◌, ◌++◌, In, ◌⊎◌, ◌↔◌, sym, subst,
}
use frclib_nettables.Base.Int.{ℤ}
use frclib_nettables.Base.Text.{Text}
use frclib_nettables.Client.Sending.{
  ClientWire, negative_one, write_to_buf, opening_messages, on_open,
}
use frclib_nettables.Client.Sending.Live.{AtMostOne, IsLive}
use frclib_nettables.Client.Sending.Opening.{IsPublished, IsHeld, opening_messages_iff}
use frclib_nettables.Client.Sending.Sent.{on_open-sends, retain_valid_iff}
use frclib_nettables.Client.State.{InnerClient, HeldSub}
use frclib_nettables.Spec.Messages.{NtMessage}
use frclib_nettables.Spec.Subscription.{is_valid}
use frclib_nettables.Spec.Wire.{Message, text}

module _ {R : Type 0} where
  -- While the task of a client's socket runs, if the id -1 and the messages can be written: on a
  -- new connection `on_open` sends a request for the time at most, and behind it one text. This is
  -- the text of a list of messages that publishes exactly the topics in the client's map of
  -- published topics and subscribes to exactly what its user still holds. Just the subscriptions
  -- that the user still holds are kept.
  pub on_open_iff :
      (w : ClientWire R) (now : ℕ) (json : Text) (c : InnerClient R)
      → IsLive c
      → write_to_buf w negative_one ≢ none
      → w.wire.to_json (opening_messages c) ≡ some json
      → let d = (on_open w now c).1 in
        (frames : List Message) × (messages : List NtMessage) × AtMostOne w negative_one frames
        × (w.wire.to_json messages ≡ some json)
        × (d.socket.sent ≡ c.socket.sent ++ (frames ++ text json ∷ []))
        × ((msg : NtMessage)
            → In msg messages
              ↔ (IsPublished msg c.client_published_topics ⊎ IsHeld msg c.subscriptions))
        × ((id : ℤ) (held : HeldSub R)
            → In (id, held) d.subscriptions
              ↔ (In (id, held) c.subscriptions × (is_valid held.sub ≡ true)))
  on_open_iff w now json c live writes e =
      let (done, running, kept, (frames, one, sent)) = on_open-sends w now json c live writes e in
      (
        frames,
        opening_messages c,
        one,
        e,
        sent,
        opening_messages_iff c,
        λ id held.
            subst
              (λ subs.
                In (id, held) subs ↔ (In (id, held) c.subscriptions × (is_valid held.sub ≡ true)))
              (sym kept) (retain_valid_iff c.subscriptions id held),
      )
