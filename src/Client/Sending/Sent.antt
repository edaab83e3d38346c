-- ===== src/Client/Sending/Sent.antt =====
-- What a client of client/inner.rs has sent once a connection is open.
use frclib_nettables.Base.{
  ℕ, ◌≡◌, ◌≢◌, refl, sym, ap, ◌∙◌, none, some, Option-cases, List, [], ◌∷◌, ◌++◌, append_assoc, inl,
  In, ◌↔◌, true, arith, inr,
}
use frclib_nettables.Base.Int.{ℤ, negsuc}
use frclib_nettables.Base.Map.{Map}
use frclib_nettables.Base.Text.{Text}
use frclib_nettables.Client.Receive.{int_key}
use frclib_nettables.Client.Sending.{
  ClientWire, negative_one, send_message, write_to_buf, update_time, reset_time, retain_valid,
  publish_messages, subscribe_messages, subscribe_of, opening_messages, on_open, time_topic,
}
use frclib_nettables.Client.Sending.Opening.{subscribe_messages-none, subscribe_messages-some}
use frclib_nettables.Client.State.{InnerClient, HeldSub, C, attempt, expected, ◌>>=◌}
use frclib_nettables.Spec.Error.{ok}
use frclib_nettables.Spec.Subscription.{Subscription, is_valid}
use frclib_nettables.Spec.Wire.{Message, text}
use frclib_nettables.Client.Sending.Live.{
  AtMostOne, bind_ok, ok-ne-panicked, IsLive, sent_all, send_message-live, update_time-HasSent,
  attempt_sent, attempt-HasSent,
}

module _ {R : Type 0} where
  retain_valid-some :
      (id : ℤ) (held : HeldSub R) (subs : Map ℤ (HeldSub R)) (sub : Subscription)
      → held.sub.subscription ≡ some sub
      → retain_valid ((id, held) ∷ subs) ≡ (id, held) ∷ retain_valid subs
  unfolding retain_valid
  retain_valid-some id held subs sub e = simp (retain_valid, e)

  retain_valid-none :
      (id : ℤ) (held : HeldSub R) (subs : Map ℤ (HeldSub R))
      → held.sub.subscription ≡ none
      → retain_valid ((id, held) ∷ subs) ≡ retain_valid subs
  unfolding retain_valid
  retain_valid-none id held subs e = simp (retain_valid, e)

  -- What the user no longer holds was not subscribed to anyway.
  retain_valid-messages :
      (subs : Map ℤ (HeldSub R)) → subscribe_messages (retain_valid subs) ≡ subscribe_messages subs
  unfolding retain_valid subscribe_messages
  retain_valid-messages [] = refl
  retain_valid-messages ((id, held) ∷ subs) =
      let rest = retain_valid-messages subs in
      elim (Option-cases held.sub.subscription) [
        | inl e ↦
            ap subscribe_messages (retain_valid-none id held subs e)
            ∙ rest
            ∙ sym (subscribe_messages-none id held subs e)
        | inr (sub, e) ↦
            ap subscribe_messages (retain_valid-some id held subs sub e)
            ∙ subscribe_messages-some id held (retain_valid subs) sub e
            ∙ ap (λ msgs. subscribe_of sub ∷ msgs) rest
            ∙ sym (subscribe_messages-some id held subs sub e)
      ]

  -- `c` when the messages of a new connection are sent.
  opened : ℕ → InnerClient R → InnerClient R
  opened now c = reset_time now (record c {
    announced_topics = (negsuc 0, time_topic) ∷ [];
    subscriptions = retain_valid c.subscriptions;
  })

  messages_sent :
      (json : Text) (c : InnerClient R)
      → IsLive c
      → attempt (send_message (text json)) c ≡ (ok tt, sent_all (text json ∷ []) c)
  unfolding attempt
  messages_sent json c live =
      let e = send_message-live (text json) c live in
      attempt_sent (send_message (text json) c).0 c (send_message (text json) c).1 (text json ∷ [])
        (λ h. ok-ne-panicked (sym (ap (λ r. r.0) e) ∙ h)) (ap (λ r. r.1) e)

  -- When a connection opens while the task of the socket runs, `on_open` does not fail, and the
  -- task goes on. It sends a request for the time at most, and behind it one text with the messages
  -- of all topics and subscriptions.
  pub on_open-sends :
      (w : ClientWire R) (now : ℕ) (json : Text) (c : InnerClient R)
      → IsLive c
      → write_to_buf w negative_one ≢ none
      → w.wire.to_json (opening_messages c) ≡ some json
      → let r = on_open w now c in
        (r.0 ≡ ok tt)
        × IsLive r.1
        × (r.1.subscriptions ≡ retain_valid c.subscriptions)
        × ((frames : List Message) × AtMostOne w negative_one frames
            × (r.1.socket.sent ≡ c.socket.sent ++ (frames ++ text json ∷ [])))
  unfolding on_open opening_messages opened reset_time ◌>>=◌
  on_open-sends w now json c live writes e =
      let (frames, one, f) =
        attempt-HasSent w negative_one (update_time w now) (opened now c)
          (update_time-HasSent w now (opened now c) live writes) in
      let all_sent =
        bind_ok (attempt (update_time w now)) (λ _. rest) (opened now c)
          (sent_all frames (opened now c)) tt f
        ∙ ap
            (λ o.
              (expected o >>= λ json. attempt (send_message (text json)))
                (sent_all frames (opened now c)))
            (ap (λ msgs. w.wire.to_json (publish_messages c.client_published_topics ++ msgs))
                (retain_valid-messages c.subscriptions)
              ∙ e)
        ∙ messages_sent json (sent_all frames (opened now c)) live in
      (
        ap (λ r. r.0) all_sent,
        (ap (λ r. r.1.socket.ended) all_sent ∙ live.0, ap (λ r. r.1.socket.left) all_sent ∙ live.1),
        ap (λ r. r.1.subscriptions) all_sent,
        (
          frames,
          one,
          ap (λ r. r.1.socket.sent) all_sent ∙ append_assoc c.socket.sent frames (text json ∷ []),
        ),
      )
    where
      rest : C R (Unit {0})
      rest =
          expected (
            w.wire.to_json (
              opening_messages (record c {
                announced_topics = (negsuc 0, time_topic) ∷ [];
                subscriptions = retain_valid c.subscriptions;
              })))
          >>= λ json. attempt (send_message (text json))

  pub retain_valid_iff :
      (subs : Map ℤ (HeldSub R)) (id : ℤ) (held : HeldSub R)
      → In (id, held) (retain_valid subs) ↔ (In (id, held) subs × (is_valid held.sub ≡ true))
  unfolding retain_valid is_valid
  retain_valid_iff [] id held = (λ m. absurd m, λ m. absurd m.0)
  retain_valid_iff ((i, h) ∷ subs) id held = ground (arith, retain_valid_iff subs id held)
