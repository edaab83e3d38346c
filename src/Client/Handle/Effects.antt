-- ===== src/Client/Handle/Effects.antt =====
-- What the operations of client/async_handle.rs send, and what that does to a server.
use frclib_nettables.Base.{
  ℕ, ◌≡◌, refl, sym, ap, ◌∙◌, subst, true, Option, none, some, List, [], ◌∷◌, ◌++◌, arith, In, inl,
}
use frclib_nettables.Base.Map.{nat_key, text_key, lookup, In-of_lookup}
use frclib_nettables.Base.Text.{Text}
use frclib_nettables.Client.Clock.{new_topic_id}
use frclib_nettables.Client.Handle.{
  clean_name, publishing, take_id, send_messages, keep_published, publish_topic, unpublish,
}
use frclib_nettables.Client.Sending.{
  ClientWire, check_task_panic, into_socket, send_message, publish_of, opening_messages,
}
use frclib_nettables.Client.Sending.Opening.{opening_messages_iff}
use frclib_nettables.Client.State.{InnerClient, C, encoded, ◌>>=◌}
use frclib_nettables.Spec.Error.{Outcome, ok, err, panicked, NetworkTablesError, serde_json}
use frclib_nettables.Spec.Extensions.{FrcType, stringify}
use frclib_nettables.Spec.Messages.{as_unpublish, NtMessage}
use frclib_nettables.Spec.Topic.{PublishedTopic, PublishProperties}
use frclib_nettables.Spec.Wire.{Message, text}

module _ {R : Type 0} where
  -- A frame is put into the client's end of the socket's channel.
  abbrev pub sent_to : Message → InnerClient R → InnerClient R
  sent_to message c = record c { socket = record c.socket { sent = c.socket.sent ++ message ∷ [] } }

  bind-ok_step :
      {A B : Type 0} (r : Outcome A) (c d : InnerClient R) (b : B) (f : A → C R B)
      → elim r [ ok a ↦ f a c | err e ↦ (err e, c) | panicked ↦ (panicked, c) ] ≡ (ok b, d)
      → (a : A) × (r ≡ ok a) × (f a c ≡ (ok b, d))
  bind-ok_step (ok a) c d b f h = (a, refl, h)
  bind-ok_step (err e) c d b f h = absurd (cc)
  bind-ok_step panicked c d b f h = absurd (cc)

  -- Operations in a row succeed only if each of them does.
  pub bind-ok :
      {A B : Type 0} (m : C R A) (f : A → C R B) (c d : InnerClient R) (b : B)
      → (m >>= f) c ≡ (ok b, d)
      → (a : A) × ((m c).0 ≡ ok a) × (f a (m c).1 ≡ (ok b, d))
  unfolding ◌>>=◌
  bind-ok m f c d b h = bind-ok_step (m c).0 (m c).1 d b f h

  send_message-ok :
      (message : Message) (c : InnerClient R)
      → (send_message message c).0 ≡ ok tt
      → send_message message c ≡ (ok tt, sent_to message c)
  unfolding send_message check_task_panic into_socket ◌>>=◌
  send_message-ok message c h = ground arith

  encoded-sent :
      (o : Option Text) (c : InnerClient R)
      → ((encoded o serde_json >>= λ json. send_message (text json)) c).0 ≡ ok tt
      → (json : Text) × (o ≡ some json)
        × (((encoded o serde_json >>= λ json. send_message (text json)) c).1
            ≡ sent_to (text json) c)
  unfolding ◌>>=◌
  encoded-sent none c h = absurd (cc)
  encoded-sent (some json) c h = (json, refl, ap (λ r. r.1) (send_message-ok (text json) c h))

  pub send_messages-ok :
      (w : ClientWire R) (messages : List NtMessage) (c : InnerClient R)
      → (send_messages w messages c).0 ≡ ok tt
      → (json : Text) × (w.wire.to_json messages ≡ some json)
        × ((send_messages w messages c).1 ≡ sent_to (text json) c)
  unfolding send_messages
  send_messages-ok w messages c h = encoded-sent (w.wire.to_json messages) c h

  -- The topic of the next id, and the client that has given the id out.
  abbrev pub next_topic : Text → FrcType → Option PublishProperties → InnerClient R → PublishedTopic
  next_topic name type properties c = record {
    name = clean_name name;
    pubuid = (new_topic_id c).0;
    type = stringify type;
    properties = properties;
  }

  -- A topic is published only if its messages were encoded and put into the socket's channel.
  pub publish_topic-ok :
      (w : ClientWire R) (name : Text) (type : FrcType) (properties : Option PublishProperties)
      (c d : InnerClient R) (topic : PublishedTopic)
      → publish_topic w name type properties c ≡ (ok topic, d)
      → (json : Text) × (topic ≡ next_topic name type properties c)
        × (w.wire.to_json (publishing topic) ≡ some json)
        × (d ≡ keep_published topic (sent_to (text json) (new_topic_id c).1))
  unfolding publish_topic take_id ◌>>=◌ keep_published
  publish_topic-ok w name type properties c d topic h =
      let t : PublishedTopic = next_topic name type properties c in
      let (u, e, h1) =
        bind-ok (send_messages w (publishing t)) (λ _ x. (ok t, keep_published t x))
          (new_topic_id c).1 d topic h in
      let (json, f, g) = send_messages-ok w (publishing t) (new_topic_id c).1 e in
      let same : topic ≡ t = cc in
      (
        json,
        same,
        ap (λ x. w.wire.to_json (publishing x)) same ∙ f,
        sym (ap (λ r. r.1) h1)
            ∙ ap (keep_published t) g
            ∙ ap (λ x. keep_published x (sent_to (text json) (new_topic_id c).1)) (sym same),
      )

  -- A topic that was unpublished stays in the client's map, so that the client publishes it again
  -- on the next connection.
  pub unpublish-reopened :
      (w : ClientWire R) (id : ℕ) (topic : PublishedTopic) (c : InnerClient R)
      → lookup id c.client_published_topics ≡ some topic
      → (unpublish w topic c).0 ≡ ok tt
      → In (publish_of topic) (opening_messages (unpublish w topic c).1)
  unfolding unpublish
  unpublish-reopened w id topic c here h =
      let (json, e, f) = send_messages-ok w (as_unpublish topic ∷ []) c h in
      (opening_messages_iff (unpublish w topic c).1 (publish_of topic)).1 (
        inl (
          id,
          topic,
          subst (λ (d : InnerClient R). In (id, topic) d.client_published_topics) (sym f)
              (In-of_lookup id topic c.client_published_topics here),
          refl,
        ))

  -- When the task of the socket has ended with an error, the next message reports the error, and
  -- the message after it panics.
  pub send_message-after_end :
      (first second : Message) (e : NetworkTablesError) (c : InnerClient R)
      → c.socket.ended ≡ true
      → c.socket.left ≡ some e
      → ((send_message first c).0 ≡ err e)
        × ((send_message second (send_message first c).1).0 ≡ panicked)
  unfolding send_message check_task_panic into_socket ◌>>=◌
  send_message-after_end first second e c ended left =
      rw (send_message, check_task_panic, left, ended) (refl, refl)
