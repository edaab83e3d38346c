-- ===== src/Client/Handle/Published.antt =====
-- What the messages that client/async_handle.rs sends for a topic do to the server of
-- server/runner.rs that parses them.
use frclib_nettables.Base.{
  ℕ, ◌≡◌, ap, subst, Option, Option-cases, inl, inr, some, List, [], ◌∷◌, ◌++◌,
}
use frclib_nettables.Base.Map.{nat_key, text_key}
use frclib_nettables.Base.Text.{Text}
use frclib_nettables.Client.Clock.{new_topic_id}
use frclib_nettables.Client.Handle.{clean_name, publishing, keep_published, publish_topic}
use frclib_nettables.Client.Handle.Effects.{publish_topic-ok}
use frclib_nettables.Client.Sending.{ClientWire, publish_of}
use frclib_nettables.Client.State.{InnerClient}
use frclib_nettables.Server.Publish.{inner_publish_topic}
use frclib_nettables.Server.Publish.Effects.{inner_publish_topic-enters}
use frclib_nettables.Server.Runner.{Msgpack, warn, dispatch, dispatch_all, parse_in}
use frclib_nettables.Server.State.{InnerServer, M}
use frclib_nettables.Server.State.Holds.{
  Holds, Keeps, Holds-bind, Holds-gets, Holds-ok_or, Holds-pure, Holds-weaken,
}
use frclib_nettables.Server.Topics.Effects.{IsKnown, Kept}
use frclib_nettables.Server.Values.{set_properties}
use frclib_nettables.Spec.Error.{Outcome, ok, err, panicked}
use frclib_nettables.Spec.Extensions.{FrcType}
use frclib_nettables.Spec.Messages.{
  NtMessage, publish, set_properties as set_properties_msg, PublishTopic, SetProperties,
}
use frclib_nettables.Spec.Topic.{PublishedTopic, PublishProperties}
use frclib_nettables.Spec.Wire.{Wire, Message, text}

module _ {V : Type 0} where
  -- The task goes on where the invariant holds.
  abbrev pub GoesOn : (InnerServer V → Type 0) → Outcome (Unit {0}) × InnerServer V → Type 0
  GoesOn I r = Holds (λ _ t. I t) (λ _. ⊥) r

  warned-GoesOn :
      {A : Type 0} (I : InnerServer V → Type 0) (r : Outcome A) (t : InnerServer V)
      → Keeps {V = V} I (r, t)
      → GoesOn I (elim r [ ok a ↦ (ok tt, t) | err e ↦ (ok tt, t) | panicked ↦ (panicked, t) ])
  warned-GoesOn I (ok a) t h = record { ends = h.ends }
  warned-GoesOn I (err e) t h = record { ends = h.ends }
  warned-GoesOn I panicked t h = absurd h.ends

  warn-GoesOn :
      {A : Type 0} (I : InnerServer V → Type 0) (m : M V A) (s : InnerServer V)
      → Keeps I (m s)
      → GoesOn I (warn m s)
  unfolding warn
  warn-GoesOn I m s h = warned-GoesOn I (m s).0 (m s).1 h

  -- `set_properties` leaves the names alone.
  set_properties-IsKnown :
      (name : Text) (msg : SetProperties) (s : InnerServer V)
      → IsKnown name s
      → Keeps (IsKnown name) (set_properties msg s)
  unfolding set_properties
  set_properties-IsKnown name msg s known = Holds-gets _ _ s (
      Holds-ok_or _ _ _ s (λ _. known)
        λ i e.
          Holds-gets _ _ s (Holds-ok_or _ _ _ s (λ _. known) λ topic f. record { ends = known }))

  module _ (w : Wire V) (idx now : ℕ) where
    publish-IsKnown :
        (msg : PublishTopic) (rest : List NtMessage) (s : InnerServer V)
        → ((t : InnerServer V)
            → IsKnown msg.name t
            → GoesOn (IsKnown msg.name) (dispatch_all w now idx rest t))
        → GoesOn (IsKnown msg.name) (dispatch_all w now idx (publish msg ∷ rest) s)
    unfolding dispatch_all dispatch
    publish-IsKnown msg rest s after =
        Holds-bind (λ _ t. IsKnown msg.name t) _ _ s
          (warn-GoesOn (IsKnown msg.name) (inner_publish_topic w msg idx) s (
            Holds-weaken _ (λ t. Kept s t × IsKnown msg.name t) _ (λ _ t h. h.1) (λ t h. h.1)
              (inner_publish_topic-enters w msg idx s)))
          λ _ t known. after t known

    set_properties_last :
        (name : Text) (msg : SetProperties) (t : InnerServer V)
        → IsKnown name t
        → GoesOn (IsKnown name) (dispatch_all w now idx (set_properties_msg msg ∷ []) t)
    unfolding dispatch_all dispatch
    set_properties_last name msg t known =
        Holds-bind (λ _ t. IsKnown name t) (dispatch w now idx (set_properties_msg msg))
          (λ _. dispatch_all w now idx []) t
          (warn-GoesOn (IsKnown name) (set_properties msg) t
            (set_properties-IsKnown name msg t known))
          λ _ x y. Holds-pure tt x y

    publishing-IsKnown :
        (topic : PublishedTopic) (s : InnerServer V)
        → GoesOn (IsKnown topic.name) (dispatch_all w now idx (publishing topic) s)
    unfolding publishing publish_of dispatch_all
    publishing-IsKnown topic s = elim (Option-cases topic.properties) [
      | inl e ↦ rw (e, publishing) (publish-IsKnown _ [] s (λ t known. Holds-pure tt t known))
      | inr (update, e) ↦
          let msg : SetProperties = record { name = topic.name; update = update } in
          rw (e, publishing)
            (publish-IsKnown _ (set_properties_msg msg ∷ []) s (set_properties_last topic.name msg))
    ]

module _ {R V Q : Type 0} (w : ClientWire R) (p : Msgpack Q V) (sw : Wire V) where
  -- A client publishes a topic, and the server parses the frame that this puts on the client's
  -- socket, behind those that were there. If the server reads the messages that the client wrote,
  -- then the task that parses goes on, and the server knows the cleaned name.
  pub publish_topic-IsKnown :
      (name : Text) (type : FrcType) (properties : Option PublishProperties) (c d : InnerClient R)
      (topic : PublishedTopic) (idx now : ℕ) (s : InnerServer V)
      → ((json : Text)
          → w.wire.to_json (publishing topic) ≡ some json
          → sw.from_json json ≡ some (publishing topic))
      → publish_topic w name type properties c ≡ (ok topic, d)
      → (frame : Message) × (d.socket.sent ≡ c.socket.sent ++ frame ∷ [])
        × GoesOn
            (IsKnown (clean_name name))
            (parse_in p sw now (record { client_idx = idx; msg = frame }) s)
  unfolding parse_in keep_published new_topic_id
  publish_topic-IsKnown name type properties c d topic idx now s reads h =
      let (json, same, e, f) = publish_topic-ok w name type properties c d topic h in
      (
        text json,
        ap (λ x. x.socket.sent) f,
        rw (reads json e, parse_in)
            (subst (λ n. GoesOn (IsKnown n) (dispatch_all sw now idx (publishing topic) s))
              (ap (λ t. t.name) same) (publishing-IsKnown sw idx now topic s)),
      )
