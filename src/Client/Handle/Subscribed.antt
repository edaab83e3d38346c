-- ===== src/Client/Handle/Subscribed.antt =====
-- What a stream of client/async_handle.rs gets of the values that come in.
use frclib_nettables.Base.{
  ℕ, suc, ◌+◌, ◌<◌, ◌≤◌, ◌≡◌, refl, sym, ap, ◌∙◌, subst, inl, inr, Bool, Bool-cases, true, false,
  Option, some, List, [], ◌∷◌, ◌++◌, length, append_assoc, append-nil, In, arith, if◌then◌else◌,
  length-append,
}
use frclib_nettables.Base.Int.{ℤ, pos}
use frclib_nettables.Base.Map.{insert, In-of_lookup, lookup-insert_same}
use frclib_nettables.Base.Text.{Text}
use frclib_nettables.Client.Clock.{new_sub_id}
use frclib_nettables.Client.Handle.{data_of, take_id, send_messages, subscribe_w_options}
use frclib_nettables.Client.Handle.Effects.{bind-ok}
use frclib_nettables.Client.Receive.{
  int_key, send_value_to_subscriber, send_value_to_subscriber_iff, message_of,
}
use frclib_nettables.Client.Sending.{ClientWire, subscribe_of}
use frclib_nettables.Client.State.{InnerClient, HeldSub, MessageData, ◌>>=◌}
use frclib_nettables.Spec.Error.{ok}
use frclib_nettables.Spec.Extensions.{FrcType}
use frclib_nettables.Spec.Subscription.{Subscription, SubscriptionOptions, cares_about, is_valid}
use frclib_nettables.Spec.Subscription.Matching.{matches_topic-cares_about}
use frclib_nettables.Spec.Topic.{Topic}

-- A value as it comes in: its topic, its timestamp, its type and the data.
abbrev pub Incoming : Type 0 → Type 0
Incoming R = Topic × ℕ × FrcType × R

module _ {R : Type 0} where
  -- The values of announced topics, one after the other.
  unfoldable pub receive_each : List (Incoming R) → InnerClient R → InnerClient R
  receive_each [] c = c
  receive_each ((topic, timestamp, type, value) ∷ values) c =
      receive_each values (send_value_to_subscriber topic timestamp type value c)

  abbrev kept_if : Bool → MessageData R → List (MessageData R) → List (MessageData R)
  kept_if cares message rest = if cares then message ∷ rest else rest

  -- What a stream is to get of the values: those of topics that its subscription cares about.
  unfoldable pub wanted : Subscription → List (Incoming R) → List (MessageData R)
  wanted stream [] = []
  wanted stream ((topic, timestamp, type, value) ∷ values) =
      let rest = wanted stream values in
      kept_if (cares_about stream topic.name) (message_of topic timestamp type value) rest

  -- A subscription that its user holds, with what waits in the stream.
  abbrev pub held_with : Subscription → List (MessageData R) → HeldSub R
  held_with stream queue = record {
    sub = record { subscription = some stream };
    queue = queue;
    capacity = 256;
    closed = false;
  }

  receive-wanted :
      (stream : Subscription) (queue : List (MessageData R)) (id : ℤ) (topic : Topic)
      (timestamp : ℕ) (type : FrcType) (value : R) (c : InnerClient R)
      → In (id, held_with stream queue) c.subscriptions
      → length queue < 256
      → cares_about stream topic.name ≡ true
      → In
          (id, held_with stream (queue ++ message_of topic timestamp type value ∷ []))
          (send_value_to_subscriber topic timestamp type value c).subscriptions
  unfolding is_valid
  receive-wanted stream queue id topic timestamp type value c here room cares =
      (send_value_to_subscriber_iff topic timestamp type value c id _).1 (
        held_with stream queue,
        here,
        (
          refl,
          inl (
            matches_topic-cares_about (record { subscription = some stream }) topic ∙ cares,
            ground (arith),
            refl,
          ),
        ),
      )

  receive-other :
      (stream : Subscription) (queue : List (MessageData R)) (id : ℤ) (topic : Topic)
      (timestamp : ℕ) (type : FrcType) (value : R) (c : InnerClient R)
      → In (id, held_with stream queue) c.subscriptions
      → cares_about stream topic.name ≡ false
      → In
          (id, held_with stream queue)
          (send_value_to_subscriber topic timestamp type value c).subscriptions
  unfolding is_valid
  receive-other stream queue id topic timestamp type value c here other =
      (send_value_to_subscriber_iff topic timestamp type value c id (held_with stream queue)).1 (
        held_with stream queue,
        here,
        (
          refl,
          inr (
            matches_topic-cares_about (record { subscription = some stream }) topic ∙ other,
            refl,
          ),
        ),
      )

  receive_each-wanted :
      (stream : Subscription) (id : ℤ) (values : List (Incoming R)) (queue : List (MessageData R))
      (c : InnerClient R)
      → In (id, held_with stream queue) c.subscriptions
      → length queue + length (wanted stream values) ≤ 256
      → In
          (id, held_with stream (queue ++ wanted stream values))
          (receive_each values c).subscriptions
  unfolding receive_each wanted
  receive_each-wanted stream id [] queue c here room =
      subst (λ q. In (id, held_with stream q) c.subscriptions) (sym (append-nil queue)) here
  receive_each-wanted stream id ((topic, timestamp, type, value) ∷ values) queue c here room =
      let message = message_of topic timestamp type value in
      elim (Bool-cases (cares_about stream topic.name)) [
        | inl cares ↦
            let room' : length queue + suc (length (wanted stream values)) ≤ 256 =
              subst (λ b. length queue + length (kept_if b message (wanted stream values)) ≤ 256)
                cares room in
            subst
              (λ q.
                In (id, held_with stream q)
                  (receive_each values
                    (send_value_to_subscriber topic timestamp type value c)).subscriptions)
              (append_assoc queue (message ∷ []) (wanted stream values)
                ∙ ap (λ b. queue ++ (kept_if b message (wanted stream values))) (sym cares))
              (receive_each-wanted stream id values (queue ++ message ∷ [])
                (send_value_to_subscriber topic timestamp type value c)
                (receive-wanted stream queue id topic timestamp type value c here
                  (omega (arith, room')) cares)
                (rw (length-append queue (message ∷ [])) (omega (arith, room'))))
        | inr other ↦
            subst
              (λ b.
                In (id, held_with stream (queue ++ (kept_if b message (wanted stream values))))
                  (receive_each values
                    (send_value_to_subscriber topic timestamp type value c)).subscriptions)
              (sym other)
              (receive_each-wanted stream id values queue
                (send_value_to_subscriber topic timestamp type value c)
                (receive-other stream queue id topic timestamp type value c here other)
                (subst (λ b. length queue + length (kept_if b message (wanted stream values)) ≤ 256)
                  other room))
      ]

  -- A subscription that succeeded is held under its id, with nothing in its stream.
  subscribe-held :
      (w : ClientWire R) (topic_names : List Text) (options : Option SubscriptionOptions)
      (c d : InnerClient R) (stream : Subscription)
      → subscribe_w_options w topic_names options c ≡ (ok stream, d)
      → In (stream.subuid, held_with stream []) d.subscriptions
  unfolding subscribe_w_options take_id ◌>>=◌
  subscribe-held w topic_names options c d stream h =
      let s = data_of (pos (new_sub_id c).0) topic_names options in
      let (u, e, h1) =
        bind-ok (send_messages w (subscribe_of s ∷ []))
          (λ _ x.
            (ok s, record x { subscriptions = insert s.subuid (held_with s []) x.subscriptions }))
          (new_sub_id c).1 d stream h in
      let same : stream ≡ s = cc in
      let after : d.subscriptions
          ≡ insert s.subuid (held_with s [])
              (send_messages w (subscribe_of s ∷ []) (new_sub_id c).1).1.subscriptions =
        sym (ap (λ r. r.1.subscriptions) h1) in
      subst (λ t. In (t.subuid, held_with t []) d.subscriptions) (sym same)
        (subst (λ subs. In (s.subuid, held_with s []) subs) (sym after)
          (In-of_lookup s.subuid (held_with s []) _
            (lookup-insert_same s.subuid (held_with s []) _)))

  -- A client subscribes, and then values of announced topics come in, before the user reads one.
  -- As long as the stream need not hold more than 256 of them, it holds exactly those of the topics
  -- that the server takes the subscription to care about, in the order in which they came.
  pub subscribe-wanted :
      (w : ClientWire R) (topic_names : List Text) (options : Option SubscriptionOptions)
      (values : List (Incoming R)) (c d : InnerClient R) (stream : Subscription)
      → subscribe_w_options w topic_names options c ≡ (ok stream, d)
      → length (wanted stream values) ≤ 256
      → In
          (stream.subuid, held_with stream (wanted stream values))
          (receive_each values d).subscriptions
  subscribe-wanted w topic_names options values c d stream h room =
      receive_each-wanted stream stream.subuid values [] d
        (subscribe-held w topic_names options c d stream h) (omega (arith, room))
