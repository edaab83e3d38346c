-- ===== src/Client/Receive.antt =====
-- What the client of client/inner.rs does with the messages and the values of the server. rmpv's
-- values are of an unknown type `R`.
use frclib_nettables.Base.{
  ℕ_discrete, ℕ, ◌%◌, ◌^◌, ◌≡◌, refl, ◌⊎◌, ◌↔◌, inl, inr, Bool, true, false, not, Option, none,
  some, [], ◌∷◌, ◌++◌, length, In, arith, ltb, if◌then◌else◌, ap, subst, sym, ◌∙◌,
}
use frclib_nettables.Base.Int.{ℤ, as_i32}
use frclib_nettables.Base.Map.{Key, Map, lookup, insert, remove}
use frclib_nettables.Client.State.{InnerClient, HeldSub, MessageData}
use frclib_nettables.Spec.Extensions.{FrcType, from_u8}
use frclib_nettables.Spec.Messages.{NtMessage, announce, un_announce}
use frclib_nettables.Spec.Subscription.{is_valid, matches_topic}
use frclib_nettables.Spec.Topic.{Topic}

unfoldable pub ℤ-discrete : Discrete ℤ
unfolding ℕ_discrete
ℤ-discrete = hlevel ℕ_discrete

instance abbrev pub int_key : Key ℤ
int_key = record { decide = ℤ-discrete }

module _ {R : Type 0} where
  -- `try_send`: an error where the stream is gone or is full.
  abbrev pub has_room : HeldSub R → Bool
  has_room held = if held.closed then false else ltb (length held.queue) held.capacity

  abbrev pub queued : MessageData R → HeldSub R → HeldSub R
  queued message held = record held { queue = held.queue ++ message ∷ [] }

  -- One subscription in `send_value_to_subscriber`; `none` where it is not kept.
  pub offer : Topic → MessageData R → HeldSub R → Option (HeldSub R)
  offer topic message held =
      if not (is_valid held.sub)
      then none
      else if matches_topic held.sub topic
      then (if has_room held then some (queued message held) else none)
      else some held

  -- One round of `retain`: the entry that is kept, if it is, before the rest.
  abbrev keep : ℤ → Option (HeldSub R) → Map ℤ (HeldSub R) → Map ℤ (HeldSub R)
  keep id none rest = rest
  keep id (some kept) rest = (id, kept) ∷ rest

  retain_subs : Topic → MessageData R → Map ℤ (HeldSub R) → Map ℤ (HeldSub R)
  retain_subs topic message [] = []
  retain_subs topic message ((id, held) ∷ subs) =
      keep id (offer topic message held) (retain_subs topic message subs)

  unfoldable pub send_value_to_subscriber : Topic → ℕ → FrcType → R → InnerClient R → InnerClient R
  unfolding retain_subs
  send_value_to_subscriber topic timestamp type value c = record c {
    subscriptions =
        retain_subs topic
          (record {
            topic_name = topic.name;
            timestamp = timestamp;
            type = type;
            data_value = value;
          })
          c.subscriptions;
  }

  -- The branch of `handle_value` for a topic: the four elements of an array, as numbers where they
  -- are numbers. `id` is what `as_i64` gives, cast to `i32`.
  unfoldable pub handle_topic_value : ℤ → ℕ → Option ℕ → R → InnerClient R → InnerClient R
  unfolding send_value_to_subscriber
  handle_topic_value id timestamp_micros none value c = c
  handle_topic_value id timestamp_micros (some type_idx) value c =
      elim (from_u8 (type_idx % 2 ^ 8)) [
        | none ↦ c
        | some type ↦ elim (lookup id c.announced_topics) [
          | none ↦ c
          | some topic ↦ send_value_to_subscriber topic (timestamp_micros % 2 ^ 32) type value c
        ]
      ]

  -- One message of a text frame, without the calls of the user's functions.
  unfoldable pub handle_nt_message : NtMessage → InnerClient R → InnerClient R
  handle_nt_message (announce msg) c = elim (lookup msg.id c.announced_topics) [
    | some topic ↦ c
    | none ↦ record c {
      announced_topics =
          insert msg.id
            (record { name = msg.name; type = msg.type; properties = some msg.properties })
            c.announced_topics;
    }
  ]
  handle_nt_message (un_announce msg) c = record c {
    announced_topics = remove (as_i32 msg.id) c.announced_topics;
  }
  handle_nt_message msg c = c

  -- Who gets a value, entry by entry.
  abbrev pub Receives : Topic → MessageData R → HeldSub R → HeldSub R → Type 0
  Receives topic message held kept =
      (is_valid held.sub ≡ true)
      × (((matches_topic held.sub topic ≡ true)
            × (has_room held ≡ true)
            × (kept ≡ queued message held))
          ⊎ ((matches_topic held.sub topic ≡ false) × (kept ≡ held)))

  offer-Receives :
      (topic : Topic) (message : MessageData R) (held kept : HeldSub R)
      → (offer topic message held ≡ some kept) ↔ Receives topic message held kept
  unfolding offer
  offer-Receives topic message held kept = ground arith

  In-keep :
      (i : ℤ) (o : Option (HeldSub R)) (rest : Map ℤ (HeldSub R)) (x : ℤ × HeldSub R)
      → In x (keep i o rest)
      → ((k : HeldSub R) × (o ≡ some k) × (x ≡ (i, k))) ⊎ In x rest
  In-keep i none rest x m = inr m
  In-keep i (some k) rest x (inl e) = inl (k, refl, e)
  In-keep i (some k) rest x (inr m) = inr m

  In-keep_rest :
      (i : ℤ) (o : Option (HeldSub R)) (rest : Map ℤ (HeldSub R)) (x : ℤ × HeldSub R)
      → In x rest
      → In x (keep i o rest)
  In-keep_rest i none rest x m = m
  In-keep_rest i (some k) rest x m = inr m

  retained-Receives :
      (topic : Topic) (message : MessageData R) (subs : Map ℤ (HeldSub R)) (id : ℤ)
      (kept : HeldSub R)
      → In (id, kept) (retain_subs topic message subs)
      → (held : HeldSub R) × In (id, held) subs × Receives topic message held kept
  unfolding retain_subs
  retained-Receives topic message [] id kept m = absurd m
  retained-Receives topic message ((i, h) ∷ subs) id kept m =
      elim (In-keep i (offer topic message h) (retain_subs topic message subs) (id, kept) m) [
        | inl (k, e, same) ↦ (
          h,
          inl (ap (λ (x : ℤ × HeldSub R). (x.0, h)) same),
          (offer-Receives topic message h kept).0
              (e ∙ ap (λ (x : ℤ × HeldSub R). some x.1) (sym same)),
        )
        | inr rest ↦
            let (held, there, got) = retained-Receives topic message subs id kept rest in
            (held, inr there, got)
      ]

  receiving-retained :
      (topic : Topic) (message : MessageData R) (subs : Map ℤ (HeldSub R)) (id : ℤ)
      (held kept : HeldSub R)
      → In (id, held) subs
      → offer topic message held ≡ some kept
      → In (id, kept) (retain_subs topic message subs)
  unfolding retain_subs
  receiving-retained topic message [] id held kept m e = absurd m
  receiving-retained topic message ((i, h) ∷ subs) id held kept (inl same) e =
      let e' : offer topic message h ≡ some kept =
        ap (λ (x : ℤ × HeldSub R). offer topic message x.1) (sym same) ∙ e in
      subst (λ o. In (id, kept) (keep i o (retain_subs topic message subs))) (sym e')
        (inl (ap (λ (x : ℤ × HeldSub R). (x.0, kept)) same))
  receiving-retained topic message ((i, h) ∷ subs) id held kept (inr m) e =
      In-keep_rest i (offer topic message h) (retain_subs topic message subs) (id, kept)
        (receiving-retained topic message subs id held kept m e)

  abbrev pub message_of : Topic → ℕ → FrcType → R → MessageData R
  message_of topic timestamp type value = record {
    topic_name = topic.name;
    timestamp = timestamp;
    type = type;
    data_value = value;
  }

  -- After a value of a topic the client has exactly these subscriptions: those that are still held,
  -- match the topic and have room, with the value put behind what waits, and those that are still
  -- held and do not match, as they were.
  pub send_value_to_subscriber_iff :
      (topic : Topic) (timestamp : ℕ) (type : FrcType) (value : R) (c : InnerClient R) (id : ℤ)
      (kept : HeldSub R)
      → In (id, kept) (send_value_to_subscriber topic timestamp type value c).subscriptions ↔ (
          (held : HeldSub R) × In (id, held) c.subscriptions
          × Receives topic (message_of topic timestamp type value) held kept)
  unfolding send_value_to_subscriber
  send_value_to_subscriber_iff topic timestamp type value c id kept = (
    retained-Receives topic (message_of topic timestamp type value) c.subscriptions id kept,
    λ h.
        receiving-retained topic (message_of topic timestamp type value) c.subscriptions id h.0 kept
          h.1 ((offer-Receives topic _ h.0 kept).1 h.2),
  )
