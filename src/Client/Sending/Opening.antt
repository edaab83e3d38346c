-- ===== src/Client/Sending/Opening.antt =====
-- What a client of client/inner.rs sends when a connection opens.
use frclib_nettables.Base.{
  ℕ, ◌≡◌, refl, ◌∙◌, sym, ap, subst, ◌⊎◌, ◌↔◌, inl, inr, none, some, [], ◌∷◌, In, In-append,
  In-append_left, In-append_right, Option-cases,
}
use frclib_nettables.Base.Int.{ℤ}
use frclib_nettables.Base.Map.{Map}
use frclib_nettables.Client.Sending.{
  publish_of, subscribe_of, publish_messages, subscribe_messages, opening_messages,
}
use frclib_nettables.Client.State.{InnerClient, HeldSub}
use frclib_nettables.Spec.Messages.{NtMessage}
use frclib_nettables.Spec.Subscription.{Subscription}
use frclib_nettables.Spec.Topic.{PublishedTopic}

-- The publishing of a topic, and of a subscription that the user still holds.
abbrev pub IsPublished : NtMessage → Map ℕ PublishedTopic → Type 0
IsPublished msg published =
    (id : ℕ) × (topic : PublishedTopic) × In (id, topic) published × (msg ≡ publish_of topic)

abbrev pub IsHeld : {R : Type 0} → NtMessage → Map ℤ (HeldSub R) → Type 0
IsHeld {R} msg subs =
    (id : ℤ) × (held : HeldSub R) × (sub : Subscription) × In (id, held) subs
    × (held.sub.subscription ≡ some sub)
    × (msg ≡ subscribe_of sub)

publish_messages_sound :
    (published : Map ℕ PublishedTopic) (msg : NtMessage)
    → In msg (publish_messages published)
    → IsPublished msg published
unfolding publish_messages
publish_messages_sound [] msg m = absurd m
publish_messages_sound ((id, topic) ∷ published) msg (inl e) = (id, topic, inl refl, e)
publish_messages_sound ((id, topic) ∷ published) msg (inr m) =
    let (i, t, there, e) = publish_messages_sound published msg m in (i, t, inr there, e)

publish_messages_complete :
    (published : Map ℕ PublishedTopic) (id : ℕ) (topic : PublishedTopic)
    → In (id, topic) published
    → In (publish_of topic) (publish_messages published)
unfolding publish_messages
publish_messages_complete [] id topic m = absurd m
publish_messages_complete ((i, t) ∷ published) id topic (inl e) =
    inl (ap (λ (x : ℕ × PublishedTopic). publish_of x.1) e)
publish_messages_complete ((i, t) ∷ published) id topic (inr m) =
    inr (publish_messages_complete published id topic m)

module _ {R : Type 0} where
  pub subscribe_messages-none :
      (id : ℤ) (held : HeldSub R) (subs : Map ℤ (HeldSub R))
      → held.sub.subscription ≡ none
      → subscribe_messages ((id, held) ∷ subs) ≡ subscribe_messages subs
  unfolding subscribe_messages
  subscribe_messages-none id held subs e = rw (e, subscribe_messages) refl

  pub subscribe_messages-some :
      (id : ℤ) (held : HeldSub R) (subs : Map ℤ (HeldSub R)) (sub : Subscription)
      → held.sub.subscription ≡ some sub
      → subscribe_messages ((id, held) ∷ subs) ≡ subscribe_of sub ∷ subscribe_messages subs
  unfolding subscribe_messages
  subscribe_messages-some id held subs sub e = rw (e, subscribe_messages) refl

  IsHeld-behind :
      (x : ℤ × HeldSub R) (subs : Map ℤ (HeldSub R)) (msg : NtMessage)
      → IsHeld msg subs
      → IsHeld msg (x ∷ subs)
  IsHeld-behind x subs msg (id, held, sub, m, e, f) = (id, held, sub, inr m, e, f)

  subscribe_messages_sound :
      (subs : Map ℤ (HeldSub R)) (msg : NtMessage)
      → In msg (subscribe_messages subs)
      → IsHeld msg subs
  unfolding subscribe_messages
  subscribe_messages_sound [] msg m = absurd m
  subscribe_messages_sound ((id, held) ∷ subs) msg m = elim (Option-cases held.sub.subscription) [
    | inl e ↦
        IsHeld-behind (id, held) subs msg
          (subscribe_messages_sound subs msg
            (subst (In msg) (subscribe_messages-none id held subs e) m))
    | inr (sub, e) ↦ elim (subst (In msg) (subscribe_messages-some id held subs sub e) m) [
      | inl here ↦ (id, held, sub, inl refl, e, here)
      | inr there ↦ IsHeld-behind (id, held) subs msg (subscribe_messages_sound subs msg there)
    ]
  ]

  subscribe_messages_complete :
      (subs : Map ℤ (HeldSub R)) (id : ℤ) (held : HeldSub R) (sub : Subscription)
      → In (id, held) subs
      → held.sub.subscription ≡ some sub
      → In (subscribe_of sub) (subscribe_messages subs)
  unfolding subscribe_messages
  subscribe_messages_complete [] id held sub m e = absurd m
  subscribe_messages_complete ((i, h) ∷ subs) id held sub (inl same) e =
      let e' = ap (λ (x : ℤ × HeldSub R). x.1.sub.subscription) (sym same) in
      subst (In (subscribe_of sub)) (sym (subscribe_messages-some i h subs sub (e' ∙ e))) (inl refl)
  subscribe_messages_complete ((i, h) ∷ subs) id held sub (inr m) e =
      let behind = subscribe_messages_complete subs id held sub m e in
      elim (Option-cases h.sub.subscription) [
        | inl f ↦ subst (In (subscribe_of sub)) (sym (subscribe_messages-none i h subs f)) behind
        | inr (s, f) ↦
            subst (In (subscribe_of sub)) (sym (subscribe_messages-some i h subs s f)) (inr behind)
      ]

  -- On a new connection a client publishes exactly the topics in its map of published topics, and
  -- subscribes to exactly what its user still holds.
  pub opening_messages_iff :
      (c : InnerClient R) (msg : NtMessage)
      → In msg (opening_messages c)
        ↔ (IsPublished msg c.client_published_topics ⊎ IsHeld msg c.subscriptions)
  unfolding opening_messages
  opening_messages_iff c msg = (
    λ m. elim (In-append msg (publish_messages c.client_published_topics) _ m) [
      | inl published ↦ inl (publish_messages_sound c.client_published_topics msg published)
      | inr held ↦ inr (subscribe_messages_sound c.subscriptions msg held)
    ],
    λ h. elim h [
      | inl (id, topic, m, e) ↦ In-append_left msg (publish_messages c.client_published_topics) _ (
          subst (λ x. In x (publish_messages c.client_published_topics)) (sym e)
            (publish_messages_complete c.client_published_topics id topic m))
      | inr (id, held, sub, m, e, f) ↦
          In-append_right msg (publish_messages c.client_published_topics) _ (
            subst (λ x. In x (subscribe_messages c.subscriptions)) (sym f)
              (subscribe_messages_complete c.subscriptions id held sub m e))
    ],
  )
