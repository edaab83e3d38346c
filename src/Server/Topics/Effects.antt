-- ===== src/Server/Topics/Effects.antt =====
-- What `add_topic` of server/inner.rs does to the names of topics.
use frclib_nettables.Base.{
  ℕ, zero, suc, ◌≡◌, ◌≢◌, refl, ◌∙◌, sym, ap, true, false, none, some, arith, Option-cases,
  Bool-cases, inl, inr,
}
use frclib_nettables.Base.Map.{nat_key, text_key, lookup, lookup-insert}
use frclib_nettables.Base.Text.{Text}
use frclib_nettables.Server.Announce.Frame.{announce_topic-Frame}
use frclib_nettables.Server.State.{InnerServer, pure, ◌>>◌}
use frclib_nettables.Server.State.Frame.{Frame}
use frclib_nettables.Server.State.Holds.{Holds, Keeps, Holds-bind, Holds-pure, Holds-weaken}
use frclib_nettables.Server.Topics.{
  is_meta_name, meta_pub_name, meta_sub_name, register, announce_added, add_topic_fuel, add_topic,
}
use frclib_nettables.Server.Topics.Wf.{meta_pub_name-is_meta, meta_sub_name-is_meta}
use frclib_nettables.Spec.Error.{Outcome, ok}
use frclib_nettables.Spec.Topic.{Topic, new_meta}
use frclib_nettables.Spec.Wire.{Wire}

module _ {V : Type 0} where
  abbrev pub IsKnown : Text → InnerServer V → Type 0
  IsKnown name s = lookup name s.topic_map ≢ none

  -- The names known before lead where they led.
  abbrev pub Kept : InnerServer V → InnerServer V → Type 0
  Kept s t = (name : Text) → IsKnown name s → lookup name t.topic_map ≡ lookup name s.topic_map

  Kept-trans : (s t u : InnerServer V) → Kept s t → Kept t u → Kept s u
  Kept-trans s t u p q name known = q name (λ h. known (sym (p name known) ∙ h)) ∙ p name known

  Kept-IsKnown : (s t : InnerServer V) (name : Text) → Kept s t → IsKnown name s → IsKnown name t
  Kept-IsKnown s t name p known h = known (sym (p name known) ∙ h)

  Frame-Kept : (s t : InnerServer V) → Frame s t → Kept s t
  Frame-Kept s t e name known = ap (λ (x : InnerServer V). lookup name x.topic_map) e

  register-lookup :
      (topic : Topic) (s : InnerServer V)
      → lookup topic.name (register topic s).topic_map ≡ some s.counters.topic_idx
  unfolding register
  register-lookup topic s =
      ground (arith, lookup-insert topic.name topic.name s.counters.topic_idx s.topic_map)

  register-Kept :
      (topic : Topic) (s : InnerServer V)
      → lookup topic.name s.topic_map ≡ none
      → Kept s (register topic s)
  unfolding register
  register-Kept topic s e name known =
      ground (arith, lookup-insert topic.name name s.counters.topic_idx s.topic_map)

  module _ (w : Wire V) where
    -- What adding a topic comes to, for its name and for the names known before.
    abbrev pub Enters : Topic → InnerServer V → Outcome ℕ × InnerServer V → Type 0
    Enters topic s r =
        Holds (λ i t. Kept s t × (lookup topic.name t.topic_map ≡ some i))
          (λ t. Kept s t × IsKnown topic.name t) r

    add_meta-Enters :
        (fuel : ℕ) (topic : Topic) (s : InnerServer V)
        → is_meta_name topic.name ≡ true
        → Enters topic s (add_topic_fuel w (suc fuel) topic s)
    unfolding add_topic_fuel
    add_meta-Enters fuel topic s meta = elim (Option-cases (lookup topic.name s.topic_map)) [
      | inl e ↦
          rw (e, add_topic_fuel, meta)
            (Holds-pure _ _ (register-Kept topic s e, register-lookup topic s))
      | inr (i, e) ↦ rw (e, add_topic_fuel) (Holds-pure _ _ ((λ _ _. refl), e))
    ]

    announce_added-Kept :
        (fuel : ℕ) (topic : Topic) (s : InnerServer V)
        → is_meta_name topic.name ≡ true
        → Keeps
            (λ t. Kept s t × IsKnown topic.name t)
            (announce_added w (add_topic_fuel w (suc fuel)) topic s)
    unfolding announce_added
    announce_added-Kept fuel topic s meta =
        Holds-bind (λ i t. Kept s t × (lookup topic.name t.topic_map ≡ some i)) _ _ s
          (add_meta-Enters fuel topic s meta)
          λ i t u.
            Holds-weaken (λ _ x. Frame t x) (Frame t) _ (λ _ x e. announced t x i u e)
              (λ x e. announced t x i u e) (announce_topic-Frame w i none t)
      where
        announced :
            (t x : InnerServer V) (i : ℕ)
            → Kept s t × (lookup topic.name t.topic_map ≡ some i)
            → Frame t x
            → Kept s x × IsKnown topic.name x
        announced t x i u e = (
          Kept-trans s t x u.0 (Frame-Kept t x e),
          Kept-IsKnown t x topic.name (Frame-Kept t x e) (λ h. ground (arith, u.1)),
        )

    both-Enters :
        (fuel : ℕ) (topic : Topic) (i : ℕ) (s t : InnerServer V)
        → Kept s t
        → lookup topic.name t.topic_map ≡ some i
        → Holds
            (λ j x.
              (Kept s x × (lookup topic.name x.topic_map ≡ some j))
              × (IsKnown (meta_pub_name topic.name) x × IsKnown (meta_sub_name topic.name) x))
            (λ x. Kept s x × IsKnown topic.name x)
            ((do
              announce_added w (add_topic_fuel w (suc fuel)) (new_meta (meta_pub_name topic.name))
              announce_added w (add_topic_fuel w (suc fuel)) (new_meta (meta_sub_name topic.name))
              pure i)
              t)
    unfolding new_meta
    both-Enters fuel topic i s t kept here =
        Holds-bind (λ _ x. Kept t x × IsKnown (meta_pub_name topic.name) x) _ _ t
          (Holds-weaken (λ _ x. Kept t x × IsKnown (meta_pub_name topic.name) x)
            (λ x. Kept t x × IsKnown (meta_pub_name topic.name) x) _ (λ _ x u. u)
            (λ x u. after x u.0)
            (announce_added-Kept fuel (new_meta (meta_pub_name topic.name)) t
              (meta_pub_name-is_meta topic.name)))
          λ _ x u.
            Holds-bind (λ _ y. Kept x y × IsKnown (meta_sub_name topic.name) y) _ _ x
              (Holds-weaken (λ _ y. Kept x y × IsKnown (meta_sub_name topic.name) y)
                (λ y. Kept x y × IsKnown (meta_sub_name topic.name) y) _ (λ _ y q. q)
                (λ y q. after y (Kept-trans t x y u.0 q.0))
                (announce_added-Kept fuel (new_meta (meta_sub_name topic.name)) x
                  (meta_sub_name-is_meta topic.name)))
              λ _ y q. Holds-pure _ _ (
                (
                  Kept-trans s t y kept (Kept-trans t x y u.0 q.0),
                  Kept-trans t x y u.0 q.0 topic.name (λ h. ground (arith, here)) ∙ here,
                ),
                (Kept-IsKnown x y (meta_pub_name topic.name) q.0 u.1, q.1),
              )
      where
        after : (x : InnerServer V) → Kept t x → Kept s x × IsKnown topic.name x
        after x k =
            (Kept-trans s t x kept k, Kept-IsKnown t x topic.name k (λ h. ground (arith, here)))

    -- A new topic that is no metatopic is known under its name and has both its metatopics once
    -- `add_topic` succeeds, and every name that was known before leads where it led. If an
    -- announcement fails, the name of the topic is known all the same.
    pub add_topic-enters :
        (topic : Topic) (s : InnerServer V)
        → lookup topic.name s.topic_map ≡ none
        → is_meta_name topic.name ≡ false
        → Holds
            (λ j t.
              (Kept s t × (lookup topic.name t.topic_map ≡ some j))
              × (IsKnown (meta_pub_name topic.name) t × IsKnown (meta_sub_name topic.name) t))
            (λ t. Kept s t × IsKnown topic.name t)
            (add_topic w topic s)
    unfolding add_topic add_topic_fuel
    add_topic-enters topic s e plain =
        rw (e, add_topic_fuel, plain)
          (both-Enters zero topic s.counters.topic_idx s (register topic s)
            (register-Kept topic s e) (register-lookup topic s))

    pub add_topic-Enters :
        (topic : Topic) (s : InnerServer V) → Enters topic s (add_topic w topic s)
    unfolding add_topic add_topic_fuel
    add_topic-Enters topic s = elim (Option-cases (lookup topic.name s.topic_map)) [
      | inr (i, e) ↦ rw (e, add_topic_fuel) (Holds-pure _ _ ((λ _ _. refl), e))
      | inl e ↦ elim (Bool-cases (is_meta_name topic.name)) [
        | inl meta ↦ add_meta-Enters 1 topic s meta
        | inr plain ↦
            Holds-weaken _ (λ t. Kept s t × IsKnown topic.name t) _ (λ j t u. u.0) (λ t u. u)
              (add_topic-enters topic s e plain)
      ]
    ]

    known-again :
        (topic : Topic) (i : ℕ) (t : InnerServer V)
        → lookup topic.name t.topic_map ≡ some i
        → add_topic w topic t ≡ (ok i, t)
    unfolding add_topic add_topic_fuel
    known-again topic i t e = rw (e, add_topic_fuel) refl

    -- Adding a topic again gives the same index and changes nothing. After an `add_topic` that
    -- failed half way the next one gives an index and does nothing either, so that the
    -- metatopics that are missing are not made up for.
    pub add_topic-again :
        (topic : Topic) (s : InnerServer V)
        → Holds
            (λ i t. add_topic w topic t ≡ (ok i, t))
            (λ t. (i : ℕ) × (add_topic w topic t ≡ (ok i, t)))
            (add_topic w topic s)
    add_topic-again topic s =
        Holds-weaken (λ i t. Kept s t × (lookup topic.name t.topic_map ≡ some i))
          (λ t. Kept s t × IsKnown topic.name t) _ (λ i t u. known-again topic i t u.1)
          (λ t u. failed t u.1) (add_topic-Enters topic s)
      where
        failed :
            (t : InnerServer V) → IsKnown topic.name t → (i : ℕ) × (add_topic w topic t ≡ (ok i, t))
        failed t known = elim (Option-cases (lookup topic.name t.topic_map)) [
          | inl e ↦ absurd (known e)
          | inr (i, e) ↦ (i, known-again topic i t e)
        ]
