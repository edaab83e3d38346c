-- ===== src/Server/Topics/Removal.antt =====
-- What `remove_topic` of server/inner.rs leaves of a topic.
use frclib_nettables.Base.{ℕ, ◌≡◌, ◌≢◌, ap, none, some, arith, ◌∷◌}
use frclib_nettables.Base.Map.{
  nat_key, text_key, lookup, remove, lookup-remove_same, lookup-remove_other, lookup-remove-none,
}
use frclib_nettables.Base.Text.{Text}
use frclib_nettables.Server.State.{InnerServer}
use frclib_nettables.Server.State.Holds.{Holds, Holds-ok_or, Holds-pure, Holds-gets, Holds-modify}
use frclib_nettables.Server.Topics.{
  meta_pub_name, meta_sub_name, unmap, forget_topics, remove_topic,
}
use frclib_nettables.Spec.Topic.{Topic}

-- The letter behind the first sign.
abbrev second : Text → ℕ
second (a ∷ b ∷ rest) = b
second _ = 0

names_differ : (name : Text) → meta_pub_name name ≢ meta_sub_name name
names_differ name h = omega (arith, ap second h)

module _ {V : Type 0} where
  forgets_rest :
      (i p q : ℕ) (name : Text) (s : InnerServer V)
      → let t = forget_topics i p q (
          unmap name (
            unmap
              (meta_sub_name name)
              (unmap (meta_pub_name name) (record s { topics = remove i s.topics })))) in
        (lookup i t.topics ≡ none)
        × (lookup i t.topic_value_map ≡ none)
        × (lookup i t.topic_sub_map ≡ none)
        × (lookup name t.topic_map ≡ none)
        × (lookup (meta_pub_name name) t.topic_map ≡ none)
        × (lookup (meta_sub_name name) t.topic_map ≡ none)
  unfolding unmap forget_topics
  forgets_rest i p q name s = (
    lookup-remove-none q i _ (lookup-remove-none p i _ (lookup-remove_same i s.topics)),
    lookup-remove_same i s.topic_value_map,
    lookup-remove-none q i _ (lookup-remove-none p i _ (lookup-remove_same i s.topic_sub_map)),
    lookup-remove_same name _,
    lookup-remove-none name _ _ (
        lookup-remove-none (meta_sub_name name) _ _
          (lookup-remove_same (meta_pub_name name) s.topic_map)),
    lookup-remove-none name _ _ (lookup-remove_same (meta_sub_name name) _),
  )

  -- Removing a topic that there is and whose metatopics are known succeeds, and then neither the
  -- topic, nor its value, nor its list of subscriptions, nor one of the three names is left.
  pub remove_topic-forgets :
      (i p q : ℕ) (topic : Topic) (s : InnerServer V)
      → lookup i s.topics ≡ some topic
      → lookup (meta_pub_name topic.name) s.topic_map ≡ some p
      → lookup (meta_sub_name topic.name) s.topic_map ≡ some q
      → Holds
          (λ _ t.
            (lookup i t.topics ≡ none)
            × (lookup i t.topic_value_map ≡ none)
            × (lookup i t.topic_sub_map ≡ none)
            × (lookup topic.name t.topic_map ≡ none)
            × (lookup (meta_pub_name topic.name) t.topic_map ≡ none)
            × (lookup (meta_sub_name topic.name) t.topic_map ≡ none))
          (λ _. ⊥)
          (remove_topic i s)
  unfolding remove_topic
  remove_topic-forgets i p q topic s e f g = Holds-gets _ _ s (
      Holds-ok_or _ _ _ s (λ h. ground (arith, e))
        λ topic' e'.
          let same : topic' ≡ topic = ground (arith, e) in
          rw same (
            Holds-modify _ _ s (
              Holds-gets _ _ _ (
                Holds-ok_or _ _ _ _ (λ h. ground (arith, f))
                  λ p' f'. Holds-modify _ _ _ (
                    Holds-gets _ _ _ (
                      Holds-ok_or _ _ _ _
                        (λ h. ground (
                          arith,
                          g,
                          lookup-remove_other (meta_pub_name topic.name) (meta_sub_name topic.name)
                              s.topic_map (names_differ topic.name),
                        ))
                        λ q' g'. Holds-modify _ _ _ (
                          Holds-modify _ _ _
                            (Holds-pure _ _ (forgets_rest i p' q' topic.name s)))))))))
