-- ===== src/Spec/Subscription/Matching.antt =====
-- Which topics a subscription of spec/subscription.rs cares about, for the server and for a client.
use frclib_nettables.Base.{
  ◌≡◌, refl, subst, ◌↔◌, ◌⊎◌, inl, inr, true, false, none, some, ◌++◌, arith, any, In, unwrap_or,
  any-of_In, In-of_any, Bool-cases,
}
use frclib_nettables.Base.Text.{Text, text_eq, text_eq_iff, starts_with, starts_with_iff}
use frclib_nettables.Spec.Subscription.{
  Subscription, InternalSub, get_options, cares_about, matches_topic,
}
use frclib_nettables.Spec.Topic.{Topic}

-- The prefix option decides between prefixes and whole names.
abbrev pub IsChosen : Subscription → Text → Type 0
IsChosen sub topic =
    ((unwrap_or (get_options sub).prefix false ≡ true)
      × ((pattern : Text) × (rest : Text) × In pattern sub.topics × (topic ≡ pattern ++ rest)))
    ⊎ ((unwrap_or (get_options sub).prefix false ≡ false) × In topic sub.topics)

chosen_prefix :
    (sub : Subscription) (topic : Text)
    → any (λ topic_pat. starts_with topic topic_pat) sub.topics ≡ true
    → (pattern : Text) × (rest : Text) × In pattern sub.topics × (topic ≡ pattern ++ rest)
chosen_prefix sub topic h =
    let (pattern, there, hit) = In-of_any (λ topic_pat. starts_with topic topic_pat) sub.topics h in
    let (rest, e) = (starts_with_iff topic pattern).0 hit in (pattern, rest, there, e)

chosen_name :
    (sub : Subscription) (topic : Text)
    → any (λ topic_name. text_eq topic_name topic) sub.topics ≡ true
    → In topic sub.topics
chosen_name sub topic h =
    let (name, there, hit) = In-of_any (λ topic_name. text_eq topic_name topic) sub.topics h in
    let e = (text_eq_iff name topic).0 hit in subst (λ n. In n sub.topics) e there

prefix_chosen :
    (sub : Subscription) (topic : Text)
    → ((true ≡ true)
        × ((pattern : Text) × (rest : Text) × In pattern sub.topics × (topic ≡ pattern ++ rest)))
      ⊎ ((true ≡ false) × In topic sub.topics)
    → any (λ topic_pat. starts_with topic topic_pat) sub.topics ≡ true
prefix_chosen sub topic (inl (on, (pattern, rest, there, e))) =
    any-of_In (λ topic_pat. starts_with topic topic_pat) sub.topics pattern there
      ((starts_with_iff topic pattern).1 (rest, e))
prefix_chosen sub topic (inr (off, there)) = cc

name_chosen :
    (sub : Subscription) (topic : Text)
    → ((false ≡ true)
        × ((pattern : Text) × (rest : Text) × In pattern sub.topics × (topic ≡ pattern ++ rest)))
      ⊎ ((false ≡ false) × In topic sub.topics)
    → any (λ topic_name. text_eq topic_name topic) sub.topics ≡ true
name_chosen sub topic (inl (on, rest)) = cc
name_chosen sub topic (inr (off, there)) =
    any-of_In (λ topic_name. text_eq topic_name topic) sub.topics topic there
      ((text_eq_iff topic topic).1 refl)

-- A subscription cares about a topic exactly when one of its patterns is a prefix of the name,
-- with the prefix option, or the name is listed, without it.
pub cares_about_iff :
    (sub : Subscription) (topic : Text) → (cares_about sub topic ≡ true) ↔ IsChosen sub topic
unfolding cares_about
cares_about_iff sub topic = elim (Bool-cases (unwrap_or (get_options sub).prefix false)) [
  | inl on ↦
      rw (on, cares_about) (λ h. inl (refl, chosen_prefix sub topic h), prefix_chosen sub topic)
  | inr off ↦
      rw (off, cares_about) (λ h. inr (refl, chosen_name sub topic h), name_chosen sub topic)
]

-- A client takes a topic to match a subscription that its user still holds exactly when the server
-- takes the subscription to care about the topic, and it takes none to match any other
-- subscription.
pub matches_topic-cares_about :
    (sub : InternalSub) (topic : Topic)
    → matches_topic sub topic
      ≡ (elim sub.subscription [ some data_ref ↦ cares_about data_ref topic.name | none ↦ false ])
unfolding matches_topic cares_about
matches_topic-cares_about sub topic = ground arith
