-- ===== src/Server/Subscribe/Joins.antt =====
-- What `subscribe` of server/inner.rs enters in the maps.
use frclib_nettables.Base.{
  ℕ, ◌≡◌, ◌≢◌, refl, ap, ◌∙◌, ◌↔◌, inl, inr, true, false, Option, none, some, List, [], ◌∷◌, ◌++◌,
  In, arith, ite, Option-cases, if◌then◌else◌,
}
use frclib_nettables.Base.Map.{
  Map, nat_key, text_key, lookup, adjust, lookup-insert_same, lookup-adjust,
}
use frclib_nettables.Base.Int.{ℤ}
use frclib_nettables.Base.Text.{Text}
use frclib_nettables.Server.Connected.{ConnectedClient}
use frclib_nettables.Server.Invariant.{IsWf}
use frclib_nettables.Server.Invariant.Stores.{lookup-adjust_kept}
use frclib_nettables.Server.State.{InnerServer}
use frclib_nettables.Server.State.Holds.{
  Holds, Keeps, Holds-bind, Holds-ok_or, Holds-pure, Holds-gets, Holds-modify, Holds-weaken,
  Holds-with_client,
}
use frclib_nettables.Server.Subscribe.{
  interested_topics, wants_all, join_topic, join_topics, store_subscription, subscribe,
}
use frclib_nettables.Server.Subscribe.Wf.{interested_topics-named, greet-IsQuiet}
use frclib_nettables.Server.Util.{StoredSubValue, new_all, new_one, next_sub_idx}
use frclib_nettables.Spec.Messages.{Subscribe}
use frclib_nettables.Spec.Subscription.{SubscriptionOptions, Subscription, cares_about}
use frclib_nettables.Spec.Wire.{Wire}

-- The list of a topic once a subscription was put behind it, once for every time that the topic
-- stands among the interested ones.
abbrev pub joins : ℕ → ℕ → List (ℕ × Text) → Option (List ℕ) → Option (List ℕ)
joins k i [] subs = subs
joins k i ((j, name) ∷ rest) subs =
    joins k i rest
      (ite (nat_key.decide j i) (elim subs [ none ↦ none | some l ↦ some (l ++ k ∷ []) ]) subs)

module _ {V : Type 0} (w : Wire V) where
  -- The lists after the loop, and all else as it was.
  abbrev Joined : ℕ → List (ℕ × Text) → InnerServer V → InnerServer V → Type 0
  Joined k topics s t =
      (t ≡ record s { topic_sub_map = t.topic_sub_map })
      × ((i : ℕ) → lookup i t.topic_sub_map ≡ joins k i topics (lookup i s.topic_sub_map))

  join_topics-Joined :
      (k : ℕ) (topics : List (ℕ × Text)) (s : InnerServer V)
      → ((i : ℕ) (n : Text) → In (i, n) topics → lookup i s.topic_sub_map ≢ none)
      → Holds (λ _ t. Joined k topics s t) (λ _. ⊥) (join_topics w k topics s)
  unfolding join_topics
  join_topics-Joined k [] s listed = Holds-pure _ _ (refl, λ i. refl)
  join_topics-Joined k ((j, name) ∷ rest) s listed =
      elim (Option-cases (lookup j s.topic_sub_map)) [
        | inl e ↦ absurd (listed j name (inl refl) e)
        | inr (l, e) ↦
            Holds-bind
              (λ _ t.
                t ≡ record s { topic_sub_map = adjust j (λ subs. subs ++ k ∷ []) s.topic_sub_map })
              _ _ s (rw (e, join_topic) (Holds-pure _ _ refl))
              λ _ t u. rw u (
                Holds-gets _ _ _ (
                  Holds-bind (λ _ y. Joined k ((j, name) ∷ rest) s y) _ _ _
                    (Holds-weaken
                      (λ _ y.
                        Joined k rest
                          (record s {
                            topic_sub_map = adjust j (λ subs. subs ++ k ∷ []) s.topic_sub_map;
                          })
                          y)
                      (λ _. ⊥) _
                      (λ _ y q. (
                        q.0,
                        λ i.
                            q.1 i
                            ∙ ap (joins k i rest)
                                (lookup-adjust j i (λ subs. subs ++ k ∷ []) s.topic_sub_map),
                      ))
                      (λ y h. h)
                      (join_topics-Joined k rest _ λ i n m.
                        lookup-adjust_kept j i (λ subs. subs ++ k ∷ []) s.topic_sub_map
                          (listed i n (inr m))))
                    λ _ y q. Holds-pure _ _ q))
      ]

interested_topics-from :
    (sub : Subscription) (names : Map Text ℕ) (i : ℕ) (n : Text)
    → In (i, n) (interested_topics sub names)
    → In (n, i) names × (cares_about sub n ≡ true)
unfolding interested_topics
interested_topics-from sub [] i n h = absurd h
interested_topics-from sub ((m, j) ∷ names) i n h =
    ground (arith, interested_topics-from sub names i n)

interested_topics-to :
    (sub : Subscription) (names : Map Text ℕ) (i : ℕ) (n : Text)
    → In (n, i) names
    → cares_about sub n ≡ true
    → In (i, n) (interested_topics sub names)
unfolding interested_topics
interested_topics-to sub [] i n m cares = absurd m
interested_topics-to sub ((x, j) ∷ names) i n m cares =
    ground (arith, interested_topics-to sub names i n)

interested_topics_iff :
    (sub : Subscription) (names : Map Text ℕ) (i : ℕ) (n : Text)
    → In (i, n) (interested_topics sub names) ↔ (In (n, i) names × (cares_about sub n ≡ true))
interested_topics_iff sub names i n =
    (interested_topics-from sub names i n, λ h. interested_topics-to sub names i n h.0 h.1)

-- What a subscription is stored as.
abbrev pub subscription_of : Subscribe → Subscription
subscription_of sub = record { subuid = sub.subuid; topics = sub.topics; options = sub.options }

-- The store for all values, or for the latest ones.
abbrev pub store_of : {V : Type 0} → Option SubscriptionOptions → StoredSubValue V
store_of none = new_one
store_of (some options) = elim options.all [
  | none ↦ new_one
  | some true ↦ new_all
  | some false ↦ new_one
]

stored_as :
    {V : Type 0} (subuid : ℤ) (topics : List Text) (options : Option SubscriptionOptions)
    → ◌≡◌ {A = StoredSubValue V}
        (if wants_all (record { subuid = subuid; topics = topics; options = options })
          then new_all
          else new_one)
        (store_of options)
unfolding wants_all
stored_as subuid topics none = refl
stored_as subuid topics (some options) = ground arith

-- The lists of the topics, where a subscription was put behind those of some topics.
abbrev pub JoinsAt : {V : Type 0} → ℕ → List (ℕ × Text) → InnerServer V → InnerServer V → Type 0
JoinsAt k topics s t =
    (i : ℕ) → lookup i t.topic_sub_map ≡ joins k i topics (lookup i s.topic_sub_map)

module _ {V : Type 0} (now : ℕ) where
  abbrev pub IsEntered : Subscribe → ℕ → InnerServer V → InnerServer V → Type 0
  IsEntered sub c s t =
      let k = s.counters.sub_idx in
      (lookup k t.subscriptions ≡ some (subscription_of sub, c))
      × (lookup k t.sub_values ≡ some (store_of sub.options))
      × (lookup k t.sub_send_timestamps ≡ some now)
      × ((topics : List (ℕ × Text)) × ((i : ℕ) (n : Text)
            → In (i, n) topics
              ↔ (In (n, i) s.topic_map × (cares_about (subscription_of sub) n ≡ true)))
          × JoinsAt k topics s t)

  stored-IsEntered :
      (sub : Subscribe) (c : ℕ) (s t : InnerServer V)
      → ((i : ℕ)
          → lookup i t.topic_sub_map
            ≡ joins s.counters.sub_idx i
                (interested_topics (subscription_of sub) s.topic_map)
                (lookup i s.topic_sub_map))
      → IsEntered sub c s (store_subscription now s.counters.sub_idx (subscription_of sub) c t)
  unfolding store_subscription
  stored-IsEntered sub c s t lists = (
    lookup-insert_same s.counters.sub_idx (subscription_of sub, c) t.subscriptions,
    lookup-insert_same s.counters.sub_idx _ t.sub_values
        ∙ ap some (stored_as sub.subuid sub.topics sub.options),
    lookup-insert_same s.counters.sub_idx now t.sub_send_timestamps,
    (
      interested_topics (subscription_of sub) s.topic_map,
      interested_topics_iff (subscription_of sub) s.topic_map,
      lists,
    ),
  )

module _ {V : Type 0} (w : Wire V) (now : ℕ) where
  -- On a well-formed server a subscription of a client that there is gets the next index. Under it
  -- the subscription, its empty store and the instant are entered, and it is put behind the list of
  -- every topic that it cares about and of no other, also where the client cannot be told. The
  -- store is for all values if the options say so, and for the latest ones otherwise.
  pub subscribe-IsEntered :
      (sub : Subscribe) (c : ℕ) (connected : ConnectedClient) (s : InnerServer V)
      → IsWf s
      → lookup c s.clients ≡ some connected
      → Keeps (IsEntered now sub c s) (subscribe w now sub c s)
  unfolding subscribe next_sub_idx
  subscribe-IsEntered sub c connected s v e = Holds-gets _ _ s (
      Holds-ok_or _ _ _ s (λ h. ground (arith, e))
        λ connected' e'. Holds-gets _ _ s (
          Holds-gets _ _ s (
            Holds-modify _ _ s (
              Holds-bind
                (λ _ t.
                  (i : ℕ)
                  → lookup i t.topic_sub_map
                    ≡ joins s.counters.sub_idx i
                        (interested_topics (subscription_of sub) s.topic_map)
                        (lookup i s.topic_sub_map))
                _ _ _
                (Holds-weaken _ (λ _. ⊥) _ (λ _ t u. u.1) (λ t u. absurd u)
                  (join_topics-Joined w s.counters.sub_idx _ _
                    λ i m h. v.mapped_subs i m (interested_topics-named _ s.topic_map i m h)))
                λ (msgs, frames) t u. Holds-modify _ _ t (
                  Holds-with_client c _ _ _ (λ _. Holds-pure _ _ (stored-IsEntered now sub c s t u))
                    (greet-IsQuiet w _ _ msgs frames) (λ _. stored-IsEntered now sub c s t u)
                    (λ _. stored-IsEntered now sub c s t u))))))
