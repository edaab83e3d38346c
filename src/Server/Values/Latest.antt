-- ===== src/Server/Values/Latest.antt =====
-- The value that a topic keeps in server/inner.rs, after a sequence of values.
use frclib_nettables.Base.{
  All, All-of_In, ◌≤◌, ◌≡◌, ◌⊎◌, ◌∙◌, ap, refl, none, some, List, [], ◌∷◌, In, arith, inl, inr,
}
use frclib_nettables.Server.Values.{latest, update_properties}
use frclib_nettables.Spec.Extensions.{TimestampedValue, replace_inplace}
use frclib_nettables.Spec.Topic.{Topic, PublishProperties}

module _ {V : Type 0} where
  abbrev pub latest_of : TimestampedValue V → List (TimestampedValue V) → TimestampedValue V
  latest_of v [] = v
  latest_of v (u ∷ us) = latest_of (latest (some v) u) us

  latest_one :
      (v u : TimestampedValue V)
      → ((latest (some v) u ≡ v) ⊎ (latest (some v) u ≡ u))
        × (v.timestamp ≤ (latest (some v) u).timestamp)
        × (u.timestamp ≤ (latest (some v) u).timestamp)
  unfolding latest replace_inplace
  latest_one v u = ground arith

  latest_of-top :
      (v : TimestampedValue V) (us : List (TimestampedValue V))
      → In (latest_of v us) (v ∷ us)
        × ((u : TimestampedValue V) → In u (v ∷ us) → u.timestamp ≤ (latest_of v us).timestamp)
  latest_of-top v [] = (inl refl, λ u m. ground arith)
  latest_of-top v (u ∷ us) =
      let (from, left, right) = latest_one v u in
      let (there, top) = latest_of-top (latest (some v) u) us in
      (among from there, newest from left right top)
    where
      among :
          ((latest (some v) u ≡ v) ⊎ (latest (some v) u ≡ u))
          → In (latest_of (latest (some v) u) us) (latest (some v) u ∷ us)
          → In (latest_of v (u ∷ us)) (v ∷ u ∷ us)
      among (inl e) (inl h) = inl (h ∙ e)
      among (inr e) (inl h) = inr (inl (h ∙ e))
      among from (inr m) = inr (inr m)

      newest :
          ((latest (some v) u ≡ v) ⊎ (latest (some v) u ≡ u))
          → (v.timestamp ≤ (latest (some v) u).timestamp)
          → (u.timestamp ≤ (latest (some v) u).timestamp)
          → ((x : TimestampedValue V)
              → In x (latest (some v) u ∷ us)
              → x.timestamp ≤ (latest_of v (u ∷ us)).timestamp)
          → (x : TimestampedValue V) → In x (v ∷ u ∷ us)
          → x.timestamp ≤ (latest_of v (u ∷ us)).timestamp
      newest from left right top x (inl e) = omega (
        arith,
        left,
        top (latest (some v) u) (inl refl),
        ap (λ (y : TimestampedValue V). y.timestamp) e,
      )
      newest from left right top x (inr (inl e)) = omega (
        arith,
        right,
        top (latest (some v) u) (inl refl),
        ap (λ (y : TimestampedValue V). y.timestamp) e,
      )
      newest from left right top x (inr (inr m)) = top x (inr m)

  -- Whatever the order in which values come in, the topic keeps one of them, and none of them has
  -- a later timestamp.
  pub latest_of-newest :
      (v : TimestampedValue V) (us : List (TimestampedValue V))
      → In (latest_of v us) (v ∷ us) × All (λ u. u.timestamp ≤ (latest_of v us).timestamp) (v ∷ us)
  latest_of-newest v us =
      let (there, top) = latest_of-top v us in
      (there, All-of_In (λ u. u.timestamp ≤ (latest_of v us).timestamp) (v ∷ us) top)

-- The fields that are set in `p`, and else those of `q`.
abbrev pub over : PublishProperties → PublishProperties → PublishProperties
over p q = record {
  persistent = elim p.persistent [ some b ↦ some b | none ↦ q.persistent ];
  retained = elim p.retained [ some b ↦ some b | none ↦ q.retained ];
}

-- Two updates of a topic's properties come to one, in which a field of the first stands where the
-- second does not set it, and no update changes the name or the type.
update_properties-twice :
    (p q : PublishProperties) (topic : Topic)
    → (update_properties p (update_properties q topic) ≡ update_properties (over p q) topic)
      × ((update_properties p topic).name ≡ topic.name)
      × ((update_properties p topic).type ≡ topic.type)
unfolding update_properties
update_properties-twice p q topic = ground arith
