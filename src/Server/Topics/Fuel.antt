-- ===== src/Server/Topics/Fuel.antt =====
-- The recursion of `add_topic` in server/inner.rs ends: metatopics have no metatopics.
use frclib_nettables.Base.{ℕ, suc, ◌≡◌, refl, true, Option-cases, Bool-cases, inl, inr}
use mathlib.Core.Path.{fun_ext}
use frclib_nettables.Base.Map.{text_key, lookup}
use frclib_nettables.Server.State.{InnerServer}
use frclib_nettables.Server.Topics.{
  is_meta_name, meta_pub_name, meta_sub_name, announce_added, add_topic_fuel, add_topic,
}
use frclib_nettables.Server.Topics.Wf.{meta_pub_name-is_meta, meta_sub_name-is_meta}
use frclib_nettables.Spec.Topic.{Topic, new_meta}
use frclib_nettables.Spec.Wire.{Wire}

module _ {V : Type 0} (w : Wire V) where
  -- One call is enough for a metatopic.
  add_meta-fuel :
      (k : ℕ) (topic : Topic)
      → is_meta_name topic.name ≡ true
      → add_topic_fuel w (suc k) topic ≡ add_topic_fuel w 1 topic
  unfolding add_topic_fuel
  add_meta-fuel k topic meta = fun_ext λ s. elim (Option-cases (lookup topic.name s.topic_map)) [
    | inl e ↦ rw (e, add_topic_fuel, meta) refl
    | inr (i, e) ↦ rw (e, add_topic_fuel) refl
  ]

  announce_added-fuel :
      (k : ℕ) (topic : Topic)
      → is_meta_name topic.name ≡ true
      → announce_added w (add_topic_fuel w (suc k)) topic
        ≡ announce_added w (add_topic_fuel w 1) topic
  unfolding announce_added
  announce_added-fuel k topic meta = rw (add_meta-fuel k topic meta) refl

  -- Two nested calls are always enough: more fuel gives the same result in the same state.
  pub add_topic_fuel-enough :
      (k : ℕ) (topic : Topic) (s : InnerServer V)
      → add_topic_fuel w (suc (suc k)) topic s ≡ add_topic w topic s
  unfolding add_topic add_topic_fuel new_meta
  add_topic_fuel-enough k topic s = elim (Option-cases (lookup topic.name s.topic_map)) [
    | inl e ↦ elim (Bool-cases (is_meta_name topic.name)) [
      | inl meta ↦ rw (e, add_topic_fuel, meta) refl
      | inr plain ↦
          rw
            (
              e,
              add_topic_fuel,
              plain,
              announce_added-fuel k (new_meta (meta_pub_name topic.name))
                  (meta_pub_name-is_meta topic.name),
              announce_added-fuel k (new_meta (meta_sub_name topic.name))
                  (meta_sub_name-is_meta topic.name),
            )
            refl
    ]
    | inr (i, e) ↦ rw (e, add_topic_fuel) refl
  ]
