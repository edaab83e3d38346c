-- ===== src/Server/Topics.antt =====
-- The topics of server/inner.rs: `add_topic` and `remove_topic`.
pub mod Wf
pub mod Fuel
pub mod Effects
pub mod Removal
use frclib_nettables.Base.{
  ℕ, zero, suc, Bool, true, false, Option, none, some, List, [], ◌∷◌, ◌++◌, if◌then◌else◌,
}
use frclib_nettables.Base.Map.{Map, nat_key, text_key, lookup, insert, remove}
use frclib_nettables.Base.Text.{Text, codes, contains}
use frclib_nettables.Server.Announce.{announce_topic}
use frclib_nettables.Server.State.{
  InnerServer, M, pure, fail, panic, ok_or, gets, modify, ◌>>=◌, ◌>>◌,
}
use frclib_nettables.Server.Util.{next_topic_idx}
use frclib_nettables.Server.Wording.{topic_not_removed_text, metatopic_not_removed_text}
use frclib_nettables.Spec.Error.{Outcome, ok, panicked, topic_does_not_exist}
use frclib_nettables.Spec.Topic.{Topic, new_meta, has_implicit_publisher}
use frclib_nettables.Spec.Wire.{Wire}

-- `topic_name.contains("$")`.
abbrev pub is_meta_name : Text → Bool
is_meta_name name = contains name (codes "$")

-- The names of a topic's two metatopics.
abbrev pub meta_pub_name : Text → Text
meta_pub_name name = codes "$pub$" ++ name

abbrev pub meta_sub_name : Text → Text
meta_sub_name name = codes "$sub$" ++ name

-- The state once the maps hold a new topic.
unfoldable pub register : {V : Type 0} → Topic → InnerServer V → InnerServer V
unfolding next_topic_idx
register topic s =
    let (topic_idx, counters) = next_topic_idx s.counters in
    record s {
      counters = counters;
      topics = insert topic_idx topic s.topics;
      pub_count = insert topic_idx (if has_implicit_publisher topic then 2 else 1) s.pub_count;
      topic_map = insert topic.name topic_idx s.topic_map;
      topic_sub_map = insert topic_idx [] s.topic_sub_map;
    }

module _ {V : Type 0} (w : Wire V) where
  -- `self.announce_topic(self.add_topic(meta).await?, None).await?` with the recursive call
  -- passed in.
  announce_added : (Topic → M V ℕ) → Topic → M V (Unit {0})
  announce_added add meta = do topic_idx ← add meta; announce_topic w topic_idx none

  -- `add_topic` calls itself for the metatopics of a topic, to a depth of one. Fuel for the depth.
  unfoldable pub add_topic_fuel : ℕ → Topic → M V ℕ
  unfolding announce_added
  add_topic_fuel zero topic s = (panicked, s)
  add_topic_fuel (suc fuel) topic s = elim (lookup topic.name s.topic_map) [
    | some topic_idx ↦ (ok topic_idx, s)
    | none ↦ elim (is_meta_name topic.name) [
      | true ↦ (ok s.counters.topic_idx, register topic s)
      | false ↦
          (do
            announce_added (add_topic_fuel fuel) (new_meta (meta_pub_name topic.name))
            announce_added (add_topic_fuel fuel) (new_meta (meta_sub_name topic.name))
            pure s.counters.topic_idx)
            (register topic s)
    ]
  ]

  unfoldable pub add_topic : Topic → M V ℕ
  unfolding add_topic_fuel
  add_topic = add_topic_fuel 2

module _ {V : Type 0} where
  -- The maps without a topic and its two metatopics.
  forget_topics : ℕ → ℕ → ℕ → InnerServer V → InnerServer V
  forget_topics topic_idx meta_pub_idx meta_sub_idx s = record s {
    topics = remove meta_sub_idx (remove meta_pub_idx s.topics);
    topic_sub_map = remove meta_sub_idx (remove meta_pub_idx (remove topic_idx s.topic_sub_map));
    topic_value_map = remove topic_idx s.topic_value_map;
    metatopic_value_map = remove meta_sub_idx (remove meta_pub_idx s.metatopic_value_map);
  }

  -- `topic_map.remove(&name)`.
  unmap : Text → InnerServer V → InnerServer V
  unmap name s = record s { topic_map = remove name s.topic_map }

  unfoldable pub remove_topic : ℕ → M V (Unit {0})
  unfolding forget_topics unmap
  remove_topic topic_idx = do
    topic ←
        ok_or (← gets (λ s. lookup topic_idx s.topics))
          (topic_does_not_exist (topic_not_removed_text topic_idx))
    modify (λ s. record s { topics = remove topic_idx s.topics })
    meta_pub_idx ←
        ok_or (← gets (λ s. lookup (meta_pub_name topic.name) s.topic_map))
          (topic_does_not_exist (metatopic_not_removed_text topic_idx))
    modify (unmap (meta_pub_name topic.name))
    meta_sub_idx ←
        ok_or (← gets (λ s. lookup (meta_sub_name topic.name) s.topic_map))
          (topic_does_not_exist (metatopic_not_removed_text topic_idx))
    modify (unmap (meta_sub_name topic.name))
    modify (unmap topic.name)
    modify (forget_topics topic_idx meta_pub_idx meta_sub_idx)
