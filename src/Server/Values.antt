-- ===== src/Server/Values.antt =====
-- The values and properties of topics in server/inner.rs.
pub mod Wf
pub mod Effects
pub mod Latest
use frclib_nettables.Base.{
  ℕ, Bool, true, false, Option, none, some, List, [], ◌∷◌, ltb, if◌then◌else◌,
}
use frclib_nettables.Base.Map.{Map, nat_key, text_key, lookup, insert, adjust}
use frclib_nettables.Base.Text.{Text}
use frclib_nettables.Server.State.{
  InnerServer, M, pure, fail, panic, ok_or, unwrap, gets, modify, ◌>>=◌, ◌>>◌,
}
use frclib_nettables.Server.Topics.{is_meta_name}
use frclib_nettables.Server.Util.{ServerSendableValue, normal_value, StoredSubValue, add_value}
use frclib_nettables.Server.Wording.{
  topic_not_set_text, topic_not_found_text, topic_name_not_found_text,
}
use frclib_nettables.Spec.Error.{
  Outcome, ok, err, panicked, topic_does_not_exist, not_normal_topic, subscription_does_not_exist,
}
use frclib_nettables.Spec.Extensions.{TimestampedValue, replace_inplace}
use frclib_nettables.Spec.Messages.{SetProperties}
use frclib_nettables.Spec.Topic.{Topic, PublishProperties}

-- A write of the set fields of `update`, or of all of it where the topic has no properties.
unfoldable pub update_properties : PublishProperties → Topic → Topic
update_properties update topic = elim topic.properties [
  | none ↦ record topic { properties = some update }
  | some properties ↦ record topic {
    properties = some (record {
      persistent = elim update.persistent [ some p ↦ some p | none ↦ properties.persistent ];
      retained = elim update.retained [ some r ↦ some r | none ↦ properties.retained ];
    });
  }
]

-- The value that a topic has after another value has come in.
unfoldable pub latest :
    {V : Type 0} → Option (TimestampedValue V) → TimestampedValue V → TimestampedValue V
latest none value = value
latest (some old_value) value =
    if ltb old_value.timestamp value.timestamp then replace_inplace old_value value else old_value

module _ {V : Type 0} where
  unfoldable pub set_properties : SetProperties → M V (Unit {0})
  set_properties msg = do
    topic_idx ← ok_or (← gets (λ s. lookup msg.name s.topic_map)) (topic_does_not_exist msg.name)
    topic ← ok_or (← gets (λ s. lookup topic_idx s.topics)) (topic_does_not_exist msg.name)
    modify (λ s. record s { topics = adjust topic_idx (update_properties msg.update) s.topics })

  -- `sub_values.get_mut(sub_idx).unwrap().add_value(..)`.
  queue_one : ℕ → ServerSendableValue V → ℕ → M V (Unit {0})
  queue_one topic_idx value sub_idx s = elim (lookup sub_idx s.sub_values) [
    | none ↦ (panicked, s)
    | some _ ↦
        (ok tt, record s { sub_values = adjust sub_idx (add_value topic_idx value) s.sub_values })
  ]

  -- The loop of `set_value` over the subscriptions of the topic.
  queue_value : ℕ → ServerSendableValue V → List ℕ → M V (Unit {0})
  unfolding queue_one
  queue_value topic_idx value [] = pure tt
  queue_value topic_idx value (sub_idx ∷ rest) = do
    queue_one topic_idx value sub_idx
    queue_value topic_idx value rest

  -- The topic exists and is no metatopic.
  check_normal : ℕ → M V (Unit {0})
  check_normal topic_idx = do
    topic ←
        ok_or (← gets (λ s. lookup topic_idx s.topics))
          (topic_does_not_exist (topic_not_set_text topic_idx))
    if is_meta_name topic.name then fail (not_normal_topic topic.name) else pure tt

  unfoldable pub set_value : TimestampedValue V → ℕ → M V (Unit {0})
  unfolding check_normal queue_value
  set_value value topic_idx = do
    check_normal topic_idx
    subs ← unwrap (← gets (λ s. lookup topic_idx s.topic_sub_map))
    queue_value topic_idx (normal_value value) subs
    modify (λ s. record s {
      topic_value_map =
          insert topic_idx (latest (lookup topic_idx s.topic_value_map) value) s.topic_value_map;
    })

  -- The argument of `ok_or` is `Err(..)?`, which returns from the function before `ok_or` is
  -- called, whether or not the name was found.
  unfoldable pub get_topic_idx : Text → M V ℕ
  get_topic_idx topic_name = do
    found ← gets (λ s. lookup topic_name s.topic_map)
    fail (topic_does_not_exist (topic_name_not_found_text topic_name))

  unfoldable pub get_value : ℕ → M V (TimestampedValue V)
  get_value topic_idx = do
    ok_or (← gets (λ s. lookup topic_idx s.topic_value_map))
        (topic_does_not_exist (topic_not_found_text topic_idx))
