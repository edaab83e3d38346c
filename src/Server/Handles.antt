-- ===== src/Server/Handles.antt =====
-- The operations that server/handles.rs gives to the program around the server, and the ids of
-- lib.rs. The blocking handle runs the same operations. `now` is the clock's time.
pub mod Effects
use frclib_nettables.Base.{ℕ, ◌+◌, ◌%◌, ◌^◌, Option, none, some, List, [], ◌∷◌, map}
use frclib_nettables.Base.Map.{Map}
use frclib_nettables.Base.Text.{Text}
use frclib_nettables.Server.Clients.{server_client_idx}
use frclib_nettables.Server.Publish.{inner_publish_topic}
use frclib_nettables.Server.State.{InnerServer, M, pure, gets, ◌>>=◌, ◌>>◌}
use frclib_nettables.Server.Values.{set_value, set_properties, get_topic_idx, get_value}
use frclib_nettables.Spec.Error.{Outcome, ok, err, panicked}
use frclib_nettables.Spec.Extensions.{stringify, TimestampedValue}
use frclib_nettables.Spec.Messages.{PublishTopic, SetProperties}
use frclib_nettables.Spec.Topic.{PublishProperties}
use frclib_nettables.Spec.Wire.{Wire}

-- `SEED.fetch_add(1)`: the id, and the next one.
unfoldable pub generate_uid : ℕ → ℕ × ℕ
generate_uid seed = (seed, (seed + 1) % 2 ^ 64)

module _ {V : Type 0} where
  -- The topic's type is a text; `uid` is a generated id.
  unfoldable pub publish_topic_w_props :
      Wire V → ℕ → ℕ → Text → V → Option PublishProperties → M V (Unit {0})
  publish_topic_w_props w uid now topic_name val props = do
    topic_idx ←
        inner_publish_topic w
          (record {
            name = topic_name;
            pubuid = uid % 2 ^ 32;
            type = stringify (w.get_type val);
            properties = props;
          })
          server_client_idx
    set_value (record { timestamp = now; value = val }) topic_idx

  unfoldable pub publish_topic : Wire V → ℕ → ℕ → Text → V → M V (Unit {0})
  unfolding publish_topic_w_props
  publish_topic w uid now topic_name value = publish_topic_w_props w uid now topic_name value none

  unfoldable pub set_topic_value_w_timestamp : Text → V → ℕ → M V (Unit {0})
  set_topic_value_w_timestamp topic_name value timestamp = do
    topic_idx ← get_topic_idx topic_name
    set_value (record { timestamp = timestamp; value = value }) topic_idx

  unfoldable pub set_topic_value : ℕ → Text → V → M V (Unit {0})
  unfolding set_topic_value_w_timestamp
  set_topic_value now topic_name value = set_topic_value_w_timestamp topic_name value now

  unfoldable pub set_topic_props : Text → PublishProperties → M V (Unit {0})
  set_topic_props topic_name props = set_properties (record { name = topic_name; update = props })

  unfoldable pub get_topic_value : Text → M V V
  get_topic_value topic_name = do
    topic_idx ← get_topic_idx topic_name
    found ← get_value topic_idx
    pure found.value

  unfoldable pub get_topic_names : M V (List Text)
  get_topic_names = gets (λ s. map (λ entry. entry.0) s.topic_map)
