-- ===== src/Client/Values.antt =====
-- `handle_value` of client/inner.rs: what one array of a binary frame does to the client.
pub mod Live
pub mod Retry
use mathlib.Core.Option
use frclib_nettables.Base.{ℕ, zero, suc, Option, none, some, List, [], ◌∷◌}
use frclib_nettables.Base.Int.{ℤ, pos, negsuc, as_i32, as_u32}
use frclib_nettables.Client.Clock.{handle_new_timestamp}
use frclib_nettables.Client.Receive.{handle_topic_value}
use frclib_nettables.Client.Sending.{ClientWire, update_time}
use frclib_nettables.Client.State.{InnerClient, C, pure, attempt, modify, ◌>>=◌, ◌>>◌}
use frclib_nettables.Spec.Error.{Outcome, ok}

-- rmpv's readings of a value as a number.
pub record Readings (R : Type 0) : Type 0 where
  pub as_i64 : R → Option ℤ
  pub as_u64 : R → Option ℕ

-- The instants at which a round trip that fails is handled: when the value comes, when the clock is
-- set, and when the value is handled again.
pub record Instants : Type 0 where
  pub received : ℕ
  pub set_again : ℕ
  pub handled_again : ℕ

module _ {R : Type 0} (w : ClientWire R) (readings : Readings R) where
  after_failure : Instants → ℕ → Option ℤ → C R (Unit {0})
  after_failure t timestamp client_timestamp = do
    modify (λ c. record c { start_instant = t.set_again })
    attempt (update_time w t.set_again)
    modify (λ c. (handle_new_timestamp t.handled_again timestamp client_timestamp c).1)

  after_math :
      Instants
      → ℕ
      → Option ℤ
      → Option (Unit {0}) × InnerClient R
      → Outcome (Unit {0}) × InnerClient R
  unfolding after_failure
  after_math t timestamp client_timestamp (some done, c) = (ok tt, c)
  after_math t timestamp client_timestamp (none, c) = after_failure t timestamp client_timestamp c

  -- The branch of the id -1.
  unfoldable pub handle_time : Instants → ℕ → Option ℤ → C R (Unit {0})
  unfolding after_math
  handle_time t timestamp client_timestamp c =
      after_math t timestamp client_timestamp
        (handle_new_timestamp t.received timestamp client_timestamp c)

  -- By the sign of the id, an `i64` cast to `i32`.
  handle_id : Instants → ℤ → ℕ → R → R → C R (Unit {0})
  unfolding handle_time
  handle_id t (pos id) timestamp type value =
      modify (handle_topic_value (pos id) timestamp (readings.as_u64 type) value)
  handle_id t (negsuc zero) timestamp type value = handle_time t timestamp (readings.as_i64 value)
  handle_id t (negsuc (suc n)) timestamp type value = pure tt

  handle_read : Instants → Option ℤ → Option ℕ → R → R → C R (Unit {0})
  unfolding handle_id
  handle_read t (some id) (some timestamp) type value =
      handle_id t (as_i32 (as_u32 id)) timestamp type value
  handle_read t _ _ type value = pure tt

  unfoldable pub handle_value : Instants → List R → C R (Unit {0})
  unfolding handle_read
  handle_value t (id ∷ timestamp ∷ type ∷ value ∷ []) =
      handle_read t (readings.as_i64 id) (readings.as_u64 timestamp) type value
  handle_value t _ = pure tt
