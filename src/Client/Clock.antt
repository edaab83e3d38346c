-- ===== src/Client/Clock.antt =====
-- The clock and the counters of client/inner.rs. Times are `u64` microseconds, `now` is the instant
-- of the system's clock.
use mathlib.Core.Option
use frclib_nettables.Base.{
  ℕ, ◌+◌, ◌-◌, ◌*◌, ◌/◌, ◌%◌, ◌^◌, ◌≤◌, ◌<◌, ◌≡◌, ◌≢◌, refl, ap, Option, none, some, arith, ltb,
  leb, if◌then◌else◌,
}
use frclib_nettables.Base.Int.{ℤ, pos, negsuc}
use frclib_nettables.Client.State.{InnerClient}
use frclib_nettables.Server.Values.{latest}

abbrev pub checked_sub : ℕ → ℕ → Option ℕ
checked_sub a b = if leb b a then some (a - b) else none

-- `i as u64` of an `i64`.
abbrev pub as_u64 : ℤ → ℕ
as_u64 (pos n) = n % 2 ^ 64
as_u64 (negsuc n) = 2 ^ 64 - 1 - n % 2 ^ 64

-- The three subtractions of `handle_new_timestamp`.
unfoldable pub new_offset : ℕ → ℕ → ℕ → Option ℕ
new_offset receive_time server_timestamp client_timestamp =
    Option.bind (checked_sub receive_time client_timestamp) λ round_trip_time.
      Option.bind (checked_sub server_timestamp (round_trip_time / 2))
        λ server_time_at_receive. checked_sub server_time_at_receive receive_time

checked_sub-enough : (a b : ℕ) → b ≤ a → checked_sub a b ≡ some (a - b)
checked_sub-enough a b h = ground arith

pub checked_sub-fails : (a b : ℕ) → a < b → checked_sub a b ≡ none
checked_sub-fails a b h = ground arith

new_offset-trip :
    (sent d ahead : ℕ)
    → new_offset (sent + 2 * d) (sent + d + ahead) sent ≡ checked_sub (sent + ahead) (sent + 2 * d)
unfolding new_offset Option.bind
new_offset-trip sent d ahead =
    rw
      (
        checked_sub-enough (sent + 2 * d) sent (omega arith),
        checked_sub-enough (sent + d + ahead) ((sent + 2 * d - sent) / 2) (omega arith),
      )
      (ap (λ n. checked_sub n (sent + 2 * d)) (omega arith))

pub as_u64-small : (n : ℕ) → n < 2 ^ 63 → as_u64 (pos n) ≡ n
as_u64-small n h = omega arith

module _ {R : Type 0} where
  unfoldable pub client_time : ℕ → InnerClient R → ℕ
  client_time now c = (now - c.start_instant) % 2 ^ 64

  -- The sum wraps in a release build.
  unfoldable pub server_time : ℕ → InnerClient R → ℕ
  unfolding client_time
  server_time now c = (client_time now c + c.server_time_offset) % 2 ^ 64

  -- `start_time` is in microseconds since the epoch.
  unfoldable pub to_real_time : ℕ → InnerClient R → ℕ
  to_real_time server_time c = (c.start_time + server_time) % 2 ^ 64

  unfoldable pub real_world_server_time : ℕ → InnerClient R → ℕ
  unfolding to_real_time server_time
  real_world_server_time now c = to_real_time (server_time now c) c

  -- The timestamp that `publish_value` gives a value: `self.server_time() as u32`.
  unfoldable pub value_timestamp : ℕ → InnerClient R → ℕ
  unfolding server_time
  value_timestamp now c = server_time now c % 2 ^ 32

  -- `none` where the math fails, which leaves the offset as it was.
  unfoldable pub handle_new_timestamp :
      ℕ → ℕ → Option ℤ → InnerClient R → Option (Unit {0}) × InnerClient R
  unfolding client_time new_offset
  handle_new_timestamp now server_timestamp none c = (some tt, c)
  handle_new_timestamp now server_timestamp (some client_timestamp) c =
      elim (new_offset (client_time now c) server_timestamp (as_u64 client_timestamp)) [
        | none ↦ (none, c)
        | some offset ↦ (some tt, record c { server_time_offset = offset })
      ]

  -- `checked_add(1).unwrap_or(1)` on a `u32`.
  unfoldable pub new_topic_id : InnerClient R → ℕ × InnerClient R
  new_topic_id c =
      let new_id = if ltb (c.topic_counter + 1) (2 ^ 32) then c.topic_counter + 1 else 1 in
      (new_id, record c { topic_counter = new_id })

  -- The same on an `i32`.
  unfoldable pub new_sub_id : InnerClient R → ℕ × InnerClient R
  new_sub_id c =
      let new_id = if ltb (c.sub_counter + 1) (2 ^ 31) then c.sub_counter + 1 else 1 in
      (new_id, record c { sub_counter = new_id })

  client_time-received :
      (now sent d : ℕ) (c : InnerClient R)
      → now ≡ c.start_instant + sent + 2 * d
      → sent + 2 * d < 2 ^ 63
      → client_time now c ≡ sent + 2 * d
  unfolding client_time
  client_time-received now sent d c e small = omega (arith, e, small)

  -- A request leaves at the client's time `sent`, takes `d` microseconds, is stamped by a server
  -- whose clock is `ahead` of the client's, and the answer takes `d` as well. Then the offset comes
  -- out as `ahead` less the whole way there and back, provided that this is not negative.
  pub handle_new_timestamp-offset :
      (now sent d ahead : ℕ) (c : InnerClient R)
      → now ≡ c.start_instant + sent + 2 * d
      → sent + 2 * d < 2 ^ 63
      → 2 * d ≤ ahead
      → handle_new_timestamp now (sent + d + ahead) (some (pos sent)) c
        ≡ (some tt, record c { server_time_offset = ahead - 2 * d })
  unfolding handle_new_timestamp
  handle_new_timestamp-offset now sent d ahead c e small enough =
      rw
        (
          handle_new_timestamp,
          as_u64-small sent (omega arith),
          client_time-received now sent d c e small,
          new_offset-trip sent d ahead,
          checked_sub-enough (sent + ahead) (sent + 2 * d) (omega arith),
        )
        (ap (λ n. (some tt, record c { server_time_offset = n })) (omega arith))

  -- With the same times, a server whose clock is ahead by less than the way there and back is not
  -- understood: the client keeps the offset that it had, and is told that the math failed.
  handle_new_timestamp-fails :
      (now sent d ahead : ℕ) (c : InnerClient R)
      → now ≡ c.start_instant + sent + 2 * d
      → sent + 2 * d < 2 ^ 63
      → ahead < 2 * d
      → handle_new_timestamp now (sent + d + ahead) (some (pos sent)) c ≡ (none, c)
  unfolding handle_new_timestamp
  handle_new_timestamp-fails now sent d ahead c e small few =
      rw
        (
          handle_new_timestamp,
          as_u64-small sent (omega arith),
          client_time-received now sent d c e small,
          new_offset-trip sent d ahead,
          checked_sub-fails (sent + ahead) (sent + 2 * d) (omega arith),
        )
        refl

  -- New ids are never 0, fit their types, and differ from the one before.
  new_ids :
      (c : InnerClient R)
      → c.topic_counter < 2 ^ 32
      → c.sub_counter < 2 ^ 31
      → let (i, c') = new_topic_id c in
        let (j, c'') = new_sub_id c in
        (0 < i)
        × (i < 2 ^ 32)
        × (i ≢ c.topic_counter)
        × (c'.topic_counter ≡ i)
        × (0 < j)
        × (j < 2 ^ 31)
        × (j ≢ c.sub_counter)
        × (c''.sub_counter ≡ j)
  unfolding new_topic_id new_sub_id
  new_ids c h g = ground arith

  -- A client publishes a value before the server's time reaches 2 ^ 32 microseconds, some 71
  -- minutes, and another one when it has reached them, but no more than 2 ^ 32 microseconds after
  -- the first. Then the second value does not replace the first one on the server.
  pub value_timestamp-rejected :
      {V : Type 0} (before after : ℕ) (c : InnerClient R) (old new : V)
      → server_time before c < 2 ^ 32
      → 2 ^ 32 ≤ server_time after c
      → server_time after c ≤ server_time before c + 2 ^ 32
      → latest
          (some (record { timestamp = value_timestamp before c; value = old }))
          (record { timestamp = value_timestamp after c; value = new })
        ≡ record { timestamp = value_timestamp before c; value = old }
  unfolding value_timestamp latest
  value_timestamp-rejected before after c old new h g k = ground arith
