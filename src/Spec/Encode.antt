-- ===== src/Spec/Encode.antt =====
-- The binary frames of values: `as_bytes` of spec/extensions.rs and of spec/metatopic.rs.
use frclib_nettables.Base.{ℕ, Option, none, some, List, [], ◌∷◌, ◌++◌, length, ◌%◌, ◌^◌}
use frclib_nettables.Base.Int.{ℤ}
use frclib_nettables.Spec.Extensions.{TimestampedValue, as_u8, raw}
use frclib_nettables.Spec.MetaTopic.{
  MetaTopicValue, publisher, client_publisher, server_publisher, subscription, client_subscription,
  server_subscription, client,
}
use frclib_nettables.Spec.Wire.{Wire, Bytes}
use frclib_nettables.Spec.Error.{Outcome, ok, err, panicked, msg_pack_write}

-- `?` on an encoder's result.
abbrev pub written : Option Bytes → Outcome Bytes
written none = err msg_pack_write
written (some bytes) = ok bytes

-- `unwrap` on an encoder's result.
abbrev pub unwrapped : Option Bytes → Outcome Bytes
unwrapped none = panicked
unwrapped (some bytes) = ok bytes

infixl 5 ◌>>=◌
abbrev ◌>>=◌ : {A B : Type 0} → Outcome A → (A → Outcome B) → Outcome B
ok a >>= f = f a
err e >>= f = err e
panicked >>= f = panicked

-- `for mte in inner { value.extend(to_vec_named(mte).unwrap()) }`.
encode_each : {A : Type 0} → (A → Option Bytes) → List A → Outcome Bytes
encode_each to_vec [] = ok []
encode_each to_vec (x ∷ xs) = do
  bytes ← unwrapped (to_vec x)
  rest ← encode_each to_vec xs
  ok (bytes ++ rest)

module _ {V : Type 0} ⦃w : Wire V⦄ where
  unfoldable pub value_as_bytes : TimestampedValue V → ℤ → Outcome Bytes
  value_as_bytes self topic_id = do
    head ← written (w.write_array_len 4)
    id ← written (w.write_i32 topic_id)
    time ← written (w.write_uint self.timestamp)
    code ← written (w.write_u8 (as_u8 (w.get_type self.value)))
    value ← written (w.write_value self.value)
    ok (head ++ id ++ time ++ code ++ value)

module _ {V : Type 0} (w : Wire V) where
  -- The array of entries, by kind.
  entries_as_bytes : MetaTopicValue → Outcome Bytes
  unfolding encode_each
  entries_as_bytes (publisher inner) = do
    head ← written (w.write_array_len (length inner % 2 ^ 32))
    rest ← encode_each w.publisher_to_vec inner
    ok (head ++ rest)
  entries_as_bytes (client_publisher inner) = do
    head ← written (w.write_array_len (length inner % 2 ^ 32))
    rest ← encode_each w.client_publisher_to_vec inner
    ok (head ++ rest)
  entries_as_bytes (server_publisher inner) = do
    head ← written (w.write_array_len (length inner % 2 ^ 32))
    rest ← encode_each w.client_publisher_to_vec inner
    ok (head ++ rest)
  entries_as_bytes (subscription inner) = do
    head ← written (w.write_array_len (length inner % 2 ^ 32))
    rest ← encode_each w.subscription_to_vec inner
    ok (head ++ rest)
  entries_as_bytes (client_subscription inner) = do
    head ← written (w.write_array_len (length inner % 2 ^ 32))
    rest ← encode_each w.client_subscription_to_vec inner
    ok (head ++ rest)
  entries_as_bytes (server_subscription inner) = do
    head ← written (w.write_array_len (length inner % 2 ^ 32))
    rest ← encode_each w.client_subscription_to_vec inner
    ok (head ++ rest)
  entries_as_bytes (client inner) = do
    head ← written (w.write_array_len (length inner % 2 ^ 32))
    rest ← encode_each w.client_to_vec inner
    ok (head ++ rest)

  -- `now` is the server's clock.
  unfoldable pub metatopic_as_bytes : ℕ → MetaTopicValue → ℤ → Outcome Bytes
  unfolding entries_as_bytes
  metatopic_as_bytes now self topic_id = do
    value ← entries_as_bytes self
    head ← written (w.write_array_len 4)
    id ← written (w.write_i32 topic_id)
    time ← written (w.write_uint now)
    code ← written (w.write_u8 (as_u8 raw))
    ok (head ++ id ++ time ++ code ++ value)
