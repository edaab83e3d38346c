-- ===== src/Server/Util/Stored.antt =====
-- `StoredSubValue` of server/util.rs against the sequence of the values that were added.
use frclib_nettables.Base.{
  ℕ, ◌≡◌, refl, sym, Option, none, some, List, [], ◌∷◌, ◌++◌, arith, Option-cases, inl, inr, ite,
  ap, append-nil, append_assoc,
}
use frclib_nettables.Base.Map.{Map, nat_key, lookup, insert, adjust, lookup-insert, lookup-adjust}
use frclib_nettables.Server.Util.{
  ServerSendableValue, StoredSubValue, all, one, new_all, new_one, add_value, take_values,
  drain_one,
}

module _ {V : Type 0} where
  -- All values of a history in turn.
  abbrev pub add_all : List (ℕ × ServerSendableValue V) → StoredSubValue V → StoredSubValue V
  add_all [] stored = stored
  add_all ((topic_idx, value) ∷ h) stored = add_all h (add_value topic_idx value stored)

  -- The values of one topic, in order.
  abbrev pub values_of : ℕ → List (ℕ × ServerSendableValue V) → List (ServerSendableValue V)
  values_of i [] = []
  values_of i ((j, value) ∷ h) = ite (nat_key.decide j i) (value ∷ []) [] ++ values_of i h

  abbrev pub last_value : List (ServerSendableValue V) → Option (ServerSendableValue V)
  last_value [] = none
  last_value (x ∷ []) = some x
  last_value (x ∷ y ∷ xs) = last_value (y ∷ xs)

  last_value-snoc :
      (xs : List (ServerSendableValue V)) (x : ServerSendableValue V)
      → last_value (xs ++ x ∷ []) ≡ some x
  last_value-snoc [] x = refl
  last_value-snoc (y ∷ []) x = refl
  last_value-snoc (y ∷ z ∷ xs) x = last_value-snoc (z ∷ xs) x

  abbrev pub single : Option (ServerSendableValue V) → Option (List (ServerSendableValue V))
  single none = none
  single (some x) = some (x ∷ [])

  -- A topic without values has no entry.
  abbrev pub entry : List (ServerSendableValue V) → Option (List (ServerSendableValue V))
  entry [] = none
  entry (x ∷ xs) = some (x ∷ xs)

  entry-snoc :
      (xs : List (ServerSendableValue V)) (x : ServerSendableValue V)
      → entry (xs ++ x ∷ []) ≡ some (xs ++ x ∷ [])
  entry-snoc [] x = refl
  entry-snoc (y ∷ xs) x = refl

  entry-none : (xs : List (ServerSendableValue V)) → none ≡ entry xs → xs ≡ []
  entry-none [] h = refl
  entry-none (x ∷ xs) h = cc

  entry-some : (xs vec : List (ServerSendableValue V)) → some vec ≡ entry xs → vec ≡ xs
  entry-some [] vec h = cc
  entry-some (x ∷ xs) vec h = cc

  -- One value more: what waits for each topic.
  add_value-entry :
      (i j : ℕ) (value : ServerSendableValue V) (m : Map ℕ (List (ServerSendableValue V)))
      (xs : List (ServerSendableValue V))
      → lookup i m ≡ entry xs
      → (m' : Map ℕ (List (ServerSendableValue V))) × (add_value j value (all m) ≡ all m')
        × (lookup i m' ≡ entry (xs ++ ite (nat_key.decide j i) (value ∷ []) []))
  unfolding add_value
  add_value-entry i j value m xs e = elim (Option-cases (lookup j m)) [
    | inl absent ↦ (
      insert j (value ∷ []) m,
      rw (absent, add_value) refl,
      ground (
        arith,
        lookup-insert j i (value ∷ []) m,
        entry-none xs,
        entry-snoc xs value,
        append-nil xs,
      ),
    )
    | inr (vec, here) ↦ (
      adjust j (λ vec. vec ++ value ∷ []) m,
      rw (here, add_value) refl,
      ground (
        arith,
        lookup-adjust j i (λ vec. vec ++ value ∷ []) m,
        entry-some xs vec,
        entry-snoc xs value,
        append-nil xs,
      ),
    )
  ]

  values_of-split :
      (i j : ℕ) (value : ServerSendableValue V) (h : List (ℕ × ServerSendableValue V))
      (xs : List (ServerSendableValue V))
      → xs ++ values_of i ((j, value) ∷ h)
        ≡ (xs ++ ite (nat_key.decide j i) (value ∷ []) []) ++ values_of i h
  values_of-split i j value h xs = sym (append_assoc xs _ (values_of i h))

  add_all-entry :
      (i : ℕ) (h : List (ℕ × ServerSendableValue V)) (m : Map ℕ (List (ServerSendableValue V)))
      (xs : List (ServerSendableValue V))
      → lookup i m ≡ entry xs
      → lookup i (take_values (add_all h (all m))).0 ≡ entry (xs ++ values_of i h)
  unfolding take_values
  add_all-entry i [] m xs e = rw (append-nil xs) e
  add_all-entry i ((j, value) ∷ h) m xs e =
      let (m', same, e') = add_value-entry i j value m xs e in
      rw (same, values_of-split i j value h xs) (add_all-entry i h m' _ e')

  -- A subscription to all values gets, for every topic, exactly the values that came in for the
  -- topic, in the order in which they came, and a topic without values has no entry.
  pub take_values-all :
      (i : ℕ) (h : List (ℕ × ServerSendableValue V))
      → lookup i (take_values (add_all h new_all)).0 ≡ entry (values_of i h)
  unfolding lookup
  take_values-all i h = add_all-entry i h [] [] refl

  drain_one-single :
      (i : ℕ) (m : Map ℕ (ServerSendableValue V)) → lookup i (drain_one m) ≡ single (lookup i m)
  unfolding drain_one lookup
  drain_one-single i [] = refl
  drain_one-single i ((j, value) ∷ m) =
      ground (arith, lookup-insert j i (value ∷ []) (drain_one m), drain_one-single i m)

  add_all-last :
      (i : ℕ) (h : List (ℕ × ServerSendableValue V)) (m : Map ℕ (ServerSendableValue V))
      (xs : List (ServerSendableValue V))
      → lookup i m ≡ last_value xs
      → lookup i (take_values (add_all h (one m))).0 ≡ single (last_value (xs ++ values_of i h))
  unfolding take_values add_value
  add_all-last i [] m xs e = rw (append-nil xs, drain_one-single i m, e) refl
  add_all-last i ((j, value) ∷ h) m xs e = rw (values_of-split i j value h xs) (
      add_all-last i h (insert j value m) (xs ++ ite (nat_key.decide j i) (value ∷ []) [])
        (ground (arith, lookup-insert j i value m, last_value-snoc xs value, append-nil xs)))

  -- A subscription to the latest values gets, for every topic, the last value that came in for the
  -- topic, alone, and a topic without values has no entry.
  pub take_values-one :
      (i : ℕ) (h : List (ℕ × ServerSendableValue V))
      → lookup i (take_values (add_all h new_one)).0 ≡ single (last_value (values_of i h))
  unfolding lookup
  take_values-one i h = add_all-last i h [] [] refl

  emptied_one :
      (h : List (ℕ × ServerSendableValue V)) (m : Map ℕ (ServerSendableValue V))
      → (take_values (add_all h (one m))).1 ≡ one []
  unfolding take_values add_value
  emptied_one [] m = refl
  emptied_one ((j, value) ∷ h) m = emptied_one h (insert j value m)

  emptied_all :
      (h : List (ℕ × ServerSendableValue V)) (m : Map ℕ (List (ServerSendableValue V)))
      → (take_values (add_all h (all m))).1 ≡ all []
  unfolding take_values add_value
  emptied_all [] m = refl
  emptied_all ((j, value) ∷ h) m = elim (Option-cases (lookup j m)) [
    | inl absent ↦ rw (absent, add_value) (emptied_all h (insert j (value ∷ []) m))
    | inr (vec, here) ↦ rw (here, add_value) (emptied_all h (adjust j (λ vec. vec ++ value ∷ []) m))
  ]

  -- Values that were taken are not taken again: the store is as if only the later ones had come.
  take_values-empties :
      (h later : List (ℕ × ServerSendableValue V))
      → (add_all later (take_values (add_all h new_all)).1 ≡ add_all later new_all)
        × (add_all later (take_values (add_all h new_one)).1 ≡ add_all later new_one)
  unfolding take_values
  take_values-empties h later =
      (ap (add_all later) (emptied_all h []), ap (add_all later) (emptied_one h []))
