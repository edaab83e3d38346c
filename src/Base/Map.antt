-- ===== src/Base/Map.antt =====
-- `HashMap` and `IntMap` as association lists. The order of the entries stands for the iteration
-- order, which the source leaves open; a written entry moves to the front.
use Prim.Native.Nat.{ℕ}
use mathlib.Core.Path.{◌≡◌, refl}
use mathlib.Core.Logic.{◌⊎◌, inl, inr, ◌≢◌, ite, if_pos, if_neg}
use mathlib.Core.Bool.{Bool}
use mathlib.Core.List.{List, [], ◌∷◌}
use mathlib.Core.Option.{Option, none, some}
use native.Mathlib.Omega.{arith}
use native.Mathlib.Decide.{ℕ_discrete}
use frclib_nettables.Base.Tests.{is_some}
use frclib_nettables.Base.Lists.{In}
use frclib_nettables.Base.Text.{Text, Text-discrete}

-- `Eq + Hash` of a key.
pub record Key (K : Type 0) : Type 0 where
  pub decide : Discrete K

instance abbrev pub nat_key : Key ℕ
nat_key = record { decide = ℕ_discrete }

instance abbrev pub text_key : Key Text
text_key = record { decide = Text-discrete }

abbrev pub Map : Type 0 → Type 0 → Type 0
Map K V = List (K × V)

module _ {K V : Type 0} ⦃key : Key K⦄ where
  unfoldable pub lookup : K → Map K V → Option V
  lookup k [] = none
  lookup k ((j, v) ∷ m) = ite (key.decide j k) (some v) (lookup k m)

  unfoldable pub remove : K → Map K V → Map K V
  remove k [] = []
  remove k ((j, v) ∷ m) = ite (key.decide j k) (remove k m) ((j, v) ∷ remove k m)

  unfoldable pub insert : K → V → Map K V → Map K V
  unfolding remove
  insert k v m = (k, v) ∷ remove k m

  unfoldable pub contains_key : K → Map K V → Bool
  unfolding lookup
  contains_key k m = is_some (lookup k m)

  -- A write through `get_mut`.
  unfoldable pub adjust : K → (V → V) → Map K V → Map K V
  adjust k f [] = []
  adjust k f ((j, v) ∷ m) = ite (key.decide j k) ((j, f v) ∷ adjust k f m) ((j, v) ∷ adjust k f m)

  pub lookup-remove :
      (k j : K) (m : Map K V) → lookup j (remove k m) ≡ ite (key.decide k j) none (lookup j m)
  unfolding lookup remove
  lookup-remove k j [] = ground arith
  lookup-remove k j ((i, v) ∷ m) = ground (arith, lookup-remove k j m)

  pub lookup-remove_same : (k : K) (m : Map K V) → lookup k (remove k m) ≡ none
  lookup-remove_same k m = ground (arith, lookup-remove k k m)

  pub lookup-remove_other : (k j : K) (m : Map K V) → k ≢ j → lookup j (remove k m) ≡ lookup j m
  lookup-remove_other k j m h = ground (arith, lookup-remove k j m)

  pub lookup-remove-none :
      (k j : K) (m : Map K V) → lookup j m ≡ none → lookup j (remove k m) ≡ none
  lookup-remove-none k j m h = ground (arith, lookup-remove k j m)

  pub lookup-insert :
      (k j : K) (v : V) (m : Map K V)
      → lookup j (insert k v m) ≡ ite (key.decide k j) (some v) (lookup j m)
  unfolding lookup insert
  lookup-insert k j v m = ground (arith, lookup-remove k j m)

  pub lookup-insert_same : (k : K) (v : V) (m : Map K V) → lookup k (insert k v m) ≡ some v
  lookup-insert_same k v m = ground (arith, lookup-insert k k v m)

  pub lookup-adjust :
      (k j : K) (f : V → V) (m : Map K V)
      → lookup j (adjust k f m)
        ≡ ite
            (key.decide k j)
            (elim (lookup j m) [ none ↦ none | some v ↦ some (f v) ])
            (lookup j m)
  unfolding lookup adjust
  lookup-adjust k j f [] = ground arith
  lookup-adjust k j f ((i, v) ∷ m) = ground (arith, lookup-adjust k j f m)

  pub In-of_lookup : (k : K) (v : V) (m : Map K V) → lookup k m ≡ some v → In (k, v) m
  unfolding lookup
  In-of_lookup k v [] h = cc
  In-of_lookup k v ((j, w) ∷ m) h = ground (arith, In-of_lookup k v m)

  pub In-remove : (k j : K) (v : V) (m : Map K V) → In (j, v) (remove k m) → (k ≢ j) × In (j, v) m
  unfolding remove
  In-remove k j v [] h = absurd h
  In-remove k j v ((i, w) ∷ m) h = ground (arith, In-remove k j v m)

  pub In-insert :
      (k j : K) (u v : V) (m : Map K V)
      → In (j, v) (insert k u m)
      → ((j ≡ k) × (v ≡ u)) ⊎ ((k ≢ j) × In (j, v) m)
  unfolding insert
  In-insert k j u v m h = ground (arith, In-remove k j v m)

  pub In-adjust :
      (k j : K) (f : V → V) (m : Map K V) (w : V)
      → In (j, w) (adjust k f m)
      → (v : V) × In (j, v) m × ((w ≡ v) ⊎ (w ≡ f v))
  unfolding adjust
  In-adjust k j f [] w h = absurd h
  In-adjust k j f ((i, u) ∷ m) w h = elim (key.decide i k) [
    | yes hit ↦ at_head (f u) (rw (if_pos _ hit) at h) (inr refl) (In-adjust k j f m w)
    | no miss ↦ at_head u (rw (if_neg _ miss) at h) (inl refl) (In-adjust k j f m w)
  ]
    where
      at_head :
          (u' : V)
          → In (j, w) ((i, u') ∷ adjust k f m)
          → ((u' ≡ u) ⊎ (u' ≡ f u))
          → (In (j, w) (adjust k f m) → (v : V) × In (j, v) m × ((w ≡ v) ⊎ (w ≡ f v)))
          → (v : V) × In (j, v) ((i, u) ∷ m) × ((w ≡ v) ⊎ (w ≡ f v))
      at_head u' (inl e) from rec = (u, ground arith, ground arith)
      at_head u' (inr m') from rec = let (v, there, from') = rec m' in (v, inr there, from')
