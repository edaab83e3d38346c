-- ===== src/BiMap/Laws.antt =====
-- Which writes keep the two directions of bimap.rs in step.
use frclib_nettables.Base.{ℕ, ◌≡◌, ◌≢◌, none, some, arith}
use frclib_nettables.Base.Map.{nat_key, lookup-insert, lookup-remove}
use frclib_nettables.BiMap.{PrimBiMap, insert_pair, get_by_left, get_by_right, remove_by_left}

-- Each direction is the inverse of the other.
pub record IsInverse (b : PrimBiMap) : Type 0 where
  pub forth : (l r : ℕ) → get_by_left l b ≡ some r → get_by_right r b ≡ some l
  pub back : (l r : ℕ) → get_by_right r b ≡ some l → get_by_left l b ≡ some r

-- A new pair whose two sides are both unused keeps the directions inverse.
pub insert_pair-IsInverse :
    (l r : ℕ) (b : PrimBiMap)
    → IsInverse b
    → get_by_left l b ≡ none
    → get_by_right r b ≡ none
    → IsInverse (insert_pair l r b).1
unfolding insert_pair get_by_left get_by_right
insert_pair-IsInverse l r b v fl fr = record {
  forth = λ x y h.
      ground (arith, lookup-insert l x r b.to_right, lookup-insert r y l b.to_left, v.forth x y);
  back = λ x y h.
      ground (arith, lookup-insert l x r b.to_right, lookup-insert r y l b.to_left, v.back x y);
}

-- What is written is read back on both sides, and no other key changes.
insert_pair-reads :
    (l r x y : ℕ) (b : PrimBiMap)
    → x ≢ l
    → y ≢ r
    → let b' = (insert_pair l r b).1 in
      (get_by_left l b' ≡ some r)
      × (get_by_right r b' ≡ some l)
      × (get_by_left x b' ≡ get_by_left x b)
      × (get_by_right y b' ≡ get_by_right y b)
unfolding insert_pair get_by_left get_by_right
insert_pair-reads l r x y b p q = ground (
  arith,
  lookup-insert l l r b.to_right,
  lookup-insert r r l b.to_left,
  lookup-insert l x r b.to_right,
  lookup-insert r y l b.to_left,
)

-- `remove_by_left` forgets one direction only: the right side of a removed pair still leads to the
-- left side, so the directions are no longer inverse.
pub remove_by_left-stale :
    (l r : ℕ) (b : PrimBiMap)
    → IsInverse b
    → get_by_left l b ≡ some r
    → let (found, b') = remove_by_left l b in
      (found ≡ some r) × (get_by_left l b' ≡ none) × (get_by_right r b' ≡ some l) × (¬ IsInverse b')
unfolding remove_by_left get_by_left get_by_right
remove_by_left-stale l r b v h = (
  h,
  ground (arith, lookup-remove l l b.to_right),
  v.forth l r h,
  λ v'. ground (arith, v'.back l r (v.forth l r h), lookup-remove l l b.to_right),
)
