-- ===== src/BiMap.antt =====
-- bimap.rs: two maps, one for each direction.
pub mod Laws
use frclib_nettables.Base.{ℕ, Bool, Option, List, [], length}
use frclib_nettables.Base.Map.{Map, nat_key, lookup, insert, remove, contains_key}

pub record PrimBiMap : Type 0 where
  pub to_right : Map ℕ ℕ
  pub to_left : Map ℕ ℕ

abbrev pub new : PrimBiMap
new = record { to_right = []; to_left = [] }

-- The displaced left and right partners come back too.
unfoldable pub insert_pair : ℕ → ℕ → PrimBiMap → (Option ℕ × Option ℕ) × PrimBiMap
insert_pair left right b = (
  (lookup right b.to_left, lookup left b.to_right),
  record { to_right = insert left right b.to_right; to_left = insert right left b.to_left },
)

unfoldable pub get_by_right : ℕ → PrimBiMap → Option ℕ
get_by_right right b = lookup right b.to_left

unfoldable pub get_by_left : ℕ → PrimBiMap → Option ℕ
get_by_left left b = lookup left b.to_right

unfoldable pub remove_by_left : ℕ → PrimBiMap → Option ℕ × PrimBiMap
remove_by_left left b = (lookup left b.to_right, record b { to_right = remove left b.to_right })

unfoldable pub remove_by_right : ℕ → PrimBiMap → Option ℕ × PrimBiMap
remove_by_right right b = (lookup right b.to_left, record b { to_left = remove right b.to_left })

unfoldable pub contains_left : ℕ → PrimBiMap → Bool
contains_left left b = contains_key left b.to_right

unfoldable pub contains_right : ℕ → PrimBiMap → Bool
contains_right right b = contains_key right b.to_left

unfoldable pub len : PrimBiMap → ℕ
len b = length b.to_right

abbrev pub iter_lr : PrimBiMap → List (ℕ × ℕ)
iter_lr b = b.to_right

abbrev pub iter_rl : PrimBiMap → List (ℕ × ℕ)
iter_rl b = b.to_left
