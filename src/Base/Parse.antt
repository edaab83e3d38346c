-- ===== src/Base/Parse.antt =====
-- Splitting a text at a character, and reading unsigned numbers as `str::parse` does.
use frclib_nettables.Base.Tests.{◌==◌, leb, if◌then◌else◌}
use frclib_nettables.Base.Text.{Text, show, show_digits}
use Prim.Native.Nat.{ℕ, zero, suc, ◌+◌, ◌-◌, ◌*◌, ◌/◌, ◌%◌, ◌<◌, ◌≤◌}
use mathlib.Core.Path.{◌≡◌, refl, sym, ap, ◌∙◌, subst}
use mathlib.Core.Logic.{◌≢◌, ◌⊎◌}
use mathlib.Core.Bool.{◌&&◌}
use mathlib.Core.Option.{Option, none, some}
use mathlib.Core.List.{List, [], ◌∷◌, ◌++◌, append_assoc, append-nil}
use native.Mathlib.Omega.{arith}
use native.Mathlib.Decide.{dec_lt}

-- A character in front of the first part.
abbrev pub onto_first : ℕ → List Text → List Text
onto_first c [] = []
onto_first c (part ∷ parts) = (c ∷ part) ∷ parts

-- `str::split` for a character.
unfoldable pub split : ℕ → Text → List Text
split sep [] = [] ∷ []
split sep (c ∷ cs) = let parts = split sep cs in if c == sep then [] ∷ parts else onto_first c parts

-- The digits behind a number; `none` is another character or an overflow.
unfoldable pub scan : ℕ → ℕ → Text → Option ℕ
scan largest n [] = some n
scan largest n (c ∷ cs) =
    let m = n * 10 + (c - b'0') in
    let rest = scan largest m cs in if leb b'0' c && leb c b'9' && leb m largest then rest else none

scan_some : ℕ → Text → Option ℕ
unfolding scan
scan_some largest [] = none
scan_some largest (c ∷ cs) = scan largest 0 (c ∷ cs)

-- `parse` of a `u8`, `u16` …: a sign `+` may stand in front of the digits.
unfoldable pub parse_uint : ℕ → Text → Option ℕ
unfolding scan_some scan
parse_uint largest [] = none
parse_uint largest (c ∷ cs) = if c == b'+' then scan_some largest cs else scan_some largest (c ∷ cs)

-- No character of a text is `sep`.
abbrev pub IsFree : ℕ → Text → Type 0
IsFree sep [] = Unit
IsFree sep (c ∷ cs) = (c ≢ sep) × IsFree sep cs

pub IsFree-append : (sep : ℕ) (s t : Text) → IsFree sep s → IsFree sep t → IsFree sep (s ++ t)
IsFree-append sep [] t h k = k
IsFree-append sep (c ∷ s) t h k = (h.0, IsFree-append sep s t h.1 k)

pub split-free : (sep : ℕ) (s : Text) → IsFree sep s → split sep s ≡ s ∷ []
unfolding split
split-free sep [] h = refl
split-free sep (c ∷ s) h = ground (arith, split-free sep s h.1)

pub split-append :
    (sep : ℕ) (s rest : Text) → IsFree sep s → split sep (s ++ sep ∷ rest) ≡ s ∷ split sep rest
unfolding split
split-append sep [] rest h = ground arith
split-append sep (c ∷ s) rest h = ground (arith, split-append sep s rest h.1)

-- A separator that is no digit.
abbrev pub IsApart : ℕ → Type 0
IsApart sep = (sep < b'0') ⊎ (b'9' < sep)

show_digits-one : (f n : ℕ) → n < 10 → show_digits (suc f) n ≡ (b'0' + n) ∷ []
unfolding show_digits
show_digits-one f n h = ground arith

show_digits-more :
    (f n : ℕ) → ¬ (n < 10) → show_digits (suc f) n ≡ show_digits f (n / 10) ++ (b'0' + n % 10) ∷ []
unfolding show_digits
show_digits-more f n h = ground arith

show_digits-IsFree : (sep f n : ℕ) → IsApart sep → IsFree sep (show_digits f n)
unfolding show_digits
show_digits-IsFree sep zero n h = tt
show_digits-IsFree sep (suc f) n h = elim (dec_lt n 10) [
  | yes p ↦ rw (show_digits-one f n p) ((λ e. omega (arith, e, h)), tt)
  | no p ↦
      rw (show_digits-more f n p) (
        IsFree-append sep _ _ (show_digits-IsFree sep f (n / 10) h)
          ((λ e. omega (arith, e, h)), tt))
]

pub show-IsFree : (sep n : ℕ) → IsApart sep → IsFree sep (show n)
unfolding show
show-IsFree sep n h = show_digits-IsFree sep (suc n) n h

scan-show_digits :
    (largest f n : ℕ) (rest : Text)
    → n < f
    → n ≤ largest
    → scan largest 0 (show_digits f n ++ rest) ≡ scan largest n rest
unfolding show_digits scan
scan-show_digits largest zero n rest enough fits = absurd (omega arith)
scan-show_digits largest (suc f) n rest enough fits = elim (dec_lt n 10) [
  | yes p ↦ rw (show_digits-one f n p) (ground arith)
  | no p ↦
      rw
        (
          show_digits-more f n p,
          append_assoc,
          scan-show_digits largest f (n / 10) ((b'0' + n % 10) ∷ rest) (omega arith) (omega arith),
        )
        (ground arith)
]

show_digits-digit :
    (f n : ℕ) → n < f → (c : ℕ) × (cs : Text) × (show_digits f n ≡ c ∷ cs) × (b'0' ≤ c)
show_digits-digit zero n enough = absurd (omega arith)
show_digits-digit (suc f) n enough = elim (dec_lt n 10) [
  | yes p ↦ (b'0' + n, [], show_digits-one f n p, omega arith)
  | no p ↦
      let (c, cs, e, d) = show_digits-digit f (n / 10) (omega arith) in
      (c, cs ++ (b'0' + n % 10) ∷ [], rw (show_digits-more f n p, e) refl, d)
]

parse_uint-digits :
    (largest c : ℕ) (cs : Text) (r : Option ℕ)
    → b'0' ≤ c
    → scan largest 0 (c ∷ cs) ≡ r
    → parse_uint largest (c ∷ cs) ≡ r
unfolding parse_uint scan_some
parse_uint-digits largest c cs r digit h = ground arith

scan-show : (largest n : ℕ) → n ≤ largest → scan largest 0 (show_digits (suc n) n) ≡ some n
unfolding scan
scan-show largest n fits =
    ap (scan largest 0) (sym (append-nil (show_digits (suc n) n)))
    ∙ scan-show_digits largest (suc n) n [] (omega arith) fits

-- A number that fits is read back from its printed form.
pub parse_uint-show : (largest n : ℕ) → n ≤ largest → parse_uint largest (show n) ≡ some n
unfolding show
parse_uint-show largest n fits =
    let (c, cs, e, d) = show_digits-digit (suc n) n (omega arith) in
    subst (λ s. parse_uint largest s ≡ some n) (sym e)
      (parse_uint-digits largest c cs (some n) d
        (ap (scan largest 0) (sym e) ∙ scan-show largest n fits))
