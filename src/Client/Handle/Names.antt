-- ===== src/Client/Handle/Names.antt =====
-- The names that `clean_name` of client/async_handle.rs makes.
use frclib_nettables.Base.{
  ℕ, ◌≡◌, ◌≢◌, refl, sym, subst, true, false, not, ◌&&◌, [], ◌∷◌, map, retain, ◌==◌, arith,
  Bool-cases, inl, inr,
}
use frclib_nettables.Base.Parse.{IsFree}
use frclib_nettables.Base.Text.{Text, contains, starts_with}
use frclib_nettables.Client.Handle.{remove_double, slash_for_colon, clean_name}
use frclib_nettables.Server.Topics.{is_meta_name}

retain-IsFree : (sep : ℕ) (s : Text) → IsFree sep (retain (λ c. not (c == sep)) s)
retain-IsFree sep [] = tt
retain-IsFree sep (c ∷ s) = ground (arith, retain-IsFree sep s)

remove_double-pair :
    (c d : ℕ) (s : Text)
    → (c == b'/' && d == b'/') ≡ true
    → remove_double (c ∷ d ∷ s) ≡ remove_double s
unfolding remove_double
remove_double-pair c d s e = rw (e, remove_double) refl

remove_double-single :
    (c d : ℕ) (s : Text)
    → (c == b'/' && d == b'/') ≡ false
    → remove_double (c ∷ d ∷ s) ≡ c ∷ remove_double (d ∷ s)
unfolding remove_double
remove_double-single c d s e = rw (e, remove_double) refl

remove_double-IsFree : (sep : ℕ) (s : Text) → IsFree sep s → IsFree sep (remove_double s)
unfolding remove_double
remove_double-IsFree sep [] h = tt
remove_double-IsFree sep (c ∷ []) h = h
remove_double-IsFree sep (c ∷ d ∷ s) h = elim (Bool-cases (c == b'/' && d == b'/')) [
  | inl e ↦ subst (IsFree sep) (sym (remove_double-pair c d s e)) (remove_double-IsFree sep s h.1.1)
  | inr e ↦
      subst (IsFree sep) (sym (remove_double-single c d s e))
        (h.0, remove_double-IsFree sep (d ∷ s) h.1)
]

slashes-IsFree :
    (sep : ℕ) (s : Text) → sep ≢ b'/' → IsFree sep s → IsFree sep (map slash_for_colon s)
slashes-IsFree sep [] h free = tt
slashes-IsFree sep (c ∷ s) h free = ground (arith, slashes-IsFree sep s h free.1)

slashes-no_colon : (s : Text) → IsFree b':' (map slash_for_colon s)
slashes-no_colon [] = tt
slashes-no_colon (c ∷ s) = ground (arith, slashes-no_colon s)

free-contains : (sep : ℕ) (s : Text) → IsFree sep s → contains s (sep ∷ []) ≡ false
unfolding contains starts_with
free-contains sep [] h = refl
free-contains sep (c ∷ s) h = ground (arith, free-contains sep s h.1)

-- A name that a client publishes has no `$` and no `:` in it, so that the server never takes it for
-- the name of a metatopic.
pub clean_name-IsFree :
    (name : Text)
    → IsFree b'$' (clean_name name)
      × IsFree b':' (clean_name name)
      × (is_meta_name (clean_name name) ≡ false)
unfolding clean_name
clean_name-IsFree name =
    let free =
      slashes-IsFree b'$' _ (λ e. omega (arith, e))
        (remove_double-IsFree b'$' _ (retain-IsFree b'$' name)) in
    (free, slashes-no_colon _, free-contains b'$' _ free)
