-- ===== src/Server/Util/Display.antt =====
-- `ClientIdentity::from_display` of server/util.rs, which reads what `Display` prints.
use mathlib.Core.Option
use frclib_nettables.Base.{
  ℕ, ◌^◌, ◌<◌, ◌≤◌, ◌≡◌, ◌≢◌, refl, ap, ◌∙◌, inl, inr, Option, none, some, List, [], ◌∷◌, ◌++◌,
  append_assoc, arith,
}
use frclib_nettables.Base.Net.{SocketAddr, v4, show_addr}
use frclib_nettables.Base.Parse.{
  split, parse_uint, IsFree, IsFree-append, split-free, split-append, show-IsFree, parse_uint-show,
}
use frclib_nettables.Base.Text.{Text, codes, show}
use frclib_nettables.Server.Util.{ClientIdentity, show_identity, update_name}

-- `collect::<Option<Vec<_>>>` of the parsed parts.
parse_bytes : List Text → Option (List ℕ)
parse_bytes [] = some []
parse_bytes (part ∷ parts) =
    Option.bind (parse_uint 255 part)
      λ byte. Option.bind (parse_bytes parts) λ bytes. some (byte ∷ bytes)

-- The bytes of an address must be four.
four_bytes : List ℕ → ℕ → Option SocketAddr
four_bytes (a ∷ b ∷ c ∷ d ∷ []) port = some (v4 a b c d port)
four_bytes _ port = none

parse_addr : List Text → Option SocketAddr
unfolding parse_bytes four_bytes
parse_addr (ipv4 ∷ port ∷ rest) =
    Option.bind (parse_bytes (split b'.' ipv4))
      λ bytes. Option.bind (parse_uint 65535 port) λ port. four_bytes bytes port
parse_addr _ = none

parse_identity : List Text → Option ClientIdentity
unfolding parse_addr
parse_identity (name ∷ addr ∷ rest) =
    Option.bind (parse_addr (split b':' addr)) λ addr. some (record { addr = addr; name = name })
parse_identity _ = none

unfoldable pub from_display : Text → Option ClientIdentity
unfolding parse_identity
from_display display = parse_identity (split b'@' display)

ip_text : ℕ → ℕ → ℕ → ℕ → Text
ip_text a b c d = show a ++ b'.' ∷ (show b ++ b'.' ∷ (show c ++ b'.' ∷ show d))

ip_text-IsFree : (sep a b c d : ℕ) → b'9' < sep → IsFree sep (ip_text a b c d)
unfolding ip_text
ip_text-IsFree sep a b c d h =
    let f = λ (n : ℕ). show-IsFree sep n (inr h) in
    let dot : b'.' ≢ sep = λ e. omega (arith, e, h) in
    IsFree-append sep (show a) _ (f a)
      (dot, IsFree-append sep (show b) _ (f b) (dot, IsFree-append sep (show c) _ (f c) (dot, f d)))

split-ip_text :
    (a b c d : ℕ) → split b'.' (ip_text a b c d) ≡ show a ∷ show b ∷ show c ∷ show d ∷ []
unfolding ip_text
split-ip_text a b c d =
    let f = λ (n : ℕ). show-IsFree b'.' n (inl (omega arith)) in
    rw
      (
        split-append b'.' (show a) _ (f a),
        split-append b'.' (show b) _ (f b),
        split-append b'.' (show c) _ (f c),
        split-free b'.' (show d) (f d),
      )
      refl

show_addr-ip_text :
    (a b c d port : ℕ) → show_addr (v4 a b c d port) ≡ ip_text a b c d ++ b':' ∷ show port
unfolding show_addr ip_text
show_addr-ip_text a b c d port = simp append_assoc

addr_text-IsFree :
    (sep a b c d port : ℕ)
    → b'9' < sep
    → b':' ≢ sep
    → IsFree sep (ip_text a b c d ++ b':' ∷ show port)
addr_text-IsFree sep a b c d port h ne =
    IsFree-append sep (ip_text a b c d) _ (ip_text-IsFree sep a b c d h)
      (ne, show-IsFree sep port (inr h))

abbrev IsByte : ℕ → Type 0
IsByte n = n ≤ 255

parse_addr-show :
    (a b c d port : ℕ)
    → IsByte a
    → IsByte b
    → IsByte c
    → IsByte d
    → port < 2 ^ 16
    → parse_addr (split b':' (ip_text a b c d ++ b':' ∷ show port)) ≡ some (v4 a b c d port)
unfolding parse_addr parse_bytes four_bytes Option.bind
parse_addr-show a b c d port ha hb hc hd hp =
    rw
      (
        split-append b':' (ip_text a b c d) (show port) (ip_text-IsFree b':' a b c d (omega arith)),
        split-free b':' (show port) (show-IsFree b':' port (inr (omega arith))),
        split-ip_text a b c d,
        parse_uint-show 255 a ha,
        parse_uint-show 255 b hb,
        parse_uint-show 255 c hc,
        parse_uint-show 255 d hd,
        parse_uint-show 65535 port (omega arith),
      )
      refl

show_identity-parts :
    (name : Text) (a b c d port : ℕ)
    → show_identity (record { addr = v4 a b c d port; name = name })
      ≡ name ++ b'@' ∷ (ip_text a b c d ++ b':' ∷ show port)
unfolding show_identity
show_identity-parts name a b c d port = simp (append_assoc, show_addr-ip_text a b c d port)

-- What `Display` prints for a client with an IPv4 address is read back by `from_display`, if there
-- is no `@` in the name.
pub from_display-show_identity :
    (name : Text) (a b c d port : ℕ)
    → IsFree b'@' name
    → IsByte a
    → IsByte b
    → IsByte c
    → IsByte d
    → port < 2 ^ 16
    → from_display (show_identity (record { addr = v4 a b c d port; name = name }))
      ≡ some (record { addr = v4 a b c d port; name = name })
unfolding from_display parse_identity Option.bind
from_display-show_identity name a b c d port free ha hb hc hd hp =
    rw
      (
        show_identity-parts name a b c d port,
        split-append b'@' name _ free,
        split-free b'@' _
            (addr_text-IsFree b'@' a b c d port (omega arith) (λ e. omega (arith, e))),
        parse_addr-show a b c d port ha hb hc hd hp,
      )
      refl

renamed-parts :
    (name count rest : Text)
    → (name ++ codes "@" ++ count) ++ b'@' ∷ rest ≡ name ++ b'@' ∷ (count ++ b'@' ∷ rest)
renamed-parts name count rest = simp append_assoc

from_display-two_marks :
    (name : Text) (count : ℕ) (rest : Text)
    → IsFree b'@' name
    → from_display (name ++ b'@' ∷ (show count ++ b'@' ∷ rest)) ≡ none
unfolding from_display parse_identity parse_addr Option.bind
from_display-two_marks name count rest free =
    rw
      (
        split-append b'@' name _ free,
        split-append b'@' (show count) _ (show-IsFree b'@' count (inr (omega arith))),
        split-free b':' (show count) (show-IsFree b':' count (inr (omega arith))),
      )
      refl

-- A client that `connect_client` renamed because its name was in use is not read back.
from_display-renamed :
    (name : Text) (instances a b c d port : ℕ)
    → IsFree b'@' name
    → from_display (
        show_identity (
          update_name
            (name ++ codes "@" ++ show instances)
            (record { addr = v4 a b c d port; name = name })))
      ≡ none
unfolding update_name
from_display-renamed name instances a b c d port free =
    ap from_display (
      show_identity-parts (name ++ codes "@" ++ show instances) a b c d port
      ∙ renamed-parts name (show instances) (ip_text a b c d ++ b':' ∷ show port))
    ∙ from_display-two_marks name instances _ free
