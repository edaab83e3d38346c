-- ===== src/Tests/Sockets.antt =====
-- Connections and requests at concrete inputs.
use frclib_nettables.Base.{
  ℕ, ◌≡◌, refl, sym, subst, true, Option, not, none, some, List, [], ◌∷◌, ◌++◌, retain, ◌==◌, arith,
  if◌then◌else◌,
}
use frclib_nettables.Base.Text.{Text, codes, starts_with}
use frclib_nettables.Server.Connection.{
  Wakeup, switched_off, tick, from_server, new_connection, wake_all, receive, close_connection,
}
use frclib_nettables.Server.Connection.Incoming.{
  PassedOn, negative_id-panicked, close_connection-ignored,
}
use frclib_nettables.Server.Connection.Outgoing.{fed, is_binary, arrived, wake_all-fed}
use frclib_nettables.Server.Runner.{Msgpack, parse_in}
use frclib_nettables.Server.Util.{show_identity}
use frclib_nettables.Server.Util.Display.{from_display, from_display-show_identity}
use frclib_nettables.Spec.Messages.{NtMessage}
use frclib_nettables.Spec.Error.{ok, panicked}
use frclib_nettables.Spec.Wire.{Wire, binary, text}
use frclib_nettables.Tests.Fixtures.{wire, robot, sample}

-- A text and a value wait for a client.
abbrev wakeups : List Wakeup
wakeups =
    from_server (some (text (codes "[]")))
    ∷ tick
    ∷ from_server (some (binary (148 ∷ [])))
    ∷ switched_off
    ∷ from_server (some (text (codes "[]")))
    ∷ from_server (some (text (codes "[]")))
    ∷ []

wake_all-fed_example :
    fed (wake_all wakeups new_connection).calls
    ≡ fed [] ++ retain (λ m. not (is_binary m)) (arrived wakeups)
wake_all-fed_example = wake_all-fed wakeups new_connection refl

-- The bytes behind the first are one array, and the byte 255 stands for -1.
abbrev signed : Msgpack ℕ ℕ
signed = record {
  read_all = λ bytes. elim bytes [ [] ↦ [] | head ∷ rest ↦ some rest ∷ [] ];
  as_u64 = λ n. if n == 255 then none else some n;
  try_value = some;
}

negative_id-panicked_example :
    PassedOn 1
      (binary (148 ∷ 255 ∷ 0 ∷ 2 ∷ 7 ∷ []))
      new_connection
      (receive signed (λ _. true) wire 10 1 (binary (148 ∷ 255 ∷ 0 ∷ 2 ∷ 7 ∷ [])) new_connection)
    × ((parse_in signed wire 20
          (record { client_idx = 1; msg = binary (148 ∷ 255 ∷ 0 ∷ 2 ∷ 7 ∷ []) })
          sample).0
        ≡ panicked)
negative_id-panicked_example =
    negative_id-panicked signed (λ _. true) wire 10 1 255 (0 ∷ 2 ∷ 7 ∷ []) 255 (0 ∷ 2 ∷ 7 ∷ []) []
      new_connection 20 sample (λ e. omega (arith, e)) refl refl refl

-- A text that begins with a brace is no list of messages, and any other text is the empty list.
abbrev lists_only : Wire ℕ
lists_only = record wire {
  from_json = λ json. if starts_with json (codes "{") then none else some [];
}

braces :
    (message : NtMessage) (json : Text)
    → ◌≡◌ {A = Option Text} (some (codes "{}")) (some json)
    → starts_with json (codes "{") ≡ true
unfolding starts_with
braces message json e =
    let same : json ≡ codes "{}" = cc in
    subst (λ t. starts_with t (codes "{") ≡ true) (sym same) refl

no_list : (json : Text) → starts_with json (codes "{") ≡ true → lists_only.from_json json ≡ none
no_list json e = rw e refl

close_connection-ignored_example :
    PassedOn 1
      (text (codes "{}"))
      new_connection
      (close_connection (λ msg. some (codes "{}")) robot 1 new_connection)
    × (parse_in signed lists_only 20 (record { client_idx = 1; msg = text (codes "{}") }) sample
        ≡ (ok tt, sample))
close_connection-ignored_example =
    close_connection-ignored signed (λ _. true) lists_only (λ msg. some (codes "{}")) braces no_list
      robot 1 20 (codes "{}") new_connection sample refl refl

from_display-show_identity_example : from_display (show_identity robot) ≡ some robot
from_display-show_identity_example =
    from_display-show_identity (codes "robot") 10 0 0 2 5810 (omega arith) (omega arith)
      (omega arith) (omega arith) (omega arith) (omega arith)
