-- ===== src/Server/Request.antt =====
-- `request` of server/runner.rs: which HTTP requests become connections, and under which name.
-- A header is `none` where it is missing or is no text; hyper's upgrade itself is left out.
pub mod Client
use frclib_nettables.Base.{
  ℕ, zero, suc, ◌+◌, Bool, true, false, not, ◌&&◌, ◌||◌, Option, none, some, List, [], ◌∷◌, ◌++◌,
  map, length, ◌==◌, leb, is_some, if◌then◌else◌,
}
use frclib_nettables.Base.Net.{SocketAddr}
use frclib_nettables.Base.Text.{Text, codes, contains}
use frclib_nettables.Server.Clients.{connect_client}
use frclib_nettables.Server.State.{InnerServer, M, pure, ◌>>=◌, ◌>>◌}
use frclib_nettables.Server.Runner.{warn}
use frclib_nettables.Server.Util.{ClientIdentity}
use frclib_nettables.Spec.Error.{Outcome, ok, err, panicked}
use frclib_nettables.Spec.Wire.{Wire}

pub record Request : Type 0 where
  pub is_get : Bool
  pub is_http_11 : Bool
  pub upgrade : Option Text
  pub websocket_key : Option Text
  pub websocket_protocol : Option Text
  pub path : Text

-- The answer: a page, or the switch of protocols.
pub data Answer : Type 0 where
  hello_world : Answer
  switching_protocols : Bool → Text → Answer

abbrev pub to_lower : ℕ → ℕ
to_lower c = if leb b'A' c && leb c b'Z' then c + 32 else c

abbrev pub to_ascii_lowercase : Text → Text
to_ascii_lowercase s = map to_lower s

-- `is_some_and(|val| val.to_ascii_lowercase().contains(..))`.
abbrev pub header_contains : Option Text → Text → Bool
header_contains none pattern = false
header_contains (some val) pattern = contains (to_ascii_lowercase val) pattern

-- The text behind a prefix.
strip_prefix : Text → Text → Option Text
strip_prefix s [] = some s
strip_prefix [] (p ∷ ps) = none
strip_prefix (c ∷ cs) (p ∷ ps) = if c == p then strip_prefix cs ps else none

-- `trim_start_matches`, which takes the prefix away as often as it is there. Each round makes the
-- text shorter, so its length is fuel enough.
trim_rounds : ℕ → Text → Text → Text
unfolding strip_prefix
trim_rounds zero s pattern = s
trim_rounds (suc f) s pattern = elim (strip_prefix s pattern) [
  | none ↦ s
  | some rest ↦ trim_rounds f rest pattern
]

unfoldable pub trim_start_matches : Text → Text → Text
unfolding trim_rounds
trim_start_matches s pattern = trim_rounds (length s) s pattern

-- The branch on the protocols that the client offers.
protocol_answer : Text → Option Text → Answer
protocol_answer name protocol =
    if header_contains protocol (codes "rtt.networktables.first.wpi.edu")
    then switching_protocols true name
    else if header_contains protocol (codes "networktables")
    then switching_protocols false name
    else hello_world

unfoldable pub request : Request → Answer
unfolding protocol_answer
request req =
    if not req.is_get
      || not req.is_http_11
      || not (header_contains req.upgrade (codes "websocket"))
      || not (is_some req.websocket_key)
    then hello_world
    else protocol_answer (trim_start_matches req.path (codes "/nt/")) req.websocket_protocol

-- Once the protocols are switched: a client of the protocol is connected, and the socket of a round
-- trip measurement is dropped.
unfoldable pub upgraded : {V : Type 0} → Wire V → SocketAddr → Answer → M V (Unit {0})
upgraded w addr hello_world = pure tt
upgraded w addr (switching_protocols true name) = pure tt
upgraded w addr (switching_protocols false name) =
    warn (connect_client w (record { addr = addr; name = name }))
