-- ===== src/Server/Connection.antt =====
-- `handle_connection` of server/runner.rs: what is done with the frames that come in over a socket,
-- and with those that wait to go out. The calls of the socket's sink are listed in order; they only
-- warn where they fail. The channel of the time messages is the list of all that were sent on it.
pub mod Outgoing
pub mod Incoming
use frclib_nettables.Base.{
  ℕ, Bool, true, false, not, Option, none, some, List, [], ◌∷◌, ◌++◌, unwrap_or, ◌==◌,
  if◌then◌else◌, ◌&&◌,
}
use frclib_nettables.Base.Int.{ℤ, negsuc}
use frclib_nettables.Base.Text.{Text, codes, text_eq}
use frclib_nettables.Server.Runner.{Msgpack, last}
use frclib_nettables.Server.Util.{ClientIdentity, ClientMsg, as_close}
use frclib_nettables.Spec.Error.{Outcome, ok, err, panicked}
use frclib_nettables.Spec.Extensions.{int, as_u8}
use frclib_nettables.Spec.Messages.{NtMessage}
use frclib_nettables.Spec.Wire.{Wire, Bytes, Message, text, binary, ping, pong, close_frame}

pub data SinkCall : Type 0 where
  feed : Message → SinkCall
  send : Message → SinkCall
  flush : SinkCall

pub record Connection : Type 0 where
  pub killed : Bool
  pub parser_gone : Bool
  pub to_parser : List ClientMsg
  pub times : List Message
  pub calls : List SinkCall

abbrev pub new_connection : Connection
new_connection = record {
  killed = false;
  parser_gone = false;
  to_parser = [];
  times = [];
  calls = [];
}

abbrev pub kill : Connection → Connection
kill c = record c { killed = true }

abbrev pub send_time : Message → Connection → Connection
send_time message c = record c { times = c.times ++ message ∷ [] }

abbrev pub call : SinkCall → Connection → Connection
call action c = record c { calls = c.calls ++ action ∷ [] }

infixl 5 ◌>>=◌
abbrev ◌>>=◌ : {A B : Type 0} → Option A → (A → Option B) → Option B
none >>= f = none
some a >>= f = f a

-- What a binary frame is: to be parsed, to be dropped, or a time sync.
pub data Frame : Type 0 where
  forwards : Frame
  drops : Frame
  syncs : ℕ → Frame

-- To the channel of the parser; if it is closed, the connection ends.
unfoldable pub forward : ℕ → Message → Connection → Connection
forward idx msg c =
    if c.parser_gone
    then kill c
    else record c { to_parser = c.to_parser ++ record { client_idx = idx; msg = msg } ∷ [] }

-- `is_integer` tells an integer of rmpv.
module _ {R V : Type 0} (p : Msgpack R V) (is_integer : R → Bool) (w : Wire V) where
  time_of : R → Frame
  time_of value = if is_integer value then syncs (unwrap_or (p.as_u64 value) 0) else drops

  -- A frame with a negative id; one that cannot be read is left to the parser.
  time_sync : List (Option (List R)) → Frame
  unfolding time_of last
  time_sync (some array ∷ items) = elim (last array) [
    | none ↦ forwards
    | some value ↦ time_of value
  ]
  time_sync _ = forwards

  unfoldable pub inspect : Bytes → Frame
  unfolding time_sync
  inspect (first ∷ second ∷ rest) =
      if not (first == 148)
      then drops
      else if second == 210
      then time_sync (p.read_all (first ∷ second ∷ rest))
      else forwards
  inspect _ = drops

  -- The five pieces of the answer; `none` is a failed `unwrap`.
  unfoldable pub time_reply : ℕ → ℕ → Option Bytes
  time_reply now time = do
    head ← w.write_array_len 4
    id ← w.write_i32 (negsuc 0)
    server_time ← w.write_uint now
    type ← w.write_u8 (as_u8 int)
    client_time ← w.write_uint time
    some (head ++ id ++ server_time ++ type ++ client_time)

  answer : Option Bytes → Connection → Outcome (Unit {0}) × Connection
  answer none c = (panicked, c)
  answer (some buf) c = (ok tt, send_time (binary buf) c)

  -- One frame that comes in at the clock's time `now`.
  unfoldable pub receive : ℕ → ℕ → Message → Connection → Outcome (Unit {0}) × Connection
  unfolding answer
  receive now idx (binary bytes) c = elim (inspect bytes) [
    | forwards ↦ (ok tt, forward idx (binary bytes) c)
    | drops ↦ (ok tt, c)
    | syncs time ↦ answer (time_reply now time) c
  ]
  receive now idx ping c = (ok tt, send_time pong c)
  receive now idx pong c = (ok tt, c)
  receive now idx close_frame c = (ok tt, kill c)
  receive now idx (text json) c = (ok tt, forward idx (text json) c)

-- What happens to the outgoing loop: the clock, the client's channel or the channel of time
-- messages wakes it, where `none` is a closed channel, or the switch is set elsewhere, by the
-- incoming half or by `disconnect_client`, which wakes nobody.
pub data Wakeup : Type 0 where
  tick : Wakeup
  from_server : Option Message → Wakeup
  from_time : Option Message → Wakeup
  switched_off : Wakeup

unfoldable pub is_flush : Bytes → Bool
is_flush bin = text_eq bin (codes "flush")

unfoldable pub wake : Wakeup → Connection → Connection
wake tick c = call flush c
wake (from_server none) c = kill c
wake (from_server (some (binary bin))) c = if is_flush bin then call flush c else c
wake (from_server (some msg)) c = call (feed msg) c
wake (from_time none) c = kill c
wake switched_off c = kill c
wake (from_time (some msg)) c = call (send msg) c

abbrev pub wakes : Wakeup → Bool
wakes switched_off = false
wakes _ = true

-- The outgoing loop. It looks at the switch behind each wakeup, and ends where it is set.
unfoldable pub wake_all : List Wakeup → Connection → Connection
wake_all [] c = c
wake_all (wakeup ∷ wakeups) c =
    let c' = wake wakeup c in
    let rest = wake_all wakeups c' in if wakes wakeup && c'.killed then c' else rest

-- The end of a connection. `to_json` is serde_json's of one message; both it and the channel are
-- expected to work.
unfoldable pub close_connection :
    (NtMessage → Option Text) → ClientIdentity → ℕ → Connection → Outcome (Unit {0}) × Connection
close_connection to_json identity idx c = elim (to_json (as_close identity)) [
  | none ↦ (panicked, c)
  | some json ↦ if c.parser_gone then (panicked, c) else (ok tt, forward idx (text json) c)
]
