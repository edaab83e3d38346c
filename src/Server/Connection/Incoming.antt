-- ===== src/Server/Connection/Incoming.antt =====
-- What the frames that pass `handle_connection` of server/runner.rs do to the task that parses
-- them.
use mathlib.Core.Option
use frclib_nettables.Base.{
  ℕ, ◌≡◌, ◌≢◌, refl, ap, ◌∙◌, Bool, true, false, Option, none, some, List, [], ◌∷◌, ◌++◌, arith,
}
use frclib_nettables.Base.Text.{Text, codes, starts_with}
use frclib_nettables.Server.Connection.{Connection, forward, inspect, receive, close_connection}
use frclib_nettables.Server.Runner.{Msgpack, read_value, receive_value, receive_all, parse_in}
use frclib_nettables.Server.State.{InnerServer, ◌>>=◌}
use frclib_nettables.Server.Util.{ClientIdentity, as_close}
use frclib_nettables.Spec.Error.{Outcome, ok, panicked}
use frclib_nettables.Spec.Messages.{NtMessage}
use frclib_nettables.Spec.Wire.{Wire, Bytes, Message, text, binary}

-- A frame is passed on as it is.
abbrev pub PassedOn : ℕ → Message → Connection → Outcome (Unit {0}) × Connection → Type 0
PassedOn idx msg c r =
    (r.0 ≡ ok tt)
    × (r.1.to_parser ≡ c.to_parser ++ record { client_idx = idx; msg = msg } ∷ [])
    × (r.1.killed ≡ c.killed)

module _ {R V : Type 0} (p : Msgpack R V) (is_integer : R → Bool) (w : Wire V) where
  receive-array :
      (now idx second : ℕ) (rest : Bytes) (c : Connection)
      → second ≢ 210
      → c.parser_gone ≡ false
      → PassedOn idx
          (binary (148 ∷ second ∷ rest))
          c
          (receive p is_integer w now idx (binary (148 ∷ second ∷ rest)) c)
  unfolding receive inspect forward
  receive-array now idx second rest c other alive = ground arith

  read_value-negative :
      (id : R) (array : List R) → p.as_u64 id ≡ none → read_value p (id ∷ array) ≡ none
  unfolding read_value Option.bind
  read_value-negative id [] e = refl
  read_value-negative id (time ∷ array) e = rw e refl

  receive_value-unread :
      (idx : ℕ) (array : List R) (s : InnerServer V)
      → read_value p array ≡ none
      → receive_value p idx (some array) s ≡ (panicked, s)
  unfolding receive_value
  receive_value-unread idx array s e = rw (e, receive_value) refl

  receive_all-negative :
      (idx : ℕ) (id : R) (array : List R) (items : List (Option (List R))) (s : InnerServer V)
      → p.as_u64 id ≡ none
      → (receive_all p idx (some (id ∷ array) ∷ items) s).0 ≡ panicked
  unfolding receive_all ◌>>=◌
  receive_all-negative idx id array items s e =
      rw (receive_value-unread idx (id ∷ array) s (read_value-negative id array e), ◌>>=◌) refl

  -- While the parser's channel is open, a frame of four elements that does not begin with the
  -- marker of a 32 bit integer is passed on whatever its id is, also one with the id -1 in the
  -- shorter form of one byte. Then the task that parses the frames of all clients ends with a
  -- panic, in every state of the server.
  pub negative_id-panicked :
      (now idx second : ℕ) (rest : Bytes) (id : R) (array : List R) (items : List (Option (List R)))
      (c : Connection) (instant : ℕ) (s : InnerServer V)
      → second ≢ 210
      → c.parser_gone ≡ false
      → p.read_all (148 ∷ second ∷ rest) ≡ some (id ∷ array) ∷ items
      → p.as_u64 id ≡ none
      → PassedOn idx
          (binary (148 ∷ second ∷ rest))
          c
          (receive p is_integer w now idx (binary (148 ∷ second ∷ rest)) c)
        × ((parse_in p w instant
              (record { client_idx = idx; msg = binary (148 ∷ second ∷ rest) })
              s).0
            ≡ panicked)
  unfolding parse_in
  negative_id-panicked now idx second rest id array items c instant s other alive read negative = (
    receive-array now idx second rest c other alive,
    ap (λ items. (receive_all p idx items s).0) read
        ∙ receive_all-negative idx id array items s negative,
  )

  -- When a connection ends while the parser's channel is open, one message is written and passed
  -- on, and the task that parses messages reads it where it expects a list of messages. JSON writes
  -- a message as an object, which begins with a brace, and no text that begins with a brace is read
  -- as a list. So nothing happens: the client stays connected, with all that it published and
  -- subscribed to.
  pub close_connection-ignored :
      (to_json : NtMessage → Option Text)
      → ((message : NtMessage) (json : Text)
          → to_json message ≡ some json
          → starts_with json (codes "{") ≡ true)
      → ((json : Text) → starts_with json (codes "{") ≡ true → w.from_json json ≡ none)
      → (identity : ClientIdentity) (idx instant : ℕ) (json : Text) (c : Connection)
        (s : InnerServer V)
      → to_json (as_close identity) ≡ some json
      → c.parser_gone ≡ false
      → PassedOn idx (text json) c (close_connection to_json identity idx c)
        × (parse_in p w instant (record { client_idx = idx; msg = text json }) s ≡ (ok tt, s))
  unfolding close_connection parse_in forward
  close_connection-ignored to_json objects lists identity idx instant json c s e alive =
      (ground (arith), rw (lists json (objects (as_close identity) json e), parse_in) refl)
