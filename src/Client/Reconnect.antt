-- ===== src/Client/Reconnect.antt =====
-- `default_should_reconnect` of client/config.rs, and what `handle_disconnect` of client/inner.rs
-- makes of the result of using the socket.
pub mod Reopens
use frclib_nettables.Base.{
  ℕ, ◌≡◌, refl, Bool, true, false, ◌||◌, Option, none, some, List, [], ◌∷◌, ◌++◌, if◌then◌else◌,
}
use frclib_nettables.Client.Sending.{ClientWire, on_open}
use frclib_nettables.Client.State.{InnerClient, C, pure, ◌>>=◌, ◌>>◌}
use frclib_nettables.Spec.Error.{Outcome, ok, err, panicked, tungstenite}

-- `io::ErrorKind` and `tungstenite::Error`, as far as they are told apart here.
pub data IoKind : Type 0 where
  connection_reset connection_aborted timed_out : IoKind
  other_io : IoKind

pub data ProtocolError : Type 0 where
  send_after_closing reset_without_closing_handshake : ProtocolError
  other_protocol : ProtocolError

pub data SocketError : Type 0 where
  already_closed connection_closed : SocketError
  protocol : ProtocolError → SocketError
  io : IoKind → SocketError
  other_error : SocketError

unfoldable pub default_should_reconnect : SocketError → Bool
default_should_reconnect already_closed = true
default_should_reconnect connection_closed = true
default_should_reconnect (protocol send_after_closing) = true
default_should_reconnect (protocol reset_without_closing_handshake) = true
default_should_reconnect (protocol other_protocol) = false
default_should_reconnect (io connection_reset) = true
default_should_reconnect (io connection_aborted) = true
default_should_reconnect (io timed_out) = true
default_should_reconnect (io other_io) = false
default_should_reconnect other_error = true

module _ {R : Type 0} (w : ClientWire R) where
  -- The loop of `reconnect`: an attempt for each entry, and what it comes to, with the instant. The
  -- first one that succeeds opens the connection; `none` is a client that still tries.
  unfoldable pub reconnect :
      List (Option ℕ) → InnerClient R → Option (Outcome (Unit {0}) × InnerClient R)
  reconnect [] c = none
  reconnect (none ∷ attempts) c = reconnect attempts c
  reconnect (some now ∷ attempts) c = some (on_open w now c)

  -- After the socket was used. An error that is not answered by reconnecting is given back.
  unfoldable pub handle_disconnect :
      (SocketError → Bool)
      → Option SocketError
      → List (Option ℕ)
      → InnerClient R
      → Option (Outcome (Unit {0}) × InnerClient R)
  unfolding reconnect
  handle_disconnect should_reconnect none attempts c = some (ok tt, c)
  handle_disconnect should_reconnect (some error) attempts c =
      if should_reconnect error then reconnect attempts c else some (err tungstenite, c)
