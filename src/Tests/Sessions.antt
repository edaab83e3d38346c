-- ===== src/Tests/Sessions.antt =====
-- The task of a client's socket, at concrete inputs.
use frclib_nettables.Base.{
  arith, zero, suc, ℕ, ◌+◌, ◌≡◌, refl, false, none, some, List, [], ◌∷◌, ◌++◌, inl,
}
use frclib_nettables.Base.Int.{pos}
use frclib_nettables.Base.Text.{codes}
use frclib_nettables.Client.Reconnect.{io, other_io, connection_closed, default_should_reconnect}
use frclib_nettables.Client.Sending.{negative_one, send_message, write_to_buf}
use frclib_nettables.Client.Sending.Live.{AtMostOne}
use frclib_nettables.Client.Task.{
  Outside, SocketTask, Woken, from_server, server_ended, server_failed, from_client, frame_at, turn,
  run,
}
use frclib_nettables.Client.Task.Blocking.{run-blocks}
use frclib_nettables.Client.Task.Losing.{turn-loses, run-reported}
use frclib_nettables.Client.Values.{Instants}
use frclib_nettables.Spec.Error.{ok, err, panicked, tungstenite}
use frclib_nettables.Spec.Wire.{Message, text, binary, ping, pong}
use frclib_nettables.Tests.Fixtures.{client_wire, idle, published_b}

abbrev outside : Outside ℕ
outside = record {
  client_wire = client_wire;
  readings = record { as_i64 = λ n. some (pos n); as_u64 = some };
  read_all = λ bytes. some bytes ∷ [];
  should_reconnect = default_should_reconnect;
}

-- One frame waits in the channel.
abbrev session : SocketTask ℕ
session = record {
  client = record idle {
    client_published_topics = (9, published_b) ∷ [];
    socket = record { sent = text (codes "b") ∷ []; ended = false; left = none };
  };
  taken = 0;
  delivered = [];
}

abbrev clock : ℕ → Instants
clock i = record { received = 2000 + i; set_again = 2000 + i; handled_again = 2000 + i }

-- A value comes in, the connection is closed and opened again, and the frame goes out.
abbrev events : List Woken
events =
    from_server clock (binary (0 ∷ 5 ∷ 2 ∷ 30 ∷ []))
    ∷ server_ended (none ∷ some 3000 ∷ [])
    ∷ from_client none []
    ∷ []

turn-loses_example :
    (u : SocketTask ℕ) × (frames : List Message) × (turn outside
        (from_client (some connection_closed) (some 3000 ∷ []))
        session
      ≡ some (ok tt, u))
    × (u.taken ≡ 0 + 1)
    × (u.delivered ≡ [])
    × AtMostOne client_wire negative_one frames
    × (u.client.socket.sent ≡ session.client.socket.sent ++ (frames ++ text [] ∷ []))
unfolding default_should_reconnect write_to_buf frame_at
turn-loses_example =
    turn-loses outside connection_closed (some 3000 ∷ []) 3000 [] (text (codes "b")) session refl
      (inl refl) (refl, refl) (λ e. cc) refl refl (omega arith)

run-reported_example :
    (u : SocketTask ℕ) × (run outside (server_failed (io other_io) [] ∷ events) session ≡ some u)
    × ((send_message ping u.client).0 ≡ err tungstenite)
    × ((send_message pong (send_message ping u.client).1).0 ≡ panicked)
unfolding default_should_reconnect
run-reported_example =
    run-reported outside (server_failed (io other_io) []) events session ping pong refl

-- A channel that is full.
abbrev copies : ℕ → List Message
copies zero = []
copies (suc n) = ping ∷ copies n

abbrev crowded : SocketTask ℕ
crowded = record session {
  client = record session.client {
    socket = record { sent = copies 100; ended = false; left = none };
  };
}

run-blocks_example : run outside (server_ended (some 3000 ∷ []) ∷ events) crowded ≡ none
unfolding default_should_reconnect write_to_buf
run-blocks_example =
    run-blocks outside (server_ended (some 3000 ∷ [])) events [] crowded refl (refl, refl) (λ e. cc)
      refl (omega arith)
