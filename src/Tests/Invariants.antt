-- ===== src/Tests/Invariants.antt =====
-- The invariant along a run of the server: a start, a client, a topic, a subscription, values.
use mathlib.Core.Option
use frclib_nettables.Base.{
  ℕ, ◌+◌, ◌≡◌, refl, ap, ℕ_discrete, none, some, List, [], ◌∷◌, In, inl, inr, arith,
}
use frclib_nettables.Base.Int.{pos}
use frclib_nettables.Base.Text.{Text-discrete, codes, contains}
use frclib_nettables.Server.Clients.{try_new, connect_client}
use frclib_nettables.Server.Clients.Wf.{try_new-IsWf, connect_client-IsWf}
use frclib_nettables.Base.Map.{nat_key, text_key, lookup, insert, remove}
use frclib_nettables.BiMap.{new}
use frclib_nettables.Server.Connected.{ConnectedClient}
use frclib_nettables.Server.Subscribe.Joins.{IsEntered, subscribe-IsEntered}
use frclib_nettables.Server.Publish.{inner_publish_topic}
use frclib_nettables.Server.Publish.Wf.{inner_publish_topic-IsWf}
use frclib_nettables.Server.Runner.{parse_all, read_value}
use frclib_nettables.Server.Runner.Wf.{Calm, IsReceivable, total_demand, parse_all-IsWf}
use frclib_nettables.Server.State.{InnerServer, ◌>>=◌}
use frclib_nettables.Server.State.Holds.{Keeps, Keeps-after}
use frclib_nettables.Server.Subscribe.{subscribe}
use frclib_nettables.Server.Subscribe.Wf.{subscribe-IsWf}
use frclib_nettables.Server.Topics.{add_topic, add_topic_fuel, register}
use frclib_nettables.Server.Topics.Wf.{IsWfTo}
use frclib_nettables.Server.Util.{ClientMsg, server_identity, next_topic_idx, next_client_idx}
use frclib_nettables.Spec.Messages.{Subscribe}
use frclib_nettables.Spec.Topic.{new_meta, has_implicit_publisher}
use frclib_nettables.Spec.Wire.{text, binary}
use frclib_nettables.Tests.Fixtures.{wire, msgpack, addr, robot, publish_b}

abbrev fresh : InnerServer ℕ
fresh = (try_new wire addr).1

fresh-IsWf : IsWfTo 9 fresh
fresh-IsWf = Keeps-after (IsWfTo 9) (try_new wire addr) (try_new-IsWf wire addr)

abbrev joined : InnerServer ℕ
joined = (connect_client wire robot fresh).1

joined-IsWf : IsWfTo 15 joined
joined-IsWf =
    Keeps-after (IsWfTo 15) (connect_client wire robot fresh)
      (connect_client-IsWf wire robot 9 fresh (omega arith) fresh-IsWf)

abbrev published : InnerServer ℕ
published = (inner_publish_topic wire publish_b 1 joined).1

published-IsWf : IsWfTo 18 published
published-IsWf =
    Keeps-after (IsWfTo 18) (inner_publish_topic wire publish_b 1 joined)
      (inner_publish_topic-IsWf 15 wire publish_b 1 joined (omega arith) joined-IsWf)

abbrev to_b : Subscribe
to_b = record { subuid = pos 3; topics = codes "b" ∷ []; options = none }

abbrev watched : InnerServer ℕ
watched = (subscribe wire 500 to_b 1 published).1

watched-IsWf : IsWfTo 18 watched
watched-IsWf =
    Keeps-after (IsWfTo 18) (subscribe wire 500 to_b 1 published)
      (subscribe-IsWf wire 500 to_b 1 18 published published-IsWf)

-- A text frame and a binary frame with the id 9, the timestamp 6 and the value 60.
abbrev frames : List (ℕ × ClientMsg)
frames =
    (600, record { client_idx = 1; msg = text [] })
    ∷ (601, record { client_idx = 1; msg = binary (9 ∷ 6 ∷ 2 ∷ 60 ∷ []) })
    ∷ []

frame-read : read_value msgpack (9 ∷ 6 ∷ 2 ∷ 60 ∷ []) ≡ some (9, 6, 60)
unfolding read_value Option.bind
frame-read = refl

frames-IsReceivable :
    (now : ℕ) (cmsg : ClientMsg) → In (now, cmsg) frames → IsReceivable msgpack cmsg
frames-IsReceivable now cmsg (inl e) bytes h array m missing =
    let first : cmsg.msg ≡ text [] = ap (λ (x : ℕ × ClientMsg). x.1.msg) e in cc
frames-IsReceivable now cmsg (inr (inl e)) bytes h array (inl m) missing =
    let second : cmsg.msg ≡ binary (9 ∷ 6 ∷ 2 ∷ 60 ∷ []) = ap (λ (x : ℕ × ClientMsg). x.1.msg) e in
    ground (arith, frame-read)
frames-IsReceivable now cmsg (inr (inl e)) bytes h array (inr m) missing = m
frames-IsReceivable now cmsg (inr (inr m)) bytes h array there missing = m

parse_all-IsWf_example :
    Calm (18 + total_demand wire frames) (parse_all msgpack wire frames watched)
parse_all-IsWf_example =
    parse_all-IsWf msgpack wire frames 18 watched frames-IsReceivable (omega arith) watched-IsWf

-- The client that stands for the server.
abbrev server_side : ConnectedClient
server_side = record {
  identity = server_identity;
  kill_bool = 0;
  pubuid_to_topicidx = new;
  subuid_to_subidx = new;
  subs = [];
  sub_ouput = none;
  announced_topics = [];
}

server_there : lookup 0 fresh.clients ≡ some server_side
unfolding try_new add_topic add_topic_fuel register next_topic_idx next_client_idx new_meta lookup
    insert remove contains has_implicit_publisher ◌>>=◌ Text-discrete ℕ_discrete
server_there = refl

subscribe-IsEntered_example : Keeps (IsEntered 500 to_b 0 fresh) (subscribe wire 500 to_b 0 fresh)
subscribe-IsEntered_example =
    subscribe-IsEntered wire 500 to_b 0 server_side fresh fresh-IsWf.0 server_there
