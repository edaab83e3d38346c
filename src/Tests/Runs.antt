-- ===== src/Tests/Runs.antt =====
-- A run of the server: a client comes, publishes, subscribes, sends a value, is served and leaves.
use frclib_nettables.Base.{ℕ, ◌+◌, ◌<◌, ◌^◌, ◌∷◌, [], ◌≡◌, refl, none, arith}
use frclib_nettables.Base.Int.{pos}
use frclib_nettables.Base.Text.{codes}
use frclib_nettables.Server.Clients.{try_new}
use frclib_nettables.Server.Clients.Wf.{try_new-IsWf}
use frclib_nettables.Server.Invariant.{IsWf}
use frclib_nettables.Server.State.Holds.{Keeps-after}
use frclib_nettables.Server.Reachable.{
  Event, connects, disconnects, publishes, subscribes, sets_value, sends_out, perform, Reachable,
  started, performed, IsSound, topics_of, perform-IsWf, Reachable-IsWf, Reachable-safe,
}
use frclib_nettables.Server.State.{InnerServer}
use frclib_nettables.Spec.Error.{ok}
use frclib_nettables.Server.Topics.Wf.{IsWfTo}
use frclib_nettables.Spec.Extensions.{TimestampedValue}
use frclib_nettables.Spec.Messages.{Subscribe}
use frclib_nettables.Tests.Fixtures.{wire, msgpack, addr, robot, publish_b}

abbrev to_b : Subscribe
to_b = record { subuid = pos 3; topics = codes "b" ∷ []; options = none }

abbrev sixty : TimestampedValue ℕ
sixty = record { timestamp = 6; value = 60 }

-- The states of the run.
abbrev after : Event ℕ → InnerServer ℕ → InnerServer ℕ
after event s = (perform msgpack wire event s).1

abbrev with_value : InnerServer ℕ
with_value = after (sets_value sixty 5) (
    after (subscribes 500 to_b 1)
      (after (publishes publish_b 1) (after (connects robot) (try_new wire addr).1)))

abbrev served : InnerServer ℕ
served = after (sends_out 900) with_value

-- A state of a run, with a bound on its counter of topics.
abbrev IsWithin : ℕ → InnerServer ℕ → Type 0
IsWithin n s = Reachable msgpack wire s × IsWfTo n s

next :
    (n : ℕ) (s : InnerServer ℕ) (event : Event ℕ)
    → IsSound msgpack wire event
    → n + topics_of msgpack wire event < 2 ^ 32
    → IsWithin n s
    → IsWithin (n + topics_of msgpack wire event) (after event s)
next n s event sound room (r, wf) = (
  performed event sound (omega (arith, room, wf.1)) r,
  perform-IsWf msgpack wire event n s sound room wf,
)

begun : IsWithin 9 (try_new wire addr).1
begun = (started addr, Keeps-after (IsWfTo 9) (try_new wire addr) (try_new-IsWf wire addr))

run : IsWithin 18 served
run = next 18 with_value (sends_out 900) tt (omega arith) (
    next 18 _ (sets_value sixty 5) tt (omega arith) (
      next 18 _ (subscribes 500 to_b 1) tt (omega arith) (
        next 15 _ (publishes publish_b 1) tt (omega arith)
          (next 9 _ (connects robot) tt (omega arith) begun))))

Reachable-IsWf_example : IsWf served
Reachable-IsWf_example = Reachable-IsWf msgpack wire served run.0

Reachable-safe_example : (perform msgpack wire (disconnects robot) served).0 ≡ ok tt
Reachable-safe_example =
    Reachable-safe msgpack wire served (disconnects robot) run.0 tt (omega (arith, run.1.1)) refl
