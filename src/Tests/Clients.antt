-- ===== src/Tests/Clients.antt =====
-- The client's clock and what it receives, at concrete inputs.
use frclib_nettables.Base.{ℕ, ◌≡◌, refl, some, [], ◌∷◌, In, arith, ◌↔◌}
use frclib_nettables.Base.Int.{ℤ, pos}
use frclib_nettables.Client.Clock.{
  client_time, server_time, value_timestamp, handle_new_timestamp, handle_new_timestamp-offset,
  value_timestamp-rejected,
}
use frclib_nettables.Client.Receive.{
  Receives, message_of, send_value_to_subscriber, send_value_to_subscriber_iff,
}
use frclib_nettables.Client.State.{HeldSub}
use frclib_nettables.Server.Values.{latest}
use frclib_nettables.Spec.Extensions.{int}
use frclib_nettables.Tests.Fixtures.{topic_a, waiting, idle}

-- Sent at 500, half of the way takes 20, the server is ahead by 100.
handle_new_timestamp-offset_example :
    handle_new_timestamp 1540 620 (some (pos 500)) idle
    ≡ (some tt, record idle { server_time_offset = 60 })
handle_new_timestamp-offset_example =
    handle_new_timestamp-offset 1540 500 20 100 idle refl (omega arith) (omega arith)

early : server_time 2000 idle ≡ 1000
unfolding server_time client_time
early = refl

late : server_time 4294968500 idle ≡ 4294967500
unfolding server_time client_time
late = refl

abbrev one : ℕ
one = 1

abbrev two : ℕ
two = 2

value_timestamp-rejected_example :
    latest
      (some (record { timestamp = value_timestamp 2000 idle; value = one }))
      (record { timestamp = value_timestamp 4294968500 idle; value = two })
    ≡ record { timestamp = value_timestamp 2000 idle; value = one }
value_timestamp-rejected_example =
    value_timestamp-rejected 2000 4294968500 idle one two (omega (arith, early))
      (omega (arith, late)) (omega (arith, early, late))

send_value_to_subscriber_iff_example :
    In {A = ℤ × HeldSub ℕ}
      (pos 7, waiting)
      (send_value_to_subscriber topic_a 6 int 60 idle).subscriptions
    ↔ ((held : HeldSub ℕ) × In {A = ℤ × HeldSub ℕ} (pos 7, held) ((pos 7, waiting) ∷ [])
        × Receives topic_a (message_of topic_a 6 int 60) held waiting)
send_value_to_subscriber_iff_example =
    send_value_to_subscriber_iff topic_a 6 int 60 idle (pos 7) waiting
