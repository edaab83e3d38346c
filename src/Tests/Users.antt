-- ===== src/Tests/Users.antt =====
-- What a client's user does, at concrete inputs.
use mathlib.Core.Option
use frclib_nettables.Base.{
  ℕ, ◌≡◌, ◌≢◌, refl, ◌⊎◌, ◌↔◌, true, false, none, some, List, [], ◌∷◌, ◌++◌, In, arith, ℕ_discrete,
}
use frclib_nettables.Base.Int.{ℤ, pos}
use frclib_nettables.Base.Map.{nat_key, lookup, insert, remove}
use frclib_nettables.Base.Parse.{IsFree}
use frclib_nettables.Base.Text.{codes, Text-discrete}
use frclib_nettables.Client.Clock.{
  client_time, new_offset, handle_new_timestamp, new_topic_id, new_sub_id,
}
use frclib_nettables.Client.Handle.{
  clean_name, remove_double, keep_published, publishing, publish_topic, unpublish, take_id,
  send_messages, subscribe_w_options,
}
use frclib_nettables.Client.Handle.Effects.{unpublish-reopened}
use frclib_nettables.Client.Handle.Names.{clean_name-IsFree}
use frclib_nettables.Client.Handle.Numbers.{IsNumbered, publish_topic-fresh}
use frclib_nettables.Client.Handle.Subscribed.{
  Incoming, held_with, wanted, receive_each, subscribe-wanted,
}
use frclib_nettables.Client.Receive.{ℤ-discrete}
use frclib_nettables.Spec.Subscription.{Subscription, cares_about, is_valid}
use frclib_nettables.Client.Handle.Published.{GoesOn, publish_topic-IsKnown}
use frclib_nettables.Client.Sending.{
  on_open, write_to_buf, negative_one, check_task_panic, into_socket, send_message, publish_of,
  subscribe_of, opening_messages,
}
use frclib_nettables.Client.Sending.Opening.{IsPublished, IsHeld}
use frclib_nettables.Client.Sending.Opens.{on_open_iff}
use frclib_nettables.Client.Sending.Live.{AtMostOne}
use frclib_nettables.Spec.Messages.{NtMessage}
use frclib_nettables.Client.State.{InnerClient, HeldSub, ◌>>=◌}
use frclib_nettables.Client.Values.{Readings, Instants, handle_time}
use frclib_nettables.Client.Values.Retry.{handle_time-stuck}
use frclib_nettables.Server.Runner.{parse_in}
use frclib_nettables.Server.Topics.{is_meta_name}
use frclib_nettables.Server.Topics.Effects.{IsKnown}
use frclib_nettables.Spec.Error.{ok}
use frclib_nettables.Spec.Extensions.{int, stringify}
use frclib_nettables.Spec.Wire.{Message, text}
use frclib_nettables.Tests.Fixtures.{waiting, wire, msgpack, client_wire, idle, published_b, sample}

clean_name-IsFree_example :
    IsFree b'$' (clean_name (codes "$a::b"))
    × IsFree b':' (clean_name (codes "$a::b"))
    × (is_meta_name (clean_name (codes "$a::b")) ≡ false)
clean_name-IsFree_example = clean_name-IsFree (codes "$a::b")

-- The client after it has published the topic "b".
abbrev with_b : InnerClient ℕ
with_b = record idle {
  client_published_topics = (9, published_b) ∷ [];
  socket = record { sent = text [] ∷ []; ended = false; left = none };
  topic_counter = 9;
}

publishes_b : publish_topic client_wire (codes "b") int none idle ≡ (ok published_b, with_b)
unfolding publish_topic take_id send_messages ◌>>=◌ send_message check_task_panic into_socket
    clean_name remove_double keep_published new_topic_id insert remove stringify publishing
    publish_of
publishes_b = refl

publish_topic-IsKnown_example :
    (frame : Message) × (with_b.socket.sent ≡ idle.socket.sent ++ frame ∷ [])
    × GoesOn
        (IsKnown (clean_name (codes "b")))
        (parse_in msgpack wire 600 (record { client_idx = 1; msg = frame }) sample)
unfolding publishing publish_of
publish_topic-IsKnown_example =
    publish_topic-IsKnown client_wire msgpack wire (codes "b") int none idle with_b published_b 1
      600 sample (λ json e. refl) publishes_b

publish_topic-fresh_example :
    (lookup 9 idle.client_published_topics ≡ none)
    × (lookup 9 with_b.client_published_topics ≡ some published_b)
    × ((i : ℕ)
        → i ≢ 9
        → lookup i with_b.client_published_topics ≡ lookup i idle.client_published_topics)
    × IsNumbered with_b
publish_topic-fresh_example =
    publish_topic-fresh client_wire (codes "b") int none idle with_b published_b (omega arith)
      (λ i t m. absurd m) publishes_b

unpublish-reopened_example :
    In (publish_of published_b) (opening_messages (unpublish client_wire published_b with_b).1)
unfolding unpublish send_messages ◌>>=◌ send_message check_task_panic into_socket lookup ℕ_discrete
unpublish-reopened_example = unpublish-reopened client_wire 9 published_b with_b refl refl

on_open_iff_example :
    let d = (on_open client_wire 2000 with_b).1 in
    (frames : List Message) × (messages : List NtMessage) × AtMostOne client_wire negative_one
      frames
    × (client_wire.wire.to_json messages ≡ some [])
    × (d.socket.sent ≡ with_b.socket.sent ++ (frames ++ text [] ∷ []))
    × ((msg : NtMessage)
        → In msg messages
          ↔ (IsPublished msg with_b.client_published_topics ⊎ IsHeld msg with_b.subscriptions))
    × ((id : ℤ) (held : HeldSub ℕ)
        → In (id, held) d.subscriptions
          ↔ (In (id, held) with_b.subscriptions × (is_valid held.sub ≡ true)))
unfolding write_to_buf
on_open_iff_example = on_open_iff client_wire 2000 [] with_b (refl, refl) (λ e. cc) refl

-- Every number is read as it is.
abbrev readings : Readings ℕ
readings = record { as_i64 = λ n. some (pos n); as_u64 = some }

-- The request was sent at 500 and the answer was stamped 510, by a server that is behind.
abbrev instants : Instants
instants = record { received = 1540; set_again = 1541; handled_again = 1543 }

math_fails : handle_new_timestamp 1540 510 (some (pos 500)) idle ≡ (none, idle)
unfolding handle_new_timestamp new_offset client_time Option.bind
math_fails = refl

handle_time-stuck_example :
    let d = (handle_time client_wire readings instants 510 (some (pos 500)) idle).1 in
    (d.server_time_offset ≡ idle.server_time_offset) × (d.start_instant ≡ 1541)
handle_time-stuck_example =
    handle_time-stuck client_wire readings instants 510 500 idle math_fails (omega arith)
      (omega arith) (omega arith)

-- The user subscribes to the topic `b`, and two values come in, one of them for it.
abbrev to_b_only : Subscription
to_b_only = record { subuid = pos 4; topics = codes "b" ∷ []; options = none }

abbrev incoming : List (Incoming ℕ)
incoming =
    (record { name = codes "a"; type = codes "int"; properties = none }, 70, int, 30)
    ∷ (record { name = codes "b"; type = codes "int"; properties = none }, 71, int, 31)
    ∷ []

abbrev subscribed : InnerClient ℕ
subscribed = record idle {
  subscriptions = (pos 4, held_with to_b_only []) ∷ (pos 7, waiting) ∷ [];
  socket = record { sent = text [] ∷ []; ended = false; left = none };
  sub_counter = 4;
}

subscribes_b :
    subscribe_w_options client_wire (codes "b" ∷ []) none idle ≡ (ok to_b_only, subscribed)
unfolding subscribe_w_options take_id send_messages ◌>>=◌ send_message check_task_panic into_socket
    new_sub_id insert remove subscribe_of ℤ-discrete ℕ_discrete
subscribes_b = refl

subscribe-wanted_example :
    In
      (pos 4, held_with to_b_only (wanted to_b_only incoming))
      (receive_each incoming subscribed).subscriptions
unfolding wanted cares_about Text-discrete
subscribe-wanted_example =
    subscribe-wanted client_wire (codes "b" ∷ []) none incoming idle subscribed to_b_only
      subscribes_b (omega arith)
