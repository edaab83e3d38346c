-- ===== src/Server/Reachable.antt =====
-- What happens to a server of server/inner.rs, one thing after the other: it is started, and then
-- its operations run in any order, for any clients, whether they succeed or fail.
use frclib_nettables.Base.{
  ℕ, ◌+◌, ◌^◌, ◌<◌, ◌≡◌, refl, ◌⊎◌, inl, inr, Bool, true, false, Option, arith,
}
use frclib_nettables.Base.Net.{SocketAddr}
use frclib_nettables.Server.Clients.{try_new, connect_client, disconnect_client}
use frclib_nettables.Server.Clients.Wf.{try_new-IsWf, connect_client-IsWf, disconnect_client-IsWf}
use frclib_nettables.Base.Text.{Text}
use frclib_nettables.Server.Handles.{publish_topic_w_props}
use frclib_nettables.Server.Handles.Effects.{publish_topic_w_props-IsWf}
use frclib_nettables.Server.Invariant.{IsWf}
use frclib_nettables.Server.Publish.{inner_publish_topic, inner_unpublish_topic}
use frclib_nettables.Server.Publish.Wf.{inner_publish_topic-IsWf, inner_unpublish_topic-IsWf}
use frclib_nettables.Server.Runner.{Msgpack, warn, parse_in, send_out}
use frclib_nettables.Server.Runner.Sending.{send_out-Stays}
use frclib_nettables.Server.Runner.Wf.{Calm, IsReceivable, demand, warn-Calm, parse_message-IsWf}
use frclib_nettables.Server.State.{InnerServer, M}
use frclib_nettables.Server.State.Holds.{Keeps-after}
use frclib_nettables.Server.Subscribe.{subscribe, unsubscribe}
use frclib_nettables.Server.Subscribe.Wf.{subscribe-IsWf, unsubscribe-IsWf}
use frclib_nettables.Server.Topics.Wf.{IsWfTo}
use frclib_nettables.Server.Util.{ClientIdentity, ClientMsg}
use frclib_nettables.Server.Values.{set_value, set_properties}
use frclib_nettables.Server.Values.Wf.{set_value-IsWf, set_properties-IsWf}
use frclib_nettables.Spec.Error.{Outcome, ok, err, panicked}
use frclib_nettables.Spec.Extensions.{TimestampedValue}
use frclib_nettables.Spec.Messages.{
  PublishTopic, UnpublishTopic, Subscribe, Unsubscribe, SetProperties,
}
use frclib_nettables.Spec.Topic.{PublishProperties}
use frclib_nettables.Spec.Wire.{Wire}

pub data Event (V : Type 0) : Type 0 where
  connects : ClientIdentity → Event V
  disconnects : ClientIdentity → Event V
  publishes : PublishTopic → ℕ → Event V
  unpublishes : UnpublishTopic → ℕ → Event V
  subscribes : ℕ → Subscribe → ℕ → Event V
  unsubscribes : Unsubscribe → ℕ → Event V
  sets_value : TimestampedValue V → ℕ → Event V
  sets_properties : SetProperties → Event V
  hosts : ℕ → ℕ → Text → V → Option PublishProperties → Event V
  parses : ℕ → ClientMsg → Event V
  sends_out : ℕ → Event V

module _ {R V : Type 0} (p : Msgpack R V) (w : Wire V) where
  -- The operation of an event; who calls it goes on where it fails.
  unfoldable pub perform : Event V → M V (Unit {0})
  perform (connects identity) = warn (connect_client w identity)
  perform (disconnects identity) = warn (disconnect_client identity)
  perform (publishes msg client_idx) = warn (inner_publish_topic w msg client_idx)
  perform (unpublishes msg client_idx) = warn (inner_unpublish_topic msg client_idx)
  perform (subscribes now sub client_idx) = warn (subscribe w now sub client_idx)
  perform (unsubscribes unsub client_idx) = warn (unsubscribe unsub client_idx)
  perform (sets_value value topic_idx) = warn (set_value value topic_idx)
  perform (sets_properties msg) = warn (set_properties msg)
  perform (hosts uid now name value props) = warn (publish_topic_w_props w uid now name value props)
  perform (parses now cmsg) = parse_in p w now cmsg
  perform (sends_out now) = send_out w now

  -- How many topics an event enters at most.
  abbrev pub topics_of : Event V → ℕ
  topics_of (connects identity) = 6
  topics_of (publishes msg client_idx) = 3
  topics_of (hosts uid now name value props) = 3
  topics_of (parses now cmsg) = demand w cmsg
  topics_of _ = 0

  -- The values of a binary frame can be read.
  abbrev pub IsSound : Event V → Type 0
  IsSound (parses now cmsg) = IsReceivable p cmsg
  IsSound _ = Unit

  -- A counter of topics with room for those that an event may enter.
  abbrev pub HasRoom : Event V → InnerServer V → Type 0
  HasRoom event s = s.counters.topic_idx + topics_of event < 2 ^ 32

  -- The states between the operations of a run.
  pub data Reachable : InnerServer V → Type 0 where
    started : (addr : SocketAddr) → Reachable (try_new w addr).1
    performed :
        {s : InnerServer V} (event : Event V)
        → IsSound event
        → HasRoom event s
        → Reachable s
        → Reachable (perform event s).1

  -- An event of a well-formed server; only a pass of `send_out` can panic.
  abbrev pub is_pass : Event V → Bool
  is_pass (sends_out now) = true
  is_pass _ = false

  perform-Calm :
      (event : Event V) (n : ℕ) (s : InnerServer V)
      → IsSound event
      → n + topics_of event < 2 ^ 32
      → IsWfTo n s
      → is_pass event ≡ false
      → Calm (n + topics_of event) (perform event s)
  unfolding perform
  perform-Calm (connects identity) n s sound room wf other =
      warn-Calm (n + 6) (n + 6) (connect_client w identity) s (omega arith)
        (connect_client-IsWf w identity n s room wf)
  perform-Calm (disconnects identity) n s sound room wf other =
      warn-Calm n (n + 0) (disconnect_client identity) s (omega arith)
        (disconnect_client-IsWf n identity s wf)
  perform-Calm (publishes msg c) n s sound room wf other =
      warn-Calm (n + 3) (n + 3) (inner_publish_topic w msg c) s (omega arith)
        (inner_publish_topic-IsWf n w msg c s room wf)
  perform-Calm (unpublishes msg c) n s sound room wf other =
      warn-Calm n (n + 0) (inner_unpublish_topic msg c) s (omega arith)
        (inner_unpublish_topic-IsWf n msg c s wf)
  perform-Calm (subscribes now sub c) n s sound room wf other =
      warn-Calm n (n + 0) (subscribe w now sub c) s (omega arith)
        (subscribe-IsWf w now sub c n s wf)
  perform-Calm (unsubscribes unsub c) n s sound room wf other =
      warn-Calm n (n + 0) (unsubscribe unsub c) s (omega arith) (unsubscribe-IsWf unsub c n s wf)
  perform-Calm (sets_value value i) n s sound room wf other =
      warn-Calm n (n + 0) (set_value value i) s (omega arith) (set_value-IsWf n value i s wf)
  perform-Calm (sets_properties msg) n s sound room wf other =
      warn-Calm n (n + 0) (set_properties msg) s (omega arith) (set_properties-IsWf n msg s wf)
  perform-Calm (hosts uid now name value props) n s sound room wf other =
      warn-Calm (n + 3) (n + 3) (publish_topic_w_props w uid now name value props) s (omega arith)
        (publish_topic_w_props-IsWf w uid now name value props n s room wf)
  perform-Calm (parses now cmsg) n s sound room wf other =
      parse_message-IsWf p w now cmsg.client_idx cmsg.msg n s sound room wf
  perform-Calm (sends_out now) n s sound room wf other = absurd (cc)

  Calm-after : (n : ℕ) (r : Outcome (Unit {0}) × InnerServer V) → Calm n r → IsWfTo n r.1
  Calm-after n (ok a, t) h = h.ends
  Calm-after n (err e, t) h = absurd h.ends
  Calm-after n (panicked, t) h = absurd h.ends

  Calm-ok : (n : ℕ) (r : Outcome (Unit {0}) × InnerServer V) → Calm n r → r.0 ≡ ok tt
  Calm-ok n (ok a, t) h = refl
  Calm-ok n (err e, t) h = absurd h.ends
  Calm-ok n (panicked, t) h = absurd h.ends

  pass-cases : (event : Event V) → (is_pass event ≡ false) ⊎ ((now : ℕ) × (event ≡ sends_out now))
  pass-cases (connects d) = inl refl
  pass-cases (disconnects d) = inl refl
  pass-cases (publishes m c) = inl refl
  pass-cases (unpublishes m c) = inl refl
  pass-cases (subscribes t m c) = inl refl
  pass-cases (unsubscribes m c) = inl refl
  pass-cases (sets_value v i) = inl refl
  pass-cases (sets_properties m) = inl refl
  pass-cases (hosts u t n v o) = inl refl
  pass-cases (parses t m) = inl refl
  pass-cases (sends_out now) = inr (now, refl)

  pub perform-IsWf :
      (event : Event V) (n : ℕ) (s : InnerServer V)
      → IsSound event
      → n + topics_of event < 2 ^ 32
      → IsWfTo n s
      → IsWfTo (n + topics_of event) (perform event s).1
  unfolding perform
  perform-IsWf event n s sound room wf = elim (pass-cases event) [
    | inl other ↦
        Calm-after (n + topics_of event) (perform event s)
          (perform-Calm event n s sound room wf other)
    | inr (now, pass) ↦
        let h = (send_out-Stays n w now s wf).after in rw pass (h.0, omega (arith, h.1))
  ]

  -- A server is started, and then operations run in any order, each to its end before the next one,
  -- whether they succeed or fail. Every state between them is well formed, as long as the values of
  -- the binary frames can be read and the counter of the topics, which is 32 bits wide, has room at
  -- every operation: for six topics when a client connects, for three when a topic is published,
  -- and for three for each message of a frame that is parsed.
  pub Reachable-IsWf : (s : InnerServer V) → Reachable s → IsWf s
  Reachable-IsWf s (started addr) =
      (Keeps-after (IsWfTo 9) (try_new w addr) (try_new-IsWf w addr)).0
  Reachable-IsWf t (performed {s} event sound room r) =
      (perform-IsWf event s.counters.topic_idx s sound room (Reachable-IsWf s r, (omega arith))).0

  -- From every state between the operations of such a run, under the same conditions on the next
  -- operation, no operation but a pass of `send_out` panics: not one of the `unwrap`s and `expect`s
  -- in the operations that run. Counts wrap, as in a release build.
  pub Reachable-safe :
      (s : InnerServer V) (event : Event V)
      → Reachable s
      → IsSound event
      → HasRoom event s
      → is_pass event ≡ false
      → (perform event s).0 ≡ ok tt
  Reachable-safe s event r sound room other =
      let n = s.counters.topic_idx in
      Calm-ok (n + topics_of event) (perform event s)
        (perform-Calm event n s sound room (Reachable-IsWf s r, (omega arith)) other)
