-- ===== src/Server/Connection/Outgoing.antt =====
-- Which frames the outgoing loop of server/runner.rs sends.
use frclib_nettables.Base.{
  ◌≡◌, refl, sym, ap, ◌∙◌, inl, inr, Bool-cases, Bool, true, false, not, none, some, List, [], ◌∷◌,
  ◌++◌, retain, append_assoc, append-nil, if◌then◌else◌, ◌&&◌, arith,
}
use frclib_nettables.Server.Connection.{
  SinkCall, feed, send, flush, Connection, call, Wakeup, tick, from_server, from_time, switched_off,
  wakes, kill, is_flush, wake, wake_all,
}
use frclib_nettables.Spec.Wire.{Bytes, Message, text, binary, ping, pong, close_frame}

-- The frames that the sink was fed, in order; those of the time channel are sent, not fed.
unfoldable pub fed : List SinkCall → List Message
fed [] = []
fed (feed msg ∷ calls) = msg ∷ fed calls
fed (send msg ∷ calls) = fed calls
fed (flush ∷ calls) = fed calls

abbrev pub is_binary : Message → Bool
is_binary (binary bytes) = true
is_binary _ = false

-- The frame that comes out of the client's channel at the next wakeup.
unfoldable pub next_arrived : List Wakeup → List Message
next_arrived [] = []
next_arrived (switched_off ∷ wakeups) = next_arrived wakeups
next_arrived (from_server (some msg) ∷ wakeups) = msg ∷ []
next_arrived (from_server none ∷ wakeups) = []
next_arrived (tick ∷ wakeups) = []
next_arrived (from_time msg ∷ wakeups) = []

-- The frames that come out of the client's channel until one of the channels is closed, or until
-- one wakeup after the switch was set.
unfoldable pub arrived : List Wakeup → List Message
unfolding next_arrived
arrived [] = []
arrived (tick ∷ wakeups) = arrived wakeups
arrived (from_server none ∷ wakeups) = []
arrived (from_server (some msg) ∷ wakeups) = msg ∷ arrived wakeups
arrived (from_time none ∷ wakeups) = []
arrived (from_time (some msg) ∷ wakeups) = arrived wakeups
arrived (switched_off ∷ wakeups) = next_arrived wakeups

abbrev pub unbinary : List Message → List Message
unbinary msgs = retain (λ m. not (is_binary m)) msgs

fed-append : (xs ys : List SinkCall) → fed (xs ++ ys) ≡ fed xs ++ fed ys
unfolding fed
fed-append [] ys = refl
fed-append (feed msg ∷ xs) ys = ap (λ r. msg ∷ r) (fed-append xs ys)
fed-append (send msg ∷ xs) ys = fed-append xs ys
fed-append (flush ∷ xs) ys = fed-append xs ys

if-false : {A : Type 0} (b : Bool) (x y : A) → b ≡ false → (if b then x else y) ≡ y
if-false b x y e = rw e refl

wake_all-alive :
    (wakeup : Wakeup) (wakeups : List Wakeup) (c : Connection)
    → (wake wakeup c).killed ≡ false
    → wake_all (wakeup ∷ wakeups) c ≡ wake_all wakeups (wake wakeup c)
unfolding wake_all
wake_all-alive wakeup wakeups c alive =
    if-false (wakes wakeup && (wake wakeup c).killed) _ _ (ground (arith, alive))

-- Where the switch is set, the loop handles one wakeup more.
wake_all-killed :
    (wakeups : List Wakeup) (c : Connection)
    → c.killed ≡ true
    → fed (wake_all wakeups c).calls ≡ fed c.calls ++ unbinary (next_arrived wakeups)
unfolding wake_all wake fed next_arrived
wake_all-killed [] c off = sym (append-nil (fed c.calls))
wake_all-killed (switched_off ∷ wakeups) c off = wake_all-killed wakeups (kill c) refl
wake_all-killed (tick ∷ wakeups) c off = rw off (fed-append c.calls (flush ∷ []))
wake_all-killed (from_server none ∷ wakeups) c off = sym (append-nil (fed c.calls))
wake_all-killed (from_server (some (binary bytes)) ∷ wakeups) c off =
    elim (Bool-cases (is_flush bytes)) [
      | inl e ↦ rw (e, off) (fed-append c.calls (flush ∷ []))
      | inr e ↦ rw (e, off) (sym (append-nil (fed c.calls)))
    ]
wake_all-killed (from_server (some (text json)) ∷ wakeups) c off =
    rw off (fed-append c.calls (feed (text json) ∷ []))
wake_all-killed (from_server (some ping) ∷ wakeups) c off =
    rw off (fed-append c.calls (feed ping ∷ []))
wake_all-killed (from_server (some pong) ∷ wakeups) c off =
    rw off (fed-append c.calls (feed pong ∷ []))
wake_all-killed (from_server (some close_frame) ∷ wakeups) c off =
    rw off (fed-append c.calls (feed close_frame ∷ []))
wake_all-killed (from_time none ∷ wakeups) c off = sym (append-nil (fed c.calls))
wake_all-killed (from_time (some msg) ∷ wakeups) c off = rw off (fed-append c.calls (send msg ∷ []))

abbrev Fed : List Wakeup → Connection → Type 0
Fed wakeups c = fed (wake_all wakeups c).calls ≡ fed c.calls ++ unbinary (arrived wakeups)

-- A wakeup that makes a call of the sink.
after_call :
    (wakeup : Wakeup) (action : SinkCall) (c : Connection) (wakeups : List Wakeup)
    → wake wakeup c ≡ call action c
    → c.killed ≡ false
    → Fed wakeups (call action c)
    → fed (wake_all (wakeup ∷ wakeups) c).calls
      ≡ fed c.calls ++ (fed (action ∷ []) ++ unbinary (arrived wakeups))
after_call wakeup action c wakeups e alive rest =
    ap (λ d. fed d.calls)
      (wake_all-alive wakeup wakeups c (ap (λ d. d.killed) e ∙ alive) ∙ ap (wake_all wakeups) e)
    ∙ rest
    ∙ ap (λ msgs. msgs ++ unbinary (arrived wakeups)) (fed-append c.calls (action ∷ []))
    ∙ append_assoc (fed c.calls) (fed (action ∷ [])) (unbinary (arrived wakeups))

wake-binary :
    (bytes : Bytes) (c : Connection)
    → wake (from_server (some (binary bytes))) c ≡ (if is_flush bytes then call flush c else c)
unfolding wake
wake-binary bytes c = refl

-- A binary frame makes no call, or one that feeds nothing.
after_binary :
    (bytes : Bytes) (c : Connection) (wakeups : List Wakeup)
    → c.killed ≡ false
    → Fed wakeups c
    → Fed wakeups (call flush c)
    → Fed (from_server (some (binary bytes)) ∷ wakeups) c
unfolding fed arrived
after_binary bytes c wakeups alive quiet flushed = elim (Bool-cases (is_flush bytes)) [
  | inl e ↦
      let e' = wake-binary bytes c ∙ ap (λ b. if b then call flush c else c) e in
      after_call (from_server (some (binary bytes))) flush c wakeups e' alive flushed
  | inr e ↦
      let e' = wake-binary bytes c ∙ ap (λ b. if b then call flush c else c) e in
      ap (λ d. fed d.calls)
        (wake_all-alive (from_server (some (binary bytes))) wakeups c
            (ap (λ d. d.killed) e' ∙ alive)
          ∙ ap (wake_all wakeups) e')
      ∙ quiet
]

-- Of the frames in the channel of a client whose connection is not ended the sink is fed exactly
-- those that are not binary, in order, whatever the clock and the time messages do in between,
-- until a channel is closed, or until one wakeup after the switch was set: no value that the server
-- sends reaches the client.
pub wake_all-fed :
    (wakeups : List Wakeup) (c : Connection)
    → c.killed ≡ false
    → fed (wake_all wakeups c).calls
      ≡ fed c.calls ++ retain (λ m. not (is_binary m)) (arrived wakeups)
unfolding wake_all wake fed arrived
wake_all-fed [] c alive = sym (append-nil (fed c.calls))
wake_all-fed (tick ∷ wakeups) c alive =
    after_call tick flush c wakeups refl alive (wake_all-fed wakeups (call flush c) alive)
wake_all-fed (from_server none ∷ wakeups) c alive = sym (append-nil (fed c.calls))
wake_all-fed (from_server (some (binary bytes)) ∷ wakeups) c alive =
    after_binary bytes c wakeups alive (wake_all-fed wakeups c alive)
      (wake_all-fed wakeups (call flush c) alive)
wake_all-fed (from_server (some (text json)) ∷ wakeups) c alive =
    after_call (from_server (some (text json))) (feed (text json)) c wakeups refl alive
      (wake_all-fed wakeups (call (feed (text json)) c) alive)
wake_all-fed (from_server (some ping) ∷ wakeups) c alive =
    after_call (from_server (some ping)) (feed ping) c wakeups refl alive
      (wake_all-fed wakeups (call (feed ping) c) alive)
wake_all-fed (from_server (some pong) ∷ wakeups) c alive =
    after_call (from_server (some pong)) (feed pong) c wakeups refl alive
      (wake_all-fed wakeups (call (feed pong) c) alive)
wake_all-fed (from_server (some close_frame) ∷ wakeups) c alive =
    after_call (from_server (some close_frame)) (feed close_frame) c wakeups refl alive
      (wake_all-fed wakeups (call (feed close_frame) c) alive)
wake_all-fed (switched_off ∷ wakeups) c alive = wake_all-killed wakeups (kill c) refl
wake_all-fed (from_time none ∷ wakeups) c alive = sym (append-nil (fed c.calls))
wake_all-fed (from_time (some msg) ∷ wakeups) c alive =
    after_call (from_time (some msg)) (send msg) c wakeups refl alive
      (wake_all-fed wakeups (call (send msg) c) alive)
