-- ===== src/Client/Sending/Live.antt =====
-- What a client of client/inner.rs sends while the task of its socket runs.
use frclib_nettables.Base.{
  ℕ, ◌≡◌, ◌≢◌, refl, sym, ap, ◌∙◌, subst, false, Option, none, some, ◌⊎◌, Option-cases, List, [],
  ◌∷◌, ◌++◌, append-nil, append_assoc, ◌≤◌, ◌+◌, length, length-append, arith, inl, inr,
}
use frclib_nettables.Base.Int.{negsuc}
use frclib_nettables.Base.Map.{lookup}
use frclib_nettables.Client.Clock.{client_time}
use frclib_nettables.Client.Receive.{int_key}
use frclib_nettables.Client.Sending.{
  ClientWire, UnsignedIntOrNegativeOne, negative_one, check_task_panic, into_socket, send_message,
  write_to_buf, publish_value_w_timestamp, update_time,
}
use frclib_nettables.Client.State.{InnerClient, C, attempt, encoded, expected, ◌>>=◌}
use frclib_nettables.Spec.Error.{Outcome, ok, err, panicked, NetworkTablesError}
use frclib_nettables.Spec.Extensions.{FrcType}
use frclib_nettables.Spec.Wire.{Bytes, Message, binary}

pub ok-ne-panicked : ◌≢◌ {A = Outcome (Unit {0})} (ok tt) panicked
ok-ne-panicked h = cc

module _ {R : Type 0} where
  -- The task of the socket runs and has left no error.
  abbrev pub IsLive : InnerClient R → Type 0
  IsLive c = (c.socket.ended ≡ false) × (c.socket.left ≡ none)

  abbrev pub sent_all : List Message → InnerClient R → InnerClient R
  sent_all frames c = record c { socket = record c.socket { sent = c.socket.sent ++ frames } }

  pub send_message-live :
      (message : Message) (c : InnerClient R)
      → IsLive c
      → send_message message c ≡ (ok tt, sent_all (message ∷ []) c)
  unfolding send_message check_task_panic into_socket ◌>>=◌
  send_message-live message c (run, quiet) = rw (send_message, check_task_panic, quiet, run) refl

  -- At most one value, under an id.
  abbrev pub AtMostOne : ClientWire R → UnsignedIntOrNegativeOne → List Message → Type 0
  AtMostOne w id frames =
      (frames ≡ [])
      ⊎ ((head uid rest : Bytes) × (w.wire.write_array_len 4 ≡ some head)
          × (write_to_buf w id ≡ some uid)
          × (frames ≡ binary (head ++ uid ++ rest) ∷ []))

  AtMostOne-length :
      (w : ClientWire R) (id : UnsignedIntOrNegativeOne) (frames : List Message)
      → AtMostOne w id frames
      → length frames ≤ 1
  AtMostOne-length w id frames (inl e) = rw e (omega arith)
  AtMostOne-length w id frames (inr (head, uid, rest, h, u, e)) = rw e (omega arith)

  -- One frame more than there were.
  pub sent_one :
      (w : ClientWire R) (id : UnsignedIntOrNegativeOne) (frames before : List Message)
      → AtMostOne w id frames
      → length (before ++ frames) ≤ length before + 1
  sent_one w id frames before one =
      rw (length-append before frames) (omega (arith, AtMostOne-length w id frames one))

  pub sent_two :
      (w : ClientWire R) (id : UnsignedIntOrNegativeOne) (frames before : List Message)
      (message : Message)
      → AtMostOne w id frames
      → length (before ++ (frames ++ message ∷ [])) ≤ length before + 2
  sent_two w id frames before message one =
      rw (length-append before (frames ++ message ∷ []), length-append frames (message ∷ []))
        (omega (arith, AtMostOne-length w id frames one))

  -- At most one value was sent, and the operation did not panic.
  abbrev pub HasSent :
      ClientWire R
      → UnsignedIntOrNegativeOne
      → InnerClient R
      → Outcome (Unit {0}) × InnerClient R
      → Type 0
  HasSent w id c r =
      (r.0 ≢ panicked)
      × ((frames : List Message) × AtMostOne w id frames × (r.1 ≡ sent_all frames c))

  sent_nothing : (c : InnerClient R) → c ≡ sent_all [] c
  sent_nothing c =
      ap (λ frames. record c { socket = record c.socket { sent = frames } })
        (sym (append-nil c.socket.sent))

  module _ (w : ClientWire R) (id : UnsignedIntOrNegativeOne) where
    sent_none : (e : NetworkTablesError) (c : InnerClient R) → HasSent w id c (err e, c)
    sent_none e c = ((λ h. cc), ([], inl refl, sent_nothing c))

    encoded-HasSent :
        {A : Type 0} (o : Option A) (e : NetworkTablesError) (f : A → C R (Unit {0}))
        (c : InnerClient R)
        → ((a : A) → o ≡ some a → HasSent w id c (f a c))
        → HasSent w id c ((encoded o e >>= f) c)
    unfolding ◌>>=◌
    encoded-HasSent none e f c k = sent_none e c
    encoded-HasSent (some a) e f c k = k a refl

    expected-HasSent :
        {A : Type 0} (o : Option A) (f : A → C R (Unit {0})) (c : InnerClient R)
        → o ≢ none
        → ((a : A) → o ≡ some a → HasSent w id c (f a c))
        → HasSent w id c ((expected o >>= f) c)
    unfolding ◌>>=◌
    expected-HasSent none f c there k = absurd (there refl)
    expected-HasSent (some a) f c there k = k a refl

  check_task_panic-live : (c : InnerClient R) → IsLive c → check_task_panic c ≡ (ok tt, c)
  unfolding check_task_panic
  check_task_panic-live c (run, quiet) = simp (check_task_panic, quiet)

  check-HasSent :
      (w : ClientWire R) (id : UnsignedIntOrNegativeOne) (f : Unit {0} → C R (Unit {0}))
      (c : InnerClient R)
      → IsLive c
      → HasSent w id c (f tt c)
      → HasSent w id c ((check_task_panic >>= f) c)
  unfolding ◌>>=◌
  check-HasSent w id f c live h =
      subst
        (λ (r : Outcome (Unit {0}) × InnerClient R).
          HasSent w id c
            (elim r.0 [ ok a ↦ f a r.1 | err e ↦ (err e, r.1) | panicked ↦ (panicked, r.1) ]))
        (sym (check_task_panic-live c live)) h

  publish_value-HasSent :
      (w : ClientWire R) (id : UnsignedIntOrNegativeOne) (type : FrcType) (timestamp : ℕ)
      (value : R) (c : InnerClient R)
      → IsLive c
      → write_to_buf w id ≢ none
      → HasSent w id c (publish_value_w_timestamp w id type timestamp value c)
  unfolding publish_value_w_timestamp
  publish_value-HasSent w id type timestamp value c live writes = check-HasSent w id _ c live (
      encoded-HasSent w id _ _ _ c λ head h. expected-HasSent w id _ _ c writes λ uid u.
        encoded-HasSent w id _ _ _ c λ time t. encoded-HasSent w id _ _ _ c λ code k.
          encoded-HasSent w id _ _ _ c λ bytes b.
            let message = binary (head ++ uid ++ time ++ code ++ bytes) in
            let e = send_message-live message c live in
            (
              (λ h. ok-ne-panicked (sym (ap (λ r. r.0) e) ∙ h)),
              (
                message ∷ [],
                inr (
                  head,
                  uid,
                  time ++ (code ++ bytes),
                  h,
                  u,
                  ap (λ b. binary b ∷ [])
                      (append_assoc (head ++ uid ++ time) code bytes
                        ∙ append_assoc (head ++ uid) time (code ++ bytes)),
                ),
                ap (λ r. r.1) e,
              ),
            ))

  pub update_time-HasSent :
      (w : ClientWire R) (now : ℕ) (c : InnerClient R)
      → IsLive c
      → write_to_buf w negative_one ≢ none
      → HasSent w negative_one c (update_time w now c)
  unfolding update_time ◌>>=◌
  update_time-HasSent w now c live writes =
      elim (Option-cases (lookup (negsuc 0) c.announced_topics)) [
        | inl e ↦ rw (e, update_time) ((λ h. cc), ([], inl refl, sent_nothing c))
        | inr (topic, e) ↦
            rw (e, update_time)
              (publish_value-HasSent w negative_one (w.type_of topic.type) 0
                (w.integer (client_time now c)) c live writes)
      ]

  pub attempt_sent :
      (r : Outcome (Unit {0})) (c d : InnerClient R) (frames : List Message)
      → r ≢ panicked
      → d ≡ sent_all frames c
      → ◌≡◌ {A = Outcome (Unit {0}) × InnerClient R}
          (elim r [ ok a ↦ (ok tt, d) | err e ↦ (ok tt, d) | panicked ↦ (panicked, d) ])
          (ok tt, sent_all frames c)
  attempt_sent (ok a) c d frames h e = ap (λ x. (ok tt, x)) e
  attempt_sent (err x) c d frames h e = ap (λ x. (ok tt, x)) e
  attempt_sent panicked c d frames h e = absurd (h refl)

  pub attempt-HasSent :
      (w : ClientWire R) (id : UnsignedIntOrNegativeOne) (m : C R (Unit {0})) (c : InnerClient R)
      → HasSent w id c (m c)
      → (frames : List Message) × AtMostOne w id frames × (attempt m c ≡ (ok tt, sent_all frames c))
  unfolding attempt
  attempt-HasSent w id m c (calm, (frames, one, e)) =
      (frames, one, attempt_sent (m c).0 c (m c).1 frames calm e)

  -- An operation that succeeds goes on with what it gives.
  pub bind_ok :
      {A B : Type 0} (m : C R A) (f : A → C R B) (c d : InnerClient R) (a : A)
      → m c ≡ (ok a, d)
      → (m >>= f) c ≡ f a d
  unfolding ◌>>=◌
  bind_ok {A} {B} m f c d a e =
      ap
        (λ (r : Outcome A × InnerClient R). elim r.0 as (λ _. Outcome B × InnerClient R) [
          | ok a ↦ f a r.1
          | err e ↦ (err e, r.1)
          | panicked ↦ (panicked, r.1)
        ])
        e
