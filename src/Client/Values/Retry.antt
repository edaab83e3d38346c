-- ===== src/Client/Values/Retry.antt =====
-- What comes of the time when the math of client/inner.rs fails for an answer of the server.
use mathlib.Core.Option
use frclib_nettables.Base.{
  ℕ, ◌+◌, ◌^◌, ◌≤◌, ◌<◌, ◌≡◌, refl, sym, subst, ap, ◌∙◌, Option, none, some, Option-cases,
  Bool-cases, arith, inl, inr,
}
use frclib_nettables.Base.Int.{pos, negsuc}
use frclib_nettables.Base.Map.{lookup}
use frclib_nettables.Client.Receive.{int_key}
use frclib_nettables.Client.Clock.{
  handle_new_timestamp, checked_sub-fails, as_u64-small, new_offset, client_time,
}
use frclib_nettables.Client.Sending.{
  ClientWire, UnsignedIntOrNegativeOne, negative_one, update_time, publish_value_w_timestamp,
  check_task_panic, into_socket, send_message,
}
use frclib_nettables.Client.State.{InnerClient, C, attempt, modify, encoded, expected, ◌>>=◌}
use frclib_nettables.Client.Values.{Readings, Instants, handle_time, after_math, after_failure}
use frclib_nettables.Spec.Error.{Outcome, ok, err, panicked, NetworkTablesError}
use frclib_nettables.Spec.Extensions.{FrcType}
use frclib_nettables.Spec.Wire.{Message}

module _ {R : Type 0} where
  -- The clock is as it was.
  abbrev pub SameClock : InnerClient R → InnerClient R → Type 0
  SameClock c d =
      (d.server_time_offset ≡ c.server_time_offset) × (d.start_instant ≡ c.start_instant)

  SameClock-trans : (b c d : InnerClient R) → SameClock b c → SameClock c d → SameClock b d
  SameClock-trans b c d (p, q) (r, s) = (r ∙ p, s ∙ q)

  abbrev pub Keeping : {B : Type 0} → InnerClient R → Outcome B × InnerClient R → Type 0
  Keeping c r = SameClock c r.1

  elim-Keeping :
      {A B : Type 0} (r : Outcome A) (c d : InnerClient R) (f : A → C R B)
      → SameClock c d
      → ((a : A) → Keeping d (f a d))
      → Keeping {B = B} c (elim r [ ok a ↦ f a d | err e ↦ (err e, d) | panicked ↦ (panicked, d) ])
  elim-Keeping (ok a) c d f h k = SameClock-trans c d (f a d).1 h (k a)
  elim-Keeping (err e) c d f h k = h
  elim-Keeping panicked c d f h k = h

  bind-Keeping :
      {A B : Type 0} (m : C R A) (f : A → C R B) (c : InnerClient R)
      → Keeping c (m c)
      → ((a : A) (d : InnerClient R) → SameClock c d → Keeping d (f a d))
      → Keeping c ((m >>= f) c)
  unfolding ◌>>=◌
  bind-Keeping m f c h k = elim-Keeping (m c).0 c (m c).1 f h (λ a. k a (m c).1 h)

  encoded-Keeping :
      {A : Type 0} (o : Option A) (e : NetworkTablesError) (c : InnerClient R)
      → Keeping c (encoded o e c)
  encoded-Keeping none e c = (refl, refl)
  encoded-Keeping (some a) e c = (refl, refl)

  expected-Keeping : {A : Type 0} (o : Option A) (c : InnerClient R) → Keeping c (expected o c)
  expected-Keeping none c = (refl, refl)
  expected-Keeping (some a) c = (refl, refl)

  check_task_panic-Keeping : (c : InnerClient R) → Keeping c (check_task_panic c)
  unfolding check_task_panic
  check_task_panic-Keeping c = elim (Option-cases c.socket.left) [
    | inl e ↦ rw (e, check_task_panic) (refl, refl)
    | inr (x, e) ↦ rw (e, check_task_panic) (refl, refl)
  ]

  into_socket-Keeping : (message : Message) (c : InnerClient R) → Keeping c (into_socket message c)
  unfolding into_socket
  into_socket-Keeping message c = elim (Bool-cases c.socket.ended) [
    | inl e ↦ rw (e, into_socket) (refl, refl)
    | inr e ↦ rw (e, into_socket) (refl, refl)
  ]

  send_message-Keeping :
      (message : Message) (c : InnerClient R) → Keeping c (send_message message c)
  unfolding send_message
  send_message-Keeping message c =
      bind-Keeping check_task_panic (λ _. into_socket message) c (check_task_panic-Keeping c)
        λ _ d _. into_socket-Keeping message d

  attempt_step :
      {A : Type 0} (r : Outcome A) (c d : InnerClient R)
      → SameClock c d
      → Keeping {B = Unit {0}} c
          (elim r [ ok a ↦ (ok tt, d) | err e ↦ (ok tt, d) | panicked ↦ (panicked, d) ])
  attempt_step (ok a) c d h = h
  attempt_step (err e) c d h = h
  attempt_step panicked c d h = h

  attempt-Keeping :
      {A : Type 0} (m : C R A) (c : InnerClient R) → Keeping c (m c) → Keeping c (attempt m c)
  unfolding attempt
  attempt-Keeping m c h = attempt_step (m c).0 c (m c).1 h

  module _ (w : ClientWire R) where
    publish_value-Keeping :
        (id : UnsignedIntOrNegativeOne) (type : FrcType) (timestamp : ℕ) (value : R)
        (c : InnerClient R)
        → Keeping c (publish_value_w_timestamp w id type timestamp value c)
    unfolding publish_value_w_timestamp
    publish_value-Keeping id type timestamp value c =
        bind-Keeping _ _ c (check_task_panic-Keeping c) λ _ c _.
          bind-Keeping _ _ c (encoded-Keeping _ _ c) λ _ c _.
            bind-Keeping _ _ c (expected-Keeping _ c) λ _ c _.
              bind-Keeping _ _ c (encoded-Keeping _ _ c) λ _ c _.
                bind-Keeping _ _ c (encoded-Keeping _ _ c) λ _ c _.
                  bind-Keeping _ _ c (encoded-Keeping _ _ c) λ _ c _. send_message-Keeping _ c

    update_time-Keeping : (now : ℕ) (c : InnerClient R) → Keeping c (update_time w now c)
    unfolding update_time ◌>>=◌
    update_time-Keeping now c = elim (Option-cases (lookup (negsuc 0) c.announced_topics)) [
      | inl e ↦ rw (e, update_time) (refl, refl)
      | inr (topic, e) ↦
          rw (e, update_time)
            (publish_value-Keeping negative_one (w.type_of topic.type) 0
              (w.integer (client_time now c)) c)
    ]

  -- An answer to a request that was sent later than the client's clock says is not understood.
  handle_again :
      (now timestamp sent : ℕ) (c : InnerClient R)
      → client_time now c < sent
      → sent < 2 ^ 63
      → handle_new_timestamp now timestamp (some (pos sent)) c ≡ (none, c)
  unfolding handle_new_timestamp new_offset Option.bind
  handle_again now timestamp sent c late small =
      rw
        (
          handle_new_timestamp,
          as_u64-small sent small,
          checked_sub-fails (client_time now c) sent late,
        )
        refl

  -- Where the math fails, the clock of the client starts again, and the request was sent at a time
  -- that the new clock has not reached yet. Then the second try fails as well: the offset stays as
  -- it was, and the client's time has fallen back to the instant at which the clock was set.
  pub handle_time-stuck :
      (w : ClientWire R) (readings : Readings R) (t : Instants) (timestamp sent : ℕ)
      (c : InnerClient R)
      → handle_new_timestamp t.received timestamp (some (pos sent)) c ≡ (none, c)
      → t.handled_again < t.set_again + sent
      → sent < 2 ^ 63
      → t.set_again ≤ t.handled_again
      → let d = (handle_time w readings t timestamp (some (pos sent)) c).1 in
        (d.server_time_offset ≡ c.server_time_offset) × (d.start_instant ≡ t.set_again)
  unfolding handle_time after_math after_failure ◌>>=◌ client_time
  handle_time-stuck w readings t timestamp sent c failed early small order =
      subst (λ r. Keeping (clock_set c) (after_math w readings t timestamp (some (pos sent)) r))
        (sym failed) (retried c)
    where
      clock_set : InnerClient R → InnerClient R
      clock_set c = record c { start_instant = t.set_again }

      again :
          (d : InnerClient R)
          → d.start_instant ≡ t.set_again
          → handle_new_timestamp t.handled_again timestamp (some (pos sent)) d ≡ (none, d)
      again d e =
          handle_again t.handled_again timestamp sent d (omega (arith, e, early, order)) small

      retried :
          (c : InnerClient R)
          → Keeping (clock_set c) (after_failure w readings t timestamp (some (pos sent)) c)
      retried c =
          bind-Keeping (attempt (update_time w t.set_again))
            (λ _.
              modify (λ c. (handle_new_timestamp t.handled_again timestamp (some (pos sent)) c).1))
            (clock_set c)
            (attempt-Keeping (update_time w t.set_again) (clock_set c)
              (update_time-Keeping w t.set_again (clock_set c)))
            λ _ d (same, e).
              let f = ap (λ r. r.1) (again d e) in
              (ap (λ x. x.server_time_offset) f, ap (λ x. x.start_instant) f)
