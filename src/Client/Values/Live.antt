-- ===== src/Client/Values/Live.antt =====
-- What values of the server do to the socket of a client of client/inner.rs.

use frclib_nettables.Base.{
  ℕ, zero, suc, ◌≡◌, ◌≢◌, refl, sym, subst, false, Option, none, some, List, [], ◌∷◌, ◌≤◌, ◌+◌,
  length, arith,
}
use frclib_nettables.Base.Int.{ℤ, pos, negsuc, as_i32, as_u32}
use frclib_nettables.Client.Clock.{handle_new_timestamp}
use frclib_nettables.Client.Receive.{int_key, handle_topic_value, send_value_to_subscriber}
use frclib_nettables.Client.Sending.{ClientWire, negative_one, write_to_buf, update_time}
use frclib_nettables.Client.Sending.Live.{
  sent_one, IsLive, sent_all, update_time-HasSent, attempt-HasSent, bind_ok,
}
use frclib_nettables.Client.State.{InnerClient, attempt, modify, ◌>>=◌}
use frclib_nettables.Client.Values.{
  Readings, Instants, after_failure, after_math, handle_time, handle_id, handle_read, handle_value,
}
use frclib_nettables.Spec.Error.{Outcome, ok}

module _ {R : Type 0} where
  -- An operation succeeds, leaves the task running, and sends so many frames at most.
  abbrev pub KeepsLive : ℕ → InnerClient R → Outcome (Unit {0}) × InnerClient R → Type 0
  KeepsLive k c r = (r.0 ≡ ok tt) × IsLive r.1 × (length r.1.socket.sent ≤ length c.socket.sent + k)

  pub same_socket : (c d : InnerClient R) → d.socket ≡ c.socket → IsLive c → IsLive d
  same_socket c d e live = subst (λ s. (s.ended ≡ false) × (s.left ≡ none)) (sym e) live

  pub socket-KeepsLive :
      (k : ℕ) (c d : InnerClient R) → d.socket ≡ c.socket → IsLive c → KeepsLive k c (ok tt, d)
  socket-KeepsLive k c d e live = (
    refl,
    same_socket c d e live,
    subst (λ s. length s.sent ≤ length c.socket.sent + k) (sym e) (omega arith),
  )

  handle_topic_value-socket :
      (id : ℤ) (timestamp : ℕ) (type : Option ℕ) (value : R) (c : InnerClient R)
      → (handle_topic_value id timestamp type value c).socket ≡ c.socket
  unfolding handle_topic_value send_value_to_subscriber
  handle_topic_value-socket id timestamp none value c = refl
  handle_topic_value-socket id timestamp (some type_idx) value c = ground arith

  handle_new_timestamp-socket :
      (now timestamp : ℕ) (sent : Option ℤ) (c : InnerClient R)
      → (handle_new_timestamp now timestamp sent c).1.socket ≡ c.socket
  unfolding handle_new_timestamp
  handle_new_timestamp-socket now timestamp none c = refl
  handle_new_timestamp-socket now timestamp (some sent) c = ground arith

  module _ (w : ClientWire R) (readings : Readings R)
      (writes : write_to_buf w negative_one ≢ none) where
    after_failure-live :
        (t : Instants) (timestamp : ℕ) (sent : Option ℤ) (c : InnerClient R)
        → IsLive c
        → KeepsLive 1 c (after_failure w readings t timestamp sent c)
    unfolding after_failure ◌>>=◌
    after_failure-live t timestamp sent c live =
        let d : InnerClient R = record c { start_instant = t.set_again } in
        let (frames, one, e) =
          attempt-HasSent w negative_one (update_time w t.set_again) d
            (update_time-HasSent w t.set_again d live writes) in
        let measured =
          (handle_new_timestamp t.handled_again timestamp sent (sent_all frames d)).1 in
        subst (KeepsLive 1 c) {x = (ok tt, measured)}
          (sym (
            bind_ok (attempt (update_time w t.set_again))
              (λ _. modify (λ c. (handle_new_timestamp t.handled_again timestamp sent c).1)) d
              (sent_all frames d) tt e))
          (
            refl,
            same_socket (sent_all frames d) measured
                (handle_new_timestamp-socket t.handled_again timestamp sent (sent_all frames d))
                live,
            subst (λ s. length s.sent ≤ length c.socket.sent + 1)
                (sym
                  (handle_new_timestamp-socket t.handled_again timestamp sent (sent_all frames d)))
                (sent_one w negative_one frames c.socket.sent one),
          )

    after_math-live :
        (t : Instants) (timestamp : ℕ) (sent : Option ℤ) (r : Option (Unit {0}) × InnerClient R)
        → IsLive r.1
        → KeepsLive 1 r.1 (after_math w readings t timestamp sent r)
    unfolding after_math
    after_math-live t timestamp sent (some done, c) live = (refl, live, omega arith)
    after_math-live t timestamp sent (none, c) live = after_failure-live t timestamp sent c live

    handle_time-live :
        (t : Instants) (timestamp : ℕ) (sent : Option ℤ) (c : InnerClient R)
        → IsLive c
        → KeepsLive 1 c (handle_time w readings t timestamp sent c)
    unfolding handle_time
    handle_time-live t timestamp sent c live =
        let e = handle_new_timestamp-socket t.received timestamp sent c in
        let h =
          after_math-live t timestamp sent (handle_new_timestamp t.received timestamp sent c)
            (same_socket c (handle_new_timestamp t.received timestamp sent c).1 e live) in
        (
          h.0,
          h.1,
          subst
              (λ s.
                length (handle_time w readings t timestamp sent c).1.socket.sent
                ≤ length s.sent + 1)
              e h.2,
        )

    handle_id-live :
        (t : Instants) (id : ℤ) (timestamp : ℕ) (type value : R) (c : InnerClient R)
        → IsLive c
        → KeepsLive 1 c (handle_id w readings t id timestamp type value c)
    unfolding handle_id
    handle_id-live t (pos id) timestamp type value c live =
        socket-KeepsLive 1 c (handle_topic_value (pos id) timestamp (readings.as_u64 type) value c)
          (handle_topic_value-socket (pos id) timestamp (readings.as_u64 type) value c) live
    handle_id-live t (negsuc zero) timestamp type value c live =
        handle_time-live t timestamp (readings.as_i64 value) c live
    handle_id-live t (negsuc (suc n)) timestamp type value c live = (refl, live, omega arith)

    handle_read-live :
        (t : Instants) (id : Option ℤ) (timestamp : Option ℕ) (type value : R) (c : InnerClient R)
        → IsLive c
        → KeepsLive 1 c (handle_read w readings t id timestamp type value c)
    unfolding handle_read
    handle_read-live t (some id) (some timestamp) type value c live =
        handle_id-live t (as_i32 (as_u32 id)) timestamp type value c live
    handle_read-live t (some id) none type value c live = (refl, live, omega arith)
    handle_read-live t none timestamp type value c live = (refl, live, omega arith)

    -- A value of the server, whatever it is, is handled without a failure.
    pub handle_value-live :
        (t : Instants) (array : List R) (c : InnerClient R)
        → IsLive c
        → KeepsLive 1 c (handle_value w readings t array c)
    unfolding handle_value
    handle_value-live t (id ∷ timestamp ∷ type ∷ value ∷ []) c live =
        handle_read-live t (readings.as_i64 id) (readings.as_u64 timestamp) type value c live
    handle_value-live t [] c live = (refl, live, omega arith)
    handle_value-live t (id ∷ []) c live = (refl, live, omega arith)
    handle_value-live t (id ∷ timestamp ∷ []) c live = (refl, live, omega arith)
    handle_value-live t (id ∷ timestamp ∷ type ∷ []) c live = (refl, live, omega arith)
    handle_value-live t (id ∷ timestamp ∷ type ∷ value ∷ more ∷ rest) c live =
        (refl, live, omega arith)
