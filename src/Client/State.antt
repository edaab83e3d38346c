-- ===== src/Client/State.antt =====
-- `InnerClient` of client/inner.rs. An instant is a whole number of microseconds. An operation is a
-- function from state to state; what was written stays written when it fails.
use frclib_nettables.Base.{ℕ, Bool, false, Option, none, some, List, []}
use frclib_nettables.Base.Int.{ℤ}
use frclib_nettables.Base.Map.{Map}
use frclib_nettables.Base.Text.{Text}
use frclib_nettables.Spec.Error.{Outcome, ok, err, panicked, NetworkTablesError}
use frclib_nettables.Spec.Extensions.{FrcType}
use frclib_nettables.Spec.Subscription.{InternalSub}
use frclib_nettables.Spec.Topic.{Topic, PublishedTopic}
use frclib_nettables.Spec.Wire.{Message}

-- A value as it goes to the user.
pub record MessageData (R : Type 0) : Type 0 where
  pub topic_name : Text
  pub timestamp : ℕ
  pub type : FrcType
  pub data_value : R

-- A subscription with the channel to its stream: what waits there, and how much may.
pub record HeldSub (R : Type 0) : Type 0 where
  pub sub : InternalSub
  pub queue : List (MessageData R)
  pub capacity : ℕ
  pub closed : Bool

-- The client's ends of the channels to the task of its socket: the frames sent to it, whether the
-- task has ended, and the error that it left.
pub record Socket : Type 0 where
  pub sent : List Message
  pub ended : Bool
  pub left : Option NetworkTablesError

pub record InnerClient (R : Type 0) : Type 0 where
  pub announced_topics : Map ℤ Topic
  pub subscriptions : Map ℤ (HeldSub R)
  pub client_published_topics : Map ℕ PublishedTopic
  pub socket : Socket
  pub topic_counter : ℕ
  pub sub_counter : ℕ
  pub server_time_offset : ℕ
  pub start_instant : ℕ
  pub start_time : ℕ

-- The client that `start` makes at an instant, before it connects.
unfoldable pub start : {R : Type 0} → ℕ → ℕ → InnerClient R
start now start_time = record {
  announced_topics = [];
  subscriptions = [];
  client_published_topics = [];
  socket = record { sent = []; ended = false; left = none };
  topic_counter = 0;
  sub_counter = 0;
  server_time_offset = 0;
  start_instant = now;
  start_time = start_time;
}

abbrev pub C : Type 0 → Type 0 → Type 0
C R A = InnerClient R → Outcome A × InnerClient R

module _ {R A : Type 0} where
  abbrev pub pure : A → C R A
  pure a c = (ok a, c)

  -- `?` on the result of an encoder, and `unwrap` of one.
  abbrev pub encoded : Option A → NetworkTablesError → C R A
  encoded none e c = (err e, c)
  encoded (some a) e c = (ok a, c)

  abbrev pub expected : Option A → C R A
  expected none c = (panicked, c)
  expected (some a) c = (ok a, c)

  abbrev pub gets : (InnerClient R → A) → C R A
  gets f c = (ok (f c), c)

  -- `.ok()`: an error is dropped.
  unfoldable pub attempt : C R A → C R (Unit {0})
  attempt m c =
      let (r, c') = m c in
      elim r [ ok a ↦ (ok tt, c') | err e ↦ (ok tt, c') | panicked ↦ (panicked, c') ]

abbrev pub modify : {R : Type 0} → (InnerClient R → InnerClient R) → C R (Unit {0})
modify f c = (ok tt, f c)

infixl 5 ◌>>=◌ ◌>>◌
unfoldable pub ◌>>=◌ : {R A B : Type 0} → C R A → (A → C R B) → C R B
◌>>=◌ m f c =
    let (r, c') = m c in elim r [ ok a ↦ f a c' | err e ↦ (err e, c') | panicked ↦ (panicked, c') ]

abbrev pub ◌>>◌ : {R B : Type 0} → C R (Unit {0}) → C R B → C R B
m >> k = m >>= λ _. k
