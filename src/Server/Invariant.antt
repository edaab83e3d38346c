-- ===== src/Server/Invariant.antt =====
-- The invariant of the maps of `InnerServer` in server/inner.rs.
pub mod Register
pub mod Removal
pub mod Stores
pub mod Subscriptions
use frclib_nettables.Base.{ℕ, ◌<◌, ◌≡◌, ◌≢◌, Option, none, some, List, In}
use frclib_nettables.Base.Map.{Map, nat_key, lookup}
use frclib_nettables.Base.Text.{Text}
use frclib_nettables.Server.State.{InnerServer}
use frclib_nettables.Server.Util.{StoredSubValue}
use frclib_nettables.Spec.Subscription.{Subscription}
use frclib_nettables.Spec.Topic.{Topic}

-- `next` is the next index of a topic.
pub record Wf {V : Type 0} (next : ℕ) (topics : Map ℕ Topic) (topic_map : Map Text ℕ)
    (topic_sub_map : Map ℕ (List ℕ)) (subscriptions : Map ℕ (Subscription × ℕ))
    (sub_values : Map ℕ (StoredSubValue V)) (stamps : Map ℕ ℕ) : Type 0 where
  -- A name leads to the topic of that name.
  pub name_of :
      (i : ℕ) (n : Text) (t : Topic) → In (n, i) topic_map → lookup i topics ≡ some t → t.name ≡ n
  -- No two names lead to one topic.
  pub named_once : (i : ℕ) (n m : Text) → In (n, i) topic_map → In (m, i) topic_map → n ≡ m
  -- Every index in use has been given out.
  pub mapped_fresh : (i : ℕ) (n : Text) → In (n, i) topic_map → i < next
  pub topics_fresh : (i : ℕ) (t : Topic) → lookup i topics ≡ some t → i < next
  -- Every topic and every name has its list of subscriptions.
  pub mapped_subs : (i : ℕ) (n : Text) → In (n, i) topic_map → lookup i topic_sub_map ≢ none
  pub topics_subs : (i : ℕ) (t : Topic) → lookup i topics ≡ some t → lookup i topic_sub_map ≢ none
  -- Every subscription in such a list has a store of values.
  pub listed :
      (i j : ℕ) (subs : List ℕ)
      → In (i, subs) topic_sub_map
      → In j subs
      → lookup j sub_values ≢ none
  -- Every subscription has a store of values and the instant of its last frame.
  pub stored : (j : ℕ) (x : Subscription × ℕ) → In (j, x) subscriptions → lookup j sub_values ≢ none
  pub stamped : (j : ℕ) (x : Subscription × ℕ) → In (j, x) subscriptions → lookup j stamps ≢ none

abbrev pub IsWf : {V : Type 0} → InnerServer V → Type 0
IsWf s =
    Wf s.counters.topic_idx s.topics s.topic_map s.topic_sub_map s.subscriptions s.sub_values
      s.sub_send_timestamps
