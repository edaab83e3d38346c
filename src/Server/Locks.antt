-- ===== src/Server/Locks.antt =====
-- The mutexes of `InnerServer` in server/inner.rs, in what order the operations there and the tasks
-- of server/runner.rs take them, and how such tasks run interleaved. `lock!` waits until nobody
-- holds the mutex, the caller included. A guard is released by `drop`, at the end of its statement
-- where it has no name, and at the latest when the function returns, which it may do early.
pub mod Operations
pub mod Progress
pub mod Order
pub mod Deadlock
use mathlib.Core.Option
use frclib_nettables.Base.{
  ℕ, zero, suc, ◌≡◌, Bool, true, false, not, Option, none, some, List, [], ◌∷◌, ◌++◌, any, retain,
  ◌==◌, if◌then◌else◌,
}

-- A mutex stands for its place in the order in which `subscribe` and `connect_client` take them.
abbrev pub Mutex : Type 0
Mutex = ℕ

abbrev pub clients : Mutex
clients = 0

abbrev pub topic_map : Mutex
topic_map = 1

abbrev pub topic_sub_map : Mutex
topic_sub_map = 2

abbrev pub topic_value_map : Mutex
topic_value_map = 3

abbrev pub topics : Mutex
topics = 4

abbrev pub pub_count : Mutex
pub_count = 5

abbrev pub counters : Mutex
counters = 6

abbrev pub client_map : Mutex
client_map = 7

abbrev pub metatopic_value_map : Mutex
metatopic_value_map = 8

abbrev pub client_metatopic_map : Mutex
client_metatopic_map = 9

abbrev pub sub_send_timestamps : Mutex
sub_send_timestamps = 10

abbrev pub sub_values : Mutex
sub_values = 11

abbrev pub subscriptions : Mutex
subscriptions = 12

abbrev pub mutexes : ℕ
mutexes = 13

pub data Action : Type 0 where
  acquire : Mutex → Action
  release : Mutex → Action
  returns : Action

-- A guard that lives for one statement.
abbrev pub briefly : Mutex → List Action → List Action
briefly m rest = acquire m ∷ release m ∷ rest

pub record Task : Type 0 where
  pub held : List Mutex
  pub rest : List Action

unfoldable pub holds : Mutex → Task → Bool
holds m t = any (λ k. k == m) t.held

unfoldable pub is_taken : Mutex → List Task → Bool
unfolding holds
is_taken m ts = any (holds m) ts

-- What a task that holds `held` does next, beside the tasks `ts`; `none` if it waits or is done.
unfoldable pub advance_by : List Task → List Mutex → List Action → Option Task
unfolding is_taken
advance_by ts held [] = none
advance_by ts held (acquire m ∷ rest) =
    if is_taken m ts then none else some (record { held = m ∷ held; rest = rest })
advance_by ts held (release m ∷ rest) =
    some (record { held = retain (λ k. not (k == m)) held; rest = rest })
advance_by ts held (returns ∷ rest) = some (record { held = []; rest = rest })

abbrev pub advance : List Task → Task → Option Task
advance ts t = advance_by ts t.held t.rest

-- The task at a place in the list takes its next action.
unfoldable pub run_at : List Task → ℕ → List Task → Option (List Task)
run_at all i [] = none
run_at all zero (t ∷ ts) = Option.map (λ u. u ∷ ts) (advance all t)
run_at all (suc i) (t ∷ ts) = Option.map (λ us. t ∷ us) (run_at all i ts)

-- The states that tasks go through, in any order.
pub data Reach (ts : List Task) : List Task → Type 0 where
  here : Reach ts ts
  later : {us vs : List Task} (i : ℕ) → Reach ts us → run_at us i us ≡ some vs → Reach ts vs

-- An operation that returns after so many of its actions, if it has more.
unfoldable pub cut : ℕ → List Action → List Action
cut zero actions = returns ∷ []
cut (suc k) [] = []
cut (suc k) (a ∷ actions) = a ∷ cut k actions

abbrev pub task_of : List Action → Task
task_of actions = record { held = []; rest = actions }
