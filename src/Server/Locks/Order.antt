-- ===== src/Server/Locks/Order.antt =====
-- The operations of server/inner.rs that take its mutexes in one order.

use frclib_nettables.Base.{ℕ, zero, suc, ◌≡◌, refl, Bool, true, false, List, [], ◌∷◌, All, arith}
use frclib_nettables.Server.Locks.{Action, acquire, release, returns, Task, Reach, cut, task_of}
use frclib_nettables.Server.Locks.Operations.{
  Operation, connect_client, subscribe, unsubscribe, set_properties, un_announce_topics,
  get_topic_idx, get_value, flush_client, set_value, receive_value, send_out, inner_publish_topic,
  publish_again, inner_unpublish_topic, disconnect_client, locks_of,
}
use frclib_nettables.Server.Locks.Progress.{
  IsOrderly, AreOrderly, AreDone, work, Reach-orderly, finishes,
}

-- The operations that keep to the order.
abbrev pub agrees : Operation → Bool
agrees set_value = false
agrees receive_value = false
agrees send_out = false
agrees inner_publish_topic = false
agrees publish_again = false
agrees inner_unpublish_topic = false
agrees disconnect_client = false
agrees _ = true

-- Tasks that run operations, each for so many of its actions at most.
abbrev pub tasks_of : List (Operation × ℕ) → List Task
tasks_of [] = []
tasks_of ((op, k) ∷ ops) = task_of (cut k (locks_of op)) ∷ tasks_of ops

cut-IsOrderly :
    (k : ℕ) (held : List ℕ) (actions : List Action)
    → IsOrderly held actions
    → IsOrderly held (cut k actions)
unfolding cut
cut-IsOrderly zero held actions orderly = refl
cut-IsOrderly (suc k) held [] orderly = orderly
cut-IsOrderly (suc k) held (acquire m ∷ rest) orderly =
    (orderly.0, orderly.1, cut-IsOrderly k (m ∷ held) rest orderly.2)
cut-IsOrderly (suc k) held (release m ∷ rest) orderly = cut-IsOrderly k _ rest orderly
cut-IsOrderly (suc k) held (returns ∷ rest) orderly = cut-IsOrderly k [] rest orderly

locks_of-IsOrderly : (op : Operation) → agrees op ≡ true → IsOrderly [] (locks_of op)
unfolding locks_of
locks_of-IsOrderly (connect_client true true) h = ground arith
locks_of-IsOrderly (connect_client true false) h = ground arith
locks_of-IsOrderly (connect_client false true) h = ground arith
locks_of-IsOrderly (connect_client false false) h = ground arith
locks_of-IsOrderly subscribe h = ground arith
locks_of-IsOrderly unsubscribe h = ground arith
locks_of-IsOrderly set_properties h = ground arith
locks_of-IsOrderly un_announce_topics h = ground arith
locks_of-IsOrderly get_topic_idx h = ground arith
locks_of-IsOrderly get_value h = ground arith
locks_of-IsOrderly flush_client h = ground arith
locks_of-IsOrderly set_value h = absurd (cc)
locks_of-IsOrderly receive_value h = absurd (cc)
locks_of-IsOrderly send_out h = absurd (cc)
locks_of-IsOrderly inner_publish_topic h = absurd (cc)
locks_of-IsOrderly publish_again h = absurd (cc)
locks_of-IsOrderly inner_unpublish_topic h = absurd (cc)
locks_of-IsOrderly disconnect_client h = absurd (cc)

tasks_of-orderly :
    (ops : List (Operation × ℕ)) → All (λ o. agrees o.0 ≡ true) ops → AreOrderly (tasks_of ops)
tasks_of-orderly [] h = tt
tasks_of-orderly ((op, k) ∷ ops) h =
    (cut-IsOrderly k [] (locks_of op) (locks_of-IsOrderly op h.0), tasks_of-orderly ops h.1)

-- Any number of tasks, each of which connects a client, flushes one, subscribes, unsubscribes, sets
-- properties, un-announces a topic or reads a value or an index, and each of which may return
-- early, can be run to the end, with no mutex held there, however they were interleaved before: the
-- mutexes alone stop none of them. Nothing is said of what else a task waits for, such as room in
-- the channel to a client.
pub locks_of-finish :
    (ops : List (Operation × ℕ)) (us : List Task)
    → All (λ o. agrees o.0 ≡ true) ops
    → Reach (tasks_of ops) us
    → (vs : List Task) × Reach us vs × AreDone vs
locks_of-finish ops us agree r =
    finishes (work us) us (omega arith)
      (Reach-orderly (tasks_of ops) us (tasks_of-orderly ops agree) r)
