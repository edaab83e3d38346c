-- ===== src/Tests/Tasks.antt =====
-- Tasks that take the mutexes, at concrete inputs.
use frclib_nettables.Base.{true, false, ℕ, refl, [], ◌∷◌, List}
use frclib_nettables.Server.Locks.{topics, Task, is_taken, Reach, here, clients, sub_values}
use frclib_nettables.Server.Locks.Operations.{
  publish_again, Operation, connect_client, subscribe, send_out,
}
use frclib_nettables.Server.Locks.Deadlock.{
  subscribing, beside, StaysTaken, send_out-deadlock, publish_again-deadlock,
}
use frclib_nettables.Server.Locks.Order.{tasks_of, locks_of-finish}
use frclib_nettables.Server.Locks.Progress.{AreDone}

-- A client subscribes while another one connects, and the second one returns early.
abbrev both : List (Operation × ℕ)
both = (subscribe, 30) ∷ (connect_client true false, 6) ∷ []

locks_of-finish_example : (vs : List Task) × Reach (tasks_of both) vs × AreDone vs
locks_of-finish_example = locks_of-finish both (tasks_of both) (refl, (refl, tt)) here

send_out-deadlock_example :
    (us : List Task) × Reach (beside subscribe send_out []) us × StaysTaken clients sub_values us
unfolding is_taken
send_out-deadlock_example = send_out-deadlock subscribe [] subscribing refl refl refl

publish_again-deadlock_example :
    (us : List Task) × Reach (beside publish_again subscribe []) us × StaysTaken topics clients us
unfolding is_taken
publish_again-deadlock_example = publish_again-deadlock [] refl refl refl
