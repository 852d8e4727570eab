-- ===== src/Samples/Switches.antt =====
-- The theorems about kernel/src/scheduler/task.rs and context.rs at concrete inputs.
use dbsos.Common.{ℕ, ◌<◌, ◌≡◌, refl, ◌⊎◌, some, arith, find_from}
use dbsos.Kernel.{Kernel}
use dbsos.Scheduler.Switch.{reschedule, find_ready, switch}
use dbsos.Scheduler.Fair.{IsScheduled, IsReady, distance, reschedule_nearer}
use dbsos.Samples.{started}

abbrev no_memory : ℕ → ℕ
no_memory p = 0

started-IsScheduled : IsScheduled started
unfolding started
started-IsScheduled = record { inside = omega arith; alone = λ i r. ground arith }

-- The kernel task yields to the server.
abbrev yielded : Kernel
yielded = switch 100 1 (record started { tick_count = 1 })

reschedule_result : reschedule no_memory 100 started ≡ some (yielded, 4096)
unfolding started reschedule find_ready find_from
reschedule_result = refl

reschedule_nearer_example :
    (yielded.current ≡ 1) ⊎ (IsReady yielded 1 × (distance yielded 1 < distance started 1))
unfolding started
reschedule_nearer_example =
    reschedule_nearer no_memory 100 started 1 started-IsScheduled (omega arith) (omega arith) refl
      reschedule_result
