-- ===== src/Kernel/Scheduler/Tests.antt =====
-- A scheduler with three actions.
use compilableworld_runtime.Base.{◌+◌, [], ◌∷◌, ◌≡◌, refl, arith}
use compilableworld_runtime.Base.Int.{pos, pos_part}
use compilableworld_runtime.Kernel.Scheduler.{Scheduler, schedule, remove, restore, advance}
use compilableworld_runtime.Kernel.Scheduler.Order.{IsValid, IsSplit, restore-remove, advance_exact}
use compilableworld_runtime.Kernel.Scheduler.Queue.{IsScheduled, schedule-IsScheduled}

abbrev three : Scheduler
three = record {
  tick = 4;
  counter = 3;
  queue =
      record { due_tick = 5; order = 2; action_id = "b" }
      ∷ record { due_tick = 5; order = 3; action_id = "c" }
      ∷ record { due_tick = 9; order = 1; action_id = "a" }
      ∷ [];
}

three-IsValid : IsValid three
three-IsValid = omega arith

schedule-IsScheduled_example : IsScheduled "d" (pos 1) three (schedule "d" (pos 1) three)
schedule-IsScheduled_example = schedule-IsScheduled "d" (pos 1) three three-IsValid

restore-remove_example :
    restore (record { due_tick = 5; order = 3; action_id = "c" }) (remove "c" three).1 ≡ three
unfolding remove
restore-remove_example =
    restore-remove "c" three (record { due_tick = 5; order = 3; action_id = "c" }) three-IsValid
      refl

advance_exact_example :
    IsSplit
      (4 + pos_part (pos 1))
      three.queue
      ((advance (pos 1) three).0, (advance (pos 1) three).1.queue)
    × ((advance (pos 1) three).1.tick ≡ 4 + pos_part (pos 1))
    × IsValid (advance (pos 1) three).1
advance_exact_example = advance_exact (pos 1) three three-IsValid
