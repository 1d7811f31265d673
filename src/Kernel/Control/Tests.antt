-- ===== src/Kernel/Control/Tests.antt =====
-- Cancelling the action that waits in a small world, while the disk refuses to write.
use compilableworld_runtime.Base.{
  false, ◌≡◌, ◌∙◌, sym, ap, refl, [], ◌∷◌, Bool-cases, ◌==◌, string_eq, inl, inr, arith,
}
use compilableworld_runtime.Base.Dict.{lookup}
use compilableworld_runtime.Kernel.Models.{ActionIr, scheduled}
use compilableworld_runtime.Kernel.World.{World}
use compilableworld_runtime.Kernel.Control.{cancel_action}
use compilableworld_runtime.Kernel.Control.Rollback.{IsFiled, RolledBack, cancel-RolledBack}
use compilableworld_runtime.Kernel.Execution.Tests.{
  matches, no_callback, message, event_name, open_door, open_action, small_world,
}

abbrev full_disk : World
full_disk = record small_world { disk = false ∷ [] }

full_disk-IsFiled : IsFiled full_disk
unfolding lookup
full_disk-IsFiled id a h = elim (Bool-cases ("action_1" == id)) [
  | inl same ↦
      let e : record open_action { status = scheduled } ≡ a = cc (rw same at h) in
      ap (λ (x : ActionIr). x.action_id) (sym e) ∙ (string_eq.beq_iff "action_1" id).0 same
  | inr other ↦ cc (rw other at h)
]

cancel-RolledBack_example :
    RolledBack full_disk
      (cancel_action matches no_callback open_door event_name message "hero" "action_1" full_disk)
cancel-RolledBack_example =
    cancel-RolledBack matches no_callback open_door event_name message "hero" "action_1" full_disk
      refl (omega arith) full_disk-IsFiled
