-- ===== src/Kernel/Execution/Receipts.antt =====
-- kernel.py: a receipt that `_fail` returns says that the action failed.
use compilableworld_runtime.Base.{
  ℕ, String, Bool, ◌≡◌, ◌++◌, refl, Option, List, [], ◌∷◌, Outcome, ok, err,
}
use compilableworld_runtime.Base.Exec.{continue, pure, ◌>>=◌}
use compilableworld_runtime.Kernel.Value.{KernelError}
use compilableworld_runtime.Kernel.Models.{
  ActionIr, EventIr, TransitionResult, ActionReceipt, failed,
}
use compilableworld_runtime.Kernel.World.{Behavior, World, Op, append_batch, emit, mark, bump}
use compilableworld_runtime.Kernel.Runtime.{action_behavior}
use compilableworld_runtime.Kernel.Execution.{
  fail, fail_with, boundary_event, kernel_event, failed_payload, when_started, receipt,
  drop_runtime,
}

abbrev pub IsFailed : Outcome KernelError ActionReceipt → Type 0
IsFailed (ok r) = r.status ≡ failed
IsFailed (err e) = Unit

IsFailed-continue :
    {A : Type 0} (o : Outcome KernelError A) (f : A → Op ActionReceipt) (w : World)
    → ((x : A) (v : World) → IsFailed (f x v).0)
    → IsFailed (continue o f w).0
IsFailed-continue (ok x) f w h = h x w
IsFailed-continue (err e) f w h = tt

module _ (fnmatch : String → String → Bool) (callback : String → EventIr → Op (Unit {0}))
    (evaluate : String → ActionIr → World → Outcome KernelError TransitionResult)
    (new_id : ℕ → String) (message_of : KernelError → String) where
  fail_with-IsFailed :
      (a : ActionIr) (message : String) (es : List EventIr) (o : Outcome KernelError (Unit {0}))
      (w : World)
      → IsFailed (fail_with fnmatch callback evaluate new_id message_of a message es o w).0
  unfolding fail_with
  fail_with-IsFailed a message es (err e) w = tt
  fail_with-IsFailed a message es (ok u) w =
      let sent = emit fnmatch callback es (drop_runtime a.action_id w) in
      IsFailed-continue sent.0 (λ _. pure (receipt a.action_id failed message es [])) sent.1
        (λ _ _. refl)

  pub fail-IsFailed :
      (a : ActionIr) (message : String) (started : Bool) (w : World)
      → IsFailed (fail fnmatch callback evaluate new_id message_of a message started w).0
  unfolding fail
  fail-IsFailed a message started w =
      let w2 : World = bump "actions_failed" (mark a.action_id failed w) in
      let b : Option Behavior = action_behavior a.verb w2 in
      let begun = boundary_event new_id "action.started" a (when_started started b) w2 in
      IsFailed-continue begun.0
        (λ es.
          kernel_event new_id "action.failed" a "kernel" "private" (failed_payload a message b)
          >>= λ event v.
              let logged = append_batch (es ++ (event ∷ [])) v in
              fail_with fnmatch callback evaluate new_id message_of a message (es ++ (event ∷ []))
                logged.0 logged.1)
        begun.1 (λ es v. fail_with-IsFailed a message _ _ _)
