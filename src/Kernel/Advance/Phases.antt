-- ===== src/Kernel/Advance/Phases.antt =====
-- kernel.py: the checkpoints of a sequence of phases write neither the log nor the counters.
use compilableworld_runtime.Base.{
  arith, ℕ, ◌+◌, String, Bool, ◌≡◌, refl, Option, some, List, [], ◌∷◌, ◌++◌, Outcome, string_eq,
  nat_eq,
}
use compilableworld_runtime.Base.Exec.{pure, ◌>>=◌}
use compilableworld_runtime.Kernel.Value.{KernelError}
use compilableworld_runtime.Kernel.Models.{ActionIr, EventIr, TransitionResult}
use compilableworld_runtime.Kernel.Scheduler.{Entry}
use compilableworld_runtime.Kernel.World.{Phase, Behavior, ActionRuntime, World, Op}
use compilableworld_runtime.Kernel.Checkpoint.{ensure_runtime}
use compilableworld_runtime.Kernel.Checkpoint.Gate.{
  ChildStep, stepped, child_failure, child_step, failed_decision, child_failed_decision,
}
use compilableworld_runtime.Kernel.Checkpoint.Phases.{
  Chosen, unresolved, chosen, choose, progressed, after_step, after_choice, decide_phase,
  decide_phases,
}
use compilableworld_runtime.Kernel.Advance.Frame.{logged_part, unlogged_bind}
use compilableworld_runtime.Kernel.Advance.Child.{child_step-unlogged, enter_phase-unlogged}

pub ensure_runtime-unlogged :
    (a : ActionIr) (b : Option Behavior) (w : World)
    → logged_part (ensure_runtime a b w).1 ≡ logged_part w
unfolding ensure_runtime
ensure_runtime-unlogged a b w = ground arith

module _ (fnmatch : String → String → Bool) (callback : String → EventIr → Op (Unit {0}))
    (evaluate : String → ActionIr → World → Outcome KernelError TransitionResult)
    (new_id : ℕ → String) (message_of : KernelError → String) (decimal : ℕ → String) where
  choose-unlogged :
      (a : ActionIr) (b : Behavior) (phase next : Phase) (r : ActionRuntime) (w : World)
      → logged_part
          (choose fnmatch callback evaluate new_id message_of decimal a b phase next r w).1
        ≡ logged_part w
  unfolding choose
  choose-unlogged a b phase next r w = ground arith

  after_step-unlogged :
      (a : ActionIr) (b : Behavior) (phase next : Phase) (entry : Entry) (index cumulative : ℕ)
      (events : List EventIr) (step : ChildStep) (w : World)
      → logged_part
          (after_step fnmatch callback evaluate new_id message_of decimal a b phase next entry index
            cumulative events step w).1
        ≡ logged_part w
  unfolding child_failed_decision failed_decision progressed
  after_step-unlogged a b phase next entry index cumulative events (child_failure spec r) w = refl
  after_step-unlogged a b phase next entry index cumulative events (stepped more) w =
      enter_phase-unlogged fnmatch callback evaluate new_id message_of decimal a b next entry
        (events ++ more)
        (progressed fnmatch callback evaluate new_id message_of decimal a b phase next entry index
          cumulative (events ++ more))
        w refl

  after_choice-unlogged :
      (a : ActionIr) (b : Behavior) (phase next : Phase) (entry : Entry) (index cumulative : ℕ)
      (c : Chosen) (w : World)
      → logged_part
          (after_choice fnmatch callback evaluate new_id message_of decimal a b phase next entry
            index cumulative c w).1
        ≡ logged_part w
  unfolding failed_decision
  after_choice-unlogged a b phase next entry index cumulative unresolved w = refl
  after_choice-unlogged a b phase next entry index cumulative (chosen spec events) w =
      unlogged_bind (child_step fnmatch callback evaluate new_id message_of decimal a b phase spec)
        (after_step fnmatch callback evaluate new_id message_of decimal a b phase next entry index
          cumulative events)
        w (child_step-unlogged fnmatch callback evaluate new_id message_of decimal a b phase spec w)
        (after_step-unlogged a b phase next entry index cumulative events)

  decide_phase-unlogged :
      (a : ActionIr) (b : Behavior) (phase next : Phase) (entry : Entry) (index cumulative : ℕ)
      (w : World)
      → logged_part
          (decide_phase fnmatch callback evaluate new_id message_of decimal a b phase next entry
            index cumulative w).1
        ≡ logged_part w
  unfolding decide_phase
  decide_phase-unlogged a b phase next entry index cumulative w =
      unlogged_bind (ensure_runtime a (some b))
        (λ r. choose fnmatch callback evaluate new_id message_of decimal a b phase next r >>= λ c.
          after_choice fnmatch callback evaluate new_id message_of decimal a b phase next entry
            index cumulative c)
        w (ensure_runtime-unlogged a (some b) w)
        (λ r v.
          unlogged_bind
            (choose fnmatch callback evaluate new_id message_of decimal a b phase next r)
            (after_choice fnmatch callback evaluate new_id message_of decimal a b phase next entry
              index cumulative)
            v (choose-unlogged a b phase next r v)
            (after_choice-unlogged a b phase next entry index cumulative))

  pub decide_phases-unlogged :
      (a : ActionIr) (b : Behavior) (entry : Entry) (index cumulative : ℕ) (phases : List Phase)
      (w : World)
      → logged_part
          (decide_phases fnmatch callback evaluate new_id message_of decimal a b entry index
            cumulative phases w).1
        ≡ logged_part w
  unfolding decide_phases
  decide_phases-unlogged a b entry index cumulative [] w = refl
  decide_phases-unlogged a b entry index cumulative (phase ∷ []) w = refl
  decide_phases-unlogged a b entry index cumulative (phase ∷ next ∷ rest) w =
      let reached : ℕ = cumulative + phase.duration_ticks in
      let others =
        decide_phases fnmatch callback evaluate new_id message_of decimal a b entry (index + 1)
          reached (next ∷ rest) in
      let later = decide_phases-unlogged a b entry (index + 1) reached (next ∷ rest) in
      let now =
        unlogged_bind
          (decide_phase fnmatch callback evaluate new_id message_of decimal a b phase next entry
            (index + 1) reached)
          (λ d. others >>= λ ds. pure (d ∷ ds)) w
          (decide_phase-unlogged a b phase next entry (index + 1) reached w)
          (λ d v. unlogged_bind others (λ ds. pure (d ∷ ds)) v (later v) (λ ds u. refl)) in
      ground (arith, now, later w)
