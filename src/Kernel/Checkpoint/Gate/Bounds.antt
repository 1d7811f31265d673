-- ===== src/Kernel/Checkpoint/Gate/Bounds.antt =====
-- kernel.py: how often and how long a phase whose condition fails is tried again.
use compilableworld_runtime.Base.{arith, ℕ, ◌+◌, ◌≤◌, suc, String, ◌≡◌, ◌∙◌, ap, Option, none, some}
use compilableworld_runtime.Kernel.Behavior.{RetryPolicy, retry_attempt_limit}
use compilableworld_runtime.Kernel.World.{Phase, RetryState}
use compilableworld_runtime.Kernel.Conditions.{bounded_action_retry_policy}
use compilableworld_runtime.Kernel.Checkpoint.{next_retry}
use compilableworld_runtime.Kernel.Checkpoint.Gate.{again, gate_of}

-- The retries of a phase, one after another: their number, the tick of the first failure, the policy,
-- and the state after the last.
pub data Retries (next : Phase) : ℕ → ℕ → RetryPolicy → RetryState → Type 0 where
  first :
      (tick : ℕ) (condition_id : String) (p : RetryPolicy) (s : RetryState)
      → gate_of next tick condition_id none ≡ again p s
      → Retries next 1 tick p s
  later :
      (n start tick : ℕ) (condition_id : String) (p q : RetryPolicy) (r s : RetryState)
      → Retries next n start q r
      → gate_of next tick condition_id (some r) ≡ again p s
      → Retries next (suc n) start p s

-- What a gate that lets an action try again says of the policy and the new state.
pub record Again (next : Phase) (tick : ℕ) (condition_id : String) (previous : Option RetryState)
    (p : RetryPolicy) (s : RetryState) : Type 0 where
  pub policy : next.retry ≡ some p
  pub state : s ≡ next_retry tick condition_id p previous
  pub few : s.attempts ≤ p.max_attempts
  pub attempts_bounded : p.max_attempts ≤ retry_attempt_limit
  pub in_time : s.next_retry_tick ≤ s.timeout_at_tick
  pub waits : 1 ≤ p.interval_ticks

gate_of-Again :
    (next : Phase) (tick : ℕ) (condition_id : String) (previous : Option RetryState)
    (p : RetryPolicy) (s : RetryState)
    → gate_of next tick condition_id previous ≡ again p s
    → Again next tick condition_id previous p s
unfolding gate_of bounded_action_retry_policy
gate_of-Again next tick condition_id previous p s h = record {
  policy = ground arith;
  state = ground arith;
  few = ground arith;
  attempts_bounded = ground arith;
  in_time = ground arith;
  waits = ground arith;
}

Retries-attempts :
    (next : Phase) (n start : ℕ) (p : RetryPolicy) (s : RetryState)
    → Retries next n start p s
    → s.attempts ≡ n
Retries-attempts next _ _ _ _ (first tick c p s h) =
    let g = gate_of-Again next tick c none p s h in ap (λ (x : RetryState). x.attempts) g.state
Retries-attempts next _ _ _ _ (later n start tick c p q r s before h) =
    let g = gate_of-Again next tick c (some r) p s h in
    let e = Retries-attempts next n start q r before in
    ap (λ (x : RetryState). x.attempts) g.state ∙ omega (arith, e)

-- However often the action is tried again, the first failure stays the first.
Retries-start :
    (next : Phase) (n start : ℕ) (p : RetryPolicy) (s : RetryState)
    → Retries next n start p s
    → s.first_failure_tick ≡ start
Retries-start next _ _ _ _ (first tick c p s h) =
    let g = gate_of-Again next tick c none p s h in
    ap (λ (x : RetryState). x.first_failure_tick) g.state
Retries-start next _ _ _ _ (later n start tick c p q r s before h) =
    let g = gate_of-Again next tick c (some r) p s h in
    ap (λ (x : RetryState). x.first_failure_tick) g.state ∙ Retries-start next n start q r before

Again-in_time :
    (next : Phase) (tick : ℕ) (condition_id : String) (previous : Option RetryState)
    (p : RetryPolicy) (s : RetryState)
    → Again next tick condition_id previous p s
    → s.next_retry_tick ≤ s.first_failure_tick + p.timeout_ticks
Again-in_time next tick c previous p s g =
    let since = ap (λ (x : RetryState). x.first_failure_tick) g.state in
    let until = ap (λ (x : RetryState). x.timeout_at_tick) g.state in
    omega (arith, g.in_time, since, until)

Again-retries :
    (next : Phase) (n start tick : ℕ) (condition_id : String) (previous : Option RetryState)
    (p : RetryPolicy) (s : RetryState)
    → Again next tick condition_id previous p s
    → s.attempts ≡ n
    → s.first_failure_tick ≡ start
    → (next.retry ≡ some p)
      × (s.attempts ≡ n)
      × (n ≤ p.max_attempts)
      × (p.max_attempts ≤ retry_attempt_limit)
      × (s.next_retry_tick ≤ start + p.timeout_ticks)
Again-retries next n start tick c previous p s g e since = (
  g.policy,
  e,
  omega (arith, g.few, e),
  g.attempts_bounded,
  omega (arith, Again-in_time next tick c previous p s g, since),
)

-- Of the retries of a phase that follow one another, whatever the ticks and the conditions that
-- failed: there are at most as many as the policy's `max_attempts`, which is at most 16; the last one's
-- count is their number; and it is due no later than the policy's `timeout_ticks` after the tick of the
-- first failure of them all.
pub retries_end :
    (next : Phase) (n start : ℕ) (p : RetryPolicy) (s : RetryState)
    → Retries next n start p s
    → (next.retry ≡ some p)
      × (s.attempts ≡ n)
      × (n ≤ p.max_attempts)
      × (p.max_attempts ≤ retry_attempt_limit)
      × (s.next_retry_tick ≤ start + p.timeout_ticks)
retries_end next _ _ _ _ (first tick c p s h) =
    Again-retries next 1 tick tick c none p s (gate_of-Again next tick c none p s h)
      (Retries-attempts next 1 tick p s (first tick c p s h))
      (Retries-start next 1 tick p s (first tick c p s h))
retries_end next _ _ _ _ (later n start tick c p q r s before h) =
    Again-retries next (suc n) start tick c (some r) p s (gate_of-Again next tick c (some r) p s h)
      (Retries-attempts next (suc n) start p s (later n start tick c p q r s before h))
      (Retries-start next (suc n) start p s (later n start tick c p q r s before h))
