-- ===== src/Kernel/Scheduler/Queue.antt =====
-- kernel.py: `Scheduler`. What `schedule` adds to the queue, and what `remove` takes from it.
use compilableworld_runtime.Base.{
  ◌+◌, ◌<◌, String, Option, none, some, List, [], ◌∷◌, ◌++◌, ◌≡◌, ◌≢◌, refl, ap, if_rule,
}
use compilableworld_runtime.Base.Lists.{All}
use compilableworld_runtime.Base.Int.{ℤ, pos_part}
use compilableworld_runtime.Kernel.Scheduler.{Entry, Scheduler, earlier, push, schedule}
use compilableworld_runtime.Kernel.Scheduler.Order.{IsValid, schedule-IsValid}

-- The list `ys` is `xs` with `e` put between two parts of it.
pub record IsPlaced (e : Entry) (xs ys : List Entry) : Type 0 where
  pub before : List Entry
  pub after : List Entry
  pub parts : xs ≡ before ++ after
  pub placed : ys ≡ before ++ (e ∷ after)

push-IsPlaced : (e : Entry) (xs : List Entry) → IsPlaced e xs (push e xs)
unfolding push
push-IsPlaced e [] = record { before = []; after = []; parts = refl; placed = refl }
push-IsPlaced e (x ∷ xs) =
    let i = push-IsPlaced e xs in
    if_rule (IsPlaced e (x ∷ xs)) (earlier e x)
      (λ _. record { before = []; after = x ∷ xs; parts = refl; placed = refl })
      (λ _. record {
        before = x ∷ i.before;
        after = i.after;
        parts = ap (λ r. x ∷ r) i.parts;
        placed = ap (λ r. x ∷ r) i.placed;
      })

-- What `schedule` makes of a scheduler.
pub record IsScheduled (action_id : String) (delay : ℤ) (s : Scheduler) (r : Entry × Scheduler)
    : Type 0 where
  pub valid : IsValid r.1
  pub due : r.0.due_tick ≡ s.tick + pos_part delay
  pub of_action : r.0.action_id ≡ action_id
  pub latest : All (λ x. x.order < r.0.order) s.queue
  pub queued : IsPlaced r.0 s.queue r.1.queue
  pub tick : r.1.tick ≡ s.tick

-- Scheduling an action on a valid scheduler gives an entry for it that is due `delay` ticks from now,
-- at once where the delay is negative, and whose order is above that of each queued entry; the new
-- queue holds it and all the entries of before, which stay in their order; the invariant is kept, and
-- the clock stands.
pub schedule-IsScheduled :
    (action_id : String) (delay : ℤ) (s : Scheduler)
    → IsValid s
    → IsScheduled action_id delay s (schedule action_id delay s)
unfolding schedule
schedule-IsScheduled action_id delay s v =
    let (valid, latest) = schedule-IsValid action_id delay s v in
    record {
      valid = valid;
      due = refl;
      of_action = refl;
      latest = latest;
      queued = push-IsPlaced (schedule action_id delay s).0 s.queue;
      tick = refl;
    }

-- What `remove` gives, and what it leaves of a queue: the first entry of the action goes.
pub data IsRemoved (id : String) (q : List Entry) : Option Entry → List Entry → Type 0 where
  absent : All (λ x. x.action_id ≢ id) q → IsRemoved id q none q
  taken :
      (e : Entry) (before after : List Entry)
      → e.action_id ≡ id
      → All (λ x. x.action_id ≢ id) before
      → q ≡ before ++ (e ∷ after)
      → IsRemoved id q (some e) (before ++ after)
