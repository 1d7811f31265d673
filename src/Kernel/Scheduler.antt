-- ===== src/Kernel/Scheduler.antt =====
-- kernel.py: `Scheduler`. The heap of `heapq` is the list of its entries in the order in which it
-- gives them out, by due tick and then by counter; an entry holds the id of its action object.
pub mod Order
mod Queue
mod Tests
use compilableworld_runtime.Base.{
  ℕ, ◌+◌, String, Bool, true, false, ◌&&◌, ◌||◌, Option, none, some, List, [], ◌∷◌, ltb, leb, ◌==◌,
  nat_eq, string_eq, max, if◌then◌else◌,
}
use compilableworld_runtime.Base.Int.{ℤ, pos_part}

pub record Entry : Type 0 where
  pub due_tick : ℕ
  pub order : ℕ
  pub action_id : String

pub record Scheduler : Type 0 where
  pub tick : ℕ
  pub counter : ℕ
  pub queue : List Entry

-- The order of the tuples `(due_tick, counter, action)`.
abbrev pub earlier : Entry → Entry → Bool
earlier a b = ltb a.due_tick b.due_tick || ((a.due_tick == b.due_tick) && ltb a.order b.order)

-- `heapq.heappush`.
pub push : Entry → List Entry → List Entry
push e [] = e ∷ []
push e (x ∷ xs) = let rest = push e xs in if earlier e x then e ∷ x ∷ xs else x ∷ rest

-- `max(0, delay)` is the positive part; the caller marks the action as scheduled.
unfoldable pub schedule : String → ℤ → Scheduler → Entry × Scheduler
unfolding push
schedule action_id delay s =
    let entry : Entry = record {
      due_tick = s.tick + pos_part delay;
      order = s.counter + 1;
      action_id = action_id;
    } in
    (entry, record s { counter = s.counter + 1; queue = push entry s.queue })

unfoldable pub find_entry : String → List Entry → Option Entry
find_entry action_id [] = none
find_entry action_id (x ∷ xs) = if x.action_id == action_id then some x else find_entry action_id xs

pub drop_entry : String → List Entry → List Entry
drop_entry action_id [] = []
drop_entry action_id (x ∷ xs) =
    let rest = drop_entry action_id xs in if x.action_id == action_id then xs else x ∷ rest

-- The removed entry, and the rest of the heap.
unfoldable pub remove : String → Scheduler → Option Entry × Scheduler
unfolding find_entry drop_entry
remove action_id s =
    (find_entry action_id s.queue, record s { queue = drop_entry action_id s.queue })

unfoldable pub restore : Entry → Scheduler → Scheduler
unfolding push
restore entry s = record s { counter = max s.counter entry.order; queue = push entry s.queue }

-- The loop of `pop_ready`: what it pops, and what stays.
pub pop_due : ℕ → List Entry → List Entry × List Entry
pop_due tick [] = ([], [])
pop_due tick (x ∷ xs) =
    let rest = pop_due tick xs in if leb x.due_tick tick then (x ∷ rest.0, rest.1) else ([], x ∷ xs)

pub pop_ready : Scheduler → List Entry × Scheduler
unfolding pop_due
pop_ready s = let (ready, rest) = pop_due s.tick s.queue in (ready, record s { queue = rest })

pub advance : ℤ → Scheduler → List Entry × Scheduler
unfolding pop_ready
advance ticks s = pop_ready (record s { tick = s.tick + pos_part ticks })
