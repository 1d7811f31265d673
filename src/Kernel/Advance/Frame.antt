-- ===== src/Kernel/Advance/Frame.antt =====
-- kernel.py: what a tick of `WorldRuntime.advance` leaves alone until its events are logged.
use compilableworld_runtime.Base.{ℕ, String, ◌≡◌, List}
use compilableworld_runtime.Base.Exec.{◌>>=◌, part_bind}
use compilableworld_runtime.Base.Dict.{Dict}
use compilableworld_runtime.Kernel.Models.{Entity, EventIr}
use compilableworld_runtime.Kernel.World.{World, Op}

-- The log, the counters, the subscribers and the entities.
abbrev pub Logged : Type 0
Logged = List EventIr × Dict String ℕ × Dict String (List String) × Dict String Entity

abbrev pub logged_part : World → Logged
logged_part w = (w.events, w.metrics, w.subscribers, w.entities)

-- A method of which each step leaves these four as they were.
module _ {A B : Type 0} where
  pub unlogged_bind :
      (m : Op A) (f : A → Op B) (w : World)
      → logged_part (m w).1 ≡ logged_part w
      → ((a : A) (v : World) → logged_part (f a v).1 ≡ logged_part v)
      → logged_part ((m >>= f) w).1 ≡ logged_part w
  unlogged_bind = part_bind logged_part
