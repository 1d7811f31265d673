-- ===== src/Kernel/Scheduler/Order.antt =====
-- kernel.py: `Scheduler`. The queue stays ordered, and `advance` gives out exactly the entries that are due, in that order.
use compilableworld_runtime.Base.{
  ℕ, ◌+◌, ◌≤◌, ◌<◌, String, true, false, some, List, [], ◌∷◌, ◌++◌, ◌≡◌, ◌≢◌, ◌⊎◌, refl, ap, arith,
  inl, inr, if_rule, leb, leb→le, Bool-cases, ◌==◌, string_eq,
}
use mathlib.Core.Path.{subst}
use compilableworld_runtime.Base.Lists.{All, All-map}
use compilableworld_runtime.Base.Int.{ℤ, pos_part}
use compilableworld_runtime.Kernel.Scheduler.{
  Entry, Scheduler, earlier, push, schedule, drop_entry, find_entry, remove, restore, pop_due,
  advance,
}

-- Earlier by due tick, and by counter where the ticks are the same.
abbrev pub IsEarlier : Entry → Entry → Type 0
IsEarlier a b = (a.due_tick < b.due_tick) ⊎ ((a.due_tick ≡ b.due_tick) × (a.order < b.order))

abbrev pub IsOrdered : List Entry → Type 0
IsOrdered [] = Unit
IsOrdered (x ∷ xs) = All (IsEarlier x) xs × IsOrdered xs

-- The invariant of the scheduler: the queue is ordered, and no order is above the counter.
pub record IsValid (s : Scheduler) : Type 0 where
  pub ordered : IsOrdered s.queue
  pub counted : All (λ x. x.order ≤ s.counter) s.queue

earlier_cases :
    (a b : Entry)
    → a.order ≢ b.order
    → (earlier a b ≡ true → IsEarlier a b) × (earlier a b ≡ false → IsEarlier b a)
earlier_cases a b ne = (λ h. ground arith, λ h. ground arith)

IsEarlier-trans : (a b c : Entry) → IsEarlier a b → IsEarlier b c → IsEarlier a c
IsEarlier-trans a b c h k = ground arith

All-push : (P : Entry → Type 0) (e : Entry) (xs : List Entry) → P e → All P xs → All P (push e xs)
unfolding push
All-push P e [] p h = (p, tt)
All-push P e (x ∷ xs) p (q, h) =
    if_rule (All P) (earlier e x) (λ _. (p, (q, h))) (λ _. (q, All-push P e xs p h))

push-IsOrdered :
    (e : Entry) (xs : List Entry)
    → All (λ x. e.order ≢ x.order) xs
    → IsOrdered xs
    → IsOrdered (push e xs)
unfolding push
push-IsOrdered e [] ne h = (tt, tt)
push-IsOrdered e (x ∷ xs) (ne, nes) (after, h) =
    if_rule IsOrdered (earlier e x)
      (λ t.
        let first = (earlier_cases e x ne).0 t in
        ((first, All-map (λ y. IsEarlier-trans e x y first) xs after), (after, h)))
      (λ f.
        (All-push (IsEarlier x) e xs ((earlier_cases e x ne).1 f) after, push-IsOrdered e xs nes h))

pub schedule-IsValid :
    (action_id : String) (delay : ℤ) (s : Scheduler)
    → IsValid s
    → IsValid (schedule action_id delay s).1
      × All (λ x. x.order < (schedule action_id delay s).0.order) s.queue
unfolding schedule
schedule-IsValid action_id delay s v =
    let e : Entry = record {
      due_tick = s.tick + pos_part delay;
      order = s.counter + 1;
      action_id = action_id;
    } in
    (
      record {
        ordered =
            push-IsOrdered e s.queue (All-map (λ x h. omega arith) s.queue v.counted) v.ordered;
        counted =
            All-push (λ x. x.order ≤ s.counter + 1) e s.queue (omega arith)
              (All-map (λ x h. omega arith) s.queue v.counted);
      },
      All-map (λ x h. omega arith) s.queue v.counted,
    )

All-drop :
    (P : Entry → Type 0) (id : String) (xs : List Entry) → All P xs → All P (drop_entry id xs)
unfolding drop_entry
All-drop P id [] h = tt
All-drop P id (x ∷ xs) (p, h) =
    if_rule (All P) (x.action_id == id) (λ _. h) (λ _. (p, All-drop P id xs h))

drop-IsOrdered : (id : String) (xs : List Entry) → IsOrdered xs → IsOrdered (drop_entry id xs)
unfolding drop_entry
drop-IsOrdered id [] h = tt
drop-IsOrdered id (x ∷ xs) (after, h) =
    if_rule IsOrdered (x.action_id == id) (λ _. h)
      (λ _. (All-drop (IsEarlier x) id xs after, drop-IsOrdered id xs h))

pub remove-IsValid : (id : String) (s : Scheduler) → IsValid s → IsValid (remove id s).1
unfolding remove
remove-IsValid id s v = record {
  ordered = drop-IsOrdered id s.queue v.ordered;
  counted = All-drop (λ x. x.order ≤ s.counter) id s.queue v.counted;
}

find-All :
    (P : Entry → Type 0) (id : String) (xs : List Entry) {e : Entry}
    → All P xs
    → find_entry id xs ≡ some e
    → P e
unfolding find_entry
find-All P id [] h found = cc
find-All P id (x ∷ xs) {e} (p, h) found = elim (Bool-cases (x.action_id == id)) [
  | inl same ↦ let e' : x ≡ e = cc (rw same at found) in subst P e' p
  | inr other ↦ find-All P id xs h (rw other at found)
]

earlier_of : (a b : Entry) → IsEarlier a b → (earlier a b ≡ true) × (earlier b a ≡ false)
earlier_of a b h = (ground arith, ground arith)

push-first : (e : Entry) (xs : List Entry) → All (IsEarlier e) xs → push e xs ≡ e ∷ xs
unfolding push
push-first e [] h = refl
push-first e (x ∷ xs) (p, h) = rw (earlier_of e x p).0

push-later :
    (e x : Entry) (rest ys : List Entry)
    → earlier e x ≡ false
    → push e rest ≡ ys
    → push e (x ∷ rest) ≡ x ∷ ys
unfolding push
push-later e x rest ys later same = rw (later, same)

push-drop :
    (id : String) (xs : List Entry) {e : Entry}
    → IsOrdered xs
    → find_entry id xs ≡ some e
    → push e (drop_entry id xs) ≡ xs
unfolding find_entry drop_entry
push-drop id [] h found = cc
push-drop id (x ∷ xs) {e} (after, h) found = elim (Bool-cases (x.action_id == id)) [
  | inl same ↦ let e' : x ≡ e = cc (rw same at found) in rw (same, ← e') (push-first x xs after)
  | inr other ↦
      let found' = rw other at found in
      let p = earlier_of x e (find-All (IsEarlier x) id xs after found') in
      rw other (push-later e x (drop_entry id xs) xs p.1 (push-drop id xs h found'))
]

-- On a valid scheduler, putting a removed entry back gives the scheduler as it was before: nothing
-- of a termination that could not be logged is left in it.
pub restore-remove :
    (id : String) (s : Scheduler) (e : Entry)
    → IsValid s
    → (remove id s).0 ≡ some e
    → restore e (remove id s).1 ≡ s
unfolding remove restore
restore-remove id s e v found =
    let le : e.order ≤ s.counter = find-All (λ x. x.order ≤ s.counter) id s.queue v.counted found in
    rw (push-drop id s.queue v.ordered found)
      (ap (λ (n : ℕ). record s { counter = n }) (omega arith))

All-later :
    (t : ℕ) (x : Entry) (xs : List Entry)
    → t < x.due_tick
    → All (IsEarlier x) xs
    → All (λ y. t < y.due_tick) xs
All-later t x xs h after = All-map (λ y e. ground arith) xs after

-- What `pop_due` makes of an ordered queue.
pub record IsSplit (t : ℕ) (q : List Entry) (x : List Entry × List Entry) : Type 0 where
  pub due : All (λ e. e.due_tick ≤ t) x.0
  pub later : All (λ e. t < e.due_tick) x.1
  pub whole : x.0 ++ x.1 ≡ q
  pub ordered : IsOrdered x.1

pop_due-IsSplit : (t : ℕ) (q : List Entry) → IsOrdered q → IsSplit t q (pop_due t q)
unfolding pop_due
pop_due-IsSplit t [] h = record { due = tt; later = tt; whole = refl; ordered = tt }
pop_due-IsSplit t (x ∷ xs) (after, h) =
    let i = pop_due-IsSplit t xs h in
    if_rule (IsSplit t (x ∷ xs)) (leb x.due_tick t)
      (λ is. record {
        due = (leb→le x.due_tick t is, i.due);
        later = i.later;
        whole = ap (λ (r : List Entry). x ∷ r) i.whole;
        ordered = i.ordered;
      })
      (λ no'. record {
        due = tt;
        later = let lt : t < x.due_tick = ground arith in (lt, All-later t x xs lt after);
        whole = refl;
        ordered = (after, h);
      })

All-suffix : (P : Entry → Type 0) (xs ys : List Entry) → All P (xs ++ ys) → All P ys
All-suffix P [] ys h = h
All-suffix P (x ∷ xs) ys (p, h) = All-suffix P xs ys h

-- On a valid scheduler, `advance` moves the clock forward, never back, gives out exactly the
-- entries that are then due, in the order of the queue, keeps all the others, and keeps the
-- invariant.
pub advance_exact :
    (ticks : ℤ) (s : Scheduler)
    → IsValid s
    → let now = s.tick + pos_part ticks in
      IsSplit now s.queue ((advance ticks s).0, (advance ticks s).1.queue)
      × ((advance ticks s).1.tick ≡ now)
      × IsValid (advance ticks s).1
unfolding advance
advance_exact ticks s v =
    let i = pop_due-IsSplit (s.tick + pos_part ticks) s.queue v.ordered in
    (
      i,
      refl,
      record {
        ordered = i.ordered;
        counted =
            All-suffix (λ x. x.order ≤ s.counter) (pop_due (s.tick + pos_part ticks) s.queue).0
              (pop_due (s.tick + pos_part ticks) s.queue).1 (rw i.whole v.counted);
      },
    )
