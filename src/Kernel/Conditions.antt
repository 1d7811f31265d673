-- ===== src/Kernel/Conditions.antt =====
-- kernel.py: `_action_condition_matches` and its helpers, `_bounded_action_retry_policy`, and
-- `_bounded_action_branches`.
pub mod Branches
use compilableworld_runtime.Base.{
  ℕ, String, Bool, true, false, not, ◌&&◌, ◌||◌, Option, none, some, List, [], ◌∷◌, ◌==◌, ltb, leb,
  if◌then◌else◌, string_eq, nat_eq,
}
use compilableworld_runtime.Base.Int.{ℤ, ltb_ℤ}
use compilableworld_runtime.Base.Lists.{length}
use compilableworld_runtime.Base.Dict.{lookup, is_in}
use compilableworld_runtime.Kernel.Value.{Value, null, bool, int, text, list, object, value_eq}
use compilableworld_runtime.Kernel.State.{StateCell, path}
use compilableworld_runtime.Kernel.Models.{ActionIr}
use compilableworld_runtime.Kernel.Behavior.{
  Condition, Branch, RetryPolicy, condition_subjects, condition_namespaces, condition_operators,
  condition_limit, branch_limit, branch_priority_limit, retry_attempt_limit, duration_limit,
}
use compilableworld_runtime.Kernel.World.{World}
use compilableworld_runtime.Kernel.Runtime.{contains_text}

-- `_finite_condition_scalar`.
unfoldable pub finite_condition_scalar : Value → Bool
finite_condition_scalar (list xs) = false
finite_condition_scalar (object fs) = false
finite_condition_scalar v = true

unfoldable pub same_type : Value → Value → Bool
same_type null null = true
same_type (bool a) (bool b) = true
same_type (int a) (int b) = true
same_type (text a) (text b) = true
same_type (list a) (list b) = true
same_type (object a) (object b) = true
same_type a b = false

-- `_strict_scalar_equal`, under which `True` is not 1.
unfoldable pub strict_scalar_equal : Value → Value → Bool
strict_scalar_equal a b = same_type a b && value_eq a b

-- The last part of `_action_condition_matches`: a truth value has no order.
unfoldable pub compare_numbers : String → Value → Value → Bool
compare_numbers operator (int a) (int b) =
    if operator == "less_than"
    then ltb_ℤ a b
    else if operator == "less_or_equal"
    then not (ltb_ℤ b a)
    else if operator == "greater_than"
    then ltb_ℤ b a
    else not (ltb_ℤ a b)
compare_numbers operator a b = false

abbrev pub compare_values : Condition → Value → Bool
compare_values c actual =
    if not (finite_condition_scalar actual) || not (finite_condition_scalar c.value)
    then false
    else if c.operator == "equals"
    then strict_scalar_equal actual c.value
    else if c.operator == "not_equals"
    then not (strict_scalar_equal actual c.value)
    else compare_numbers c.operator actual c.value

abbrev pub compare_cell : Condition → Option StateCell → Bool
compare_cell c none = false
compare_cell c (some cell) = compare_values c cell.value

abbrev pub matches_for : Condition → World → Option String → Bool
matches_for c w none = false
matches_for c w (some owner) =
    is_in owner w.entities && compare_cell c (lookup (path owner c.namespace c.key) w.cells)

-- `_action_condition_matches`.
unfoldable pub action_condition_matches : ActionIr → World → Condition → Bool
action_condition_matches a w c =
    if (c.condition_id == "")
      || not (contains_text c.subject condition_subjects)
      || not (contains_text c.namespace condition_namespaces)
      || not (contains_text c.operator condition_operators)
    then false
    else matches_for c w (if c.subject == "actor" then some a.actor_id else a.target_id)

-- `all(matches(condition) for condition in conditions)`.
abbrev pub all_match : (Condition → Bool) → List Condition → Bool
all_match matches [] = true
all_match matches (c ∷ cs) = matches c && all_match matches cs

-- The first condition that fails.
unfoldable pub failed_condition : (Condition → Bool) → List Condition → Option Condition
failed_condition matches [] = none
failed_condition matches (c ∷ cs) = if matches c then failed_condition matches cs else some c

abbrev pub within : ℕ → ℕ → ℕ → Bool
within lo n hi = leb lo n && leb n hi

-- `_bounded_action_retry_policy`.
unfoldable pub bounded_action_retry_policy : Option RetryPolicy → Option RetryPolicy
bounded_action_retry_policy none = none
bounded_action_retry_policy (some p) =
    if within 1 p.max_attempts retry_attempt_limit
      && within 1 p.interval_ticks duration_limit
      && within 1 p.timeout_ticks duration_limit
    then some p
    else none

abbrev pub is_routed : Branch → Bool
is_routed b = elim b.next_phase_id [ none ↦ false | some _ ↦ true ]

abbrev pub names_phase : Option String → Bool
names_phase none = true
names_phase (some phase_id) = not (phase_id == "")

abbrev pub seen_number : ℕ → List ℕ → Bool
seen_number n [] = false
seen_number n (x ∷ xs) = (x == n) || seen_number n xs

-- One round of the inner loop.
abbrev pub bounded_condition : Condition → Bool
bounded_condition c =
    not (c.condition_id == "")
    && contains_text c.subject condition_subjects
    && contains_text c.namespace condition_namespaces
    && not (c.key == "")
    && contains_text c.operator condition_operators
    && finite_condition_scalar c.value

-- One round of the loop of `_bounded_action_branches`, with the ids and priorities seen so far.
abbrev pub bounded_branch : Branch → List String → List ℕ → Bool
bounded_branch b ids priorities =
    not (b.branch_id == "")
    && not (contains_text b.branch_id ids)
    && leb b.priority branch_priority_limit
    && not (seen_number b.priority priorities)
    && leb (length b.when) condition_limit
    && names_phase b.next_phase_id
    && all_match bounded_condition b.when

abbrev pub bounded_loop : List Branch → List String → List ℕ → Bool
bounded_loop [] ids priorities = true
bounded_loop (b ∷ bs) ids priorities =
    bounded_branch b ids priorities && bounded_loop bs (b.branch_id ∷ ids) (b.priority ∷ priorities)

abbrev pub is_fallback : Branch → Bool
is_fallback b = elim b.when [ [] ↦ true | _ ∷ _ ↦ false ]

-- The priorities of the branches that have conditions, or that have none.
unfoldable pub priorities_of : Bool → List Branch → List ℕ
priorities_of fallback [] = []
priorities_of fallback (b ∷ bs) =
    let rest = priorities_of fallback bs in
    if fallback
    then (if is_fallback b then b.priority ∷ rest else rest)
    else (if is_fallback b then rest else b.priority ∷ rest)

-- One fallback, of a priority below the others'.
abbrev pub below_all : ℕ → List ℕ → Bool
below_all n [] = true
below_all n (x ∷ xs) = ltb n x && below_all n xs

abbrev pub one_fallback : List ℕ → List ℕ → Bool
one_fallback (n ∷ []) conditional = below_all n conditional
one_fallback _ conditional = false

-- `value == sorted(value, key=...)`. The priorities are distinct, so that the ids never decide.
abbrev pub descending_from : ℕ → List Branch → Bool
descending_from n [] = true
descending_from n (b ∷ bs) = ltb b.priority n && descending_from b.priority bs

abbrev pub descending : List Branch → Bool
descending [] = true
descending (b ∷ bs) = descending_from b.priority bs

abbrev pub same_routing : Bool → List Branch → Bool
same_routing routed [] = true
same_routing routed (b ∷ bs) =
    (if is_routed b then routed else not routed) && same_routing routed bs

abbrev pub branches_are_bounded : Branch → List Branch → Bool
branches_are_bounded b bs =
    same_routing (is_routed b) bs
    && within (if is_routed b then 1 else 2) (length (b ∷ bs)) branch_limit
    && bounded_loop (b ∷ bs) [] []
    && one_fallback (priorities_of true (b ∷ bs)) (priorities_of false (b ∷ bs))
    && descending (b ∷ bs)

-- `_bounded_action_branches`.
unfoldable pub bounded_action_branches : List Branch → Option (List Branch)
bounded_action_branches [] = none
bounded_action_branches (b ∷ bs) = if branches_are_bounded b bs then some (b ∷ bs) else none

-- `next(branch for branch in branches if all(matches ...))`.
unfoldable pub first_matching : (Condition → Bool) → List Branch → Option Branch
first_matching matches [] = none
first_matching matches (b ∷ bs) =
    if all_match matches b.when then some b else first_matching matches bs

-- `next(branch for branch in branches if branch.get("branch_id") == branch_id)`.
unfoldable pub branch_of : String → List Branch → Option Branch
branch_of branch_id [] = none
branch_of branch_id (b ∷ bs) = if b.branch_id == branch_id then some b else branch_of branch_id bs
