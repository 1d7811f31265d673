-- ===== src/Migrations.antt =====
-- compilableworld_mcp/migration_registry.py: `MigrationStep` and `MigrationRegistry`. A payload is an
-- element of a type `P`; what a transform does with it is a parameter, the field of its step.
pub mod Reach
pub mod Progress
pub mod Complete
pub mod Paths
mod Tests
use Prim.Native.String.{◌++◌ as append_text}
use compilableworld_runtime.Base.{
  ℕ, ◌+◌, zero, suc, String, Bool, true, false, not, ◌&&◌, ◌||◌, Option, none, some, List, [], ◌∷◌,
  ◌++◌, Outcome, ok, err, guard, ◌==◌, string_eq, pair_eq, if◌then◌else◌,
}
use compilableworld_runtime.Base.Raising.{◌>>=◌, ◌>>◌}
use compilableworld_runtime.Base.Lists.{length}
use compilableworld_runtime.Base.Text.{stripped, contains_text, comes_before}
use compilableworld_runtime.Base.Dict.{Dict, lookup, insert, is_in}

-- The codes of `MigrationRegistryError`. The code has no `search_unfinished`: it stands for a search
-- that goes on when its fuel is spent.
pub data MigrationError : Type 0 where
  invalid_migration migration_conflict migration_not_found : MigrationError
  migration_failed migration_invalid_result : MigrationError
  search_unfinished : MigrationError

-- How a transform ends: with an object, with another value, with an error of the registry's class, or
-- with any other exception.
pub data Transformed (P : Type 0) : Type 0 where
  object : P → Transformed P
  other_value : Transformed P
  registry_error : MigrationError → Transformed P
  exception : Transformed P

pub record MigrationStep (P : Type 0) : Type 0 where
  pub kind : String
  pub from_version : String
  pub to_version : String
  pub name : String
  pub transform : P → Transformed P

-- The registered steps, by kind and versions.
abbrev pub Steps : Type 0 → Type 0
Steps P = Dict (String × (String × String)) (MigrationStep P)

-- The versions that wait, each with the steps that lead to it.
abbrev pub Queue : Type 0 → Type 0
Queue P = List (String × List (MigrationStep P))

-- `_required`.
abbrev pub some_required : Option String → Outcome MigrationError String
some_required none = err invalid_migration
some_required (some s) = ok s

abbrev pub required : String → Outcome MigrationError String
required value = some_required (stripped value)

abbrev pub name_or : Option String → String → String
name_or none d = d
name_or (some s) d = if s == "" then d else s

module _ {P : Type 0} where
  -- `MigrationStep.apply`.
  abbrev pub apply : MigrationStep P → P → Outcome MigrationError P
  apply s payload = elim (s.transform payload) [
    | object p ↦ ok p
    | other_value ↦ err migration_invalid_result
    | registry_error e ↦ err e
    | exception ↦ err migration_failed
  ]

  abbrev pub values_of : Steps P → List (MigrationStep P)
  values_of [] = []
  values_of ((k, s) ∷ rest) = s ∷ values_of rest

  -- The order of the keys `(from_version, to_version, name)`.
  abbrev pub earlier : MigrationStep P → MigrationStep P → Bool
  earlier a b =
      comes_before a.from_version b.from_version
      || ((a.from_version == b.from_version)
          && (comes_before a.to_version b.to_version
              || ((a.to_version == b.to_version) && comes_before a.name b.name)))

  -- A stable sort, as `sorted` is one.
  unfoldable pub sort_in : MigrationStep P → List (MigrationStep P) → List (MigrationStep P)
  sort_in s [] = s ∷ []
  sort_in s (x ∷ xs) = let later = sort_in s xs in if earlier x s then x ∷ later else s ∷ x ∷ xs

  unfoldable pub sorted_steps : List (MigrationStep P) → List (MigrationStep P)
  sorted_steps [] = []
  sorted_steps (s ∷ ss) = sort_in s (sorted_steps ss)

pub data Scan (P : Type 0) : Type 0 where
  arrived : List (MigrationStep P) → Scan P
  going : List String → Queue P → Scan P

pub data Search (P : Type 0) : Type 0 where
  located : List (MigrationStep P) → Search P
  exhausted : Search P
  out_of_fuel : Search P

module _ {P : Type 0} where
  -- A step's part of the inner loop.
  unfoldable pub visit :
      String
      → String
      → String
      → List (MigrationStep P)
      → MigrationStep P
      → List String
      → Queue P
      → Scan P
  visit kind target current path s visited queue =
      if (s.kind == kind) && (s.from_version == current)
      then (if s.to_version == target
          then arrived (path ++ (s ∷ []))
          else if contains_text s.to_version visited
          then going visited queue
          else going (s.to_version ∷ visited) (queue ++ ((s.to_version, path ++ (s ∷ [])) ∷ [])))
      else going visited queue

  -- The inner loop.
  unfoldable pub scan :
      String
      → String
      → String
      → List (MigrationStep P)
      → List (MigrationStep P)
      → List String
      → Queue P
      → Scan P
  scan kind target current path [] visited queue = going visited queue
  scan kind target current path (s ∷ ss) visited queue =
      elim (visit kind target current path s visited queue) [
        | arrived p ↦ arrived p
        | going seen waiting ↦ scan kind target current path ss seen waiting
      ]

  -- The loop over the queue, on fuel.
  unfoldable pub search :
      ℕ → String → String → List (MigrationStep P) → List String → Queue P → Search P
  search fuel kind target steps visited [] = exhausted
  search zero kind target steps visited (x ∷ rest) = out_of_fuel
  search (suc fuel) kind target steps visited ((current, path) ∷ rest) =
      elim (scan kind target current path steps visited rest) [
        | arrived p ↦ located p
        | going seen waiting ↦ search fuel kind target steps seen waiting
      ]

  abbrev pub path_of : Search P → Outcome MigrationError (List (MigrationStep P))
  path_of (located p) = ok p
  path_of exhausted = err migration_not_found
  path_of out_of_fuel = err search_unfinished

  -- One more round than there are steps.
  abbrev pub search_path :
      List (MigrationStep P)
      → String
      → String
      → String
      → Outcome MigrationError (List (MigrationStep P))
  search_path steps kind source target =
      if source == target
      then ok []
      else path_of (search (suc (length steps)) kind target steps (source ∷ []) ((source, []) ∷ []))

  -- `find_path`.
  unfoldable pub find_path :
      Steps P → String → String → String → Outcome MigrationError (List (MigrationStep P))
  find_path registry kind from_version to_version = do
    normalized_kind ← required kind
    source ← required from_version
    target ← required to_version
    search_path (sorted_steps (values_of registry)) normalized_kind source target

  -- `register`: the step, and the registry with it.
  unfoldable pub register :
      String
      → String
      → String
      → (P → Transformed P)
      → Option String
      → Steps P
      → Outcome MigrationError (MigrationStep P × Steps P)
  register kind from_version to_version transform name registry = do
    normalized_kind ← required kind
    source ← required from_version
    target ← required to_version
    guard (not (source == target)) invalid_migration
    label ← required (
        name_or name (
          append_text normalized_kind
            (append_text ":" (append_text source (append_text "->" target)))))
    guard (not (is_in (normalized_kind, (source, target)) registry)) migration_conflict
    let step : MigrationStep P = record {
      kind = normalized_kind;
      from_version = source;
      to_version = target;
      name = label;
      transform = transform;
    }
    ok (step, insert (normalized_kind, (source, target)) step registry)

  abbrev pub apply_all : List (MigrationStep P) → P → Outcome MigrationError P
  apply_all [] payload = ok payload
  apply_all (s ∷ ss) payload = apply s payload >>= λ migrated. apply_all ss migrated

  -- `migrate`.
  unfoldable pub migrate : Steps P → P → String → String → String → Outcome MigrationError P
  migrate registry payload kind from_version to_version =
      find_path registry kind from_version to_version >>= λ steps. apply_all steps payload
