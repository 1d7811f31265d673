-- ===== src/Functions.antt =====
-- compilableworld/functions.py: FunctionIR. A number of Python, `int` or `float`, is an element of a
-- type `N` with the interpreter's arithmetic, of which nothing is assumed. Only the keys of the cache,
-- in Functions/Registry and Functions/Cache, compare numbers with a `==` that is an equality.
pub mod Validation
pub mod Evaluation
pub mod Sound
pub mod Registry
pub mod Cache
pub mod Package
mod Tests
use compilableworld_runtime.Base.{
  ℕ, String, Bool, true, false, ◌&&◌, ◌||◌, Option, none, some, List, [], ◌∷◌, ◌==◌, string_eq,
  if◌then◌else◌,
}
pub use compilableworld_runtime.Base.Text.{contains_text}

-- What `json.loads` returns.
mutual
  pub data Json (N : Type 0) : Type 0 where
    null : Json N
    bool : Bool → Json N
    number : N → Json N
    text : String → Json N
    array : Jsons N → Json N
    object : Members N → Json N

  pub data Jsons (N : Type 0) : Type 0 where
    nil : Jsons N
    cons : Json N → Jsons N → Jsons N

  pub data Members (N : Type 0) : Type 0 where
    end : Members N
    member : String → Json N → Members N → Members N

-- The errors of `_validate_expression` and `validate_function_source` come first. The last three are
-- the interpreter's: `KeyError`, the `IndexError` or `ValueError` of a wrong number of arguments, and
-- a `TypeError`.
pub data FunctionError : Type 0 where
  not_expression unknown_field bad_reference bad_constant bad_operation bad_arity : FunctionError
  bad_document bad_entry bad_function_id duplicate_function bad_version not_pure : FunctionError
  bad_inputs bad_output : FunctionError
  unknown_function input_mismatch not_a_number : FunctionError
  division_by_zero clamp_order arithmetic_error : FunctionError
  key_error wrong_count type_error : FunctionError

-- Python's arithmetic. It may raise, as where an integer that no float can hold meets a float.
pub record Arithmetic (N : Type 0) : Type 0 where
  pub zero : N
  pub one : N
  pub is_zero : N → Bool
  pub add : N → N → Option N
  pub sub : N → N → Option N
  pub mul : N → N → Option N
  pub neg : N → N
  pub div : N → N → Option N
  pub round : N → Option N
  pub less : N → N → Bool

module _ {N : Type 0} where
  unfoldable pub get_member : String → Members N → Option (Json N)
  get_member k end = none
  get_member k (member j v rest) = if j == k then some v else get_member k rest

  abbrev pub is_some_json : Option (Json N) → Bool
  is_some_json none = false
  is_some_json (some v) = true

  -- `k in expression`.
  abbrev pub has_member : String → Members N → Bool
  has_member k ms = is_some_json (get_member k ms)

  -- `not set(expression) - names`.
  abbrev pub members_among : List String → Members N → Bool
  members_among names end = true
  members_among names (member k v rest) = contains_text k names && members_among names rest

  -- `set(expression) == names`.
  abbrev pub has_all : List String → Members N → Bool
  has_all [] ms = true
  has_all (k ∷ ks) ms = has_member k ms && has_all ks ms

  abbrev pub exactly : List String → Members N → Bool
  exactly names ms = members_among names ms && has_all names ms

  abbrev pub count_items : Jsons N → ℕ
  count_items nil = 0
  count_items (cons x xs) = ℕ.suc (count_items xs)
