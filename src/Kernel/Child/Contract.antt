-- ===== src/Kernel/Child/Contract.antt =====
-- kernel.py: the checks of `_execute_action_child`. An error is the message that it returns.
use Prim.Native.String.{◌++◌ as append_text}
use compilableworld_runtime.Base.{
  String, Bool, true, false, not, ◌&&◌, ◌||◌, Option, none, some, List, [], ◌∷◌, Outcome, ok, err,
  guard, ◌==◌, leb, string_eq, option_eq,
}
use compilableworld_runtime.Base.Raising.{◌>>=◌, ◌>>◌}
use compilableworld_runtime.Base.Text.{stripped}
use compilableworld_runtime.Base.Dict.{lookup, is_in}
use compilableworld_runtime.Kernel.Value.{Value, Fields, text, end, field, get_field, count_fields}
use compilableworld_runtime.Kernel.Models.{ActionIr}
use compilableworld_runtime.Kernel.Behavior.{
  ChildSpec, TargetSpec, parent_target, entity_target, other_target, child_modules,
  child_arg_fields, child_required_args, child_target_verbs, child_arg_limit,
}
use compilableworld_runtime.Kernel.World.{World, Behavior}
use compilableworld_runtime.Kernel.Runtime.{contains_text, behavior_of}
use compilableworld_runtime.Kernel.Conditions.{finite_condition_scalar}

abbrev pub names_of : Option (List String) → List String
names_of none = []
names_of (some names) = names

-- `not set(args) - allowed`.
abbrev pub fields_among : List String → Fields → Bool
fields_among allowed end = true
fields_among allowed (field k v rest) = contains_text k allowed && fields_among allowed rest

abbrev pub has_field : Option Value → Bool
has_field none = false
has_field (some v) = true

-- `not required - set(args)`.
abbrev pub has_fields : List String → Fields → Bool
has_fields [] args = true
has_fields (k ∷ ks) args = has_field (get_field k args) && has_fields ks args

abbrev pub all_finite : Fields → Bool
all_finite end = true
all_finite (field k v rest) = finite_condition_scalar v && all_finite rest

abbrev pub string_args : List String
string_args = "direction" ∷ "recipient" ∷ "spell" ∷ "text" ∷ "topic" ∷ []

abbrev pub some_text : Option String → Bool
some_text none = false
some_text (some s) = true

-- `isinstance(value, str) and value.strip()`.
abbrev pub is_text : Value → Bool
is_text (text s) = some_text (stripped s)
is_text v = false

abbrev pub strings_fit : Fields → Bool
strings_fit end = true
strings_fit (field k v rest) = (not (contains_text k string_args) || is_text v) && strings_fit rest

abbrev pub is_no_behavior : Option Behavior → Bool
is_no_behavior none = true
is_no_behavior (some b) = false

abbrev pub child_target : ActionIr → Option TargetSpec → Outcome String (Option String)
child_target parent none = ok none
child_target parent (some parent_target) = ok parent.target_id
child_target parent (some (entity_target e)) = ok (some e)
child_target parent (some other_target) = err "compiled child Action target is invalid"

abbrev pub known_entity : Option String → World → Bool
known_entity none w = false
known_entity (some e) w = is_in e w.entities

abbrev pub text_of : Option Value → Option String
text_of (some (text s)) = some s
text_of _ = none

abbrev pub about_child : ChildSpec → String → String
about_child spec what = append_text "child Action " (append_text spec.step_id what)

-- The id of the child's target.
unfoldable pub child_contract : ActionIr → ChildSpec → World → Outcome String (Option String)
child_contract parent spec w = do
  guard
      (not (spec.step_id == "")
        && (lookup spec.verb child_modules == some spec.module_id)
        && is_no_behavior (behavior_of spec.verb w.behaviors)
        && leb (count_fields spec.args) child_arg_limit)
      "compiled child Action is not a bounded primitive"
  guard
      (fields_among (names_of (lookup spec.verb child_arg_fields)) spec.args
        && has_fields (names_of (lookup spec.verb child_required_args)) spec.args)
      "compiled child Action args violate the primitive contract"
  guard (all_finite spec.args) "compiled child Action args are not finite scalars"
  guard (strings_fit spec.args) "compiled child Action string args are invalid"
  target_id ← child_target parent spec.target
  guard (not (contains_text spec.verb child_target_verbs) || known_entity target_id w)
      (about_child spec " target is unavailable")
  guard (contains_text spec.verb child_target_verbs || (target_id == none))
      (about_child spec " forbids a target")
  guard (not (spec.verb == "give") || known_entity (text_of (get_field "recipient" spec.args)) w)
      (about_child spec " recipient is unavailable")
  ok target_id
