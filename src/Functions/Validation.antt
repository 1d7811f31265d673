-- ===== src/Functions/Validation.antt =====
-- compilableworld/functions.py: `_validate_expression` and `validate_function_source`. The two regular
-- expressions are the parameters of the second; the labels of the messages are left out.
use compilableworld_runtime.Base.{
  ℕ, String, Bool, true, false, not, ◌&&◌, Option, none, some, List, [], ◌∷◌, Outcome, ok, err,
  guard, ◌==◌, leb, string_eq, nat_eq, if◌then◌else◌,
}
use compilableworld_runtime.Base.Raising.{◌>>=◌, ◌>>◌}
use compilableworld_runtime.Base.Text.{stripped}
use compilableworld_runtime.Base.Dict.{Dict, lookup, insert}
use compilableworld_runtime.Functions.{
  Json, Jsons, Members, number, text, array, object, nil, cons, end, member, FunctionError,
  not_expression, unknown_field, bad_reference, bad_constant, bad_operation, bad_arity,
  bad_document, bad_entry, bad_function_id, duplicate_function, bad_version, not_pure, bad_inputs,
  bad_output, type_error, get_member, has_member, members_among, exactly, contains_text,
  count_items,
}
use compilableworld_runtime.Functions.Registry.{Function}

-- The least number of arguments of an operation, and the greatest if there is one.
abbrev pub arity : String → Option (ℕ × Option ℕ)
arity op = lookup op (
    ("add", (2, none))
    ∷ ("sub", (2, some 2))
    ∷ ("mul", (2, none))
    ∷ ("div", (2, some 2))
    ∷ ("min", (1, none))
    ∷ ("max", (1, none))
    ∷ ("neg", (1, some 1))
    ∷ ("clamp", (3, some 3))
    ∷ ("round", (1, some 1))
    ∷ [])

abbrev pub fits : ℕ → ℕ × Option ℕ → Bool
fits count (minimum, none) = leb minimum count
fits count (minimum, some maximum) = leb minimum count && (count == maximum)

abbrev pub entry_names : List String
entry_names = "function_id" ∷ "version" ∷ "purity" ∷ "inputs" ∷ "output" ∷ "expression" ∷ []

module _ {N : Type 0} where
  abbrev pub is_input : List String → Option (Json N) → Bool
  is_input inputs (some (text k)) = contains_text k inputs
  is_input inputs _ = false

  abbrev pub is_number : Option (Json N) → Bool
  is_number (some (number x)) = true
  is_number _ = false

  -- `op not in FUNCTION_OPS` raises where `op` is a list or an object.
  abbrev pub operation : Option (Json N) → Outcome FunctionError (ℕ × Option ℕ)
  operation (some (text op)) = elim (arity op) [ none ↦ err bad_operation | some a ↦ ok a ]
  operation (some (array xs)) = err type_error
  operation (some (object ms)) = err type_error
  operation _ = err bad_operation

  abbrev pub argument_count : Option (Json N) → Outcome FunctionError ℕ
  argument_count (some (array xs)) = ok (count_items xs)
  argument_count _ = err bad_arity

  -- The cases of an object, of whose `args` the outcome is given.
  abbrev pub validate_members :
      List String → Members N → Outcome FunctionError (Unit {0}) → Outcome FunctionError (Unit {0})
  validate_members inputs ms children =
      guard (members_among ("ref" ∷ "const" ∷ "op" ∷ "args" ∷ []) ms) unknown_field
      >> (if has_member "ref" ms
          then guard (exactly ("ref" ∷ []) ms && is_input inputs (get_member "ref" ms))
              bad_reference
          else if has_member "const" ms
          then guard (exactly ("const" ∷ []) ms && is_number (get_member "const" ms)) bad_constant
          else (guard (exactly ("op" ∷ "args" ∷ []) ms) bad_arity
              >> (operation (get_member "op" ms) >>= λ a.
                  argument_count (get_member "args" ms) >>= λ count.
                  guard (fits count a) bad_arity >> children)))

  unfoldable mutual
    pub validate_expression : List String → Json N → Outcome FunctionError (Unit {0})
    validate_expression inputs (number x) = ok tt
    validate_expression inputs (object ms) = validate_members inputs ms (validate_args inputs ms)
    validate_expression inputs _ = err not_expression

    -- The loop over the items of `args`.
    pub validate_args : List String → Members N → Outcome FunctionError (Unit {0})
    validate_args inputs end = err bad_arity
    validate_args inputs (member k v rest) =
        let others = validate_args inputs rest in
        let here = validate_children inputs v in if k == "args" then here else others

    pub validate_children : List String → Json N → Outcome FunctionError (Unit {0})
    validate_children inputs (array xs) = validate_list inputs xs
    validate_children inputs _ = err bad_arity

    pub validate_list : List String → Jsons N → Outcome FunctionError (Unit {0})
    validate_list inputs nil = ok tt
    validate_list inputs (cons x xs) = validate_expression inputs x >> validate_list inputs xs

  abbrev pub as_text : FunctionError → Option (Json N) → Outcome FunctionError String
  as_text e (some (text s)) = ok s
  as_text e _ = err e

  abbrev pub is_text : String → Option (Json N) → Bool
  is_text s (some (text t)) = t == s
  is_text s _ = false

  -- `v not in FUNCTION_TYPES`: a set refuses a list and a dictionary with a `TypeError`.
  abbrev pub check_type : FunctionError → Option (Json N) → Outcome FunctionError (Unit {0})
  check_type e (some (array xs)) = err type_error
  check_type e (some (object ms)) = err type_error
  check_type e v = guard (is_text "number" v) e

  abbrev pub is_filled : Option (Json N) → Bool
  is_filled (some (text s)) = elim (stripped s) [ none ↦ false | some _ ↦ true ]
  is_filled _ = false

  abbrev pub is_known : Option (Function N) → Bool
  is_known none = false
  is_known (some f) = true

  abbrev pub required_or : FunctionError → Option (Json N) → Outcome FunctionError (Json N)
  required_or e none = err e
  required_or e (some v) = ok v

  module _ (function_id_re input_name_re : String → Bool) where
    -- The names of the inputs, each of type `number`.
    abbrev pub input_names : Members N → Outcome FunctionError (List String)
    input_names end = ok []
    input_names (member k v rest) =
        guard (input_name_re k) bad_inputs
        >> (check_type bad_inputs (some v) >> (input_names rest >>= λ names. ok (k ∷ names)))

    abbrev pub inputs_of : Option (Json N) → Outcome FunctionError (List String)
    inputs_of (some (object (member k v rest))) = input_names (member k v rest)
    inputs_of _ = err bad_inputs

    -- One round of the loop over the entries: the function and its id.
    unfoldable pub validate_entry :
        Dict String (Function N) → Json N → Outcome FunctionError (String × Function N)
    validate_entry seen (object ms) = do
      guard (exactly entry_names ms) bad_entry
      function_id ← as_text bad_function_id (get_member "function_id" ms)
      guard (function_id_re function_id) bad_function_id
      guard (not (is_known (lookup function_id seen))) duplicate_function
      guard (is_filled (get_member "version" ms)) bad_version
      version ← as_text bad_version (get_member "version" ms)
      guard (is_text "pure" (get_member "purity" ms)) not_pure
      inputs ← inputs_of (get_member "inputs" ms)
      check_type bad_output (get_member "output" ms)
      expression ← required_or bad_entry (get_member "expression" ms)
      validate_expression inputs expression
      ok (function_id, record { version = version; inputs = inputs; expression = expression })
    validate_entry seen _ = err bad_entry

    unfoldable pub validate_entries :
        Dict String (Function N) → Jsons N → Outcome FunctionError (Dict String (Function N))
    validate_entries seen nil = ok seen
    validate_entries seen (cons x xs) = validate_entry seen x >>= λ (p : String × Function N).
        validate_entries (insert p.0 p.1 seen) xs

    abbrev pub entries_of : Option (Json N) → Outcome FunctionError (Jsons N)
    entries_of none = ok nil
    entries_of (some (array xs)) = ok xs
    entries_of _ = err bad_document

    -- `validate_function_source`, with the dictionary that `FunctionRegistry` makes of its result.
    unfoldable pub validate_function_source :
        Json N → Outcome FunctionError (Dict String (Function N))
    validate_function_source (object ms) = do
      guard (members_among ("functions" ∷ []) ms) bad_document
      xs ← entries_of (get_member "functions" ms)
      validate_entries [] xs
    validate_function_source _ = err bad_document
