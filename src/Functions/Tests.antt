-- ===== src/Functions/Tests.antt =====
-- A document with one function of two inputs, over the natural numbers.
use compilableworld_runtime.Base.{
  arith, ℕ, ◌+◌, ◌-◌, ◌*◌, ◌≤◌, ◌≡◌, refl, String, Bool, true, Option, some, List, [], ◌∷◌, ok, err,
  ltb, ◌==◌, string_eq, nat_eq, pair_eq,
}
use compilableworld_runtime.Base.Compare.{list_eq, list_beq, pair_beq}
use compilableworld_runtime.Base.Lists.{length}
use compilableworld_runtime.Base.Text.{stripped, comes_before}
use compilableworld_runtime.Base.Dict.{Dict, lookup, insert, remove}
use compilableworld_runtime.Functions.{
  Json, number, text, array, object, nil, cons, end, member, division_by_zero, input_mismatch,
  Arithmetic, get_member,
}
use compilableworld_runtime.Functions.Evaluation.{evaluate_expression}
use compilableworld_runtime.Functions.Validation.{
  validate_expression, validate_entry, validate_entries, validate_function_source,
}
use compilableworld_runtime.Functions.Sound.{Computed, evaluate_expression-Computed}
use compilableworld_runtime.Functions.Registry.{
  uncached, Function, evaluate, sorted, sort_in, key_eq,
}
use compilableworld_runtime.Functions.Cache.{answers, after, fresh, Call, cache_bounded}
use compilableworld_runtime.Functions.Package.{Answered, calls-Answered}

abbrev halves : Arithmetic ℕ
halves = record {
  zero = 0;
  one = 1;
  is_zero = λ a. a == 0;
  add = λ a b. some (a + b);
  sub = λ a b. some (a - b);
  mul = λ a b. some (a * b);
  neg = λ a. 0;
  div = λ a b. some a;
  round = λ a. some a;
  less = ltb;
}

abbrev any_name : String → Bool
any_name s = true

-- (x + 1) / y
abbrev ratio : Json ℕ
ratio = object (
    member "op" (text "div") (
      member "args"
        (array (
          cons
            (object (
              member "op" (text "add") (
                member "args"
                  (array (cons (object (member "ref" (text "x") end)) (cons (number 1) nil))) end)))
            (cons (object (member "ref" (text "y") end)) nil)))
        end))

abbrev document : Json ℕ
document = object (
    member "functions"
      (array (
        cons
          (object (
            member "function_id" (text "ratio") (
              member "version" (text "1") (
                member "purity" (text "pure") (
                  member "inputs"
                    (object (member "x" (text "number") (member "y" (text "number") end)))
                    (member "output" (text "number") (member "expression" ratio end)))))))
          nil))
      end)

abbrev ratio_function : Function ℕ
ratio_function = record { version = "1"; inputs = "x" ∷ "y" ∷ []; expression = ratio }

abbrev functions : Dict String (Function ℕ)
functions = ("ratio", ratio_function) ∷ []

document_is_valid : validate_function_source any_name any_name document ≡ ok functions
unfolding validate_function_source validate_entries validate_entry validate_expression get_member
    lookup insert stripped
document_is_valid = refl

ratio_is_valid : validate_expression ratio_function.inputs ratio ≡ ok tt
unfolding validate_expression get_member lookup
ratio_is_valid = refl

-- The inputs come in two orders, and one call divides by zero.
abbrev calls : List (Call ℕ)
calls =
    ("ratio", ("x", number 4) ∷ ("y", number 2) ∷ [])
    ∷ ("ratio", ("y", number 2) ∷ ("x", number 4) ∷ [])
    ∷ ("ratio", ("x", number 4) ∷ ("y", number 0) ∷ [])
    ∷ ("ratio", ("x", number 4) ∷ [])
    ∷ []

answers_run :
    answers halves calls (fresh halves functions 1)
    ≡ ok 5 ∷ ok 5 ∷ err division_by_zero ∷ err input_mismatch ∷ []
unfolding evaluate evaluate_expression get_member lookup insert remove sorted sort_in comes_before
    list_beq pair_beq
answers_run = refl

second_is_hit : (after halves calls (fresh halves functions 1)).cache_hits ≡ 1
unfolding evaluate evaluate_expression get_member lookup insert remove sorted sort_in comes_before
    list_beq pair_beq
second_is_hit = refl

cache_bounded_example : length (after halves calls (fresh halves functions 1)).cache ≤ 1
cache_bounded_example = cache_bounded halves functions 1 calls (omega arith)

abbrev values : String → Option ℕ
values k = some 3

evaluate_expression-Computed_example : Computed (evaluate_expression halves values ratio)
evaluate_expression-Computed_example =
    evaluate_expression-Computed halves ("x" ∷ "y" ∷ []) values ratio (λ k declared. (3, refl))
      ratio_is_valid

calls-Answered_example : Answered (uncached halves functions "ratio" (("x", number 4) ∷ []))
calls-Answered_example =
    calls-Answered halves any_name any_name document functions "ratio" (("x", number 4) ∷ [])
      document_is_valid
