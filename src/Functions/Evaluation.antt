-- ===== src/Functions/Evaluation.antt =====
-- compilableworld/functions.py: `_evaluate_expression`.
use compilableworld_runtime.Base.{
  String, Option, none, some, List, [], ◌∷◌, Outcome, ok, err, ◌==◌, string_eq, if◌then◌else◌,
}
use compilableworld_runtime.Base.Raising.{◌>>=◌}
use compilableworld_runtime.Functions.{
  Json, Jsons, Members, number, text, array, object, nil, cons, end, member, FunctionError,
  division_by_zero, clamp_order, arithmetic_error, bad_operation, key_error, wrong_count,
  type_error, Arithmetic, get_member, has_member,
}

abbrev pub some_or {ℓ} : {A : Type ℓ} → FunctionError → Option A → Outcome FunctionError A
some_or e none = err e
some_or e (some a) = ok a

module _ {N : Type 0} (n : Arithmetic N) where
  abbrev pub sum_from : N → List N → Outcome FunctionError N
  sum_from acc [] = ok acc
  sum_from acc (x ∷ xs) = some_or arithmetic_error (n.add acc x) >>= λ s. sum_from s xs

  abbrev pub product_from : N → List N → Outcome FunctionError N
  product_from acc [] = ok acc
  product_from acc (x ∷ xs) = some_or arithmetic_error (n.mul acc x) >>= λ s. product_from s xs

  -- `min` and `max` keep the first of the numbers that are equal.
  abbrev pub min_from : N → List N → N
  min_from best [] = best
  min_from best (x ∷ xs) = min_from (if n.less x best then x else best) xs

  abbrev pub max_from : N → List N → N
  max_from best [] = best
  max_from best (x ∷ xs) = max_from (if n.less best x then x else best) xs

  abbrev pub divide : List N → Outcome FunctionError N
  divide (a ∷ b ∷ rest) =
      if n.is_zero b then err division_by_zero else some_or arithmetic_error (n.div a b)
  divide _ = err wrong_count

  abbrev pub subtract : List N → Outcome FunctionError N
  subtract (a ∷ b ∷ rest) = some_or arithmetic_error (n.sub a b)
  subtract _ = err wrong_count

  abbrev pub smallest : List N → Outcome FunctionError N
  smallest [] = err wrong_count
  smallest (x ∷ xs) = ok (min_from x xs)

  abbrev pub largest : List N → Outcome FunctionError N
  largest [] = err wrong_count
  largest (x ∷ xs) = ok (max_from x xs)

  abbrev pub negate : List N → Outcome FunctionError N
  negate [] = err wrong_count
  negate (x ∷ xs) = ok (n.neg x)

  abbrev pub rounded : List N → Outcome FunctionError N
  rounded [] = err wrong_count
  rounded (x ∷ xs) = some_or arithmetic_error (n.round x)

  abbrev pub clamp : List N → Outcome FunctionError N
  clamp (value ∷ minimum ∷ maximum ∷ []) =
      if n.less maximum minimum
      then err clamp_order
      else ok (min_from maximum (max_from minimum (value ∷ []) ∷ []))
  clamp _ = err wrong_count

  abbrev pub apply_op : String → List N → Outcome FunctionError N
  apply_op op args =
      if "add" == op
      then sum_from n.zero args
      else if "sub" == op
      then subtract args
      else if "mul" == op
      then product_from n.one args
      else if "div" == op
      then divide args
      else if "min" == op
      then smallest args
      else if "max" == op
      then largest args
      else if "neg" == op
      then negate args
      else if "round" == op
      then rounded args
      else if "clamp" == op
      then clamp args
      else err bad_operation

  abbrev pub as_number : Option (Json N) → Outcome FunctionError N
  as_number (some (number x)) = ok x
  as_number _ = err type_error

  -- `values[expression["ref"]]`.
  abbrev pub look_up : (String → Option N) → Option (Json N) → Outcome FunctionError N
  look_up values (some (text k)) = some_or key_error (values k)
  look_up values _ = err key_error

  abbrev pub apply_named : Option (Json N) → List N → Outcome FunctionError N
  apply_named (some (text op)) args = apply_op op args
  apply_named _ args = err bad_operation

  -- The cases of an object, of whose `args` the results are given.
  abbrev pub evaluate_members :
      (String → Option N) → Members N → Outcome FunctionError (List N) → Outcome FunctionError N
  evaluate_members values ms args =
      if has_member "ref" ms
      then look_up values (get_member "ref" ms)
      else if has_member "const" ms
      then as_number (get_member "const" ms)
      else (some_or key_error (get_member "op" ms) >>= λ op.
          args >>= λ xs. apply_named (some op) xs)

  unfoldable mutual
    pub evaluate_expression : (String → Option N) → Json N → Outcome FunctionError N
    evaluate_expression values (number x) = ok x
    evaluate_expression values (object ms) = evaluate_members values ms (evaluate_args values ms)
    evaluate_expression values _ = err type_error

    -- `[_evaluate_expression(child, values) for child in expression["args"]]`.
    pub evaluate_args : (String → Option N) → Members N → Outcome FunctionError (List N)
    evaluate_args values end = err key_error
    evaluate_args values (member k v rest) =
        let others = evaluate_args values rest in
        let here = evaluate_children values v in if k == "args" then here else others

    pub evaluate_children : (String → Option N) → Json N → Outcome FunctionError (List N)
    evaluate_children values (array xs) = evaluate_list values xs
    evaluate_children values _ = err type_error

    pub evaluate_list : (String → Option N) → Jsons N → Outcome FunctionError (List N)
    evaluate_list values nil = ok []
    evaluate_list values (cons x xs) =
        evaluate_expression values x >>= λ y. evaluate_list values xs >>= λ ys. ok (y ∷ ys)
