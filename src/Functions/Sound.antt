-- ===== src/Functions/Sound.antt =====
-- compilableworld/functions.py: an expression that `_validate_expression` lets through is evaluated
-- without a look-up that fails.
use compilableworld_runtime.Base.{
  arith, ℕ, ◌≡◌, ◌∙◌, refl, sym, ap, String, Bool, true, false, Option, none, some, List, [], ◌∷◌,
  Outcome, ok, err, guard, ◌==◌, string_eq, nat_eq, if_rule, Bool-cases, inl, inr,
}
use compilableworld_runtime.Base.Raising.{◌>>=◌, ◌>>◌}
use compilableworld_runtime.Base.Lists.{length}
use compilableworld_runtime.Base.Dict.{lookup}
use compilableworld_runtime.Functions.{
  Json, Jsons, Members, null, bool, number, text, array, object, nil, cons, end, member,
  FunctionError, bad_arity, division_by_zero, clamp_order, arithmetic_error, key_error, Arithmetic,
  get_member, has_member, contains_text, exactly,
}
use compilableworld_runtime.Functions.Evaluation.{
  evaluate_expression, evaluate_args, evaluate_children, evaluate_list, evaluate_members, apply_op,
  apply_named, sum_from, product_from, divide, subtract, smallest, largest, negate, rounded, clamp,
  some_or, look_up, as_number,
}
use compilableworld_runtime.Functions.Validation.{
  validate_expression, validate_args, validate_children, validate_list, validate_members, arity,
  fits, operation, argument_count, is_input, is_number,
}

-- A value, or an error of the arithmetic itself.
abbrev pub Arithmetical : FunctionError → Type 0
Arithmetical division_by_zero = Unit
Arithmetical clamp_order = Unit
Arithmetical arithmetic_error = Unit
Arithmetical e = ⊥

abbrev pub Computed {ℓ} : {A : Type ℓ} → Outcome FunctionError A → Type 0
Computed (ok a) = Unit
Computed (err e) = Arithmetical e

guard-true : (b : Bool) (e : FunctionError) {u : Unit {0}} → guard b e ≡ ok u → b ≡ true
guard-true true e h = refl
guard-true false e h = cc

-- The operation's part of `_validate_expression`, where it ends without an error.
operation_parts :
    (t : Bool) (o : Outcome FunctionError (ℕ × Option ℕ)) (c : Outcome FunctionError ℕ)
    (children : Outcome FunctionError (Unit {0}))
    → (guard t bad_arity >> (o >>= λ a. c >>= λ count. guard (fits count a) bad_arity >> children))
      ≡ ok tt
    → (a : ℕ × Option ℕ) × (count : ℕ) × (o ≡ ok a)
      × (c ≡ ok count)
      × (fits count a ≡ true)
      × (children ≡ ok tt)
operation_parts true (ok a) (ok count) children h = elim (Bool-cases (fits count a)) [
  | inl fit ↦ (a, count, refl, refl, fit, ground (arith, h, fit))
  | inr not_fit ↦ absurd (ground (arith, h, not_fit))
]
operation_parts true (ok a) (err e) children h = cc
operation_parts true (err e) c children h = cc
operation_parts false o c children h = cc

module _ {N : Type 0} (n : Arithmetic N) where
  arithmetic-Computed : (o : Option N) → Computed (some_or arithmetic_error o)
  arithmetic-Computed none = tt
  arithmetic-Computed (some x) = tt

  divide-Computed : (ys : List N) → fits (length ys) (2, some 2) ≡ true → Computed (divide n ys)
  divide-Computed [] h = absurd (ground (arith, h))
  divide-Computed (x ∷ []) h = absurd (ground (arith, h))
  divide-Computed (x ∷ y ∷ ys) h =
      if_rule Computed (n.is_zero y) (λ _. tt) (λ _. arithmetic-Computed (n.div x y))

  subtract-Computed : (ys : List N) → fits (length ys) (2, some 2) ≡ true → Computed (subtract n ys)
  subtract-Computed [] h = absurd (ground (arith, h))
  subtract-Computed (x ∷ []) h = absurd (ground (arith, h))
  subtract-Computed (x ∷ y ∷ ys) h = arithmetic-Computed (n.sub x y)

  sum-Computed : (acc : N) (ys : List N) → Computed (sum_from n acc ys)
  sum-Computed acc [] = tt
  sum-Computed acc (x ∷ ys) = go (n.add acc x) (λ s. sum-Computed s ys)
    where
      go :
          (o : Option N)
          → ((s : N) → Computed (sum_from n s ys))
          → Computed (some_or arithmetic_error o >>= λ s. sum_from n s ys)
      go none rest = tt
      go (some s) rest = rest s

  product-Computed : (acc : N) (ys : List N) → Computed (product_from n acc ys)
  product-Computed acc [] = tt
  product-Computed acc (x ∷ ys) = go (n.mul acc x) (λ s. product-Computed s ys)
    where
      go :
          (o : Option N)
          → ((s : N) → Computed (product_from n s ys))
          → Computed (some_or arithmetic_error o >>= λ s. product_from n s ys)
      go none rest = tt
      go (some s) rest = rest s

  smallest-Computed : (ys : List N) → fits (length ys) (1, none) ≡ true → Computed (smallest n ys)
  smallest-Computed [] h = absurd (ground (arith, h))
  smallest-Computed (x ∷ ys) h = tt

  largest-Computed : (ys : List N) → fits (length ys) (1, none) ≡ true → Computed (largest n ys)
  largest-Computed [] h = absurd (ground (arith, h))
  largest-Computed (x ∷ ys) h = tt

  negate-Computed : (ys : List N) → fits (length ys) (1, some 1) ≡ true → Computed (negate n ys)
  negate-Computed [] h = absurd (ground (arith, h))
  negate-Computed (x ∷ ys) h = tt

  rounded-Computed : (ys : List N) → fits (length ys) (1, some 1) ≡ true → Computed (rounded n ys)
  rounded-Computed [] h = absurd (ground (arith, h))
  rounded-Computed (x ∷ ys) h = arithmetic-Computed (n.round x)

  clamp-Computed : (ys : List N) → fits (length ys) (3, some 3) ≡ true → Computed (clamp n ys)
  clamp-Computed (x ∷ y ∷ z ∷ []) h = if_rule Computed (n.less z y) (λ _. tt) (λ _. tt)
  clamp-Computed [] h = absurd (ground (arith, h))
  clamp-Computed (x ∷ []) h = absurd (ground (arith, h))
  clamp-Computed (x ∷ y ∷ []) h = absurd (ground (arith, h))
  clamp-Computed (x ∷ y ∷ z ∷ u ∷ ys) h = absurd (ground (arith, h))

  apply_op-Computed :
      (op : String) (a : ℕ × Option ℕ) (ys : List N)
      → arity op ≡ some a
      → fits (length ys) a ≡ true
      → Computed (apply_op n op ys)
  unfolding lookup
  apply_op-Computed op a ys h f =
      if_rule Computed ("add" == op) (λ _. sum-Computed n.zero ys)
        (λ e1.
          if_rule Computed ("sub" == op) (λ e. subtract-Computed ys (ground arith))
            (λ e2.
              if_rule Computed ("mul" == op) (λ _. product-Computed n.one ys)
                (λ e3.
                  if_rule Computed ("div" == op) (λ e. divide-Computed ys (ground arith))
                    (λ e4.
                      if_rule Computed ("min" == op) (λ e. smallest-Computed ys (ground arith))
                        (λ e5.
                          if_rule Computed ("max" == op) (λ e. largest-Computed ys (ground arith))
                            (λ e6.
                              if_rule Computed ("neg" == op)
                                (λ e. negate-Computed ys (ground arith))
                                (λ e7.
                                  if_rule Computed ("round" == op)
                                    (λ e.
                                      let same = ap arity ((string_eq.beq_iff "round" op).0 e) in
                                      rounded-Computed ys (ground (arith, same)))
                                    (λ e8.
                                      if_rule Computed ("clamp" == op)
                                        (λ e. clamp-Computed ys (ground arith))
                                        (λ e9. absurd (ground arith))))))))))

  -- There are as many results as arguments.
  abbrev pub Counted : Option (Json N) → Outcome FunctionError (List N) → Type 0
  Counted v (ok ys) = argument_count v ≡ ok (length ys)
  Counted v (err e) = Arithmetical e

  -- The names of the inputs have values.
  abbrev pub Covers : List String → (String → Option N) → Type 0
  Covers inputs values =
      (k : String) → contains_text k inputs ≡ true → (x : N) × (values k ≡ some x)

  look_up-Computed :
      (inputs : List String) (values : String → Option N) (v : Option (Json N))
      → Covers inputs values
      → is_input inputs v ≡ true
      → Computed (look_up n values v)
  look_up-Computed inputs values (some (text k)) cover h = let (x, e) = cover k h in rw e tt
  look_up-Computed inputs values none cover h = absurd (ground (arith, h))
  look_up-Computed inputs values (some v) cover h = absurd (ground (arith, h))

  as_number-Computed : (v : Option (Json N)) → is_number v ≡ true → Computed (as_number n v)
  as_number-Computed (some (number x)) h = tt
  as_number-Computed none h = absurd (ground (arith, h))
  as_number-Computed (some v) h = absurd (ground (arith, h))

  -- The results are put together by an operation with as many arguments as it takes.
  apply_all-Computed :
      (op : String) (a : ℕ × Option ℕ) (v : Option (Json N)) (count : ℕ)
      (args : Outcome FunctionError (List N))
      → arity op ≡ some a
      → argument_count v ≡ ok count
      → fits count a ≡ true
      → Counted v args
      → Computed (args >>= λ xs. apply_named n (some (text op)) xs)
  apply_all-Computed op a v count (ok ys) known counted f c =
      let same : count ≡ length ys = ground (arith, c, counted) in
      apply_op-Computed op a ys known (ap (λ m. fits m a) (sym same) ∙ f)
  apply_all-Computed op a v count (err e) known counted f c = c

  operation-Computed :
      (o v : Option (Json N)) (a : ℕ × Option ℕ) (count : ℕ) (args : Outcome FunctionError (List N))
      → operation o ≡ ok a
      → argument_count v ≡ ok count
      → fits count a ≡ true
      → Counted v args
      → Computed (some_or key_error o >>= λ op. args >>= λ xs. apply_named n (some op) xs)
  operation-Computed (some (text op)) v a count args h counted f c =
      apply_all-Computed op a v count args (ground (arith, h)) counted f c
  operation-Computed none v a count args h counted f c = absurd (ground (arith, h))
  operation-Computed (some o) v a count args h counted f c = absurd (ground (arith, h))

  members-Computed :
      (inputs : List String) (values : String → Option N) (ms : Members N)
      (children : Outcome FunctionError (Unit {0})) (args : Outcome FunctionError (List N))
      → Covers inputs values
      → validate_members inputs ms children ≡ ok tt
      → (children ≡ ok tt → Counted (get_member "args" ms) args)
      → Computed (evaluate_members n values ms args)
  members-Computed inputs values ms children args cover h k =
      if_rule Computed (has_member "ref" ms)
        (λ e. look_up-Computed inputs values (get_member "ref" ms) cover (ground arith))
        (λ e1.
          if_rule Computed (has_member "const" ms)
            (λ e. as_number-Computed (get_member "const" ms) (ground arith))
            (λ e2.
              let (a, count, known, counted, fit, ran) =
                operation_parts (exactly ("op" ∷ "args" ∷ []) ms) (operation (get_member "op" ms))
                  (argument_count (get_member "args" ms)) children (ground arith) in
              operation-Computed (get_member "op" ms) (get_member "args" ms) a count args known
                counted fit (k ran)))

  -- One more argument, and its result.
  cons-Counted :
      (x : Json N) (xs : Jsons N) (y : Outcome FunctionError N)
      (ys : Outcome FunctionError (List N))
      → Computed y
      → Counted (some (array xs)) ys
      → Counted (some (array (cons x xs))) (y >>= λ r. ys >>= λ rs. ok (r ∷ rs))
  cons-Counted x xs (ok y) (ok ys) p c = ground (arith, c)
  cons-Counted x xs (ok y) (err e) p c = c
  cons-Counted x xs (err e) ys p c = p

  both_ok : (o p : Outcome FunctionError (Unit {0})) → (o >> p) ≡ ok tt → (o ≡ ok tt) × (p ≡ ok tt)
  both_ok (ok u) p h = (refl, h)
  both_ok (err e) p h = cc

  mutual
    unfolding validate_expression evaluate_expression get_member

    expression-Computed :
        (inputs : List String) (values : String → Option N) (e : Json N)
        → Covers inputs values
        → validate_expression inputs e ≡ ok tt
        → Computed (evaluate_expression n values e)
    expression-Computed inputs values (number x) cover h = tt
    expression-Computed inputs values (object ms) cover h =
        members-Computed inputs values ms (validate_args inputs ms) (evaluate_args n values ms)
          cover h (args-Counted inputs values ms cover)
    expression-Computed inputs values (text s) cover h = cc
    expression-Computed inputs values (array xs) cover h = cc
    expression-Computed inputs values null cover h = cc
    expression-Computed inputs values (bool b) cover h = cc

    args-Counted :
        (inputs : List String) (values : String → Option N) (ms : Members N)
        → Covers inputs values
        → validate_args inputs ms ≡ ok tt
        → Counted (get_member "args" ms) (evaluate_args n values ms)
    args-Counted inputs values end cover h = cc
    args-Counted inputs values (member k v rest) cover h =
        let here = children-Counted inputs values v cover in
        let later = args-Counted inputs values rest cover in
        elim (Bool-cases (k == "args")) [
          | inl named ↦ rw named (here (ground (arith, h, named)))
          | inr other ↦ rw other (later (ground (arith, h, other)))
        ]

    children-Counted :
        (inputs : List String) (values : String → Option N) (v : Json N)
        → Covers inputs values
        → validate_children inputs v ≡ ok tt
        → Counted (some v) (evaluate_children n values v)
    children-Counted inputs values (array xs) cover h = list-Counted inputs values xs cover h
    children-Counted inputs values (number x) cover h = cc
    children-Counted inputs values (object ms) cover h = cc
    children-Counted inputs values (text s) cover h = cc
    children-Counted inputs values null cover h = cc
    children-Counted inputs values (bool b) cover h = cc

    list-Counted :
        (inputs : List String) (values : String → Option N) (xs : Jsons N)
        → Covers inputs values
        → validate_list inputs xs ≡ ok tt
        → Counted (some (array xs)) (evaluate_list n values xs)
    list-Counted inputs values nil cover h = refl
    list-Counted inputs values (cons x xs) cover h =
        let (first, rest) = both_ok (validate_expression inputs x) (validate_list inputs xs) h in
        cons-Counted x xs (evaluate_expression n values x) (evaluate_list n values xs)
          (expression-Computed inputs values x cover first)
          (list-Counted inputs values xs cover rest)

  -- An expression that `_validate_expression` lets through, evaluated with a value for each declared
  -- input: the result is a number, or the error of a division by zero, of a `clamp` whose bounds are
  -- out of order, or of an operation that the interpreter's arithmetic refuses. No look-up of an input
  -- fails, no operation is unknown, and none has too few or too many arguments.
  pub evaluate_expression-Computed :
      (inputs : List String) (values : String → Option N) (e : Json N)
      → Covers inputs values
      → validate_expression inputs e ≡ ok tt
      → Computed (evaluate_expression n values e)
  evaluate_expression-Computed inputs values e cover h = expression-Computed inputs values e cover h
