-- ===== src/Functions/Package.antt =====
-- compilableworld/functions.py: `FunctionRegistry` over a document that `validate_function_source` lets
-- through.
use compilableworld_runtime.Base.{
  arith, ◌≡◌, ◌∙◌, refl, sym, ap, String, Bool, true, false, ◌&&◌, Option, none, some, List, [],
  ◌∷◌, Outcome, ok, err, ◌==◌, string_eq, Bool-cases, inl, inr,
}
use compilableworld_runtime.Base.Raising.{◌>>=◌, bind-ok}
use compilableworld_runtime.Base.Lists.{All}
use compilableworld_runtime.Base.Dict.{Dict, lookup, insert, is_in}
use compilableworld_runtime.Functions.{
  Json, Jsons, Members, number, object, nil, cons, FunctionError, unknown_function,
  division_by_zero, clamp_order, arithmetic_error, input_mismatch, not_a_number, Arithmetic,
  contains_text, get_member,
}
use compilableworld_runtime.Functions.Validation.{
  entries_of, validate_expression, validate_entry, validate_entries, validate_function_source,
}
use compilableworld_runtime.Functions.Registry.{
  uncached, Function, known_names, all_given, numbers, check_inputs, check_numbers, value_of,
}
use compilableworld_runtime.Functions.Sound.{
  Arithmetical, Computed, Covers, evaluate_expression-Computed,
}
use compilableworld_runtime.Base.Dict.Entries.{All-lookup, All-insert}

-- The errors of a call: those of its arguments, and those of the arithmetic.
abbrev pub CallError : FunctionError → Type 0
CallError unknown_function = Unit
CallError input_mismatch = Unit
CallError not_a_number = Unit
CallError e = Arithmetical e

abbrev pub Answered {ℓ} : {A : Type ℓ} → Outcome FunctionError A → Type 0
Answered (ok a) = Unit
Answered (err e) = CallError e

module _ {N : Type 0} where
  abbrev Valid : String × Function N → Type 0
  Valid (k, f) = validate_expression f.inputs f.expression ≡ ok tt

  -- From the numbers of the other inputs to those of all.
  given-cons :
      (k j : String) (x : N) (rest : Dict String (Json N)) (m : Dict String N)
      (o : Option (Dict String N))
      → numbers rest ≡ o
      → numbers ((j, number x) ∷ rest) ≡ some m
      → ((t : Dict String N) → o ≡ some t → (j == k) ≡ false → (y : N) × (lookup k t ≡ some y))
      → (y : N) × (lookup k m ≡ some y)
  unfolding lookup
  given-cons k j x rest m none e h later = absurd (ground (arith, h, e))
  given-cons k j x rest m (some t) e h later = elim (Bool-cases (j == k)) [
    | inl same ↦ (x, ground (arith, h, e, same))
    | inr other ↦ let (y, found) = later t refl other in (y, ground (arith, h, e, other, found))
  ]

  -- Every input that was given has a number.
  given-number :
      (k : String) (values : Dict String (Json N)) (m : Dict String N)
      → numbers values ≡ some m
      → is_in k values ≡ true
      → (x : N) × (lookup k m ≡ some x)
  unfolding lookup
  given-number k [] m h given = cc
  given-number k ((j, number x) ∷ rest) m h given =
      given-cons k j x rest m (numbers rest) refl h
        (λ t e other. given-number k rest t e (ground (arith, given, other)))
  given-number k ((j, v) ∷ rest) m h given = absurd (ground (arith, h))

  all_given-is_in :
      (k : String) (names : List String) (values : Dict String (Json N))
      → all_given names values ≡ true
      → contains_text k names ≡ true
      → is_in k values ≡ true
  all_given-is_in k [] values h member' = cc
  all_given-is_in k (j ∷ js) values h member' = elim (Bool-cases (j == k)) [
    | inl same ↦
        let e : j ≡ k = (string_eq.beq_iff j k).0 same in
        ap (λ i. is_in i values) (sym e) ∙ ground arith
    | inr other ↦ all_given-is_in k js values (ground arith) (ground arith)
  ]

  refused_numbers :
      (o : Option (Dict String N)) (e : FunctionError) → check_numbers o ≡ err e → CallError e
  refused_numbers none e h = let same : not_a_number ≡ e = ground (arith, h) in rw (← same) tt
  refused_numbers (some m) e h = cc

  check_inputs-CallError :
      (f : Function N) (values : Dict String (Json N)) (e : FunctionError)
      → check_inputs f values ≡ err e
      → CallError e
  check_inputs-CallError f values e h =
      elim (Bool-cases (known_names f.inputs values && all_given f.inputs values)) [
        | inl fit ↦ refused_numbers (numbers values) e (ground (arith, h, fit))
        | inr unfit ↦ let same : input_mismatch ≡ e = ground (arith, h, unfit) in rw (← same) tt
      ]

  module _ (function_id_re input_name_re : String → Bool) where
    validate_entry-Valid :
        (seen : Dict String (Function N)) (x : Json N) (p : String × Function N)
        → validate_entry function_id_re input_name_re seen x ≡ ok p
        → Valid p
    unfolding validate_entry
    validate_entry-Valid seen (object ms) p h = ground (arith, h)
    validate_entry-Valid seen x p h = cc

    -- Every function of the dictionary was let through.
    validate_entries-Valid :
        (seen fs : Dict String (Function N)) (xs : Jsons N)
        → All Valid seen
        → validate_entries function_id_re input_name_re seen xs ≡ ok fs
        → All Valid fs
    unfolding validate_entries
    validate_entries-Valid seen fs nil valid h =
        let same : seen ≡ fs = ground (arith, h) in rw (← same) valid
    validate_entries-Valid seen fs (cons x xs) valid h =
        let (p, entry, rest) =
          bind-ok (validate_entry function_id_re input_name_re seen x)
            (λ (p : String × Function N).
              validate_entries function_id_re input_name_re (insert p.0 p.1 seen) xs)
            h in
        validate_entries-Valid (insert p.0 p.1 seen) fs xs
          (All-insert Valid p.0 p.1 seen (validate_entry-Valid seen x p entry) valid) rest

    source_entries :
        (ms : Members N) (fs : Dict String (Function N))
        → validate_function_source function_id_re input_name_re (object ms) ≡ ok fs
        → (xs : Jsons N) × (validate_entries function_id_re input_name_re [] xs ≡ ok fs)
    unfolding validate_function_source
    source_entries ms fs h =
        go (entries_of function_id_re input_name_re (get_member "functions" ms)) (ground (arith, h))
      where
        go :
            (o : Outcome FunctionError (Jsons N))
            → (o >>= λ xs. validate_entries function_id_re input_name_re [] xs) ≡ ok fs
            → (xs : Jsons N) × (validate_entries function_id_re input_name_re [] xs ≡ ok fs)
        go (ok xs) e = (xs, e)
        go (err x) e = cc

    validate_function_source-Valid :
        (source : Json N) (fs : Dict String (Function N))
        → validate_function_source function_id_re input_name_re source ≡ ok fs
        → All Valid fs
    unfolding validate_function_source
    validate_function_source-Valid (object ms) fs h =
        let (xs, e) = source_entries ms fs h in validate_entries-Valid [] fs xs tt e
    validate_function_source-Valid source fs h = cc

module _ {N : Type 0} (n : Arithmetic N) where
  check_inputs-Covers :
      (f : Function N) (values : Dict String (Json N)) (m : Dict String N)
      → check_inputs f values ≡ ok m
      → Covers n f.inputs (λ k. lookup k m)
  check_inputs-Covers f values m h k declared =
      given-number k values m (ground (arith, h))
        (all_given-is_in k f.inputs values (ground (arith, h)) declared)

  Computed-Answered : (o : Outcome FunctionError N) → Computed o → Answered o
  Computed-Answered (ok x) c = tt
  Computed-Answered (err division_by_zero) c = tt
  Computed-Answered (err clamp_order) c = tt
  Computed-Answered (err arithmetic_error) c = tt
  Computed-Answered (err e) c = absurd c

  checked-Answered :
      (f : Function N) (values : Dict String (Json N)) (o : Outcome FunctionError (Dict String N))
      → validate_expression f.inputs f.expression ≡ ok tt
      → check_inputs f values ≡ o
      → Answered (o >>= λ xs. value_of n f xs)
  checked-Answered f values (ok m) valid e = Computed-Answered (value_of n f m) (
      evaluate_expression-Computed n f.inputs (λ k. lookup k m) f.expression
        (check_inputs-Covers f values m e) valid)
  checked-Answered f values (err x) valid e = check_inputs-CallError f values x e

  -- For the functions of a document that `validate_function_source` lets through, an arithmetic that
  -- may raise, and any call of any function with any inputs, without the cache: the answer is a number,
  -- or the error of an unknown function, of inputs that do not match or are no numbers, or one of the
  -- arithmetic; the code never meets a missing key, a wrong number of arguments or a value of the
  -- wrong type.
  pub calls-Answered :
      (function_id_re input_name_re : String → Bool) (source : Json N)
      (fs : Dict String (Function N)) (function_id : String) (values : Dict String (Json N))
      → validate_function_source function_id_re input_name_re source ≡ ok fs
      → Answered (uncached n fs function_id values)
  calls-Answered function_id_re input_name_re source fs function_id values h =
      go (lookup function_id fs) refl
    where
      go :
          (o : Option (Function N))
          → lookup function_id fs ≡ o
          → Answered (elim o [
            | none ↦ err unknown_function
            | some f ↦ (check_inputs f values >>= λ xs. value_of n f xs)
          ])
      go none e = tt
      go (some f) e =
          checked-Answered f values (check_inputs f values)
            (All-lookup Valid function_id f fs
              (validate_function_source-Valid function_id_re input_name_re source fs h) e)
            refl
