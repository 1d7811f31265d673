-- ===== src/Functions/Registry.antt =====
-- compilableworld/functions.py: `FunctionRegistry`, which keeps results in an `OrderedDict`, the least
-- recently used first.
use compilableworld_runtime.Base.{
  ℕ, ◌+◌, String, Bool, true, ◌&&◌, Option, none, some, List, [], ◌∷◌, Outcome, ok, err, leb,
  string_eq, nat_eq, pair_eq, if◌then◌else◌,
}
use compilableworld_runtime.Base.Compare.{Eq, list_eq}
use compilableworld_runtime.Base.Lists.{length}
use compilableworld_runtime.Base.Text.{comes_before}
use compilableworld_runtime.Base.Dict.{Dict, lookup, insert, remove, is_in}
use compilableworld_runtime.Base.Raising.{◌>>=◌}
use compilableworld_runtime.Functions.{
  Json, FunctionError, unknown_function, input_mismatch, not_a_number, Arithmetic, number,
  contains_text,
}
use compilableworld_runtime.Functions.Evaluation.{evaluate_expression, some_or}

pub record Function (N : Type 0) : Type 0 where
  pub version : String
  pub inputs : List String
  pub expression : Json N

-- The function's id, its version, and the inputs in the order of their names.
abbrev pub CacheKey : Type 0 → Type 0
CacheKey N = String × (String × List (String × N))

instance abbrev pub key_eq : {N : Type 0} ⦃eq : Eq N⦄ → Eq (CacheKey N)
key_eq = pair_eq

pub record Registry (N : Type 0) : Type 0 where
  pub functions : Dict String (Function N)
  pub max_cache_entries : ℕ
  pub cache : Dict (CacheKey N) N
  pub cache_hits : ℕ
  pub cache_misses : ℕ
  pub cache_evictions : ℕ

module _ {N : Type 0} where
  unfoldable pub sort_in : String × N → List (String × N) → List (String × N)
  sort_in p [] = p ∷ []
  sort_in (k, v) ((j, w) ∷ rest) =
      let later = sort_in (k, v) rest in
      if comes_before j k then (j, w) ∷ later else (k, v) ∷ (j, w) ∷ rest

  -- `sorted(values.items())`.
  unfoldable pub sorted : Dict String N → List (String × N)
  sorted [] = []
  sorted (p ∷ rest) = sort_in p (sorted rest)

  abbrev pub known_names : List String → Dict String (Json N) → Bool
  known_names names [] = true
  known_names names ((k, v) ∷ rest) = contains_text k names && known_names names rest

  abbrev pub all_given : List String → Dict String (Json N) → Bool
  all_given [] values = true
  all_given (k ∷ ks) values = is_in k values && all_given ks values

  -- `any(not _number(value) ...)`, and the numbers if there is none such.
  abbrev pub numbers : Dict String (Json N) → Option (Dict String N)
  numbers [] = some []
  numbers ((k, v) ∷ rest) = elim v [
    | number x ↦ (elim (numbers rest) [ none ↦ none | some xs ↦ some ((k, x) ∷ xs) ])
    | _ ↦ none
  ]

  -- `popitem(last=False)`.
  abbrev pub pop_first : Dict (CacheKey N) N → Dict (CacheKey N) N
  pop_first [] = []
  pop_first (x ∷ xs) = xs

  -- The checks of the inputs.
  abbrev pub check_numbers : Option (Dict String N) → Outcome FunctionError (Dict String N)
  check_numbers o = some_or not_a_number o

  abbrev pub check_inputs :
      Function N → Dict String (Json N) → Outcome FunctionError (Dict String N)
  check_inputs f values =
      if known_names f.inputs values && all_given f.inputs values
      then check_numbers (numbers values)
      else err input_mismatch

module _ {N : Type 0} (n : Arithmetic N) where
  -- The value of a function, without the cache.
  abbrev pub value_of : Function N → Dict String N → Outcome FunctionError N
  value_of f values = evaluate_expression n (λ k. lookup k values) f.expression

  -- A call without the cache: the same checks, and the value.
  abbrev pub uncached :
      Dict String (Function N) → String → Dict String (Json N) → Outcome FunctionError N
  uncached functions function_id values = elim (lookup function_id functions) [
    | none ↦ err unknown_function
    | some f ↦ (check_inputs f values >>= λ xs. value_of f xs)
  ]

module _ {N : Type 0} (n : Arithmetic N) ⦃eq : Eq N⦄ where
  abbrev pub key_of : String → Function N → Dict String N → CacheKey N
  key_of function_id f values = (function_id, (f.version, sorted values))

  -- A result that is found moves to the end of the cache.
  abbrev pub hit : CacheKey N → N → Registry N → Registry N
  hit key result r = record r {
    cache = insert key result (remove key r.cache);
    cache_hits = r.cache_hits + 1;
  }

  abbrev pub missed : Registry N → Registry N
  missed r = record r { cache_misses = r.cache_misses + 1 }

  -- A result that is new drives out the oldest where the cache is full.
  abbrev pub store : CacheKey N → N → Registry N → Registry N
  store key result r =
      if leb r.max_cache_entries (length r.cache)
      then record r {
        cache = insert key result (pop_first r.cache);
        cache_evictions = r.cache_evictions + 1;
      }
      else record r { cache = insert key result r.cache }

  abbrev pub stored :
      CacheKey N → Outcome FunctionError N → Registry N → Outcome FunctionError N × Registry N
  stored key (err e) r = (err e, r)
  stored key (ok result) r = (ok result, store key result r)

  abbrev pub answer :
      CacheKey N
      → Outcome FunctionError N
      → Option N
      → Registry N
      → Outcome FunctionError N × Registry N
  answer key value (some result) r = (ok result, hit key result r)
  answer key value none r = stored key value (missed r)

  abbrev pub evaluate_on :
      String
      → Function N
      → Outcome FunctionError (Dict String N)
      → Registry N
      → Outcome FunctionError N × Registry N
  evaluate_on function_id f (err e) r = (err e, r)
  evaluate_on function_id f (ok values) r =
      answer (key_of function_id f values) (value_of n f values)
        (lookup (key_of function_id f values) r.cache) r

  abbrev pub evaluate_known :
      String
      → Dict String (Json N)
      → Option (Function N)
      → Registry N
      → Outcome FunctionError N × Registry N
  evaluate_known function_id values none r = (err unknown_function, r)
  evaluate_known function_id values (some f) r = evaluate_on function_id f (check_inputs f values) r

  -- `FunctionRegistry.evaluate`.
  unfoldable pub evaluate :
      String → Dict String (Json N) → Registry N → Outcome FunctionError N × Registry N
  evaluate function_id values r =
      evaluate_known function_id values (lookup function_id r.functions) r

  -- `clear_cache`.
  pub clear_cache : Registry N → Registry N
  clear_cache r = record r { cache = []; cache_hits = 0; cache_misses = 0; cache_evictions = 0 }

  -- `has`.
  pub has : String → Registry N → Bool
  has function_id r = is_in function_id r.functions
