-- ===== src/Functions/Cache.antt =====
-- compilableworld/functions.py: what the cache of `FunctionRegistry` holds after any calls.
use compilableworld_runtime.Base.{
  arith, ℕ, ◌+◌, ◌≤◌, ◌≡◌, ◌∙◌, refl, sym, ap, String, Option, none, some, List, [], ◌∷◌, Outcome,
  ok, err, ◌==◌, leb, leb→le, string_eq, nat_eq, pair_eq, if◌then◌else◌, Bool-cases, inl, inr,
}
use mathlib.Core.Path.{fun_ext}
use compilableworld_runtime.Base.Raising.{◌>>=◌}
use compilableworld_runtime.Base.Compare.{Eq, list_eq}
use compilableworld_runtime.Base.Lists.{length, All}
use compilableworld_runtime.Base.Text.{comes_before}
use compilableworld_runtime.Base.Dict.{Dict, lookup, remove}
use compilableworld_runtime.Base.Dict.Entries.{
  All-lookup, All-remove, All-insert, length-insert, length-remove_found,
}
use compilableworld_runtime.Functions.{Json, FunctionError, unknown_function, Arithmetic}
use compilableworld_runtime.Functions.Evaluation.{evaluate_expression}
use compilableworld_runtime.Functions.Registry.{
  Function, CacheKey, key_eq, Registry, sort_in, sorted, pop_first, check_inputs, value_of, key_of,
  uncached, hit, missed, store, stored, answer, evaluate_on, evaluate_known, evaluate,
}

module _ {N : Type 0} where
  lookup-sort_in :
      (k : String) (p : String × N) (m : Dict String N) → lookup k (sort_in p m) ≡ lookup k (p ∷ m)
  unfolding lookup sort_in comes_before
  lookup-sort_in k p [] = refl
  lookup-sort_in k (i, v) ((j, w) ∷ m) = ground (
    arith,
    lookup-sort_in k (i, v) m,
    string_eq.beq_iff j i,
    string_eq.beq_iff j k,
    string_eq.beq_iff i k,
  )

  lookup-sorted : (k : String) (m : Dict String N) → lookup k (sorted m) ≡ lookup k m
  unfolding sorted lookup
  lookup-sorted k [] = refl
  lookup-sorted k ((j, v) ∷ m) =
      lookup-sort_in k (j, v) (sorted m)
      ∙ ap (λ o. if j == k then some v else o) (lookup-sorted k m)

abbrev pub Call : Type 0 → Type 0
Call N = String × Dict String (Json N)

module _ {N : Type 0} (n : Arithmetic N) ⦃eq : Eq N⦄ where
  -- A cache entry holds what its function gives for its inputs.
  pub record Held (functions : Dict String (Function N)) (entry : CacheKey N × N) : Type 0 where
    pub function : Function N
    pub known : lookup entry.0.0 functions ≡ some function
    pub value : evaluate_expression n (λ k. lookup k entry.0.1.1) function.expression ≡ ok entry.1

  pub record Consistent (r : Registry N) : Type 0 where
    pub held : All (Held r.functions) r.cache
    pub bounded : length r.cache ≤ r.max_cache_entries
    pub room : 1 ≤ r.max_cache_entries

  value_of-sorted : (f : Function N) (m : Dict String N) → value_of n f (sorted m) ≡ value_of n f m
  value_of-sorted f m =
      ap (λ values. evaluate_expression n values f.expression) (fun_ext (λ k. lookup-sorted k m))

  -- An entry for the inputs `m` holds the value for them.
  held_value :
      (functions : Dict String (Function N)) (function_id : String) (f : Function N)
      (m : Dict String N) (result : N)
      → lookup function_id functions ≡ some f
      → Held functions (key_of n function_id f m, result)
      → value_of n f m ≡ ok result
  held_value functions function_id f m result known h =
      let same : h.function ≡ f = ground (arith, h.known, known) in
      sym (value_of-sorted f m)
      ∙ ap (λ (g : Function N). evaluate_expression n (λ k. lookup k (sorted m)) g.expression)
          (sym same)
      ∙ h.value

  hit-Consistent :
      (key : CacheKey N) (result : N) (r : Registry N)
      → Consistent r
      → lookup key r.cache ≡ some result
      → Consistent (hit n key result r)
  hit-Consistent key result r c found = record {
    held =
        let P = Held r.functions in
        All-insert P key result (remove key r.cache) (All-lookup P key result r.cache c.held found)
          (All-remove P key r.cache c.held);
    bounded = omega (
      arith,
      length-insert key result (remove key r.cache),
      length-remove_found key result r.cache found,
      c.bounded,
    );
    room = c.room;
  }

  pop_first-All :
      (P : CacheKey N × N → Type 0) (m : Dict (CacheKey N) N) → All P m → All P (pop_first m)
  pop_first-All P [] h = tt
  pop_first-All P (x ∷ xs) (p, h) = h

  length-pop_first : (m : Dict (CacheKey N) N) → 1 ≤ length m → length (pop_first m) + 1 ≤ length m
  length-pop_first [] h = omega (arith, h)
  length-pop_first (x ∷ xs) h = omega arith

  store-Consistent :
      (key : CacheKey N) (result : N) (r : Registry N)
      → Consistent r
      → Held r.functions (key, result)
      → Consistent (store n key result r)
  store-Consistent key result r c new =
      elim (Bool-cases (leb r.max_cache_entries (length r.cache))) [
        | inl full ↦ rw full (record {
          held =
              All-insert (Held r.functions) key result (pop_first r.cache) new
                (pop_first-All (Held r.functions) r.cache c.held);
          bounded =
              let many = leb→le r.max_cache_entries (length r.cache) full in
              omega (
                arith,
                length-insert key result (pop_first r.cache),
                length-pop_first r.cache (omega (arith, many, c.room)),
                c.bounded,
              );
          room = c.room;
        })
        | inr space ↦ rw space (record {
          held = All-insert (Held r.functions) key result r.cache new c.held;
          bounded = ground (arith, length-insert key result r.cache, space);
          room = c.room;
        })
      ]

  -- What a call leaves: the value without a cache, and a registry as consistent as before.
  abbrev Answers :
      Registry N → Outcome FunctionError N → Outcome FunctionError N × Registry N → Type 0
  Answers r value p =
      (p.0 ≡ value)
      × Consistent p.1
      × (p.1.functions ≡ r.functions)
      × (p.1.max_cache_entries ≡ r.max_cache_entries)

  stored-Answers :
      (key : CacheKey N) (value : Outcome FunctionError N) (r : Registry N)
      → Consistent r
      → ((result : N) → value ≡ ok result → Held r.functions (key, result))
      → Answers r value (stored n key value (missed n r))
  stored-Answers key (err e) r c new =
      (refl, record { held = c.held; bounded = c.bounded; room = c.room }, refl, refl)
  stored-Answers key (ok result) r c new = (
    refl,
    store-Consistent key result (missed n r)
        (record { held = c.held; bounded = c.bounded; room = c.room }) (new result refl),
    ground arith,
    ground arith,
  )

  answer-Answers :
      (function_id : String) (f : Function N) (m : Dict String N) (r : Registry N) (o : Option N)
      → Consistent r
      → lookup function_id r.functions ≡ some f
      → lookup (key_of n function_id f m) r.cache ≡ o
      → Answers r (value_of n f m) (answer n (key_of n function_id f m) (value_of n f m) o r)
  answer-Answers function_id f m r (some result) c known found =
      let key = key_of n function_id f m in
      (
        sym (
            held_value r.functions function_id f m result known
              (All-lookup (Held r.functions) key result r.cache c.held found)),
        hit-Consistent key result r c found,
        refl,
        refl,
      )
  answer-Answers function_id f m r none c known found =
      stored-Answers (key_of n function_id f m) (value_of n f m) r c
        (λ result e. record { function = f; known = known; value = value_of-sorted f m ∙ e })

  evaluate_on-Answers :
      (function_id : String) (f : Function N) (o : Outcome FunctionError (Dict String N))
      (r : Registry N)
      → Consistent r
      → lookup function_id r.functions ≡ some f
      → Answers r (o >>= λ xs. value_of n f xs) (evaluate_on n function_id f o r)
  evaluate_on-Answers function_id f (err e) r c known = (refl, c, refl, refl)
  evaluate_on-Answers function_id f (ok m) r c known =
      answer-Answers function_id f m r (lookup (key_of n function_id f m) r.cache) c known refl

  abbrev reference : Dict String (Json N) → Option (Function N) → Outcome FunctionError N
  reference values none = err unknown_function
  reference values (some f) = check_inputs f values >>= λ xs. value_of n f xs

  evaluate_known-Answers :
      (function_id : String) (values : Dict String (Json N)) (o : Option (Function N))
      (r : Registry N)
      → Consistent r
      → lookup function_id r.functions ≡ o
      → Answers r (reference values o) (evaluate_known n function_id values o r)
  evaluate_known-Answers function_id values none r c known = (refl, c, refl, refl)
  evaluate_known-Answers function_id values (some f) r c known =
      evaluate_on-Answers function_id f (check_inputs f values) r c known

  evaluate-Answers :
      (function_id : String) (values : Dict String (Json N)) (r : Registry N)
      → Consistent r
      → Answers r (uncached n r.functions function_id values) (evaluate n function_id values r)
  unfolding evaluate
  evaluate-Answers function_id values r c =
      evaluate_known-Answers function_id values (lookup function_id r.functions) r c refl

  -- A registry with its functions, and nothing in the cache.
  abbrev pub fresh : Dict String (Function N) → ℕ → Registry N
  fresh functions capacity = record {
    functions = functions;
    max_cache_entries = capacity;
    cache = [];
    cache_hits = 0;
    cache_misses = 0;
    cache_evictions = 0;
  }

  -- The answers to calls that follow one another, and the registry after them.
  abbrev pub answers : List (Call N) → Registry N → List (Outcome FunctionError N)
  answers [] r = []
  answers (c ∷ cs) r = let done = evaluate n c.0 c.1 r in done.0 ∷ answers cs done.1

  abbrev pub after : List (Call N) → Registry N → Registry N
  after [] r = r
  after (c ∷ cs) r = after cs (evaluate n c.0 c.1 r).1

  fresh-Consistent :
      (functions : Dict String (Function N)) (capacity : ℕ)
      → 1 ≤ capacity
      → Consistent (fresh functions capacity)
  fresh-Consistent functions capacity h = record { held = tt; bounded = omega arith; room = h }

  after-bounded :
      (cs : List (Call N)) (r : Registry N)
      → Consistent r
      → length (after cs r).cache ≤ r.max_cache_entries
  after-bounded [] r c = c.bounded
  after-bounded (x ∷ xs) r c =
      let done = evaluate n x.0 x.1 r in
      let (value, next, kept, cap) = evaluate-Answers x.0 x.1 r c in
      omega (arith, after-bounded xs done.1 next, cap)

  -- For numbers whose `==` holds of equal numbers only and a registry that starts with an empty cache
  -- of at least one entry: after any calls the cache holds at most as many results as its capacity.
  pub cache_bounded :
      (functions : Dict String (Function N)) (capacity : ℕ) (calls : List (Call N))
      → 1 ≤ capacity
      → length (after calls (fresh functions capacity)).cache ≤ capacity
  cache_bounded functions capacity calls h =
      after-bounded calls (fresh functions capacity) (fresh-Consistent functions capacity h)
