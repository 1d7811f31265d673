-- ===== src/Migrations/Paths.antt =====
-- compilableworld_mcp/migration_registry.py: `find_path` finds a path of registered steps if and only
-- if there is one.
use compilableworld_runtime.Base.{
  arith, suc, ◌≡◌, ◌≢◌, ◌⊎◌, refl, sym, String, Bool, true, false, some, List, [], ◌∷◌, Outcome, ok,
  err, ◌==◌, string_eq, if◌then◌else◌, if_rule, inl, inr,
}
use compilableworld_runtime.Base.Lists.{length}
use compilableworld_runtime.Base.Text.{stripped}
use compilableworld_runtime.Migrations.{
  MigrationStep, MigrationError, migration_not_found, Steps, Search, located, exhausted,
  out_of_fuel, earlier, sort_in, sorted_steps, values_of, search, path_of, search_path, find_path,
}
use compilableworld_runtime.Migrations.Reach.{Among, Chain, SoundSearch, search-Sound}
use compilableworld_runtime.Migrations.Progress.{search_ends, unseen-length}
use compilableworld_runtime.Migrations.Complete.{NoneMissed, search-NoneMissed}

module _ {P : Type 0} where
  Among-if :
      (s : MigrationStep P) (c : Bool) (xs ys : List (MigrationStep P))
      → Among s (if c then xs else ys)
      → Among s xs ⊎ Among s ys
  Among-if s true xs ys h = inl h
  Among-if s false xs ys h = inr h

  under :
      (s x y : MigrationStep P) (ys : List (MigrationStep P))
      → Among s (x ∷ ys)
      → Among s (x ∷ y ∷ ys)
  under s x y ys (inl e) = inl e
  under s x y ys (inr h) = inr (inr h)

  Among-sort_in :
      (s x : MigrationStep P) (xs : List (MigrationStep P))
      → Among s (sort_in x xs)
      → Among s (x ∷ xs)
  unfolding sort_in
  Among-sort_in s x [] h = h
  Among-sort_in s x (y ∷ ys) h = elim (Among-if s (earlier y x) (y ∷ sort_in x ys) (x ∷ y ∷ ys) h) [
    | inl (inl e) ↦ inr (inl e)
    | inl (inr later) ↦ under s x y ys (Among-sort_in s x ys later)
    | inr h' ↦ h'
  ]

  sort_in-Among :
      (s x : MigrationStep P) (xs : List (MigrationStep P))
      → Among s (x ∷ xs)
      → Among s (sort_in x xs)
  unfolding sort_in
  sort_in-Among s x [] h = h
  sort_in-Among s x (y ∷ ys) (inl e) =
      if_rule (Among s) (earlier y x) (λ _. inr (sort_in-Among s x ys (inl e))) (λ _. inl e)
  sort_in-Among s x (y ∷ ys) (inr (inl e)) =
      if_rule (Among s) (earlier y x) (λ _. inl e) (λ _. inr (inl e))
  sort_in-Among s x (y ∷ ys) (inr (inr h)) =
      if_rule (Among s) (earlier y x) (λ _. inr (sort_in-Among s x ys (inr h))) (λ _. inr (inr h))

  -- Sorting loses no step and adds none.
  Among-sorted :
      (s : MigrationStep P) (ss : List (MigrationStep P)) → Among s (sorted_steps ss) → Among s ss
  unfolding sorted_steps
  Among-sorted s [] h = h
  Among-sorted s (x ∷ xs) h = elim (Among-sort_in s x (sorted_steps xs) h) [
    | inl e ↦ inl e
    | inr later ↦ inr (Among-sorted s xs later)
  ]

  sorted-Among :
      (s : MigrationStep P) (ss : List (MigrationStep P)) → Among s ss → Among s (sorted_steps ss)
  unfolding sorted_steps
  sorted-Among s (x ∷ xs) (inl e) = sort_in-Among s x (sorted_steps xs) (inl e)
  sorted-Among s (x ∷ xs) (inr h) = sort_in-Among s x (sorted_steps xs) (inr (sorted-Among s xs h))
  sorted-Among s [] h = absurd h

  Chain-map :
      (xs ys : List (MigrationStep P)) (kind source : String) (p : List (MigrationStep P))
      (target : String)
      → ((s : MigrationStep P) → Among s xs → Among s ys)
      → Chain xs kind source p target
      → Chain ys kind source p target
  Chain-map xs ys kind source [] target f c = c
  Chain-map xs ys kind source (s ∷ ss) target f (a, k, e, c) =
      (f s a, k, e, Chain-map xs ys kind s.to_version ss target f c)

  -- What `find_path` may end with, given the steps and the stripped arguments.
  abbrev pub Exact :
      List (MigrationStep P)
      → String
      → String
      → String
      → Outcome MigrationError (List (MigrationStep P))
      → Type 0
  Exact steps kind source target (ok p) = Chain steps kind source p target
  Exact steps kind source target (err migration_not_found) =
      (p : List (MigrationStep P)) → Chain steps kind source p target → ⊥
  Exact steps kind source target (err e) = ⊥

  path_of-Exact :
      (steps : List (MigrationStep P)) (kind source target : String) (r : Search P)
      → r ≢ out_of_fuel
      → SoundSearch steps kind source target r
      → NoneMissed steps kind target source r
      → Exact steps kind source target (path_of r)
  path_of-Exact steps kind source target (located p) ends sound none' = sound
  path_of-Exact steps kind source target exhausted ends sound none' = none'
  path_of-Exact steps kind source target out_of_fuel ends sound none' = absurd (ends refl)

  found-Exact :
      (steps : List (MigrationStep P)) (kind source target : String)
      → source ≢ target
      → Exact steps kind source target (
          path_of (search (suc (length steps)) kind target steps (source ∷ []) ((source, []) ∷ [])))
  found-Exact steps kind source target other =
      let fuel = suc (length steps) in
      path_of-Exact steps kind source target
        (search fuel kind target steps (source ∷ []) ((source, []) ∷ []))
        (search_ends fuel kind target steps (source ∷ []) ((source, []) ∷ [])
          (omega (arith, unseen-length (source ∷ []) steps)))
        (search-Sound steps kind source target fuel (source ∷ []) ((source, []) ∷ []) (refl, tt))
        (search-NoneMissed steps kind target fuel source (source ∷ []) ((source, []) ∷ []) other
          (λ v seen. inl (inl (sym ((string_eq.beq_iff source v).0 (ground (arith, seen))))))
          (ground (arith, (string_eq.beq_iff source source).1 refl)))

  search_path-Exact :
      (steps : List (MigrationStep P)) (kind source target : String)
      → Exact steps kind source target (search_path steps kind source target)
  search_path-Exact steps kind source target =
      if_rule (Exact steps kind source target) (source == target)
        (λ same. (string_eq.beq_iff source target).0 same)
        (λ other.
          found-Exact steps kind source target
            (λ e. ground (arith, other, (string_eq.beq_iff source target).1 e)))

  Exact-map :
      (xs ys : List (MigrationStep P)) (kind source target : String)
      (o : Outcome MigrationError (List (MigrationStep P)))
      → ((s : MigrationStep P) → Among s xs → Among s ys)
      → ((s : MigrationStep P) → Among s ys → Among s xs)
      → Exact xs kind source target o
      → Exact ys kind source target o
  Exact-map xs ys kind source target (ok p) f g h = Chain-map xs ys kind source p target f h
  Exact-map xs ys kind source target (err migration_not_found) f g h =
      λ p c. h p (Chain-map ys xs kind source p target g c)
  Exact-map xs ys kind source target (err e) f g h = absurd h

  -- For any registry, and a kind and versions that are not blank: `find_path` ends with a path, which
  -- is a chain of registered steps of the kind from the one version to the other; or it ends with the
  -- error MIGRATION_NOT_FOUND, and there is no such chain. It ends with nothing else.
  pub find_path-Exact :
      (registry : Steps P) (kind from_version to_version : String) {k s t : String}
      → stripped kind ≡ some k
      → stripped from_version ≡ some s
      → stripped to_version ≡ some t
      → Exact (values_of registry) k s t (find_path registry kind from_version to_version)
  unfolding find_path
  find_path-Exact registry kind from_version to_version {k} {s} {t} hk hs ht =
      let steps = sorted_steps (values_of registry) in
      rw (hk, hs, ht)
        (Exact-map steps (values_of registry) k s t (search_path steps k s t)
          (λ x. Among-sorted x (values_of registry)) (λ x. sorted-Among x (values_of registry))
          (search_path-Exact steps k s t))
