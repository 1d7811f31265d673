-- ===== src/Migrations/Progress.antt =====
-- compilableworld_mcp/migration_registry.py: the loops of `find_path` end.
use compilableworld_runtime.Base.{
  arith, ℕ, zero, suc, ◌+◌, ◌≤◌, ◌≡◌, ◌≢◌, refl, ap, String, false, ◌&&◌, List, [], ◌∷◌, ◌++◌, ◌==◌,
  string_eq, if◌then◌else◌, if_rule, inl, inr,
}
use compilableworld_runtime.Base.Lists.{length, length-append}
use compilableworld_runtime.Base.Text.{contains_text}
use compilableworld_runtime.Migrations.{
  MigrationStep, Queue, Scan, arrived, going, located, out_of_fuel, visit, scan, search,
}
use compilableworld_runtime.Migrations.Reach.{Among}

module _ {P : Type 0} where
  -- The steps whose target is not among the versions seen.
  abbrev pub unseen : List String → List (MigrationStep P) → ℕ
  unseen visited [] = 0
  unseen visited (s ∷ ss) =
      let rest = unseen visited ss in if contains_text s.to_version visited then rest else suc rest

  pub unseen-length :
      (visited : List String) (ss : List (MigrationStep P)) → unseen visited ss ≤ length ss
  unseen-length visited [] = omega arith
  unseen-length visited (s ∷ ss) = ground (arith, unseen-length visited ss)

  -- A version more is seen.
  unseen-cons :
      (v : String) (visited : List String) (ss : List (MigrationStep P))
      → unseen (v ∷ visited) ss ≤ unseen visited ss
  unseen-cons v visited [] = omega arith
  unseen-cons v visited (s ∷ ss) = ground (arith, unseen-cons v visited ss)

  -- The rounds that a scan leaves: of the versions that wait and of those that may still come.
  abbrev pub Bounded : ℕ → List (MigrationStep P) → Scan P → Type 0
  Bounded budget all (arrived p) = Unit
  Bounded budget all (going visited queue) = length queue + unseen visited all ≤ budget

  unseen-new :
      (s : MigrationStep P) (visited : List String) (all : List (MigrationStep P))
      → Among s all
      → contains_text s.to_version visited ≡ false
      → unseen (s.to_version ∷ visited) all + 1 ≤ unseen visited all
  unseen-new s visited [] among new = absurd among
  unseen-new s visited (x ∷ xs) (inl same) new =
      let e : s.to_version ≡ x.to_version = ap (λ (y : MigrationStep P). y.to_version) same in
      ground (
        arith,
        unseen-cons s.to_version visited xs,
        ap (λ v. contains_text v visited) e,
        e,
        string_eq.beq_iff s.to_version x.to_version,
      )
  unseen-new s visited (x ∷ xs) (inr later) new =
      ground (arith, unseen-new s visited xs later new, unseen-cons s.to_version visited xs)

  module _ (kind target : String) (all : List (MigrationStep P)) (budget : ℕ) where
    visit-Bounded :
        (current : String) (path : List (MigrationStep P)) (s : MigrationStep P)
        (visited : List String) (queue : Queue P)
        → Among s all
        → length queue + unseen visited all ≤ budget
        → Bounded budget all (visit kind target current path s visited queue)
    unfolding visit
    visit-Bounded current path s visited queue among h =
        if_rule (Bounded budget all) ((s.kind == kind) && (s.from_version == current))
          (λ _.
            if_rule (Bounded budget all) (s.to_version == target) (λ _. tt)
              (λ _.
                if_rule (Bounded budget all) (contains_text s.to_version visited) (λ _. h)
                  (λ new. omega (
                    arith,
                    h,
                    unseen-new s visited all among new,
                    length-append queue ((s.to_version, path ++ (s ∷ [])) ∷ []),
                  ))))
          (λ _. h)

    scan-Bounded :
        (current : String) (path ss : List (MigrationStep P)) (visited : List String)
        (queue : Queue P)
        → ((s : MigrationStep P) → Among s ss → Among s all)
        → length queue + unseen visited all ≤ budget
        → Bounded budget all (scan kind target current path ss visited queue)
    unfolding scan
    scan-Bounded current path [] visited queue within h = h
    scan-Bounded current path (s ∷ ss) visited queue within h =
        go (visit kind target current path s visited queue)
          (visit-Bounded current path s visited queue (within s (inl refl)) h)
          (λ seen waiting.
            scan-Bounded current path ss seen waiting (λ t among. within t (inr among)))
      where
        go :
            (r : Scan P)
            → Bounded budget all r
            → ((seen : List String) (waiting : Queue P)
                → length waiting + unseen seen all ≤ budget
                → Bounded budget all (scan kind target current path ss seen waiting))
            → Bounded budget all (elim r [
              | arrived p ↦ arrived p
              | going seen waiting ↦ scan kind target current path ss seen waiting
            ])
        go (arrived p) b k = tt
        go (going seen waiting) b k = k seen waiting b

  pub search_ends :
      (fuel : ℕ) (kind target : String) (steps : List (MigrationStep P)) (visited : List String)
      (queue : Queue P)
      → length queue + unseen visited steps ≤ fuel
      → search fuel kind target steps visited queue ≢ out_of_fuel
  unfolding search
  search_ends zero kind target steps visited [] h = λ e. cc
  search_ends (suc fuel) kind target steps visited [] h = λ e. cc
  search_ends zero kind target steps visited (x ∷ rest) h = absurd (omega (arith, h))
  search_ends (suc fuel) kind target steps visited ((current, path) ∷ rest) h =
      go (scan kind target current path steps visited rest)
        (scan-Bounded kind target steps fuel current path steps visited rest (λ s among. among)
          (omega (arith, h)))
        (λ seen waiting. search_ends fuel kind target steps seen waiting)
    where
      go :
          (r : Scan P)
          → Bounded fuel steps r
          → ((seen : List String) (waiting : Queue P)
              → length waiting + unseen seen steps ≤ fuel
              → search fuel kind target steps seen waiting ≢ out_of_fuel)
          → (elim r [
            | arrived p ↦ located p
            | going seen waiting ↦ search fuel kind target steps seen waiting
          ])
            ≢ out_of_fuel
      go (arrived p) b k = λ e. cc
      go (going seen waiting) b k = k seen waiting b
