-- ===== src/Migrations/Reach.antt =====
-- compilableworld_mcp/migration_registry.py: what the path of `find_path` is.
use compilableworld_runtime.Base.{
  arith, ℕ, zero, suc, ◌≡◌, ◌⊎◌, ◌∙◌, refl, sym, String, ◌&&◌, List, [], ◌∷◌, ◌++◌, ◌==◌, string_eq,
  if_rule, inl, inr,
}
use compilableworld_runtime.Base.Lists.{All}
use compilableworld_runtime.Base.Text.{contains_text}
use compilableworld_runtime.Migrations.{
  MigrationStep, Queue, Scan, arrived, going, Search, located, exhausted, out_of_fuel, visit, scan,
  search,
}

module _ {P : Type 0} where
  -- The step is one of the list.
  abbrev pub Among : MigrationStep P → List (MigrationStep P) → Type 0
  Among s [] = ⊥
  Among s (x ∷ xs) = (s ≡ x) ⊎ Among s xs

  -- The steps lead, one after another, from the first version to the last, and are all of the kind and
  -- of the list.
  abbrev pub Chain :
      List (MigrationStep P) → String → String → List (MigrationStep P) → String → Type 0
  Chain all kind source [] target = source ≡ target
  Chain all kind source (s ∷ ss) target =
      Among s all
      × (s.kind ≡ kind)
      × (s.from_version ≡ source)
      × Chain all kind s.to_version ss target

  Chain-append :
      (all : List (MigrationStep P)) (kind source current : String) (path : List (MigrationStep P))
      (s : MigrationStep P)
      → Chain all kind source path current
      → Among s all
      → s.kind ≡ kind
      → s.from_version ≡ current
      → Chain all kind source (path ++ (s ∷ [])) s.to_version
  Chain-append all kind source current [] s c among k f = (among, k, f ∙ sym c, refl)
  Chain-append all kind source current (x ∷ xs) s (a, b, d, c) among k f =
      (a, b, d, Chain-append all kind x.to_version current xs s c among k f)

  module _ (all : List (MigrationStep P)) (kind source target : String) where
    -- The paths that wait lead from the source.
    abbrev pub Leads : String × List (MigrationStep P) → Type 0
    Leads (v, path) = Chain all kind source path v

    abbrev pub Sound : Scan P → Type 0
    Sound (arrived p) = Chain all kind source p target
    Sound (going visited queue) = All Leads queue

    All-append :
        (queue : Queue P) (x : String × List (MigrationStep P))
        → All Leads queue
        → Leads x
        → All Leads (queue ++ (x ∷ []))
    All-append [] x h p = (p, tt)
    All-append (y ∷ ys) x (q, h) p = (q, All-append ys x h p)

    visit-Sound :
        (current : String) (path : List (MigrationStep P)) (s : MigrationStep P)
        (visited : List String) (queue : Queue P)
        → Among s all
        → Leads (current, path)
        → All Leads queue
        → Sound (visit kind target current path s visited queue)
    unfolding visit
    visit-Sound current path s visited queue among lead h =
        if_rule Sound ((s.kind == kind) && (s.from_version == current))
          (λ edge.
            let k : s.kind ≡ kind = (string_eq.beq_iff s.kind kind).0 (ground arith) in
            let f : s.from_version ≡ current =
              (string_eq.beq_iff s.from_version current).0 (ground arith) in
            let longer = Chain-append all kind source current path s lead among k f in
            if_rule Sound (s.to_version == target)
              (λ here. let e = (string_eq.beq_iff s.to_version target).0 here in rw (← e) longer)
              (λ _.
                if_rule Sound (contains_text s.to_version visited) (λ _. h)
                  (λ new. All-append queue (s.to_version, path ++ (s ∷ [])) h longer)))
          (λ _. h)

    scan-Sound :
        (current : String) (path ss : List (MigrationStep P)) (visited : List String)
        (queue : Queue P)
        → ((s : MigrationStep P) → Among s ss → Among s all)
        → Leads (current, path)
        → All Leads queue
        → Sound (scan kind target current path ss visited queue)
    unfolding scan
    scan-Sound current path [] visited queue within lead h = h
    scan-Sound current path (s ∷ ss) visited queue within lead h =
        go (visit kind target current path s visited queue)
          (visit-Sound current path s visited queue (within s (inl refl)) lead h)
          (λ seen waiting.
            scan-Sound current path ss seen waiting (λ t among. within t (inr among)) lead)
      where
        go :
            (r : Scan P)
            → Sound r
            → ((seen : List String) (waiting : Queue P)
                → All Leads waiting
                → Sound (scan kind target current path ss seen waiting))
            → Sound (elim r [
              | arrived p ↦ arrived p
              | going seen waiting ↦ scan kind target current path ss seen waiting
            ])
        go (arrived p) b k = b
        go (going seen waiting) b k = k seen waiting b

    abbrev pub SoundSearch : Search P → Type 0
    SoundSearch (located p) = Chain all kind source p target
    SoundSearch exhausted = Unit
    SoundSearch out_of_fuel = Unit

    pub search-Sound :
        (fuel : ℕ) (visited : List String) (queue : Queue P)
        → All Leads queue
        → SoundSearch (search fuel kind target all visited queue)
    unfolding search
    search-Sound zero visited [] h = tt
    search-Sound (suc fuel) visited [] h = tt
    search-Sound zero visited (x ∷ rest) h = tt
    search-Sound (suc fuel) visited ((current, path) ∷ rest) (lead, h) =
        go (scan kind target current path all visited rest)
          (scan-Sound current path all visited rest (λ s among. among) lead h)
          (λ seen waiting. search-Sound fuel seen waiting)
      where
        go :
            (r : Scan P)
            → Sound r
            → ((seen : List String) (waiting : Queue P)
                → All Leads waiting
                → SoundSearch (search fuel kind target all seen waiting))
            → SoundSearch (elim r [
              | arrived p ↦ located p
              | going seen waiting ↦ search fuel kind target all seen waiting
            ])
        go (arrived p) b k = b
        go (going seen waiting) b k = k seen waiting b
