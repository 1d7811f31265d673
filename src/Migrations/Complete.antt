-- ===== src/Migrations/Complete.antt =====
-- compilableworld_mcp/migration_registry.py: `find_path` misses no path.
use compilableworld_runtime.Base.{
  arith, ℕ, zero, suc, ◌≡◌, ◌≢◌, ◌⊎◌, ◌∙◌, refl, sym, ap, String, true, false, ◌&&◌, List, [], ◌∷◌,
  ◌++◌, ◌==◌, string_eq, if_rule, Bool-cases, inl, inr,
}
use compilableworld_runtime.Base.Text.{contains_text}
use compilableworld_runtime.Migrations.{
  MigrationStep, Queue, Scan, arrived, going, Search, located, exhausted, out_of_fuel, visit, scan,
  search,
}
use compilableworld_runtime.Migrations.Reach.{Among, Chain}

module _ {P : Type 0} where
  abbrev Waits : String → Queue P → Type 0
  Waits v [] = ⊥
  Waits v (x ∷ xs) = (v ≡ x.0) ⊎ Waits v xs

  Waits-append :
      (v : String) (queue : Queue P) (x : String × List (MigrationStep P))
      → Waits v queue
      → Waits v (queue ++ (x ∷ []))
  Waits-append v [] x h = absurd h
  Waits-append v (y ∷ ys) x (inl e) = inl e
  Waits-append v (y ∷ ys) x (inr h) = inr (Waits-append v ys x h)

  Waits-last :
      (v : String) (queue : Queue P) (path : List (MigrationStep P))
      → Waits v (queue ++ ((v, path) ∷ []))
  Waits-last v [] path = inl refl
  Waits-last v (y ∷ ys) path = inr (Waits-last v ys path)

  module _ (all : List (MigrationStep P)) (kind target : String) where
    -- The step leads to a version that was seen, and not to the target.
    abbrev Harmless : MigrationStep P → List String → Type 0
    Harmless s visited = (contains_text s.to_version visited ≡ true) × (s.to_version ≢ target)

    abbrev Done : String → List String → Type 0
    Done v visited =
        (s : MigrationStep P)
        → Among s all
        → s.kind ≡ kind
        → s.from_version ≡ v
        → Harmless s visited

    -- Every version seen waits, or all its steps are harmless.
    abbrev Covered : List String → Queue P → Type 0
    Covered visited queue =
        (v : String) → contains_text v visited ≡ true → Waits v queue ⊎ Done v visited

    -- The same while a version is looked at, of whose steps some remain.
    abbrev Almost : String → List String → Queue P → Type 0
    Almost current visited queue =
        (v : String)
        → contains_text v visited ≡ true
        → (v ≡ current) ⊎ (Waits v queue ⊎ Done v visited)

    abbrev Remaining : String → List (MigrationStep P) → List String → Type 0
    Remaining current ss visited =
        (s : MigrationStep P)
        → Among s all
        → s.kind ≡ kind
        → s.from_version ≡ current
        → Among s ss ⊎ Harmless s visited

    Harmless-cons :
        (s : MigrationStep P) (v : String) (visited : List String)
        → Harmless s visited
        → Harmless s (v ∷ visited)
    Harmless-cons s v visited (seen, other) = (ground (arith, seen), other)

    Done-cons : (w v : String) (visited : List String) → Done w visited → Done w (v ∷ visited)
    Done-cons w v visited d s among k f = Harmless-cons s v visited (d s among k f)

    -- One step more was looked at: it is no step of the version, or it is harmless.
    Remaining-next :
        (current : String) (t : MigrationStep P) (ss : List (MigrationStep P)) (seen : List String)
        → ((s : MigrationStep P)
            → Among s all
            → s.kind ≡ kind
            → s.from_version ≡ current
            → Among s (t ∷ ss) ⊎ Harmless s seen)
        → (t.kind ≡ kind → t.from_version ≡ current → Harmless t seen)
        → Remaining current ss seen
    Remaining-next current t ss seen before now s among k f = go (before s among k f)
      where
        go : Among s (t ∷ ss) ⊎ Harmless s seen → Among s ss ⊎ Harmless s seen
        go (inl (inl same)) =
            let k' = ap (λ (x : MigrationStep P). x.kind) (sym same) ∙ k in
            let f' = ap (λ (x : MigrationStep P). x.from_version) (sym same) ∙ f in
            inr (rw same (now k' f'))
        go (inl (inr later)) = inl later
        go (inr h) = inr h

    -- What a scan leaves.
    abbrev After : String → List (MigrationStep P) → String → Scan P → Type 0
    After current ss source (arrived p) = Unit
    After current ss source (going seen waiting) =
        Almost current seen waiting × Remaining current ss seen × (contains_text source seen ≡ true)

    new-Almost :
        (current v : String) (visited : List String) (queue : Queue P)
        (path : List (MigrationStep P))
        → Almost current visited queue
        → Almost current (v ∷ visited) (queue ++ ((v, path) ∷ []))
    new-Almost current v visited queue path h w seen = elim (Bool-cases (v == w)) [
      | inl same ↦
          let e : v ≡ w = (string_eq.beq_iff v w).0 same in
          inr (inl (rw (← e) (Waits-last v queue path)))
      | inr other ↦ go (h w (ground (arith, seen, other)))
    ]
      where
        go :
            (w ≡ current) ⊎ (Waits w queue ⊎ Done w visited)
            → (w ≡ current) ⊎ (Waits w (queue ++ ((v, path) ∷ [])) ⊎ Done w (v ∷ visited))
        go (inl e) = inl e
        go (inr (inl h')) = inr (inl (Waits-append w queue (v, path) h'))
        go (inr (inr d)) = inr (inr (Done-cons w v visited d))

    Remaining-cons :
        (current v : String) (ss : List (MigrationStep P)) (visited : List String)
        → Remaining current ss visited
        → Remaining current ss (v ∷ visited)
    Remaining-cons current v ss visited h s among k f = go (h s among k f)
      where
        go : Among s ss ⊎ Harmless s visited → Among s ss ⊎ Harmless s (v ∷ visited)
        go (inl a) = inl a
        go (inr b) = inr (Harmless-cons s v visited b)

    is_edge :
        (current : String) (t : MigrationStep P)
        → t.kind ≡ kind
        → t.from_version ≡ current
        → ((t.kind == kind) && (t.from_version == current)) ≡ true
    is_edge current t k f =
        ground (
          arith,
          (string_eq.beq_iff t.kind kind).1 k,
          (string_eq.beq_iff t.from_version current).1 f,
        )

    differs : (t : MigrationStep P) → (t.to_version == target) ≡ false → t.to_version ≢ target
    differs t h e = ground (arith, h, (string_eq.beq_iff t.to_version target).1 e)

    self_seen : (v : String) (visited : List String) → contains_text v (v ∷ visited) ≡ true
    self_seen v visited = ground (arith, (string_eq.beq_iff v v).1 refl)

    visit-After :
        (current source : String) (path ss : List (MigrationStep P)) (t : MigrationStep P)
        (visited : List String) (queue : Queue P)
        → Almost current visited queue
        → Remaining current (t ∷ ss) visited
        → contains_text source visited ≡ true
        → After current ss source (visit kind target current path t visited queue)
    unfolding visit
    visit-After current source path ss t visited queue almost remaining seen =
        if_rule (After current ss source) ((t.kind == kind) && (t.from_version == current))
          (λ edge.
            if_rule (After current ss source) (t.to_version == target) (λ _. tt)
              (λ other.
                if_rule (After current ss source) (contains_text t.to_version visited)
                  (λ known. (
                    almost,
                    Remaining-next current t ss visited remaining (λ k f. (known, differs t other)),
                    seen,
                  ))
                  (λ new. (
                    new-Almost current t.to_version visited queue (path ++ (t ∷ [])) almost,
                    Remaining-next current t ss (t.to_version ∷ visited)
                        (Remaining-cons current t.to_version (t ∷ ss) visited remaining)
                        (λ k f. (self_seen t.to_version visited, differs t other)),
                    ground (arith, seen),
                  ))))
          (λ no_edge. (
            almost,
            Remaining-next current t ss visited remaining
                (λ k f. absurd (ground (arith, no_edge, is_edge current t k f))),
            seen,
          ))

    scan-After :
        (current source : String) (path ss : List (MigrationStep P)) (visited : List String)
        (queue : Queue P)
        → Almost current visited queue
        → Remaining current ss visited
        → contains_text source visited ≡ true
        → After current [] source (scan kind target current path ss visited queue)
    unfolding scan
    scan-After current source path [] visited queue almost remaining seen =
        (almost, remaining, seen)
    scan-After current source path (t ∷ ss) visited queue almost remaining seen =
        go (visit kind target current path t visited queue)
          (visit-After current source path ss t visited queue almost remaining seen)
          (λ s w a r e. scan-After current source path ss s w a r e)
      where
        go :
            (r : Scan P)
            → After current ss source r
            → ((seen' : List String) (waiting : Queue P)
                → Almost current seen' waiting
                → Remaining current ss seen'
                → contains_text source seen' ≡ true
                → After current [] source (scan kind target current path ss seen' waiting))
            → After current [] source (elim r [
              | arrived p ↦ arrived p
              | going seen' waiting ↦ scan kind target current path ss seen' waiting
            ])
        go (arrived p) b k = tt
        go (going seen' waiting) (a, rem, e) k = k seen' waiting a rem e

    -- After the whole scan of a version, its steps are harmless.
    scanned-Covered :
        (current : String) (seen : List String) (waiting : Queue P)
        → Almost current seen waiting
        → Remaining current [] seen
        → Covered seen waiting
    scanned-Covered current seen waiting almost remaining v h = go (almost v h)
      where
        done : Remaining current [] seen → Done current seen
        done r s among k f = elim (r s among k f) [ inl none' ↦ absurd none' | inr ok' ↦ ok' ]

        go : (v ≡ current) ⊎ (Waits v waiting ⊎ Done v seen) → Waits v waiting ⊎ Done v seen
        go (inl e) = inr (λ s among k f. done remaining s among k (f ∙ e))
        go (inr x) = x

    -- No chain of steps leaves a set of versions of which all steps are harmless.
    stays_inside :
        (visited : List String) (source : String) (p : List (MigrationStep P))
        → Covered visited []
        → contains_text source visited ≡ true
        → source ≢ target
        → Chain all kind source p target
        → ⊥
    stays_inside visited source [] covered seen other chain = other chain
    stays_inside visited source (s ∷ ss) covered seen other (among, k, f, chain) =
        elim (covered source seen) [
          | inl waits ↦ waits
          | inr done ↦
              let (next, differs') = done s among k f in
              stays_inside visited s.to_version ss covered next differs' chain
        ]

    abbrev pub NoneMissed : String → Search P → Type 0
    NoneMissed source exhausted = (p : List (MigrationStep P)) → Chain all kind source p target → ⊥
    NoneMissed source (located p) = Unit
    NoneMissed source out_of_fuel = Unit

    pub search-NoneMissed :
        (fuel : ℕ) (source : String) (visited : List String) (queue : Queue P)
        → source ≢ target
        → Covered visited queue
        → contains_text source visited ≡ true
        → NoneMissed source (search fuel kind target all visited queue)
    unfolding search
    search-NoneMissed zero source visited [] other covered seen =
        λ p chain. stays_inside visited source p covered seen other chain
    search-NoneMissed (suc fuel) source visited [] other covered seen =
        λ p chain. stays_inside visited source p covered seen other chain
    search-NoneMissed zero source visited (x ∷ rest) other covered seen = tt
    search-NoneMissed (suc fuel) source visited ((current, path) ∷ rest) other covered seen =
        go (scan kind target current path all visited rest)
          (scan-After current source path all visited rest (λ v h. first_of v (covered v h))
            (λ s among k f. inl among) seen)
          (λ s w c e. search-NoneMissed fuel source s w other c e)
      where
        first_of :
            (v : String)
            → Waits v ((current, path) ∷ rest) ⊎ Done v visited
            → (v ≡ current) ⊎ (Waits v rest ⊎ Done v visited)
        first_of v (inl (inl e)) = inl e
        first_of v (inl (inr w)) = inr (inl w)
        first_of v (inr d) = inr (inr d)

        go :
            (r : Scan P)
            → After current [] source r
            → ((seen' : List String) (waiting : Queue P)
                → Covered seen' waiting
                → contains_text source seen' ≡ true
                → NoneMissed source (search fuel kind target all seen' waiting))
            → NoneMissed source (elim r [
              | arrived p ↦ located p
              | going seen' waiting ↦ search fuel kind target all seen' waiting
            ])
        go (arrived p) b k = tt
        go (going seen' waiting) (a, rem, e) k =
            k seen' waiting (scanned-Covered current seen' waiting a rem) e
