-- ===== src/Kernel/State/Sequential.antt =====
-- The reference for `StateStore.commit`: the deltas are applied one after the other, each to the
-- cells that the one before it left; and the agreement of the first loop with it.
use compilableworld_runtime.Base.{
  String, Bool, true, false, Option, none, some, List, [], ◌∷◌, Outcome, ok, err, guard, ◌≡◌, refl,
  sym, ◌∙◌, ◌==◌, string_eq, inl, inr, Bool-cases, arith,
}
use compilableworld_runtime.Base.Raising.{◌>>=◌, ◌>>◌}
use compilableworld_runtime.Base.Int.{ℤ, pos, ◌+ℤ◌}
use compilableworld_runtime.Base.Dict.{
  lookup, insert, lookup-insert, lookup-empty, Distinct, insert-Distinct,
}
use compilableworld_runtime.Kernel.Value.{Value, KernelError, permission_denied, conflict, apply}
use compilableworld_runtime.Kernel.State.{
  StateDelta, Cells, Pending, delta_path, logical_path, cell_or, absent_cell, value_or,
  version_fits, allowed, stage, stage_all, no_pending,
}

-- The pending dictionaries `p` over `cells` show what the sequential store `seq` holds.
pub record IsSyncAt (cells : Cells) (p : Pending) (seq : Cells) (q : String) : Type 0 where
  pub at_none :
      lookup q p.values ≡ none → (lookup q p.versions ≡ none) × (lookup q seq ≡ lookup q cells)
  pub at_some :
      (v : Value)
      → lookup q p.values ≡ some v
      → (n : ℤ) × (lookup q p.versions ≡ some n)
        × (lookup q seq ≡ some (record { value = v; version = n }))

pub record IsSync (cells : Cells) (p : Pending) (seq : Cells) : Type 0 where
  pub at : (q : String) → IsSyncAt cells p seq q
  pub distinct : Distinct p.values

abbrev pub Agrees : Cells → Outcome KernelError Pending → Outcome KernelError Cells → Type 0
Agrees cells (ok p) (ok s) = IsSync cells p s
Agrees cells (err e) (err f) = e ≡ f
Agrees cells _ _ = ⊥

module _ (fnmatch : String → String → Bool) (allowed_write : List String) where
  unfoldable pub write_one : Cells → StateDelta → Outcome KernelError Cells
  write_one cells d = do
    guard (allowed fnmatch allowed_write (logical_path d)) permission_denied
    let cell = cell_or (lookup (delta_path d) cells) absent_cell
    guard (version_fits d.expected_version cell.version) conflict
    value ← apply cell.value d.operation d.value
    ok (insert (delta_path d) (record { value = value; version = cell.version +ℤ pos 1 }) cells)

  unfoldable pub write_each : Cells → List StateDelta → Outcome KernelError Cells
  write_each cells [] = ok cells
  write_each cells (d ∷ ds) = write_one cells d >>= λ next. write_each next ds

-- Two runs with the same tests agree if what they make of the new value does.
Agrees-chain :
    (cells : Cells) (a b : Bool) (o : Outcome KernelError Value) (f : Value → Pending)
    (g : Value → Cells)
    → ((v : Value) → IsSync cells (f v) (g v))
    → Agrees cells
        (guard a permission_denied >> (guard b conflict >> (o >>= λ v. ok (f v))))
        (guard a permission_denied >> (guard b conflict >> (o >>= λ v. ok (g v))))
Agrees-chain cells true true (ok v) f g h = h v
Agrees-chain cells true true (err e) f g h = refl
Agrees-chain cells true false o f g h = refl
Agrees-chain cells false b o f g h = refl

abbrev put_pending : String → Value → ℤ → Pending → Pending
put_pending q v n p = record { values = insert q v p.values; versions = insert q n p.versions }

IsSync-insert :
    (cells : Cells) (p : Pending) (seq : Cells) (q : String) (v : Value) (n : ℤ)
    → IsSync cells p seq
    → IsSync cells (put_pending q v n p) (insert q (record { value = v; version = n }) seq)
IsSync-insert cells p seq q v n h = record {
  distinct = insert-Distinct q v p.values h.distinct;
  at = λ j.
      let old = h.at j in
      elim (Bool-cases (q == j)) [
        | inl same ↦
            let a = rw same at (lookup-insert q j v p.values) in
            let b = rw same at (lookup-insert q j n p.versions) in
            let c = rw same at (lookup-insert q j (record { value = v; version = n }) seq) in
            record { at_none = λ e. cc (a, e); at_some = λ x e. (n, b, ground (arith, a, c)) }
        | inr other ↦
            let a = rw other at (lookup-insert q j v p.values) in
            let b = rw other at (lookup-insert q j n p.versions) in
            let c = rw other at (lookup-insert q j (record { value = v; version = n }) seq) in
            record {
              at_none = λ e. let (x, y) = old.at_none (sym a ∙ e) in (b ∙ x, c ∙ y);
              at_some = λ x e. let (m, y, z) = old.at_some x (sym a ∙ e) in (m, b ∙ y, c ∙ z);
            }
      ];
}

-- The cell that a delta meets is the same in both runs.
current-eq :
    (cells : Cells) (p : Pending) (seq : Cells) (q : String)
    → IsSyncAt cells p seq q
    → let cell = cell_or (lookup q cells) absent_cell in
      cell_or (lookup q seq) absent_cell ≡ record {
        value = value_or (lookup q p.values) cell.value;
        version = value_or (lookup q p.versions) cell.version;
      }
current-eq cells p seq q h = go (lookup q p.values) refl
  where
    go :
        (o : Option Value)
        → lookup q p.values ≡ o
        → cell_or (lookup q seq) absent_cell ≡ record {
          value = value_or (lookup q p.values) (cell_or (lookup q cells) absent_cell).value;
          version = value_or (lookup q p.versions) (cell_or (lookup q cells) absent_cell).version;
        }
    go none e = let (x, y) = h.at_none e in rw (e, x, y)
    go (some v) e = let (n, x, y) = h.at_some v e in rw (e, x, y)

module _ (fnmatch : String → String → Bool) (allowed_write : List String) (cells : Cells) where
  stage-Agrees :
      (p : Pending) (seq : Cells) (d : StateDelta)
      → IsSync cells p seq
      → Agrees cells (stage fnmatch cells allowed_write p d) (write_one fnmatch allowed_write seq d)
  unfolding stage write_one
  stage-Agrees p seq d h =
      let q = delta_path d in
      rw (current-eq cells p seq q (h.at q)) (
        Agrees-chain cells (allowed fnmatch allowed_write (logical_path d)) _ _ _ _
          (λ v. IsSync-insert cells p seq q v _ h))

  bind-Agrees :
      (o : Outcome KernelError Pending) (u : Outcome KernelError Cells)
      (f : Pending → Outcome KernelError Pending) (g : Cells → Outcome KernelError Cells)
      → Agrees cells o u
      → ((p : Pending) (s : Cells) → IsSync cells p s → Agrees cells (f p) (g s))
      → Agrees cells (o >>= f) (u >>= g)
  bind-Agrees (ok p) (ok s) f g h k = k p s h
  bind-Agrees (ok p) (err e) f g h k = absurd h
  bind-Agrees (err e) (ok s) f g h k = absurd h
  bind-Agrees (err e) (err x) f g h k = h

  -- Staging a list of deltas agrees with writing them one after the other.
  pub stage_all-Agrees :
      (p : Pending) (seq : Cells) (ds : List StateDelta)
      → IsSync cells p seq
      → Agrees cells
          (stage_all fnmatch cells allowed_write p ds)
          (write_each fnmatch allowed_write seq ds)
  unfolding stage_all write_each
  stage_all-Agrees p seq [] h = h
  stage_all-Agrees p seq (d ∷ ds) h =
      bind-Agrees (stage fnmatch cells allowed_write p d) (write_one fnmatch allowed_write seq d) _
        _ (stage-Agrees p seq d h) (λ p' s' h'. stage_all-Agrees p' s' ds h')

-- The empty pending dictionaries show the cells themselves.
pub IsSync-start : (cells : Cells) → IsSync cells no_pending cells
IsSync-start cells = record {
  distinct = tt;
  at = λ q. record {
    at_none = λ e. (lookup-empty q, refl);
    at_some = λ v e. cc (e, lookup-empty {V = Value} q);
  };
}
