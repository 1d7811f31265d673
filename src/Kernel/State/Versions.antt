-- ===== src/Kernel/State/Versions.antt =====
-- The versions of the cells across a commit, and the permission that every write needs.
use compilableworld_runtime.Base.{
  ℕ, ◌+◌, String, Bool, true, false, Option, List, [], ◌∷◌, Outcome, ok, err, guard, IsOk, ◌≡◌,
  refl, sym, ap, ◌∙◌, ◌==◌, string_eq, if◌then◌else◌, inl, inr, Bool-cases, arith,
}
use compilableworld_runtime.Base.Raising.{◌>>=◌, ◌>>◌, bind-ok}
use compilableworld_runtime.Base.Int.{ℤ, pos, ◌+ℤ◌}
use compilableworld_runtime.Base.Dict.{lookup, insert, lookup-insert}
use compilableworld_runtime.Kernel.Value.{Value, KernelError, permission_denied, conflict, apply}
use compilableworld_runtime.Kernel.State.{
  StateCell, StateDelta, Cells, delta_path, logical_path, cell_or, absent_cell, version_fits,
  allowed, commit,
}
use compilableworld_runtime.Kernel.State.Commit.{commit_sequential}
use compilableworld_runtime.Kernel.State.Sequential.{write_one, write_each}

abbrev version_of : Option StateCell → ℤ
version_of o = (cell_or o absent_cell).version

abbrev pub version_at : String → Cells → ℤ
version_at q cells = (cell_or (lookup q cells) absent_cell).version

-- How many deltas write a path.
abbrev pub count_writes : String → List StateDelta → ℕ
count_writes q [] = 0
count_writes q (d ∷ ds) = (if delta_path d == q then 1 else 0) + count_writes q ds

abbrev pub AllAllowed : (String → String → Bool) → List String → List StateDelta → Type 0
AllAllowed fnmatch allowed_write [] = Unit
AllAllowed fnmatch allowed_write (d ∷ ds) =
    (allowed fnmatch allowed_write (logical_path d) ≡ true) × AllAllowed fnmatch allowed_write ds

add_shift : (a : ℤ) (n k : ℕ) → a +ℤ pos n +ℤ pos k ≡ a +ℤ pos (n + k)
unfolding ◌+ℤ◌
add_shift a n k = ground arith

add_none : (a : ℤ) → a +ℤ pos 0 ≡ a
unfolding ◌+ℤ◌
add_none a = ground arith

-- What a successful chain of checks says.
chain-ok :
    (a b : Bool) (o : Outcome KernelError Value) (g : Value → Cells) {after : Cells}
    → (guard a permission_denied >> (guard b conflict >> (o >>= λ v. ok (g v)))) ≡ ok after
    → (v : Value) × (a ≡ true) × (g v ≡ after)
chain-ok true true (ok v) g h = (v, refl, ground arith)
chain-ok true true (err e) g h = cc
chain-ok true false o g h = cc
chain-ok false b o g h = cc

module _ (fnmatch : String → String → Bool) (allowed_write : List String) where
  written-version :
      (p q : String) (v : Value) (cells : Cells)
      → version_at q (insert p (record { value = v; version = version_at p cells +ℤ pos 1 }) cells)
        ≡ version_at q cells +ℤ pos (if p == q then 1 else 0)
  written-version p q v cells =
      let c : StateCell = record { value = v; version = version_at p cells +ℤ pos 1 } in
      elim (Bool-cases (p == q)) [
        | inl same ↦ rw same (
            ap version_of (rw same at (lookup-insert p q c cells))
            ∙ ap (λ (x : String). version_at x cells +ℤ pos 1) ((string_eq.beq_iff p q).0 same))
        | inr other ↦ rw other (
            ap version_of (rw other at (lookup-insert p q c cells))
            ∙ sym (add_none (version_at q cells)))
      ]

  write_one-version :
      (cells : Cells) (d : StateDelta) (q : String) {after : Cells}
      → write_one fnmatch allowed_write cells d ≡ ok after
      → (allowed fnmatch allowed_write (logical_path d) ≡ true)
        × (version_at q after ≡ version_at q cells +ℤ pos (if delta_path d == q then 1 else 0))
  unfolding write_one
  write_one-version cells d q {after} h =
      let p = delta_path d in
      let cell = cell_or (lookup p cells) absent_cell in
      let (v, permitted, same) =
        chain-ok (allowed fnmatch allowed_write (logical_path d))
          (version_fits d.expected_version cell.version) (apply cell.value d.operation d.value)
          (λ v. insert p (record { value = v; version = cell.version +ℤ pos 1 }) cells) h in
      (permitted, rw (← same) (written-version p q v cells))

  write_each-version :
      (cells : Cells) (ds : List StateDelta) (q : String) {after : Cells}
      → write_each fnmatch allowed_write cells ds ≡ ok after
      → AllAllowed fnmatch allowed_write ds
        × (version_at q after ≡ version_at q cells +ℤ pos (count_writes q ds))
  unfolding write_each
  write_each-version cells [] q h = (tt, ground (arith, h, add_none (version_at q cells)))
  write_each-version cells (d ∷ ds) q h =
      let (next, first, rest) =
        bind-ok (write_one fnmatch allowed_write cells d)
          (λ next. write_each fnmatch allowed_write next ds) h in
      let (permitted, v) = write_one-version cells d q first in
      let (all, w) = write_each-version next ds q rest in
      (
        (permitted, all),
        w
            ∙ ap (λ (n : ℤ). n +ℤ pos (count_writes q ds)) v
            ∙ add_shift (version_at q cells) (if delta_path d == q then 1 else 0)
                (count_writes q ds),
      )

  -- After a successful commit every delta was permitted by a pattern of the module, and the version
  -- of each path is its old version, -1 where there was no cell, plus the number of deltas that
  -- write it.
  pub commit_versions :
      (cells : Cells) (ds : List StateDelta)
      → IsOk (commit fnmatch ds allowed_write cells).0
      → AllAllowed fnmatch allowed_write ds
        × ((q : String)
            → version_at q (commit fnmatch ds allowed_write cells).1
              ≡ version_at q cells +ℤ pos (count_writes q ds))
  commit_versions cells ds done = go (write_each fnmatch allowed_write cells ds) refl
    where
      go :
          (o : Outcome KernelError Cells)
          → write_each fnmatch allowed_write cells ds ≡ o
          → AllAllowed fnmatch allowed_write ds
            × ((q : String)
                → version_at q (commit fnmatch ds allowed_write cells).1
                  ≡ version_at q cells +ℤ pos (count_writes q ds))
      go (err e) same =
          absurd (rw ((commit_sequential fnmatch allowed_write cells ds).0 e same) at done)
      go (ok after) same =
          let (_, shows) = (commit_sequential fnmatch allowed_write cells ds).1 after same in
          (
            (write_each-version cells ds "" same).0,
            λ q.
                ap (λ (o : Option StateCell). (cell_or o absent_cell).version) (shows q)
                ∙ (write_each-version cells ds q same).1,
          )
