-- ===== src/Kernel/State/Commit.antt =====
-- `StateStore.commit` is one transaction: it writes nothing when it raises, and otherwise leaves what
-- its deltas leave one after the other.
use compilableworld_runtime.Base.{
  String, Bool, false, Option, none, some, List, [], ◌∷◌, Outcome, ok, err, IsOk, ◌≡◌, refl, sym,
  ap, ◌∙◌, ◌==◌, string_eq, inl, inr, Bool-cases, arith,
}
use compilableworld_runtime.Base.Int.{ℤ, negsuc}
use compilableworld_runtime.Base.Dict.{
  Dict, lookup, insert, lookup-insert, lookup-cons, lookup-empty, Distinct,
}
use compilableworld_runtime.Kernel.Value.{Value, KernelError}
use compilableworld_runtime.Kernel.State.{
  StateCell, StateDelta, Cells, Pending, value_or, stage_all, no_pending, write_all, finish, commit,
}
use compilableworld_runtime.Kernel.State.Sequential.{
  IsSync, Agrees, write_each, stage_all-Agrees, IsSync-start,
}

abbrev shown : Cells → Pending → String → Option Value → Option StateCell
shown cells p q none = lookup q cells
shown cells p q (some v) =
    some (record { value = v; version = value_or (lookup q p.versions) (negsuc 0) })

-- Writing another path first shows in no pending path.
other_path :
    (o : Option Value) (p q : String) (v : Value) (rest : Dict String Value)
    (versions : Dict String ℤ) (cells : Cells)
    → (p == q) ≡ false
    → let cell : StateCell = record {
      value = v;
      version = value_or (lookup p versions) (negsuc 0);
    } in
      shown (insert p cell cells) (record { values = rest; versions = versions }) q o
      ≡ shown cells (record { values = (p, v) ∷ rest; versions = versions }) q o
other_path none p q v rest versions cells other =
    let cell : StateCell = record {
      value = v;
      version = value_or (lookup p versions) (negsuc 0);
    } in
    rw (lookup-insert p q cell cells, other)
other_path (some x) p q v rest versions cells other = refl

lookup-write_all :
    (values : Dict String Value) (versions : Dict String ℤ) (cells : Cells) (q : String)
    → Distinct values
    → lookup q (write_all values versions cells)
      ≡ shown cells (record { values = values; versions = versions }) q (lookup q values)
unfolding write_all
lookup-write_all [] versions cells q d = rw lookup-empty
lookup-write_all ((p, v) ∷ rest) versions cells q (fresh, d) =
    let cell : StateCell = record {
      value = v;
      version = value_or (lookup p versions) (negsuc 0);
    } in
    lookup-write_all rest versions (insert p cell cells) q d ∙ (elim (Bool-cases (p == q)) [
      | inl same ↦
          let e : p ≡ q = (string_eq.beq_iff p q).0 same in
          rw (lookup-cons p q v rest, same, rw e at fresh, lookup-insert p q cell cells, same)
            (ap
              (λ (x : String).
                some (record cell { version = value_or (lookup x versions) (negsuc 0) }))
              e)
      | inr other ↦
          rw (lookup-cons p q v rest, other)
            (other_path (lookup q rest) p q v rest versions cells other)
    ])

-- What `commit` leaves under each path, from the pending dictionaries.
write_all-IsSync :
    (cells : Cells) (p : Pending) (seq : Cells) (q : String)
    → IsSync cells p seq
    → lookup q (write_all p.values p.versions cells) ≡ lookup q seq
write_all-IsSync cells p seq q h =
    lookup-write_all p.values p.versions cells q h.distinct ∙ go (lookup q p.values) refl
  where
    go : (o : Option Value) → lookup q p.values ≡ o → shown cells p q o ≡ lookup q seq
    go none e = sym ((h.at q).at_none e).1
    go (some v) e = let (n, x, y) = (h.at q).at_some v e in rw (x, y)

module _ (cells : Cells) (ds : List StateDelta) where
  finish-err :
      (o : Outcome KernelError Pending) {e : KernelError}
      → (finish ds o cells).0 ≡ err e
      → (finish ds o cells).1 ≡ cells
  finish-err (ok p) h = cc
  finish-err (err e) h = refl

  finish-sequential :
      (o : Outcome KernelError Pending) (u : Outcome KernelError Cells)
      → Agrees cells o u
      → ((e : KernelError) → u ≡ err e → finish ds o cells ≡ (err e, cells))
        × ((after : Cells)
            → u ≡ ok after
            → IsOk (finish ds o cells).0
              × ((q : String) → lookup q (finish ds o cells).1 ≡ lookup q after))
  finish-sequential (ok p) (ok s) h =
      (λ e bad. cc, λ after same. (tt, λ q. write_all-IsSync cells p s q h ∙ ground (arith, same)))
  finish-sequential (ok p) (err f) h = absurd h
  finish-sequential (err e) (ok s) h = absurd h
  finish-sequential (err e) (err f) h = (λ x same. ground (arith, h), λ after bad. cc)

module _ (fnmatch : String → String → Bool) (allowed_write : List String) (cells : Cells)
    (ds : List StateDelta) where
  -- A commit that raises leaves every cell as it was.
  pub commit_atomic :
      {e : KernelError}
      → (commit fnmatch ds allowed_write cells).0 ≡ err e
      → (commit fnmatch ds allowed_write cells).1 ≡ cells
  unfolding commit
  commit_atomic h = finish-err cells ds (stage_all fnmatch cells allowed_write no_pending ds) h

  -- `commit` raises what the deltas raise when they are written one after the other, and nothing is
  -- written then; where they raise nothing, it succeeds and leaves the cells that they leave.
  pub commit_sequential :
      ((e : KernelError)
        → write_each fnmatch allowed_write cells ds ≡ err e
        → commit fnmatch ds allowed_write cells ≡ (err e, cells))
      × ((after : Cells)
          → write_each fnmatch allowed_write cells ds ≡ ok after
          → IsOk (commit fnmatch ds allowed_write cells).0
            × ((q : String) → lookup q (commit fnmatch ds allowed_write cells).1 ≡ lookup q after))
  unfolding commit
  commit_sequential =
      finish-sequential cells ds (stage_all fnmatch cells allowed_write no_pending ds)
        (write_each fnmatch allowed_write cells ds)
        (stage_all-Agrees fnmatch allowed_write cells no_pending cells ds (IsSync-start cells))
