-- ===== src/Access/Revocation/Denied.antt =====
-- revocation.py: how long a token stays revoked.
use compilableworld_runtime.Base.{
  ℕ, ◌<◌, String, Bool, true, false, not, ◌≡◌, ◌∙◌, refl, ap, Option, none, some, List, [], ◌∷◌, ok,
  leb, ltb, string_eq, arith,
}
use compilableworld_runtime.Base.Lists.{All}
use compilableworld_runtime.Base.Dict.{
  lookup, insert, Distinct, lookup-keep, keep-Distinct, lookup-insert_self, insert-Distinct,
  only_if, is_in,
}
use compilableworld_runtime.Access.Revocation.{
  Revoked, prune_local, jti_hash, revoke, is_revoked, prune,
}

abbrev pub prune_each : List ℕ → Revoked → Revoked
prune_each [] s = s
prune_each (t ∷ ts) s = prune_each ts (prune t s).1

-- A token whose revocation has not ended is still found after a prune.
pruned :
    (digest : String) (end t : ℕ) (s : Revoked)
    → t < end
    → Distinct s
    → lookup digest s ≡ some end
    → (lookup digest (prune_local t s) ≡ some end) × Distinct (prune_local t s)
unfolding prune_local
pruned digest end t s before d h =
    let alive : leb end t ≡ false = ground (arith, before) in
    (
      lookup-keep (λ _ e. not (leb e t)) digest s d ∙ rw (h, alive) refl,
      keep-Distinct (λ _ e. not (leb e t)) s d,
    )

pruned_each :
    (digest : String) (end : ℕ) (ts : List ℕ) (s : Revoked)
    → All (λ t. t < end) ts
    → Distinct s
    → lookup digest s ≡ some end
    → (lookup digest (prune_each ts s) ≡ some end) × Distinct (prune_each ts s)
unfolding prune
pruned_each digest end [] s early d h = (h, d)
pruned_each digest end (t ∷ ts) s (first, early) d h =
    let (found, kept) = pruned digest end t s first d h in
    pruned_each digest end ts (prune_local t s) early kept found

is_in-prune :
    (digest : String) (end later : ℕ) (s : Revoked)
    → Distinct s
    → lookup digest s ≡ some end
    → is_in digest (prune_local later s) ≡ ltb later end
unfolding prune_local
is_in-prune digest end later s d h =
    let alive : ℕ → Bool = λ e. not (leb e later) in
    ap (λ (o : Option ℕ). held o)
      (lookup-keep (λ _ e. alive e) digest s d ∙ ap (λ (o : Option ℕ). only_if alive o) h)
    ∙ ground arith
  where
    held : Option ℕ → Bool
    held none = false
    held (some e) = true

module _ (sha256 : String → String) where
  -- In a store that holds each hash once, a token that was revoked with an end after the call's
  -- time is revoked at every time before that end, whatever prunes ran before it, and not from then
  -- on.
  pub revoked_until :
      (jti digest : String) (end now : ℕ) (s : Revoked)
      → Distinct s
      → jti_hash sha256 jti ≡ ok digest
      → now < end
      → (ts : List ℕ) → All (λ t. t < end) ts
      → (later : ℕ)
      → (is_revoked sha256 jti later (prune_each ts (revoke sha256 jti end now s).1)).0
        ≡ ok (ltb later end)
  unfolding revoke is_revoked
  revoked_until jti digest end now s d hashed after ts early later =
      let kept : Revoked = prune_local now s in
      let stored = insert digest end kept in
      let (found, fine) =
        pruned_each digest end ts stored early
          (insert-Distinct digest end kept (keep-Distinct (λ _ e. not (leb e now)) s d))
          (lookup-insert_self digest end kept) in
      let valid : ltb now end ≡ true = ground (arith, after) in
      rw (hashed, valid)
        (ap (λ (b : Bool). ok b) (is_in-prune digest end later (prune_each ts stored) fine found))
