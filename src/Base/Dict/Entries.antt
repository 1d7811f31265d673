-- ===== src/Base/Dict/Entries.antt =====
-- Dictionaries whose entries all satisfy a predicate, and the number of their entries.
use compilableworld_runtime.Base.{
  ◌≢◌, Bool, arith, ◌+◌, ◌≤◌, ◌≡◌, ◌∙◌, true, refl, sym, some, [], ◌∷◌, ◌++◌, ◌==◌, Bool-cases, inl,
  inr, false,
}
use compilableworld_runtime.Base.Compare.{Eq}
use compilableworld_runtime.Base.Lists.{length, All}
use compilableworld_runtime.Base.Dict.{Dict, lookup, insert, remove, is_in, keep, lookup-insert_ne}

module _ {K V : Type 0} ⦃e : Eq K⦄ (P : K × V → Type 0) where
  pub All-lookup : (k : K) (v : V) (m : Dict K V) → All P m → lookup k m ≡ some v → P (k, v)
  unfolding lookup
  All-lookup k v [] h found = cc
  All-lookup k v ((j, w) ∷ m) (p, h) found = elim (Bool-cases (j == k)) [
    | inl same ↦
        let at_key : j ≡ k = (e.beq_iff j k).0 same in
        let value : w ≡ v = ground arith in rw (← at_key, ← value) p
    | inr other ↦ All-lookup k v m h (ground arith)
  ]

  pub All-remove : (k : K) (m : Dict K V) → All P m → All P (remove k m)
  unfolding remove
  All-remove k [] h = tt
  All-remove k ((j, w) ∷ m) (p, h) = elim (Bool-cases (j == k)) [
    | inl same ↦ rw same (All-remove k m h)
    | inr other ↦ rw other (p, All-remove k m h)
  ]

  pub All-insert : (k : K) (v : V) (m : Dict K V) → P (k, v) → All P m → All P (insert k v m)
  unfolding insert
  All-insert k v [] q h = (q, tt)
  All-insert k v ((j, w) ∷ m) q (p, h) = elim (Bool-cases (j == k)) [
    | inl same ↦ let at_key : k ≡ j = sym ((e.beq_iff j k).0 same) in rw same ((rw (← at_key) q), h)
    | inr other ↦ rw other (p, All-insert k v m q h)
  ]

module _ {K V : Type 0} ⦃e : Eq K⦄ where
  pub length-insert : (k : K) (v : V) (m : Dict K V) → length (insert k v m) ≤ length m + 1
  unfolding insert
  length-insert k v [] = omega arith
  length-insert k v ((j, w) ∷ m) = ground (arith, length-insert k v m)

  pub length-remove : (k : K) (m : Dict K V) → length (remove k m) ≤ length m
  unfolding remove
  length-remove k [] = omega arith
  length-remove k ((j, w) ∷ m) = ground (arith, length-remove k m)

  -- A key that is there leaves room.
  pub length-remove_found :
      (k : K) (v : V) (m : Dict K V) → lookup k m ≡ some v → length (remove k m) + 1 ≤ length m
  unfolding remove lookup
  length-remove_found k v [] h = cc
  length-remove_found k v ((j, w) ∷ m) h =
      ground (arith, length-remove k m, length-remove_found k v m)

  is_in-head : (k j : K) (w : V) (m : Dict K V) → (j == k) ≡ true → is_in k ((j, w) ∷ m) ≡ true
  unfolding lookup
  is_in-head k j w m same = rw (is_in, same) refl

  is_in-tail :
      (k j : K) (w : V) (m : Dict K V) → (j == k) ≡ false → is_in k ((j, w) ∷ m) ≡ is_in k m
  unfolding lookup
  is_in-tail k j w m other = rw (is_in, other) refl

  -- A key that is not there goes to the end.
  pub insert-absent :
      (k : K) (v : V) (m : Dict K V) → is_in k m ≡ false → insert k v m ≡ m ++ ((k, v) ∷ [])
  unfolding insert
  insert-absent k v [] h = refl
  insert-absent k v ((j, w) ∷ m) h = elim (Bool-cases (j == k)) [
    | inl same ↦ cc (is_in-head k j w m same, h)
    | inr other ↦
        let rest = insert-absent k v m (sym (is_in-tail k j w m other) ∙ h) in rw (other, rest) refl
  ]

  pub length-keep : (p : K → V → Bool) (m : Dict K V) → length (keep p m) ≤ length m
  unfolding keep
  length-keep p [] = omega arith
  length-keep p ((j, w) ∷ m) = ground (arith, length-keep p m)

  pub is_in-insert_ne :
      (k j : K) (v : V) (m : Dict K V) → k ≢ j → is_in j (insert k v m) ≡ is_in j m
  is_in-insert_ne k j v m ne = rw (is_in, lookup-insert_ne k j v m ne) refl
