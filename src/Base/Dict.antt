-- ===== src/Base/Dict.antt =====
-- Python's `dict`: an association list in insertion order, keys compared by an instance of `Eq`.
use mathlib.Core.Path.{◌≡◌, refl, ap, sym}
use mathlib.Core.Logic.{◌≢◌, ◌⊎◌, inl, inr}
use mathlib.Core.Bool.{Bool, true, false}
use mathlib.Core.Option.{Option, none, some}
use mathlib.Core.List.{List, [], ◌∷◌}
use native.Mathlib.Omega.{arith}
use compilableworld_runtime.Base.Compare.{Eq, ◌==◌, if◌then◌else◌, Bool-cases}
pub mod Entries

abbrev pub Dict {ℓ κ} : Type ℓ → Type κ → Type (ℓ ⊔ κ)
Dict K V = List (K × V)

abbrev pub only_if {κ} : {V : Type κ} → (V → Bool) → Option V → Option V
only_if p none = none
only_if p (some v) = if p v then some v else none

module _ {ℓ} {K : Type ℓ} ⦃e : Eq K⦄ where
  flip_false : (k j : K) → (j == k) ≡ false → (k == j) ≡ false
  flip_false k j h = elim (Bool-cases (k == j)) [
    | inl same ↦ cc (h, (e.beq_iff j k).1 (sym ((e.beq_iff k j).0 same)))
    | inr other ↦ other
  ]

module _ {ℓ κ} {K : Type ℓ} {V : Type κ} ⦃e : Eq K⦄ where
  unfoldable pub lookup : K → Dict K V → Option V
  lookup k [] = none
  lookup k ((j, v) ∷ m) = if j == k then some v else lookup k m

  -- `m[k] = v`: in place, or at the end.
  unfoldable pub insert : K → V → Dict K V → Dict K V
  insert k v [] = (k, v) ∷ []
  insert k v ((j, w) ∷ m) = if j == k then (j, v) ∷ m else (j, w) ∷ insert k v m

  -- `m.pop(k, None)`.
  unfoldable pub remove : K → Dict K V → Dict K V
  remove k [] = []
  remove k ((j, w) ∷ m) = let rest = remove k m in if j == k then rest else (j, w) ∷ rest

  -- `{k: v for k, v in m.items() if p(k, v)}`.
  unfoldable pub keep : (K → V → Bool) → Dict K V → Dict K V
  keep p [] = []
  keep p ((j, w) ∷ m) = let rest = keep p m in if p j w then (j, w) ∷ rest else rest

  pub lookup-empty : (k : K) → lookup k [] ≡ none
  unfolding lookup
  lookup-empty k = refl

  pub lookup-cons :
      (k j : K) (v : V) (m : Dict K V)
      → lookup j ((k, v) ∷ m) ≡ (if k == j then some v else lookup j m)
  unfolding lookup
  lookup-cons k j v m = refl

  pub lookup-insert :
      (k j : K) (v : V) (m : Dict K V)
      → lookup j (insert k v m) ≡ (if k == j then some v else lookup j m)
  unfolding lookup insert
  lookup-insert k j v ((i, w) ∷ rest) =
      ground (arith, e.beq_iff k j, e.beq_iff i k, e.beq_iff i j, lookup-insert k j v rest)
  lookup-insert k j v [] = refl

  pub lookup-insert_self : (k : K) (v : V) (m : Dict K V) → lookup k (insert k v m) ≡ some v
  lookup-insert_self k v m = ground (arith, lookup-insert k k v m, e.beq_iff k k)

  -- A read after a write: of the key that was written, or as before.
  pub insert-cases :
      (k j : K) (v : V) (m : Dict K V)
      → ((k ≡ j) × (lookup j (insert k v m) ≡ some v)) ⊎ (lookup j (insert k v m) ≡ lookup j m)
  insert-cases k j v m = elim (Bool-cases (k == j)) [
    | inl same ↦ inl ((e.beq_iff k j).0 same, ground (arith, lookup-insert k j v m))
    | inr other ↦ inr (ground (arith, lookup-insert k j v m))
  ]

  pub lookup-insert_ne :
      (k j : K) (v : V) (m : Dict K V) → k ≢ j → lookup j (insert k v m) ≡ lookup j m
  lookup-insert_ne k j v m ne = elim (insert-cases k j v m) [
    | inl (same, _) ↦ absurd (ne same)
    | inr before ↦ before
  ]

  pub lookup-remove :
      (k j : K) (m : Dict K V) → lookup j (remove k m) ≡ (if k == j then none else lookup j m)
  unfolding lookup remove
  lookup-remove k j [] = ground arith
  lookup-remove k j ((i, w) ∷ m) =
      ground (arith, e.beq_iff k j, e.beq_iff i k, e.beq_iff i j, lookup-remove k j m)

  abbrev pub is_in : K → Dict K V → Bool
  is_in k m = elim (lookup k m) [ none ↦ false | some _ ↦ true ]

  -- A Python dictionary holds a key once.
  abbrev pub Distinct : Dict K V → Type κ
  Distinct [] = Unit
  Distinct ((k, v) ∷ m) = (lookup k m ≡ none) × Distinct m

  keep-none :
      (p : K → V → Bool) (k : K) (m : Dict K V) → lookup k m ≡ none → lookup k (keep p m) ≡ none
  unfolding lookup keep
  keep-none p k [] h = refl
  keep-none p k ((j, w) ∷ m) h = ground (arith, keep-none p k m)

  same_key :
      (p : K → V → Bool) (k j : K) (w : V) (m : Dict K V)
      → (j == k) ≡ true
      → p j w ≡ p k w
      → lookup k (keep p m) ≡ none
      → lookup k (keep p ((j, w) ∷ m)) ≡ only_if (p k) (lookup k ((j, w) ∷ m))
  unfolding lookup keep
  same_key p k j w m same q gone = ground arith

  other_key :
      (p : K → V → Bool) (k j : K) (w : V) (m : Dict K V)
      → (j == k) ≡ false
      → lookup k (keep p m) ≡ only_if (p k) (lookup k m)
      → lookup k (keep p ((j, w) ∷ m)) ≡ only_if (p k) (lookup k ((j, w) ∷ m))
  unfolding lookup keep
  other_key p k j w m other rest = ground arith

  pub lookup-keep :
      (p : K → V → Bool) (k : K) (m : Dict K V)
      → Distinct m
      → lookup k (keep p m) ≡ only_if (p k) (lookup k m)
  unfolding lookup keep
  lookup-keep p k [] d = refl
  lookup-keep p k ((j, w) ∷ m) (fresh, d) = elim (Bool-cases (j == k)) [
    | inl same ↦
        let e : j ≡ k = (e.beq_iff j k).0 same in
        same_key p k j w m same (ap (λ x. p x w) e) (keep-none p k m (rw e at fresh))
    | inr other ↦ other_key p k j w m other (lookup-keep p k m d)
  ]

  pub keep-Distinct : (p : K → V → Bool) (m : Dict K V) → Distinct m → Distinct (keep p m)
  unfolding keep
  keep-Distinct p [] d = tt
  keep-Distinct p ((k, v) ∷ m) (fresh, d) =
      let rest = keep-Distinct p m d in
      elim (Bool-cases (p k v)) [
        | inl kept ↦ rw kept (keep-none p k m fresh, rest)
        | inr dropped ↦ rw dropped rest
      ]

  insert-none :
      (k j : K) (v : V) (m : Dict K V)
      → (k == j) ≡ false
      → lookup j m ≡ none
      → lookup j (insert k v m) ≡ none
  insert-none k j v m other h = rw (lookup-insert, other) h

  pub insert-Distinct : (k : K) (v : V) (m : Dict K V) → Distinct m → Distinct (insert k v m)
  unfolding insert
  insert-Distinct k v [] d = (unfold lookup in refl, tt)
  insert-Distinct k v ((j, w) ∷ m) (fresh, d) = elim (Bool-cases (j == k)) [
    | inl same ↦ rw same (fresh, d)
    | inr other ↦
        rw other (insert-none k j v m (flip_false k j other) fresh, insert-Distinct k v m d)
  ]
