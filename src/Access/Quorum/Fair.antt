-- ===== src/Access/Quorum/Fair.antt =====
-- runtime_quorum.py: the sorted tuple of a set of votes.
use compilableworld_runtime.Base.{
  String, Bool, true, false, ◌||◌, ◌≡◌, refl, ap, ◌∙◌, inl, inr, List, [], ◌∷◌, ◌==◌, nat_eq,
  string_eq, arith, Bool-cases,
}
use Prim.Native.String.{compare}
use text.Mathlib.Text.{is_lt}
use compilableworld_runtime.Base.Lists.{All}
use compilableworld_runtime.Access.Quorum.{Gate, is_member, place, sorted}

-- No member stands twice.
abbrev pub IsUnique : List String → Type 0
IsUnique [] = Unit
IsUnique (x ∷ xs) = (is_member x xs ≡ false) × IsUnique xs

abbrev pub AllKnown : Gate → List String → Type 0
AllKnown g xs = All (λ x. is_member x g.members ≡ true) xs

abbrev pub IsFair : Gate → List String → Type 0
IsFair g xs = AllKnown g xs × IsUnique xs

member-place :
    (m x : String) (xs : List String) → is_member m (place x xs) ≡ ((x == m) || is_member m xs)
unfolding place
member-place m x [] = refl
member-place m x (y ∷ ys) =
    let rest = member-place m x ys in
    elim (Bool-cases (is_lt (compare y x))) [
      | inl below ↦ rw (below, rest) (swap (y == m) (x == m) (is_member m ys))
      | inr above ↦ rw above refl
    ]
  where
    swap : (a b c : Bool) → (a || (b || c)) ≡ (b || (a || c))
    swap true true c = refl
    swap true false c = refl
    swap false b c = refl

place-IsFair :
    (g : Gate) (x : String) (xs : List String)
    → is_member x g.members ≡ true
    → is_member x xs ≡ false
    → IsFair g xs
    → IsFair g (place x xs)
unfolding place
place-IsFair g x [] k new f = ((k, tt), (refl, tt))
place-IsFair g x (y ∷ ys) k new ((ky, ks), (uy, us)) =
    let fresh : is_member x ys ≡ false = ground (arith, new) in
    let apart : (y == x) ≡ false = ground (arith, new) in
    let rest = place-IsFair g x ys k fresh (ks, us) in
    elim (Bool-cases (is_lt (compare y x))) [
      | inl below ↦ rw below (
        (ky, rest.0),
        (
          member-place y x ys
              ∙ ground (arith, apart, uy, string_eq.beq_iff y x, string_eq.beq_iff x y),
          rest.1,
        ),
      )
      | inr above ↦ rw above ((k, (ky, ks)), (new, (uy, us)))
    ]

member-sorted : (m : String) (xs : List String) → is_member m (sorted xs) ≡ is_member m xs
unfolding sorted
member-sorted m [] = refl
member-sorted m (x ∷ xs) =
    let rest = member-sorted m xs in member-place m x (sorted xs) ∙ ap (λ b. (x == m) || b) rest

pub sorted-IsFair : (g : Gate) (xs : List String) → IsFair g xs → IsFair g (sorted xs)
unfolding sorted
sorted-IsFair g [] f = f
sorted-IsFair g (x ∷ xs) ((k, ks), (u, us)) =
    let rest = sorted-IsFair g xs (ks, us) in
    place-IsFair g x (sorted xs) k (member-sorted x xs ∙ u) rest
