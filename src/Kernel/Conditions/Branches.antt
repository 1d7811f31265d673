-- ===== src/Kernel/Conditions/Branches.antt =====
-- kernel.py: which branch the selection by conditions takes from the list that
-- `_bounded_action_branches` lets through.
use compilableworld_runtime.Base.{
  arith, ℕ, suc, ◌≤◌, sym, Bool, true, false, ◌≡◌, ◌≢◌, refl, some, List, [], ◌∷◌, Bool-cases, inl,
  inr, nat_eq,
}
use compilableworld_runtime.Base.Lists.{All}
use compilableworld_runtime.Kernel.Behavior.{Condition, Branch}
use compilableworld_runtime.Kernel.Conditions.{
  all_match, is_fallback, priorities_of, one_fallback, descending_from, branches_are_bounded,
  bounded_action_branches, first_matching,
}

-- The branch is not above `n`, if its conditions hold.
abbrev pub NotAbove : (Condition → Bool) → ℕ → Branch → Type 0
NotAbove matches n b = all_match matches b.when ≡ true → b.priority ≤ n

fallback-all_match :
    (matches : Condition → Bool) (b : Branch)
    → is_fallback b ≡ true
    → all_match matches b.when ≡ true
fallback-all_match matches b h = ground arith

-- Where there is a fallback, a branch matches.
fallback-first_matching :
    (matches : Condition → Bool) (bs : List Branch)
    → priorities_of true bs ≢ []
    → (x : Branch) × (first_matching matches bs ≡ some x)
unfolding priorities_of first_matching
fallback-first_matching matches [] h = absurd (h refl)
fallback-first_matching matches (b ∷ bs) h = elim (Bool-cases (all_match matches b.when)) [
  | inl fits ↦ (b, rw fits refl)
  | inr fails ↦
      let (x, later) =
        fallback-first_matching matches bs
          (λ gone. ground (arith, fallback-all_match matches b, gone, h)) in
      (x, rw fails later)
]

below-All :
    (matches : Condition → Bool) (n m : ℕ) (bs : List Branch)
    → descending_from n bs ≡ true
    → n ≤ m
    → All (NotAbove matches m) bs
below-All matches n m [] h le = tt
below-All matches n m (b ∷ bs) h le =
    (λ _. ground arith, below-All matches b.priority m bs (ground arith) (ground arith))

first_matching-highest :
    (matches : Condition → Bool) (n : ℕ) (bs : List Branch) (x : Branch)
    → descending_from n bs ≡ true
    → first_matching matches bs ≡ some x
    → All (NotAbove matches x.priority) bs
unfolding first_matching
first_matching-highest matches n [] x h e = tt
first_matching-highest matches n (b ∷ bs) x h e = elim (Bool-cases (all_match matches b.when)) [
  | inl fits ↦
      (λ _. ground arith, below-All matches b.priority x.priority bs (ground arith) (ground arith))
  | inr fails ↦ (
    λ fits. ground arith,
    first_matching-highest matches b.priority bs x (ground arith) (ground arith),
  )
]

one_fallback-some : (ns ms : List ℕ) → one_fallback ns ms ≡ true → ns ≢ []
one_fallback-some [] ms h e = cc
one_fallback-some (n ∷ ns) ms h e = cc

select_bounded :
    (matches : Condition → Bool) (b : Branch) (bs : List Branch)
    → branches_are_bounded b bs ≡ true
    → (x : Branch) × (first_matching matches (b ∷ bs) ≡ some x)
      × All (NotAbove matches x.priority) (b ∷ bs)
select_bounded matches b bs h =
    let (x, e) = fallback-first_matching matches (b ∷ bs) (
      one_fallback-some (priorities_of true (b ∷ bs)) (priorities_of false (b ∷ bs))
        (ground arith)) in
    (x, e, first_matching-highest matches (suc b.priority) (b ∷ bs) x (ground arith) e)

-- From every list of branches that `_bounded_action_branches` lets through, whatever the conditions
-- say, the selection takes a branch, and no branch of the list whose conditions hold has a higher
-- priority than the one it takes.
pub bounded_selection :
    (matches : Condition → Bool) (bs cs : List Branch)
    → bounded_action_branches bs ≡ some cs
    → (x : Branch) × (first_matching matches cs ≡ some x) × All (NotAbove matches x.priority) cs
unfolding bounded_action_branches
bounded_selection matches [] cs h = cc
bounded_selection matches (b ∷ bs) cs h = elim (Bool-cases (branches_are_bounded b bs)) [
  | inl bounded ↦
      let same : b ∷ bs ≡ cs = ground arith in rw (sym same) (select_bounded matches b bs bounded)
  | inr refused ↦ ground arith
]
