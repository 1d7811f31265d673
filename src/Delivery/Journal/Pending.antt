-- ===== src/Delivery/Journal/Pending.antt =====
-- action_journal.py: which entries `pending_delivery` lists.
use compilableworld_runtime.Base.{
  ◌≡◌, true, refl, inl, inr, some, List, [], ◌∷◌, Bool-cases, if_rule, ◌==◌, pair_eq, string_eq,
}
use compilableworld_runtime.Base.Lists.{All, Has}
use compilableworld_runtime.Base.Dict.{lookup}
use compilableworld_runtime.Delivery.Entry.{ActionCommitJournalRecord, Key, is_committed}
use compilableworld_runtime.Delivery.Journal.{Journal, before, place, pending_delivery}

abbrev pub Committed : ActionCommitJournalRecord → Type 0
Committed r = is_committed r.status ≡ true

place-own :
    (r : ActionCommitJournalRecord) (xs : List ActionCommitJournalRecord) → Has r (place r xs)
unfolding place
place-own r [] = inl refl
place-own r (x ∷ xs) = if_rule (Has r) (before x r) (λ _. inr (place-own r xs)) (λ _. inl refl)

place-other :
    (u r : ActionCommitJournalRecord) (xs : List ActionCommitJournalRecord)
    → Has u xs
    → Has u (place r xs)
unfolding place
place-other u r [] m = absurd m
place-other u r (x ∷ xs) (inl e) = if_rule (Has u) (before x r) (λ _. inl e) (λ _. inr (inl e))
place-other u r (x ∷ xs) (inr m) =
    if_rule (Has u) (before x r) (λ _. inr (place-other u r xs m)) (λ _. inr (inr m))

place-Committed :
    (r : ActionCommitJournalRecord) (xs : List ActionCommitJournalRecord)
    → Committed r
    → All Committed xs
    → All Committed (place r xs)
unfolding place
place-Committed r [] c h = (c, tt)
place-Committed r (x ∷ xs) c (p, h) =
    if_rule (All Committed) (before x r) (λ _. (p, place-Committed r xs c h)) (λ _. (c, (p, h)))

pub pending-Committed : (s : Journal) → All Committed (pending_delivery s)
unfolding pending_delivery
pending-Committed [] = tt
pending-Committed ((key, r) ∷ s) =
    if_rule (All Committed) (is_committed r.status)
      (λ c. place-Committed r (pending_delivery s) c (pending-Committed s))
      (λ _. pending-Committed s)

-- An entry that is committed to the runtime waits for its delivery.
pub pending-Has :
    (key : Key) (u : ActionCommitJournalRecord) (s : Journal)
    → lookup key s ≡ some u
    → Committed u
    → Has u (pending_delivery s)
unfolding lookup pending_delivery
pending-Has key u [] h c = cc
pending-Has key u ((j, r) ∷ s) h c = elim (Bool-cases (j == key)) [
  | inl same ↦
      let e : r ≡ u = cc (rw same at h) in
      let committed : is_committed r.status ≡ true = rw e c in
      rw committed (rw e (place-own u (pending_delivery s)))
  | inr other ↦
      let rest = pending-Has key u s (rw other at h) c in
      if_rule (Has u) (is_committed r.status) (λ _. place-other u r (pending_delivery s) rest)
        (λ _. rest)
]
