-- ===== src/Delivery/Outbox/Claims.antt =====
-- outbox.py: a claimed record is not handed out again.
use compilableworld_runtime.Base.{
  ℕ, String, true, false, ◌≡◌, ◌≢◌, refl, sym, ap, ◌∙◌, inl, inr, none, some, List, [], ◌∷◌,
  Outcome, ok, ◌==◌, ◌&&◌, ltb, leb, string_eq, arith, Bool-cases, if◌then◌else◌, zero, suc,
}
use compilableworld_runtime.Base.Int.{ℤ, pos_part}
use compilableworld_runtime.Base.Lists.{take, All, All-map}
use compilableworld_runtime.Base.Dict.{
  lookup, lookup-cons, insert, insert-cases, insert-Distinct, Distinct, lookup-insert_self,
}
use compilableworld_runtime.Base.Exec.{continue-ok}
use compilableworld_runtime.Delivery.Outbox.{
  Outbox, OutboxRecord, OutboxError, is_pending, is_due, place, before, candidates, claim_by,
  claim_all, write_each, claim, required, within,
}

-- Each record stands under its own id, which the dictionary holds once.
abbrev pub EachFiled : Outbox → Type 0
EachFiled s = All (λ (e : String × OutboxRecord). e.1.outbox_id ≡ e.0) s

abbrev pub IsFiled : Outbox → Type 0
IsFiled s = Distinct s × EachFiled s

insert-EachFiled :
    (r : OutboxRecord) (s : Outbox) → EachFiled s → EachFiled (insert r.outbox_id r s)
unfolding insert
insert-EachFiled r [] f = (refl, tt)
insert-EachFiled r ((id, x) ∷ rest) (h, f) = elim (Bool-cases (id == r.outbox_id)) [
  | inl same ↦ rw same (sym ((string_eq.beq_iff id r.outbox_id).0 same), f)
  | inr other ↦ let later = insert-EachFiled r rest f in rw other (h, later)
]

write_each-IsFiled : (rs : List OutboxRecord) (s : Outbox) → IsFiled s → IsFiled (write_each rs s)
unfolding write_each
write_each-IsFiled [] s f = f
write_each-IsFiled (r ∷ rs) s (d, f) =
    write_each-IsFiled rs (insert r.outbox_id r s)
      (insert-Distinct r.outbox_id r s d, insert-EachFiled r s f)

-- The record under an id waits no more.
abbrev IsTaken : Outbox → String → Type 0
IsTaken s id = (x : OutboxRecord) × (lookup id s ≡ some x) × (is_pending x.status ≡ false)

insert-IsTaken :
    (r : OutboxRecord) (s : Outbox) (id : String)
    → is_pending r.status ≡ false
    → IsTaken s id
    → IsTaken (insert r.outbox_id r s) id
insert-IsTaken r s id h (x, found, p) = elim (insert-cases r.outbox_id id r s) [
  | inl (same, now) ↦ (r, now, h)
  | inr as_before ↦ (x, as_before ∙ found, p)
]

write_each-IsTaken :
    (worker : String) (rs : List OutboxRecord) (s : Outbox) (id : String)
    → IsTaken s id
    → IsTaken (write_each (claim_all worker rs) s) id
unfolding write_each claim_all
write_each-IsTaken worker [] s id t = t
write_each-IsTaken worker (r ∷ rs) s id t =
    write_each-IsTaken worker rs (insert r.outbox_id (claim_by worker r) s) id
      (insert-IsTaken (claim_by worker r) s id refl t)

All-IsTaken :
    (worker : String) (rs : List OutboxRecord) (s : Outbox)
    → All (λ r. IsTaken (write_each (claim_all worker rs) s) r.outbox_id) (claim_all worker rs)
unfolding write_each claim_all
All-IsTaken worker [] s = tt
All-IsTaken worker (r ∷ rs) s =
    let first : IsTaken (insert r.outbox_id (claim_by worker r) s) r.outbox_id =
      (claim_by worker r, lookup-insert_self r.outbox_id (claim_by worker r) s, refl) in
    (
      write_each-IsTaken worker rs (insert r.outbox_id (claim_by worker r) s) r.outbox_id first,
      All-IsTaken worker rs (insert r.outbox_id (claim_by worker r) s),
    )

place-All :
    (P : OutboxRecord → Type 0) (r : OutboxRecord) (xs : List OutboxRecord)
    → P r
    → All P xs
    → All P (place r xs)
unfolding place
place-All P r [] p h = (p, tt)
place-All P r (x ∷ xs) p (q, h) = elim (Bool-cases (before x r)) [
  | inl first ↦ let rest = place-All P r xs p h in rw first (q, rest)
  | inr last ↦ rw last (p, (q, h))
]

-- The record under an id waits.
abbrev Waited : Outbox → String → Type 0
Waited s id = (x : OutboxRecord) × (lookup id s ≡ some x) × (is_pending x.status ≡ true)

candidates-All :
    (P : OutboxRecord → Type 0) (now : ℕ) (s : Outbox)
    → All (λ (e : String × OutboxRecord). is_pending e.1.status ≡ true → P e.1) s
    → All P (candidates now s)
unfolding candidates
candidates-All P now [] h = tt
candidates-All P now ((id, r) ∷ rest) (p, h) = elim (Bool-cases (is_due now r)) [
  | inl due ↦
      let others = candidates-All P now rest h in
      rw due (place-All P r (candidates now rest) (p (ground (arith, due))) others)
  | inr later ↦ let others = candidates-All P now rest h in rw later others
]

-- Each entry of a dictionary is found.
entries-found :
    (s : Outbox)
    → IsFiled s
    → All (λ (e : String × OutboxRecord). lookup e.1.outbox_id s ≡ some e.1) s
entries-found [] f = tt
entries-found ((id, r) ∷ rest) ((fresh, d), (h, f)) = (
  lookup-cons id r.outbox_id r rest ∙ rw ((string_eq.beq_iff id r.outbox_id).1 (sym h)) refl,
  All-map
      (λ e found.
        lookup-cons id e.1.outbox_id r rest ∙ below id e.1.outbox_id r e.1 rest fresh found)
      rest (entries-found rest (d, f)),
)
  where
    below :
        (id j : String) (r x : OutboxRecord) (rest : Outbox)
        → lookup id rest ≡ none
        → lookup j rest ≡ some x
        → (if id == j then some r else lookup j rest) ≡ some x
    below id j r x rest fresh found = elim (Bool-cases (id == j)) [
      | inl same ↦
          let e : id ≡ j = (string_eq.beq_iff id j).0 same in
          cc (fresh, found, ap (λ k. lookup k rest) e)
      | inr other ↦ rw other found
    ]

take-All :
    (P : OutboxRecord → Type 0) (n : ℕ) (xs : List OutboxRecord) → All P xs → All P (take n xs)
take-All P zero xs h = tt
take-All P (suc n) [] h = tt
take-All P (suc n) (x ∷ xs) (p, h) = (p, take-All P n xs h)

claim_all-All :
    (P : String → Type 0) (worker : String) (xs : List OutboxRecord)
    → All (λ r. P r.outbox_id) xs
    → All (λ r. P r.outbox_id) (claim_all worker xs)
unfolding claim_all
claim_all-All P worker [] h = tt
claim_all-All P worker (x ∷ xs) (p, h) = (p, claim_all-All P worker xs h)

-- What a call of `claim` gives out waited before, and waits no more.
claimed_by :
    (worker_id : String) (limit : ℤ) (now : ℕ) (s : Outbox) {rs : List OutboxRecord}
    → IsFiled s
    → (claim worker_id limit now s).0 ≡ ok rs
    → All (λ r. Waited s r.outbox_id) rs
      × All (λ r. IsTaken (claim worker_id limit now s).1 r.outbox_id) rs
      × IsFiled (claim worker_id limit now s).1
unfolding claim
claimed_by worker_id limit now s {rs} f h =
    let checked : Outcome OutboxError String =
      within (ltb 0 (pos_part limit) && leb (pos_part limit) 100) (required worker_id) in
    let (worker, e, k) =
      continue-ok checked
        (λ worker s. (
          ok (claim_all worker (take (pos_part limit) (candidates now s))),
          write_each (claim_all worker (take (pos_part limit) (candidates now s))) s,
        ))
        s h in
    let chosen : List OutboxRecord = take (pos_part limit) (candidates now s) in
    let given : claim_all worker chosen ≡ rs = cc (k) in
    let waits =
      take-All (λ r. Waited s r.outbox_id) (pos_part limit) (candidates now s)
        (candidates-All (λ r. Waited s r.outbox_id) now s
          (All-map (λ x found p. (x.1, found, p)) s (entries-found s f))) in
    rw (e, sym given)
      (
        claim_all-All (λ id. Waited s id) worker chosen waits,
        All-IsTaken worker chosen s,
        write_each-IsFiled (claim_all worker chosen) s f,
      )

All-apart :
    (s : Outbox) (rs ts : List OutboxRecord)
    → All (λ r. IsTaken s r.outbox_id) rs
    → All (λ t. Waited s t.outbox_id) ts
    → All (λ r. All (λ t. r.outbox_id ≢ t.outbox_id) ts) rs
All-apart s [] ts taken waits = tt
All-apart s (r ∷ rs) ts ((x, found, done), taken) waits = (
  All-map (λ t w same. clash t (ap (λ id. lookup id s) same) found done w) ts waits,
  All-apart s rs ts taken waits,
)
  where
    clash :
        (t : OutboxRecord)
        → lookup r.outbox_id s ≡ lookup t.outbox_id s
        → lookup r.outbox_id s ≡ some x
        → is_pending x.status ≡ false
        → Waited s t.outbox_id
        → ⊥
    clash t same found done (y, stands, p) =
        let e : x ≡ y = cc (same, found, stands) in
        cc (ap (λ (z : OutboxRecord). is_pending z.status) e, done, p)

-- From a store where each record stands once, under its own id, two calls of `claim`, one after the
-- other, by whichever workers and at whatever times, never hand out the same record.
pub claims_apart :
    (worker worker' : String) (limit limit' : ℤ) (now now' : ℕ) (s : Outbox)
    {rs ts : List OutboxRecord}
    → IsFiled s
    → (claim worker limit now s).0 ≡ ok rs
    → (claim worker' limit' now' (claim worker limit now s).1).0 ≡ ok ts
    → All (λ r. All (λ t. r.outbox_id ≢ t.outbox_id) ts) rs
claims_apart worker worker' limit limit' now now' s {rs} {ts} f h g =
    let s1 : Outbox = (claim worker limit now s).1 in
    let first = claimed_by worker limit now s f h in
    All-apart s1 rs ts first.1 (claimed_by worker' limit' now' s1 first.2 g).0
