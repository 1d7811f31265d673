-- ===== src/Access/Quorum/Votes.antt =====
-- runtime_quorum.py: whose votes make a quorum.
use compilableworld_runtime.Base.{
  ℕ, ◌+◌, ◌≤◌, String, true, ◌≡◌, refl, sym, ap, ◌∙◌, inl, inr, Option, none, some, List, [], ◌∷◌,
  Outcome, ok, err, ◌==◌, nat_eq, string_eq, arith, Bool-cases,
}
use mathlib.Core.Path.{subst}
use compilableworld_runtime.Base.Lists.{length}
use compilableworld_runtime.Base.Text.{stripped}
use compilableworld_runtime.Base.Dict.{lookup, lookup-empty, insert, insert-cases}
use compilableworld_runtime.Base.Exec.{continue, continue-ok, bind-ok, lift, after_lift}
use compilableworld_runtime.Access.Quorum.{
  Gate, Ballot, Terms, RuntimeQuorumTerm, QuorumError, is_member, member, known, term_number,
  open_term, record_vote, require_quorum, status, found, with_vote, cast, vote_on, term_local,
  expected, judge, check_candidate, quorum_reached, snapshot,
}
use compilableworld_runtime.Access.Quorum.Fair.{IsFair, sorted-IsFair}

abbrev pub AllFair : Gate → Terms → Type 0
AllFair g s =
    (term : ℕ) (b : Ballot)
    → lookup term s.terms ≡ some b
    → IsFair g b.votes × (is_member b.candidate g.members ≡ true)

-- A step keeps the ballots fair.
abbrev Keeps : Gate → Terms → Terms → Type 0
Keeps g s t = AllFair g s → AllFair g t

insert-AllFair :
    (g : Gate) (term next : ℕ) (b : Ballot) (s : Terms)
    → IsFair g b.votes
    → is_member b.candidate g.members ≡ true
    → AllFair g s
    → AllFair g (record { terms = insert term b s.terms; next_term = next })
insert-AllFair g term next b s f k all t c h = elim (insert-cases term t b s.terms) [
  | inl (same, now) ↦
      let e : b ≡ c = cc (now, h) in
      (
        subst (λ (x : Ballot). IsFair g x.votes) e f,
        ap (λ (x : Ballot). is_member x.candidate g.members) (sym e) ∙ k,
      )
  | inr as_before ↦ all t c (sym as_before ∙ h)
]

with_vote-IsFair :
    (g : Gate) (m : String) (b : Ballot)
    → is_member m g.members ≡ true
    → IsFair g b.votes
    → IsFair g (with_vote m b).votes
with_vote-IsFair g m b k (ks, us) = elim (Bool-cases (is_member m b.votes)) [
  | inl voted ↦ rw voted (ks, us)
  | inr new ↦ rw new ((k, ks), (new, us))
]

known-member :
    (g : Gate) (o : Option String) {m : String} → known g o ≡ ok m → is_member m g.members ≡ true
known-member g none h = cc
known-member g (some x) {m} h = elim (Bool-cases (is_member x g.members)) [
  | inl yes_ ↦ let e : x ≡ m = cc (rw yes_ at h) in ap (λ y. is_member y g.members) (sym e) ∙ yes_
  | inr no_ ↦ cc (rw no_ at h)
]

member-known :
    (g : Gate) (value : String) {m : String} → member g value ≡ ok m → is_member m g.members ≡ true
unfolding member
member-known g value h = known-member g (stripped value) h

cast-Keeps :
    (g : Gate) (term : ℕ) (m : String) (b : Ballot) (o : Outcome QuorumError String) (s : Terms)
    → is_member m g.members ≡ true
    → lookup term s.terms ≡ some b
    → Keeps g s (cast g term m b o s).1
unfolding cast
cast-Keeps g term m b (err e) s k stands all = all
cast-Keeps g term m b (ok c) s k stands all = elim (Bool-cases (c == b.candidate)) [
  | inl same ↦ rw same (
      insert-AllFair g term s.next_term (with_vote m b) s
        (with_vote-IsFair g m b k (all term b stands).0) (all term b stands).1 all)
  | inr other ↦ rw other all
]

vote_on-Keeps :
    (g : Gate) (term : ℕ) (m : String) (candidate : Option String) (o : Option Ballot) (s : Terms)
    → is_member m g.members ≡ true
    → lookup term s.terms ≡ o
    → Keeps g s (vote_on g term m candidate (term_local o) s).1
unfolding vote_on
vote_on-Keeps g term m candidate none s k stands all = all
vote_on-Keeps g term m candidate (some b) s k stands all =
    cast-Keeps g term m b (expected g b candidate) s k stands all

record_vote-Keeps :
    (g : Gate) (term : ℕ) (m : String) (candidate : Option String) (s : Terms)
    → Keeps g s (record_vote g term m candidate s).1
unfolding record_vote
record_vote-Keeps g term m candidate s =
    after_lift (Keeps g) (term_number term)
      (λ n s.
        continue (member g m) (λ v s. vote_on g n v candidate (term_local (lookup n s.terms)) s) s)
      s (λ all. all)
      (λ n _.
        after_lift (Keeps g) (member g m)
          (λ v s. vote_on g n v candidate (term_local (lookup n s.terms)) s) s (λ all. all)
          (λ v e. vote_on-Keeps g n v candidate (lookup n s.terms) s (member-known g m e) refl))

open_term-Keeps :
    (g : Gate) (candidate : String) (now : ℕ) (s : Terms)
    → Keeps g s (open_term g candidate now s).1
unfolding open_term
open_term-Keeps g candidate now s =
    after_lift (Keeps g) (member g candidate)
      (λ c s. (
        ok (snapshot g (s.next_term + 1) (record { candidate = c; opened_at = now; votes = [] })),
        record {
          terms =
              insert (s.next_term + 1) (record { candidate = c; opened_at = now; votes = [] })
                s.terms;
          next_term = s.next_term + 1;
        },
      ))
      s (λ all. all)
      (λ c e.
        insert-AllFair g (s.next_term + 1) (s.next_term + 1)
          (record { candidate = c; opened_at = now; votes = [] }) s (tt, tt)
          (member-known g candidate e))

pub data Call : Type 0 where
  opening : (candidate : String) (now : ℕ) → Call
  voting : (term : ℕ) (member : String) (candidate : Option String) → Call

abbrev pub after : Gate → Call → Terms → Terms
after g (opening candidate now) s = (open_term g candidate now s).1
after g (voting term m candidate) s = (record_vote g term m candidate s).1

abbrev pub after_all : Gate → List Call → Terms → Terms
after_all g [] s = s
after_all g (c ∷ cs) s = after_all g cs (after g c s)

after_all-Keeps : (g : Gate) (cs : List Call) (s : Terms) → Keeps g s (after_all g cs s)
after_all-Keeps g [] s all = all
after_all-Keeps g (opening candidate now ∷ cs) s all =
    after_all-Keeps g cs (open_term g candidate now s).1 (open_term-Keeps g candidate now s all)
after_all-Keeps g (voting term m candidate ∷ cs) s all =
    after_all-Keeps g cs (record_vote g term m candidate s).1
      (record_vote-Keeps g term m candidate s all)

abbrev pub new_gate : Terms
new_gate = record { terms = []; next_term = 0 }

judge-reached :
    (t : RuntimeQuorumTerm) (o : Outcome QuorumError String) {u : RuntimeQuorumTerm}
    → judge t o ≡ ok u
    → (t ≡ u) × (t.quorum_size ≤ length t.votes)
judge-reached t (err e) h = cc
judge-reached t (ok c) {u} h = elim (Bool-cases (c == t.candidate_id)) [
  | inl same ↦ elim (Bool-cases (quorum_reached t)) [
    | inl reached ↦ (cc (rw (same, reached) at h), ground (arith, reached))
    | inr few ↦ cc (rw (same, few) at h)
  ]
  | inr other ↦ cc (rw other at h)
]

found-IsFair :
    (g : Gate) (term : ℕ) (o : Option Ballot) (s : Terms) {t : RuntimeQuorumTerm}
    → AllFair g s
    → lookup term s.terms ≡ o
    → found g term (term_local o) ≡ ok t
    → IsFair g t.votes
      × (t.quorum_size ≡ g.quorum_size)
      × (is_member t.candidate_id g.members ≡ true)
unfolding found snapshot
found-IsFair g term none s all stands h = cc
found-IsFair g term (some b) s {t} all stands h =
    let e : snapshot g term b ≡ t = cc (h) in
    let (fair, k) = all term b stands in
    (
      subst (λ (x : RuntimeQuorumTerm). IsFair g x.votes) e (sorted-IsFair g b.votes fair),
      ap (λ (x : RuntimeQuorumTerm). x.quorum_size) (sym e),
      ap (λ (x : RuntimeQuorumTerm). is_member x.candidate_id g.members) (sym e) ∙ k,
    )

-- After any calls on a new gate, a term that `require_quorum` lets pass has the votes of as many
-- different configured members as the quorum asks for, and a configured member as its candidate.
pub quorum_is_real :
    (g : Gate) (cs : List Call) (term : ℕ) (candidate : Option String) {t : RuntimeQuorumTerm}
    → (require_quorum g term candidate (after_all g cs new_gate)).0 ≡ ok t
    → IsFair g t.votes
      × (g.quorum_size ≤ length t.votes)
      × (is_member t.candidate_id g.members ≡ true)
unfolding require_quorum status
quorum_is_real g cs term candidate {t} h =
    let s : Terms = after_all g cs new_gate in
    let (u, e, k) =
      bind-ok (status g term) (λ t. lift (judge t (check_candidate g t candidate))) s h in
    let (n, _, f) =
      continue-ok (term_number term)
        (λ number s. (found g number (term_local (lookup number s.terms)), s)) s e in
    let (same, reached) = judge-reached u (check_candidate g u candidate) k in
    let all : AllFair g s =
      after_all-Keeps g cs new_gate
        (λ term b stands. cc (stands, lookup-empty {V = Ballot} term)) in
    let (fair, size, known_) = found-IsFair g n (lookup n s.terms) s all refl f in
    (
      subst (λ (x : RuntimeQuorumTerm). IsFair g x.votes) same fair,
      subst (λ (x : RuntimeQuorumTerm). g.quorum_size ≤ length x.votes) same
          (omega (arith, size, reached)),
      subst (λ (x : RuntimeQuorumTerm). is_member x.candidate_id g.members ≡ true) same known_,
    )
