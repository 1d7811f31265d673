-- ===== src/Access/Quorum.antt =====
-- compilableworld_mcp/runtime_quorum.py: `RuntimeQuorumGate` with `db_path is None`. A term number is
-- a natural number; the set of votes is the list of its members in the order of the votes.
pub mod Fair
pub mod Votes
mod Tests
use Prim.Native.String.{compare}
use text.Mathlib.Text.{is_lt}
use compilableworld_runtime.Base.{
  ℕ, ◌+◌, String, Bool, true, false, not, ◌||◌, Option, none, some, List, [], ◌∷◌, Outcome, ok, err,
  guard, ltb, leb, ◌==◌, nat_eq, string_eq, if◌then◌else◌,
}
use compilableworld_runtime.Base.Lists.{length}
use compilableworld_runtime.Base.Text.{stripped}
use compilableworld_runtime.Base.Dict.{Dict, lookup, insert}
use compilableworld_runtime.Base.Exec.{Exec, lift, ◌>>=◌, ◌>>◌}

-- The `code` of a `RuntimeQuorumError`.
pub data QuorumError : Type 0 where
  invalid_runtime_quorum member_unknown term_missing candidate_mismatch not_reached : QuorumError

pub record RuntimeQuorumTerm : Type 0 where
  pub term : ℕ
  pub candidate_id : String
  pub members : List String
  pub votes : List String
  pub quorum_size : ℕ
  pub opened_at : ℕ

abbrev pub quorum_reached : RuntimeQuorumTerm → Bool
quorum_reached t = leb t.quorum_size (length t.votes)

-- A term as the gate keeps it: `(candidate, opened_at, votes)`.
pub record Ballot : Type 0 where
  pub candidate : String
  pub opened_at : ℕ
  pub votes : List String

-- The configuration of a gate, which does not change.
pub record Gate : Type 0 where
  pub members : List String
  pub quorum_size : ℕ

pub record Terms : Type 0 where
  pub terms : Dict ℕ Ballot
  pub next_term : ℕ

abbrev pub Op : Type 0 → Type 0
Op A = Exec Terms QuorumError A

abbrev pub is_member : String → List String → Bool
is_member m [] = false
is_member m (x ∷ xs) = (x == m) || is_member m xs

-- `sorted`.
unfoldable pub place : String → List String → List String
place m [] = m ∷ []
place m (x ∷ xs) = let rest = place m xs in if is_lt (compare x m) then x ∷ rest else m ∷ x ∷ xs

unfoldable pub sorted : List String → List String
unfolding place
sorted [] = []
sorted (x ∷ xs) = place x (sorted xs)

abbrev known : Gate → Option String → Outcome QuorumError String
known g none = err invalid_runtime_quorum
known g (some m) = if is_member m g.members then ok m else err member_unknown

-- `_member`.
unfoldable pub member : Gate → String → Outcome QuorumError String
member g value = known g (stripped value)

-- `_term_number`.
abbrev pub term_number : ℕ → Outcome QuorumError ℕ
term_number term = if ltb 0 term then ok term else err invalid_runtime_quorum

abbrev pub snapshot : Gate → ℕ → Ballot → RuntimeQuorumTerm
unfolding sorted
snapshot g term b = record {
  term = term;
  candidate_id = b.candidate;
  members = g.members;
  votes = sorted b.votes;
  quorum_size = g.quorum_size;
  opened_at = b.opened_at;
}

-- `_term_local`.
abbrev pub term_local : Option Ballot → Outcome QuorumError Ballot
term_local none = err term_missing
term_local (some b) = ok b

unfoldable pub open_term : Gate → String → ℕ → Op RuntimeQuorumTerm
unfolding snapshot
open_term g candidate_id current = lift (member g candidate_id) >>= λ candidate s.
    let term : ℕ = s.next_term + 1 in
    let b : Ballot = record { candidate = candidate; opened_at = current; votes = [] } in
    (ok (snapshot g term b), record { terms = insert term b s.terms; next_term = term })

abbrev pub expected : Gate → Ballot → Option String → Outcome QuorumError String
expected g b none = ok b.candidate
expected g b (some c) = member g c

-- `votes.add(member)`.
abbrev pub with_vote : String → Ballot → Ballot
with_vote m b = record b { votes = if is_member m b.votes then b.votes else m ∷ b.votes }

abbrev pub cast : Gate → ℕ → String → Ballot → Outcome QuorumError String → Op RuntimeQuorumTerm
unfolding snapshot
cast g term m b (err e) s = (err e, s)
cast g term m b (ok c) s =
    if c == b.candidate
    then (
      ok (snapshot g term (with_vote m b)),
      record s { terms = insert term (with_vote m b) s.terms },
    )
    else (err candidate_mismatch, s)

abbrev pub vote_on :
    Gate → ℕ → String → Option String → Outcome QuorumError Ballot → Op RuntimeQuorumTerm
unfolding cast
vote_on g term m candidate_id (err e) s = (err e, s)
vote_on g term m candidate_id (ok b) s = cast g term m b (expected g b candidate_id) s

-- A vote that is cast again writes the same ballot.
unfoldable pub record_vote : Gate → ℕ → String → Option String → Op RuntimeQuorumTerm
unfolding vote_on
record_vote g term member_id candidate_id = do
  number ← lift (term_number term)
  m ← lift (member g member_id)
  λ s. vote_on g number m candidate_id (term_local (lookup number s.terms)) s

abbrev found : Gate → ℕ → Outcome QuorumError Ballot → Outcome QuorumError RuntimeQuorumTerm
unfolding snapshot
found g term (err e) = err e
found g term (ok b) = ok (snapshot g term b)

unfoldable pub status : Gate → ℕ → Op RuntimeQuorumTerm
unfolding found
status g term =
    lift (term_number term) >>= λ number s. (found g number (term_local (lookup number s.terms)), s)

abbrev pub check_candidate : Gate → RuntimeQuorumTerm → Option String → Outcome QuorumError String
check_candidate g t none = ok t.candidate_id
check_candidate g t (some c) = member g c

abbrev pub judge :
    RuntimeQuorumTerm → Outcome QuorumError String → Outcome QuorumError RuntimeQuorumTerm
judge t (err e) = err e
judge t (ok c) =
    if c == t.candidate_id
    then (if quorum_reached t then ok t else err not_reached)
    else err candidate_mismatch

unfoldable pub require_quorum : Gate → ℕ → Option String → Op RuntimeQuorumTerm
unfolding status
require_quorum g term candidate_id =
    status g term >>= λ t. lift (judge t (check_candidate g t candidate_id))
