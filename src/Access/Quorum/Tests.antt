-- ===== src/Access/Quorum/Tests.antt =====
-- A gate of three members.
use compilableworld_runtime.Base.{
  ◌≤◌, true, ◌≡◌, refl, none, some, List, [], ◌∷◌, nat_eq, string_eq,
}
use compilableworld_runtime.Base.Lists.{length}
use compilableworld_runtime.Base.Text.{stripped}
use compilableworld_runtime.Base.Dict.{lookup, insert}
use compilableworld_runtime.Access.Quorum.{
  Gate, RuntimeQuorumTerm, is_member, member, place, sorted, open_term, record_vote, require_quorum,
  status,
}
use compilableworld_runtime.Access.Quorum.Fair.{IsFair}
use compilableworld_runtime.Access.Quorum.Votes.{Call, opening, voting, quorum_is_real}

abbrev three : Gate
three = record { members = "a" ∷ "b" ∷ "c" ∷ []; quorum_size = 2 }

-- One vote is cast twice.
abbrev calls : List Call
calls = opening "a" 5 ∷ voting 1 "c" none ∷ voting 1 " c" none ∷ voting 1 "b" (some "a") ∷ []

abbrev elected : RuntimeQuorumTerm
elected = record {
  term = 1;
  candidate_id = "a";
  members = three.members;
  votes = "b" ∷ "c" ∷ [];
  quorum_size = 2;
  opened_at = 5;
}

quorum_is_real_example :
    IsFair three ("b" ∷ "c" ∷ [])
    × (2 ≤ length elected.votes)
    × (is_member "a" three.members ≡ true)
unfolding require_quorum status record_vote open_term member sorted place stripped lookup insert
quorum_is_real_example = quorum_is_real three calls 1 (some "a") {t = elected} refl
