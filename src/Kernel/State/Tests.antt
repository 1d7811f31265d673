-- ===== src/Kernel/State/Tests.antt =====
-- The state store at concrete inputs. A pattern here matches only itself.
use compilableworld_runtime.Base.{
  String, Bool, none, some, List, [], ◌∷◌, ok, err, IsOk, ◌≡◌, refl, ◌==◌, string_eq,
}
use compilableworld_runtime.Base.Int.{pos, ◌+ℤ◌}
use compilableworld_runtime.Base.Dict.{lookup, insert}
use compilableworld_runtime.Kernel.Value.{int, KernelError, conflict, apply}
use compilableworld_runtime.Kernel.State.{StateDelta, Cells, path, commit}
use compilableworld_runtime.Kernel.State.Sequential.{write_each}
use compilableworld_runtime.Kernel.State.Commit.{commit_sequential}
use compilableworld_runtime.Kernel.State.Versions.{
  commit_versions, AllAllowed, version_at, count_writes,
}

abbrev exact : String → String → Bool
exact name pattern' = name == pattern'

abbrev hit : StateDelta
hit = record {
  owner = "hero";
  namespace = "health";
  key = "hp";
  operation = "subtract";
  value = int (pos 3);
  expected_version = none;
  source_module = "combat.basic";
}

abbrev stale_hit : StateDelta
stale_hit = record hit { expected_version = some (pos 0) }

abbrev cells : Cells
cells = ("hero::health::hp", record { value = int (pos 10); version = pos 0 }) ∷ []

abbrev hit_twice : Cells
hit_twice = ("hero::health::hp", record { value = int (pos 4); version = pos 2 }) ∷ []

conflict_found : (commit exact (hit ∷ stale_hit ∷ []) ("health.hp" ∷ []) cells).0 ≡ err conflict
unfolding commit path apply lookup insert ◌+ℤ◌
conflict_found = refl

abbrev two_hits : List StateDelta
two_hits = hit ∷ hit ∷ []

commit_sequential_example :
    ((e : KernelError)
      → write_each exact ("health.hp" ∷ []) cells two_hits ≡ err e
      → commit exact two_hits ("health.hp" ∷ []) cells ≡ (err e, cells))
    × ((after : Cells)
        → write_each exact ("health.hp" ∷ []) cells two_hits ≡ ok after
        → IsOk (commit exact two_hits ("health.hp" ∷ []) cells).0
          × ((q : String)
              → lookup q (commit exact two_hits ("health.hp" ∷ []) cells).1 ≡ lookup q after))
commit_sequential_example = commit_sequential exact ("health.hp" ∷ []) cells two_hits

commit_versions_example :
    AllAllowed exact ("health.hp" ∷ []) two_hits
    × ((q : String)
        → version_at q (commit exact two_hits ("health.hp" ∷ []) cells).1
          ≡ version_at q cells +ℤ pos (count_writes q two_hits))
unfolding commit path apply lookup insert ◌+ℤ◌
commit_versions_example = commit_versions exact ("health.hp" ∷ []) cells two_hits tt
