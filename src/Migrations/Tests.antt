-- ===== src/Migrations/Tests.antt =====
-- A registry of three steps, two of which lead from version 1 to version 3.
use compilableworld_runtime.Base.{
  ℕ, ◌+◌, ◌≡◌, refl, String, none, [], ◌∷◌, ok, err, string_eq, pair_eq,
}
use compilableworld_runtime.Base.Compare.{pair_beq}
use compilableworld_runtime.Base.Text.{stripped, comes_before}
use compilableworld_runtime.Base.Dict.{lookup}
use compilableworld_runtime.Migrations.{
  MigrationStep, invalid_migration, migration_conflict, migration_not_found,
  migration_invalid_result, Transformed, object, other_value, Steps, values_of, sorted_steps,
  sort_in, visit, scan, search, find_path, register, migrate,
}
use compilableworld_runtime.Migrations.Paths.{Exact, find_path-Exact}

abbrev add : ℕ → ℕ → Transformed ℕ
add n payload = object (payload + n)

abbrev step : String → String → (ℕ → Transformed ℕ) → MigrationStep ℕ
step from_version to_version transform = record {
  kind = "world";
  from_version = from_version;
  to_version = to_version;
  name = "step";
  transform = transform;
}

abbrev three_steps : Steps ℕ
three_steps =
    (("world", ("1", "2")), step "1" "2" (add 1))
    ∷ (("world", ("2", "3")), step "2" "3" (add 10))
    ∷ (("world", ("3", "1")), step "3" "1" (λ p. other_value))
    ∷ []

migrates : migrate three_steps 5 " world" "1" "3 " ≡ ok 16
unfolding migrate find_path stripped sorted_steps sort_in comes_before search scan visit
migrates = refl

bad_result : migrate three_steps 5 "world" "3" "2" ≡ err migration_invalid_result
unfolding migrate find_path stripped sorted_steps sort_in comes_before search scan visit
bad_result = refl

other_kind : migrate three_steps 5 "actor" "1" "3" ≡ err migration_not_found
unfolding migrate find_path stripped sorted_steps sort_in comes_before search scan visit
other_kind = refl

registered_twice : register "world" "1" " 2" (add 1) none three_steps ≡ err migration_conflict
unfolding register stripped lookup pair_beq
registered_twice = refl

same_version : register "world" "1" "1" (add 1) none three_steps ≡ err invalid_migration
unfolding register stripped
same_version = refl

find_path-Exact_example :
    Exact (values_of three_steps) "world" "1" "3" (find_path three_steps " world" "1" "3 ")
unfolding stripped
find_path-Exact_example = find_path-Exact three_steps " world" "1" "3 " refl refl refl
