-- ===== src/Kernel/State.antt =====
-- kernel.py: `StateStore`, the versioned cells of the world, and `StateDelta` and `StateCell` of
-- models.py. `fnmatch` is the standard library's; nothing is asked of it.
pub mod Sequential
pub mod Commit
pub mod Versions
mod Tests
use Prim.Native.String.{◌++◌ as append_text}
use compilableworld_runtime.Base.{
  String, Bool, true, false, ◌&&◌, ◌||◌, not, Option, none, some, List, [], ◌∷◌, ◌++◌, Outcome, ok,
  err, guard, ◌==◌, string_eq, if◌then◌else◌,
}
use compilableworld_runtime.Base.Raising.{◌>>=◌, ◌>>◌}
use compilableworld_runtime.Base.Int.{ℤ, pos, negsuc, ◌+ℤ◌, beq_ℤ}
use compilableworld_runtime.Base.Dict.{Dict, lookup, insert, keep}
use compilableworld_runtime.Kernel.Value.{
  Value, null, KernelError, permission_denied, conflict, apply,
}

pub record StateCell : Type 0 where
  pub value : Value
  pub version : ℤ

pub record StateDelta : Type 0 where
  pub owner : String
  pub namespace : String
  pub key : String
  pub operation : String
  pub value : Value
  pub expected_version : Option ℤ
  pub source_module : String

abbrev pub Cells : Type 0
Cells = Dict String StateCell

-- f"{owner}::{namespace}::{key}"
unfoldable pub path : String → String → String → String
path owner namespace key =
    append_text owner (append_text "::" (append_text namespace (append_text "::" key)))

abbrev pub delta_path : StateDelta → String
delta_path d = path d.owner d.namespace d.key

-- f"{delta.namespace}.{delta.key}"
abbrev pub logical_path : StateDelta → String
logical_path d = append_text d.namespace (append_text "." d.key)

pub seed : String → String → String → Value → ℤ → Cells → Cells
seed owner namespace key value version cells =
    insert (path owner namespace key) (record { value = value; version = version }) cells

abbrev pub cell_or : Option StateCell → StateCell → StateCell
cell_or none c = c
cell_or (some c) d = c

-- `StateCell(None, -1)`, for a path that has no cell.
abbrev pub absent_cell : StateCell
absent_cell = record { value = null; version = negsuc 0 }

abbrev pub value_or {ℓ} : {A : Type ℓ} → Option A → A → A
value_or none d = d
value_or (some a) d = a

pub get : Cells → String → String → String → Value → Value
get cells owner namespace key default = elim (lookup (path owner namespace key) cells) [
  | none ↦ default
  | some c ↦ c.value
]

pub version : Cells → String → String → String → ℤ
version cells owner namespace key =
    (cell_or (lookup (path owner namespace key) cells) absent_cell).version

abbrev pub version_fits : Option ℤ → ℤ → Bool
version_fits none current = true
version_fits (some expected) current = beq_ℤ expected current

-- One entry of the list that `commit` returns.
pub record Applied : Type 0 where
  pub path : String
  pub owner : String
  pub namespace : String
  pub key : String
  pub value : Value
  pub version : ℤ

-- `next(item for item in deltas if item.path == path)`
find_delta : String → List StateDelta → Option StateDelta
find_delta p [] = none
find_delta p (d ∷ ds) = if delta_path d == p then some d else find_delta p ds

reverse_deltas : List StateDelta → List StateDelta → List StateDelta
reverse_deltas [] acc = acc
reverse_deltas (d ∷ ds) acc = reverse_deltas ds (d ∷ acc)

-- What the first loop of `commit` has gathered.
pub record Pending : Type 0 where
  pub values : Dict String Value
  pub versions : Dict String ℤ

module _ (fnmatch : String → String → Bool) where
  abbrev pub allowed : List String → String → Bool
  allowed [] p = false
  allowed (pattern' ∷ rest) p = fnmatch p pattern' || allowed rest p

  -- One round of the first loop.
  pub stage : Cells → List String → Pending → StateDelta → Outcome KernelError Pending
  stage cells allowed_write pending d = do
    guard (allowed allowed_write (logical_path d)) permission_denied
    let cell = cell_or (lookup (delta_path d) cells) absent_cell
    let current_value = value_or (lookup (delta_path d) pending.values) cell.value
    let current_version = value_or (lookup (delta_path d) pending.versions) cell.version
    guard (version_fits d.expected_version current_version) conflict
    value ← apply current_value d.operation d.value
    ok (record {
      values = insert (delta_path d) value pending.values;
      versions = insert (delta_path d) (current_version +ℤ pos 1) pending.versions;
    })

  pub stage_all : Cells → List String → Pending → List StateDelta → Outcome KernelError Pending
  stage_all cells allowed_write pending [] = ok pending
  stage_all cells allowed_write pending (d ∷ ds) =
      stage cells allowed_write pending d >>= λ next. stage_all cells allowed_write next ds

-- The second loop: the cells are written only now.
pub write_all : Dict String Value → Dict String ℤ → Cells → Cells
write_all [] versions cells = cells
write_all ((p, v) ∷ rest) versions cells =
    write_all rest versions
      (insert p (record { value = v; version = value_or (lookup p versions) (negsuc 0) }) cells)

-- Each path that is pending is the path of a delta, so that `next` always finds one.
abbrev applied_entry : String → Value → ℤ → Option StateDelta → List Applied → List Applied
applied_entry p v n none rest = rest
applied_entry p v n (some d) rest =
    (record {
      path = p;
      owner = d.owner;
      namespace = d.namespace;
      key = d.key;
      value = v;
      version = n;
    })
    ∷ rest

pub applied_list : List StateDelta → Dict String Value → Dict String ℤ → List Applied
unfolding find_delta
applied_list newest_first [] versions = []
applied_list newest_first ((p, v) ∷ rest) versions =
    applied_entry p v (value_or (lookup p versions) (negsuc 0)) (find_delta p newest_first)
      (applied_list newest_first rest versions)

abbrev no_pending : Pending
no_pending = record { values = []; versions = [] }

abbrev finish :
    List StateDelta
    → Outcome KernelError Pending
    → Cells
    → Outcome KernelError (List Applied) × Cells
finish deltas (err e) cells = (err e, cells)
finish deltas (ok p) cells = (
  ok (applied_list (reverse_deltas deltas []) p.values p.versions),
  write_all p.values p.versions cells,
)

unfoldable pub commit :
    (String → String → Bool)
    → List StateDelta
    → List String
    → Cells
    → Outcome KernelError (List Applied) × Cells
unfolding stage stage_all write_all applied_list reverse_deltas
commit fnmatch deltas allowed_write cells =
    finish deltas (stage_all fnmatch cells allowed_write no_pending deltas) cells
