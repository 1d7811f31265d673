-- ===== src/Kernel/EntityTransaction/Supported.antt =====
-- entity_transaction.py: the entity deltas that `_validate_entity_deltas` lets through.
use compilableworld_runtime.Base.{
  arith, String, true, false, ◌≡◌, ◌≢◌, ◌⊎◌, refl, List, [], ◌∷◌, ok, err, inl, inr, Bool-cases,
  string_eq, ◌==◌,
}
use compilableworld_runtime.Base.Lists.{All}
use compilableworld_runtime.Base.Dict.{Dict, is_in}
use compilableworld_runtime.Kernel.Value.{KernelError}
use compilableworld_runtime.Kernel.Models.{TransitionResult, ModuleContract, Entity, EntityDelta}
use compilableworld_runtime.Kernel.World.{World}
use compilableworld_runtime.Kernel.Runtime.{contains_text}
use compilableworld_runtime.Kernel.EntityTransaction.{validate_entity_deltas, validate_each}

-- A delta that can be applied: it creates an entity that has an id and is not there.
abbrev pub Fits : Dict String Entity → EntityDelta → Type 0
Fits m d =
    (d.operation ≡ "create")
    × (d.expected_absent ≡ true)
    × (d.entity.entity_id ≢ "")
    × (is_in d.entity.entity_id m ≡ false)

-- No id among these comes twice, and none is one of `seen`.
abbrev pub New : List String → List EntityDelta → Type 0
New seen [] = Unit
New seen (d ∷ ds) =
    (contains_text d.entity.entity_id seen ≡ false) × New (d.entity.entity_id ∷ seen) ds

-- Deltas that a module may bring, which declares the capability if there are any.
abbrev pub Supported : ModuleContract → Dict String Entity → List EntityDelta → Type 0
Supported c m ds =
    All (Fits m) ds
    × New [] ds
    × ((ds ≡ []) ⊎ (contains_text "entity_transaction/v0.1" c.requires_kernel ≡ true))

validate_each-All :
    (ds : List EntityDelta) (seen : List String) (w : World)
    → validate_each ds seen w ≡ ok tt
    → All (Fits w.entities) ds × New seen ds
unfolding validate_each
validate_each-All [] seen w h = (tt, tt)
validate_each-All (d ∷ ds) seen w h =
    let created = string_eq.beq_iff d.operation "create" in
    let named = string_eq.beq_iff d.entity.entity_id "" in
    let here : Fits w.entities d =
      (ground (arith, created), ground arith, λ e. ground (arith, named, e), ground arith) in
    let (fit, new) = validate_each-All ds (d.entity.entity_id ∷ seen) w (ground arith) in
    ((here, fit), (ground arith, new))

validate_each-accepts :
    (ds : List EntityDelta) (seen : List String) (w : World)
    → All (Fits w.entities) ds
    → New seen ds
    → validate_each ds seen w ≡ ok tt
unfolding validate_each
validate_each-accepts [] seen w fit new = refl
validate_each-accepts (d ∷ ds) seen w ((created, absent, named, free), fit) (first, new) =
    let rest = validate_each-accepts ds (d.entity.entity_id ∷ seen) w fit new in
    let is : (d.operation == "create") ≡ true =
      (string_eq.beq_iff d.operation "create").1 created in
    let blank : (d.entity.entity_id == "") ≡ false = elim (Bool-cases (d.entity.entity_id == "")) [
      | inl e ↦ absurd (named ((string_eq.beq_iff d.entity.entity_id "").0 e))
      | inr e ↦ e
    ] in
    rw (is, absent, blank, first, free, rest) refl

pub validate-Supported :
    (result : TransitionResult) (c : ModuleContract) (w : World)
    → validate_entity_deltas result c w ≡ ok tt
    → Supported c w.entities result.entity_deltas
unfolding validate_entity_deltas
validate-Supported result c w h = go result.entity_deltas refl
  where
    go : (ds : List EntityDelta) → result.entity_deltas ≡ ds → Supported c w.entities ds
    go [] e = (tt, tt, inl refl)
    go (d ∷ ds) e =
        let known = rw e at h in
        elim (Bool-cases (contains_text "entity_transaction/v0.1" c.requires_kernel)) [
          | inl has ↦
              let (fit, new) = validate_each-All (d ∷ ds) [] w (rw has at known) in
              (fit, new, inr has)
          | inr lacks ↦ cc (rw lacks at known)
        ]

-- The check of the deltas refuses none that are supported.
pub refused-Supported :
    (result : TransitionResult) (c : ModuleContract) (w : World) (e : KernelError)
    → validate_entity_deltas result c w ≡ err e
    → ¬ Supported c w.entities result.entity_deltas
unfolding validate_entity_deltas
refused-Supported result c w x h = go result.entity_deltas refl
  where
    go : (ds : List EntityDelta) → result.entity_deltas ≡ ds → ¬ Supported c w.entities ds
    go [] e s = cc (rw e at h)
    go (d ∷ ds) e (fit, new, inl none') = cc none'
    go (d ∷ ds) e (fit, new, inr has) =
        let known = rw e at h in cc (rw has at known, validate_each-accepts (d ∷ ds) [] w fit new)
