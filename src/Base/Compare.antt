-- ===== src/Base/Compare.antt =====
-- Boolean tests of Python, on the native numbers and on keys.
use Prim.Native.Nat.{ℕ, ◌≤◌, ◌<◌, compare, Ordering}
use Prim.Native.String.{String}
use mathlib.Core.Path.{◌≡◌, refl}
use mathlib.Core.Logic.{◌↔◌, ◌⊎◌, inl, inr}
use mathlib.Core.Bool.{Bool, true, false, ◌&&◌}
use mathlib.Core.Option.{Option, none, some}
use mathlib.Core.List.{List, [], ◌∷◌}
use native.Mathlib.Omega.{arith}
use text.Mathlib.Text.{◌==◌ as str_eq}
use text.Mathlib.TextEquality.{eq_iff}

abbrev pub ltb : ℕ → ℕ → Bool
ltb a b = elim (compare a b) [ Ordering.lt ↦ true | _ ↦ false ]

abbrev pub leb : ℕ → ℕ → Bool
leb a b = elim (compare a b) [ Ordering.gt ↦ false | _ ↦ true ]

abbrev nat_beq : ℕ → ℕ → Bool
nat_beq a b = elim (compare a b) [ Ordering.eq ↦ true | _ ↦ false ]

infix 1 if◌then◌else◌
abbrev pub if◌then◌else◌ {ℓ} : {A : Type ℓ} → Bool → A → A → A
if true then x else y = x
if false then x else y = y

pub ltb→lt : (a b : ℕ) → ltb a b ≡ true → a < b
ltb→lt a b h = ground arith

pub lt→ltb : (a b : ℕ) → a < b → ltb a b ≡ true
lt→ltb a b h = ground arith

pub leb→le : (a b : ℕ) → leb a b ≡ true → a ≤ b
leb→le a b h = ground arith

pub le→leb : (a b : ℕ) → a ≤ b → leb a b ≡ true
le→leb a b h = ground arith

pub Bool-cases : (b : Bool) → (b ≡ true) ⊎ (b ≡ false)
Bool-cases true = inl refl
Bool-cases false = inr refl

-- A property of both branches is one of the test.
pub if_rule {ℓ κ} :
    {A : Type ℓ} (P : A → Type κ) (b : Bool) {x y : A}
    → (b ≡ true → P x)
    → (b ≡ false → P y)
    → P (if b then x else y)
if_rule P true p q = p refl
if_rule P false p q = q refl

-- Equality of values that serve as keys.
pub record Eq {ℓ} (K : Type ℓ) : Type ℓ where
  pub beq : K → K → Bool
  pub beq_iff : (x y : K) → (beq x y ≡ true) ↔ (x ≡ y)

pub nat_beq_iff : (a b : ℕ) → (nat_beq a b ≡ true) ↔ (a ≡ b)
nat_beq_iff a b = (λ h. ground arith, λ h. ground arith)

instance abbrev pub nat_eq : Eq ℕ
nat_eq = record { beq = nat_beq; beq_iff = nat_beq_iff }

instance abbrev pub string_eq : Eq String
string_eq = record { beq = str_eq; beq_iff = eq_iff }

infix 50 ◌==◌
abbrev pub ◌==◌ {ℓ} : {K : Type ℓ} ⦃eq : Eq K⦄ → K → K → Bool
◌==◌ ⦃eq⦄ = eq.beq

unfoldable pub pair_beq {ℓ κ} : {A : Type ℓ} {B : Type κ} → Eq A → Eq B → A × B → A × B → Bool
pair_beq d e p q = d.beq p.0 q.0 && e.beq p.1 q.1

pub pair_iff {ℓ κ} :
    {A : Type ℓ} {B : Type κ} (d : Eq A) (e : Eq B) (p q : A × B)
    → (pair_beq d e p q ≡ true) ↔ (p ≡ q)
unfolding pair_beq
pair_iff d e p q = (
  λ h. ground (arith, d.beq_iff p.0 q.0, e.beq_iff p.1 q.1),
  λ h. ground (arith, d.beq_iff p.0 q.0, e.beq_iff p.1 q.1),
)

instance abbrev pub pair_eq {ℓ κ} : {A : Type ℓ} {B : Type κ} ⦃d : Eq A⦄ ⦃e : Eq B⦄ → Eq (A × B)
pair_eq ⦃d⦄ ⦃e⦄ = record { beq = pair_beq d e; beq_iff = pair_iff d e }

-- `==` on optional values.
abbrev pub option_beq {ℓ} : {A : Type ℓ} → Eq A → Option A → Option A → Bool
option_beq e none none = true
option_beq e (some a) (some b) = e.beq a b
option_beq e _ _ = false

pub option_iff {ℓ} : {A : Type ℓ} (e : Eq A) (p q : Option A) → (option_beq e p q ≡ true) ↔ (p ≡ q)
option_iff e none none = (λ h. refl, λ h. refl)
option_iff e (some a) (some b) =
    (λ h. ground (arith, e.beq_iff a b), λ h. ground (arith, e.beq_iff a b))
option_iff e none (some b) = (λ h. cc, λ h. cc)
option_iff e (some a) none = (λ h. cc, λ h. cc)

instance abbrev pub option_eq {ℓ} : {A : Type ℓ} ⦃e : Eq A⦄ → Eq (Option A)
option_eq ⦃e⦄ = record { beq = option_beq e; beq_iff = option_iff e }

-- `==` on lists.
unfoldable pub list_beq {ℓ} : {A : Type ℓ} → Eq A → List A → List A → Bool
list_beq e [] [] = true
list_beq e (x ∷ xs) (y ∷ ys) = e.beq x y && list_beq e xs ys
list_beq e _ _ = false

pub list_iff {ℓ} : {A : Type ℓ} (e : Eq A) (p q : List A) → (list_beq e p q ≡ true) ↔ (p ≡ q)
unfolding list_beq
list_iff e [] [] = (λ h. refl, λ h. refl)
list_iff e (x ∷ xs) (y ∷ ys) = (
  λ h. ground (arith, e.beq_iff x y, list_iff e xs ys),
  λ h. ground (arith, e.beq_iff x y, list_iff e xs ys),
)
list_iff e [] (y ∷ ys) = (λ h. cc, λ h. cc)
list_iff e (x ∷ xs) [] = (λ h. cc, λ h. cc)

instance abbrev pub list_eq {ℓ} : {A : Type ℓ} ⦃e : Eq A⦄ → Eq (List A)
list_eq ⦃e⦄ = record { beq = list_beq e; beq_iff = list_iff e }
