-- ===== src/Base/Text.antt =====
-- Python's `str.strip`, and the test for a text that is not blank.
use Prim.Native.Nat.{ℕ, Ordering}
use Prim.Native.Char.{Char, code}
use Prim.Native.String.{String, compare}
use mathlib.Core.Bool.{Bool, true, false, not, ◌&&◌, ◌||◌}
use mathlib.Core.Option.{Option, none, some}
use mathlib.Core.List.{List, [], ◌∷◌}
use mathlib.Core.Path.{◌≡◌, refl}
use mathlib.Core.Logic.{inl, inr}
use native.Mathlib.Omega.{arith}
use compilableworld_runtime.Base.Compare.{leb, if◌then◌else◌, Bool-cases, ◌==◌, string_eq}

abbrev between : ℕ → ℕ → ℕ → Bool
between lo c hi = leb lo c && leb c hi

-- The characters that `str.isspace` holds for.
is_space : Char → Bool
is_space ch =
    let c = code ch in
    between 9 c 13
    || between 28 c 32
    || between 133 c 133
    || between 160 c 160
    || between 5760 c 5760
    || between 8192 c 8202
    || between 8232 c 8233
    || between 8239 c 8239
    || between 8287 c 8287
    || between 12288 c 12288

lstrip : String → String
lstrip String.[] = ""
lstrip (String.◌∷◌ c s) = let rest = lstrip s in if is_space c then rest else String.◌∷◌ c s

rstrip : String → String
rstrip String.[] = ""
rstrip (String.◌∷◌ c s) =
    let rest = rstrip s in if is_space c && (rest == "") then "" else String.◌∷◌ c rest

unfoldable pub strip : String → String
unfolding lstrip rstrip is_space
strip s = rstrip (lstrip s)

-- `normalized = str(value).strip()`, and `none` where `not normalized`.
unfoldable pub stripped : String → Option String
unfolding strip
stripped s = let normalized = strip s in if normalized == "" then none else some normalized

rstrip-rstrip : (s : String) → rstrip (rstrip s) ≡ rstrip s
unfolding rstrip
rstrip-rstrip String.[] = refl
rstrip-rstrip (String.◌∷◌ c s) = elim (Bool-cases (is_space c && (rstrip s == ""))) [
  | inl blank ↦ rw blank
  | inr text ↦ rw (text, rstrip-rstrip s, text)
]

lstrip-rstrip :
    (c : Char) (s : String)
    → is_space c ≡ false
    → lstrip (rstrip (String.◌∷◌ c s)) ≡ rstrip (String.◌∷◌ c s)
unfolding lstrip rstrip
lstrip-rstrip c s h = rw (h, h)

lstrip-strip : (s : String) → lstrip (rstrip (lstrip s)) ≡ rstrip (lstrip s)
unfolding lstrip
lstrip-strip String.[] = unfold rstrip in refl
lstrip-strip (String.◌∷◌ c s) = elim (Bool-cases (is_space c)) [
  | inl space ↦ rw space (lstrip-strip s)
  | inr other ↦ rw other (lstrip-rstrip c s other)
]

pub strip-strip : (s : String) → strip (strip s) ≡ strip s
strip-strip s = unfold strip in rw lstrip-strip (rstrip-rstrip (lstrip s))

-- A text that was stripped is stripped to itself.
pub stripped-stripped : (s : String) {t : String} → stripped s ≡ some t → stripped t ≡ some t
unfolding stripped
stripped-stripped s h = ground (arith, strip-strip s)

abbrev pub contains_text : String → List String → Bool
contains_text s [] = false
contains_text s (x ∷ xs) = (x == s) || contains_text s xs

abbrev pub is_less : Ordering → Bool
is_less Ordering.lt = true
is_less _ = false

-- The order of two different texts.
unfoldable pub comes_before : String → String → Bool
comes_before a b = not (a == b) && is_less (compare a b)
