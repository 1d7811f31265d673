-- ===== src/Kernel/Value.antt =====
-- The values that a state cell holds, and Python's operators on them that `StateStore._apply` uses.
-- A float is left out.
use Prim.Native.String.{◌++◌ as append_text}
use compilableworld_runtime.Base.{
  String, ℕ, Bool, true, false, ◌&&◌, Option, none, some, Outcome, ok, err, ◌==◌, string_eq, nat_eq,
  suc, if◌then◌else◌,
}
use compilableworld_runtime.Base.Int.{ℤ, pos, ◌+ℤ◌, ◌-ℤ◌, beq_ℤ}

mutual
  pub data Value : Type 0 where
    null : Value
    bool : Bool → Value
    int : ℤ → Value
    text : String → Value
    list : Values → Value
    object : Fields → Value

  pub data Values : Type 0 where
    nil : Values
    cons : Value → Values → Values

  pub data Fields : Type 0 where
    end : Fields
    field : String → Value → Fields → Fields

-- The errors that the kernel catches are `RuntimeErrorBase` and its subclasses; a `TypeError` of
-- Python is none of them.
pub data KernelError : Type 0 where
  permission_denied conflict unknown_operation : KernelError
  unknown_actor provider_count completion_mismatch duration_fixed actor_is_busy : KernelError
  action_missing not_owner module_error : KernelError
  duplicate_entity missing_capability unsupported_entity_delta : KernelError
  transaction_failed : KernelError
  type_error : KernelError

-- `bool` is a subclass of `int`.
abbrev pub as_int : Value → Option ℤ
as_int (bool true) = some (pos 1)
as_int (bool false) = some (pos 0)
as_int (int n) = some n
as_int _ = none

abbrev bit : Bool → ℤ
bit true = pos 1
bit false = pos 0

abbrev apply_list : (Values → Values) → Outcome KernelError Values → Outcome KernelError Value
apply_list f (ok xs) = ok (list (f xs))
apply_list f (err e) = err e

append_values : Values → Values → Values
append_values nil ys = ys
append_values (cons x xs) ys = cons x (append_values xs ys)

-- `current or 0`.
or_zero : Value → Value
or_zero null = int (pos 0)
or_zero (bool false) = int (pos 0)
or_zero (int (pos ℕ.zero)) = int (pos 0)
or_zero (text s) = if s == "" then int (pos 0) else text s
or_zero (list nil) = int (pos 0)
or_zero (object end) = int (pos 0)
or_zero v = v

add_ints : Option ℤ → Option ℤ → Outcome KernelError Value
add_ints (some a) (some b) = ok (int (a +ℤ b))
add_ints _ _ = err type_error

sub_ints : Option ℤ → Option ℤ → Outcome KernelError Value
sub_ints (some a) (some b) = ok (int (a -ℤ b))
sub_ints _ _ = err type_error

-- `a + b`: integers, texts and lists.
pub add_values : Value → Value → Outcome KernelError Value
unfolding add_ints append_values
add_values (text a) (text b) = ok (text (append_text a b))
add_values (list a) (list b) = ok (list (append_values a b))
add_values a b = add_ints (as_int a) (as_int b)

-- The list of the characters of a text.
characters : String → Values
characters String.[] = nil
characters (String.◌∷◌ c s) = cons (text (String.◌∷◌ c String.[])) (characters s)

-- The list of the keys of an object.
field_names : Fields → Values
field_names end = nil
field_names (field k v rest) = cons (text k) (field_names rest)

unfoldable pub get_field : String → Fields → Option Value
get_field k end = none
get_field k (field j v rest) = if j == k then some v else get_field k rest

unfoldable pub count_fields : Fields → ℕ
count_fields end = 0
count_fields (field k v rest) = suc (count_fields rest)

-- `list(current or [])`.
pub as_list : Value → Outcome KernelError Values
unfolding characters field_names
as_list null = ok nil
as_list (bool false) = ok nil
as_list (int (pos ℕ.zero)) = ok nil
as_list (text s) = ok (characters s)
as_list (list xs) = ok xs
as_list (object fs) = ok (field_names fs)
as_list _ = err type_error

abbrev holds_for : (Value → Bool) → Option Value → Bool
holds_for p none = false
holds_for p (some v) = p v

-- `==`, under which `True` is 1 and `False` is 0.
unfoldable mutual
  pub value_eq : Value → Value → Bool
  value_eq null null = true
  value_eq (bool a) (bool b) = beq_ℤ (bit a) (bit b)
  value_eq (bool a) (int b) = beq_ℤ (bit a) b
  value_eq (int a) (bool b) = beq_ℤ a (bit b)
  value_eq (int a) (int b) = beq_ℤ a b
  value_eq (text a) (text b) = a == b
  value_eq (list xs) (list ys) = values_eq xs ys
  value_eq (object xs) (object ys) = (count_fields xs == count_fields ys) && fields_in xs ys
  value_eq _ _ = false

  pub values_eq : Values → Values → Bool
  values_eq nil nil = true
  values_eq (cons x xs) (cons y ys) = value_eq x y && values_eq xs ys
  values_eq _ _ = false

  -- Objects are equal whatever the order of their fields.
  pub fields_in : Fields → Fields → Bool
  fields_in end ys = true
  fields_in (field k v rest) ys = holds_for (value_eq v) (get_field k ys) && fields_in rest ys

-- `if value in result: result.remove(value)`: the first equal item goes.
remove_value : Value → Values → Values
remove_value v nil = nil
remove_value v (cons x xs) =
    let rest = remove_value v xs in if value_eq x v then xs else cons x rest

-- `StateStore._apply`.
unfoldable pub apply : Value → String → Value → Outcome KernelError Value
unfolding or_zero add_values sub_ints as_list append_values remove_value value_eq get_field
    count_fields ◌+ℤ◌ ◌-ℤ◌
apply current operation value =
    if operation == "set"
    then ok value
    else if operation == "add"
    then add_values (or_zero current) value
    else if operation == "subtract"
    then sub_ints (as_int (or_zero current)) (as_int value)
    else if operation == "append"
    then apply_list (λ xs. append_values xs (cons value nil)) (as_list current)
    else if operation == "remove"
    then apply_list (remove_value value) (as_list current)
    else err unknown_operation
