-- ===== src/Base/Json.antt =====
-- The values that `json.loads` returns, without floats, which none of the modelled records holds.
use Prim.Native.Nat.{ℕ, suc}
use Prim.Native.String.{String}
use mathlib.Core.Bool.{Bool, true, false, ◌&&◌, not}
use mathlib.Core.Option.{Option, none, some}
use mathlib.Core.List.{List, [], ◌∷◌}
use text.Mathlib.Text.{◌==◌ as str_eq}
use ckb_vm_sail_verify.Base.Tests.{◌==◌, if◌then◌else◌}
use ckb_vm_sail_verify.Base.Int.{ℤ, pos, int_eq}
use ckb_vm_sail_verify.Base.Result.{Result, ok, err, key_error, type_error}

mutual
  pub data Value : Type 0 where
    null : Value
    bool : Bool → Value
    int : ℤ → Value
    str : String → Value
    list : Items → Value
    dict : Fields → Value

  pub data Items : Type 0 where
    nil : Items
    cons : Value → Items → Items

  -- A dict in insertion order; `json.loads` leaves one entry for each key.
  pub data Fields : Type 0 where
    end : Fields
    field : String → Value → Fields → Fields

abbrev pub find : String → Fields → Option Value
find k end = none
find k (field j v rest) = if str_eq j k then some v else find k rest

abbrev pub count_fields : Fields → ℕ
count_fields end = 0
count_fields (field k v rest) = suc (count_fields rest)

abbrev pub elements : Items → List Value
elements nil = []
elements (cons v rest) = v ∷ elements rest

abbrev pub items : List Value → Items
items [] = nil
items (v ∷ rest) = cons v (items rest)

abbrev pub fields : List (String × Value) → Fields
fields [] = end
fields ((k, v) ∷ rest) = field k v (fields rest)

-- d[k]
abbrev pub item : Value → String → Result Value
item (dict fs) k = elim (find k fs) [ none ↦ err (key_error k) | some v ↦ ok v ]
item _ k = err type_error

-- A bool is an int in a comparison.
abbrev as_int : Bool → ℤ
as_int true = pos 1
as_int false = pos 0

-- Python's `==`: True equals 1, and dicts are compared without their order.
unfoldable mutual
  pub equal : Value → Value → Bool
  equal null null = true
  equal (bool a) (bool b) = int_eq (as_int a) (as_int b)
  equal (bool a) (int b) = int_eq (as_int a) b
  equal (int a) (bool b) = int_eq a (as_int b)
  equal (int a) (int b) = int_eq a b
  equal (str a) (str b) = str_eq a b
  equal (list a) (list b) = equal_items a b
  equal (dict a) (dict b) = count_fields a == count_fields b && equal_fields a b
  equal _ _ = false

  pub equal_items : Items → Items → Bool
  equal_items nil nil = true
  equal_items (cons a as') (cons b bs) = equal a b && equal_items as' bs
  equal_items _ _ = false

  pub equal_fields : Fields → Fields → Bool
  equal_fields end bs = true
  equal_fields (field k a rest) bs = elim (find k bs) [
    | none ↦ false
    | some b ↦ equal a b && equal_fields rest bs
  ]

abbrev pub is_none : Value → Bool
is_none null = true
is_none _ = false

abbrev pub is_true : Value → Bool
is_true (bool true) = true
is_true _ = false

abbrev pub is_false : Value → Bool
is_false (bool false) = true
is_false _ = false

abbrev pub is_dict : Value → Bool
is_dict (dict _) = true
is_dict _ = false

abbrev pub is_str : Value → Bool
is_str (str _) = true
is_str _ = false

-- The truth value that `if` and `and` read.
abbrev pub truthy : Value → Bool
truthy null = false
truthy (bool b) = b
truthy (int n) = not (int_eq n (pos 0))
truthy (str s) = not (str_eq s "")
truthy (list nil) = false
truthy (list (cons _ _)) = true
truthy (dict end) = false
truthy (dict (field _ _ _)) = true

-- `same` of scripts/release_common.py: the JSON texts with sorted keys are equal, so that True and 1
-- differ.
unfoldable mutual
  pub same : Value → Value → Bool
  same null null = true
  same (bool true) (bool true) = true
  same (bool false) (bool false) = true
  same (int a) (int b) = int_eq a b
  same (str a) (str b) = str_eq a b
  same (list a) (list b) = same_items a b
  same (dict a) (dict b) = count_fields a == count_fields b && same_fields a b
  same _ _ = false

  pub same_items : Items → Items → Bool
  same_items nil nil = true
  same_items (cons a as') (cons b bs) = same a b && same_items as' bs
  same_items _ _ = false

  pub same_fields : Fields → Fields → Bool
  same_fields end bs = true
  same_fields (field k a rest) bs = elim (find k bs) [
    | none ↦ false
    | some b ↦ same a b && same_fields rest bs
  ]
