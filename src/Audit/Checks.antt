-- ===== src/Audit/Checks.antt =====
-- The tests that the validators of scripts/audit_release.py make of a JSON record: lookups along
-- keys, comparisons, and the operands of an `and`.
pub mod Facts
use ckb_vm_sail_verify.Base.{
  String, ℕ, Bool, true, false, ◌&&◌, ◌||◌, not, Option, none, some, List, [], ◌∷◌, map, ◌==◌, pos,
  str_eq, all, length, if◌then◌else◌,
}
use ckb_vm_sail_verify.Base.Result.{
  Result, ok, err, type_error, incomplete, require, both, ◌>>=◌, ◌>>◌,
}
use ckb_vm_sail_verify.Base.Json.{
  Value, int, str, list, dict, Items, nil, cons, Fields, end, field, item, equal, is_true, is_false,
  truthy, find, elements,
}
use ckb_vm_sail_verify.Base.Text.{append, first_line}
use ckb_vm_sail_verify.Release.Manifest.{is_one_of, integer}

-- the operands of an `and`, in their order
unfoldable pub all_hold : List (Result Bool) → Result Bool
all_hold [] = ok true
all_hold (test ∷ tests) = both test (all_hold tests)

-- require(test and ... and test, message)
unfoldable pub expect : List (Result Bool) → String → Result (Unit {0})
expect tests message = do b ← all_hold tests; require b message

-- value[key]...[key]
unfoldable pub reach : Value → List String → Result Value
reach v [] = ok v
reach v (k ∷ ks) = do w ← item v k; reach w ks

-- value[key]...[key] == other
unfoldable pub reads : Value → List String → Value → Result Bool
reads v ks other = do w ← reach v ks; ok (equal w other)

-- value[key]...[key] == other[key]...[key]
unfoldable pub agree : Value → List String → Value → List String → Result Bool
agree v ks other js = do w ← reach v ks; u ← reach other js; ok (equal w u)

-- value[key]...[key] is True
unfoldable pub reads_true : Value → List String → Result Bool
reads_true v ks = do w ← reach v ks; ok (is_true w)

-- value[key]...[key] is False
unfoldable pub reads_false : Value → List String → Result Bool
reads_false v ks = do w ← reach v ks; ok (is_false w)

-- same(value, n): the JSON text is the numeral of `n`
unfoldable pub is_number : ℕ → Value → Bool
is_number n (int (pos m)) = m == n
is_number n _ = false

-- same(value[key]...[key], n)
unfoldable pub reads_number : Value → List String → ℕ → Result Bool
reads_number v ks n = do w ← reach v ks; ok (is_number n w)

-- value[key]...[key] in names
unfoldable pub reads_one_of : Value → List String → List String → Result Bool
reads_one_of v ks names = do w ← reach v ks; ok (not (all (λ name. not (equal w (str name))) names))

-- the keys of a dict
abbrev pub keys : Fields → List String
keys end = []
keys (field k v rest) = k ∷ keys rest

abbrev pub within : List String → List String → Bool
within xs names = all (is_one_of names) xs

-- set(value) == set(names), of a dict. A list with these names passes the test, and raises where the
-- code asks it for its items.
unfoldable pub has_names : Value → List String → Result Bool
has_names (dict fs) names = ok (within (keys fs) names && within names (keys fs))
has_names _ names = err type_error

-- {k: v[k] for k in names}
unfoldable pub part : Value → List String → Result Fields
part v [] = ok end
part v (k ∷ ks) = do w ← item v k; rest ← part v ks; ok (field k w rest)

-- The items of a list that are all texts; `' '.join` raises on any other item.
unfoldable pub texts_of : Items → Result (List String)
texts_of nil = ok []
texts_of (cons (str s) rest) = do ss ← texts_of rest; ok (s ∷ ss)
texts_of (cons _ rest) = err type_error

-- for name, row in value.items(): check(name, row)
unfoldable pub each_field : (String → Value → Result (Unit {0})) → Fields → Result (Unit {0})
each_field check end = ok tt
each_field check (field k v rest) = do check k v; each_field check rest

-- if not value: raise Incomplete(message)
unfoldable pub need : Bool → String → Result (Unit {0})
need true message = ok tt
need false message = err (incomplete message)

unfoldable pub fields_of : Value → Result Fields
fields_of (dict fs) = ok fs
fields_of _ = err type_error

-- value.splitlines()[0]
unfoldable pub first_line_of : Value → Result Value
first_line_of (str s) = ok (str (first_line s))
first_line_of _ = err type_error

-- {name: row[key].splitlines()[0] for name, row in value.items()}
unfoldable pub first_lines : String → Fields → Result Fields
first_lines key end = ok end
first_lines key (field name row rest) = do
  w ← item row key
  line ← first_line_of w
  lines ← first_lines key rest
  ok (field name line lines)

-- len(value), of a list
unfoldable pub size_of : Value → Result Value
size_of (list rows) = ok (int (pos (length (elements rows))))
size_of _ = err type_error

-- integer(value[key]...[key], label), which is true of what it returns
unfoldable pub reads_integer : Value → List String → String → Result Bool
reads_integer v ks label = do w ← reach v ks; _ ← integer w label; ok true

-- {**value, key: other}
unfoldable pub set_field : String → Value → Fields → Fields
set_field k v end = field k v end
set_field k v (field j w rest) =
    let rest' = set_field k v rest in if str_eq j k then field k v rest else field j w rest'

-- {**value, **other}
unfoldable pub merge : Fields → Fields → Fields
merge fs end = fs
merge fs (field k v rest) = merge (set_field k v fs) rest

-- Python's `==` on texts made by adding: `name + suffix`, of a text
unfoldable pub suffixed : Value → String → Result Value
suffixed (str s) suffix = ok (str (append s suffix))
suffixed _ suffix = err type_error

-- for row in value
unfoldable pub rows_of : Value → Result (List Value)
rows_of (list rows) = ok (elements rows)
rows_of _ = err type_error
