-- ===== src/Release/Manifest/Members.antt =====
-- The members that a manifest is read as.
use mathlib.Core.Path.{subst}
use ckb_vm_sail_verify.Base.{
  String, ◌≡◌, refl, ap, sym, ◌∙◌, true, false, ◌||◌, List, [], ◌∷◌, ◌++◌, All, str_eq, eq_iff,
  Bool-cases, inl, inr, arith, pos,
}
use ckb_vm_sail_verify.Base.Result.{ok}
use ckb_vm_sail_verify.Base.Result.Returns.{
  Returns, Returns-ok, Returns-err, Returns-bind, Returns-require, Returns-self,
}
use ckb_vm_sail_verify.Base.Json.{Value, int, str, list, cons, Items, item, elements}
use ckb_vm_sail_verify.Release.Names.Safe.{IsSafe, safe_name_iff}
use ckb_vm_sail_verify.Release.Manifest.{
  Member, has_name, new_size, digest, is_hex_text, add_members, manifest_members,
}

-- The row says of a file what the member says.
pub record IsRow (row : Value) (m : Member) : Type 0 where
  pub has_path : item row "path" ≡ ok (str m.name)
  pub has_size : item row "size" ≡ ok (int (pos m.size))
  pub has_digest : item row "sha256" ≡ ok (str m.sha256)

-- One member for each row, in the order of the rows.
abbrev pub AreRows : List Value → List Member → Type 0
AreRows [] [] = Unit
AreRows (row ∷ rows) (m ∷ ms) = IsRow row m × AreRows rows ms
AreRows _ _ = ⊥

abbrev pub IsMember : Member → Type 0
IsMember m = IsSafe m.name × (is_hex_text 64 m.sha256 ≡ true)

-- No name stands twice.
abbrev pub AreDistinct : List Member → Type 0
AreDistinct [] = Unit
AreDistinct (m ∷ ms) = (has_name m.name ms ≡ false) × AreDistinct ms

new_size-Returns :
    (name : String) (result : List Member) (v : Value) (label : String)
    → Returns
        (λ n. (v ≡ int (pos n)) × (has_name name result ≡ false))
        (new_size name result v label)
unfolding new_size
new_size-Returns name result (int (pos n)) label =
    Returns-require _ λ e. Returns-ok n (refl, ground arith)
new_size-Returns name result v label = Returns-err _

pub digest-Returns :
    (v : Value) (label : String)
    → Returns (λ s. (v ≡ str s) × (is_hex_text 64 s ≡ true)) (digest v label)
unfolding digest
digest-Returns (str s) label = Returns-require _ λ e. Returns-ok s (refl, e)
digest-Returns v label = Returns-err _

has_name-append :
    (name : String) (ms ns : List Member)
    → has_name name (ms ++ ns) ≡ (has_name name ms || has_name name ns)
has_name-append name [] ns = refl
has_name-append name (m ∷ ms) ns =
    let ih = has_name-append name ms ns in
    elim (Bool-cases (str_eq m.name name)) [ inl e ↦ rw e refl | inr e ↦ rw e ih ]

-- What the rows add to the members so far.
record Added (rows : List Value) (before after : List Member) : Type 0 where
  pub added : List Member
  pub is_after : before ++ added ≡ after
  pub are_rows : AreRows rows added
  pub are_members : All IsMember added
  pub are_new : All (λ m. has_name m.name before ≡ false) added
  pub are_distinct : AreDistinct added

append-nil : (ms : List Member) → ms ++ [] ≡ ms
append-nil [] = refl
append-nil (m ∷ ms) = ap (λ r. m ∷ r) (append-nil ms)

append_assoc :
    (ms : List Member) (m : Member) (ns : List Member) → ms ++ (m ∷ []) ++ ns ≡ ms ++ (m ∷ ns)
append_assoc [] m ns = refl
append_assoc (x ∷ ms) m ns = ap (λ r. x ∷ r) (append_assoc ms m ns)

pub str_eq_symm : (s t : String) → str_eq s t ≡ false → str_eq t s ≡ false
str_eq_symm s t h = elim (Bool-cases (str_eq t s)) [
  | inl e ↦ absurd (cc ((eq_iff s t).1 (sym ((eq_iff t s).0 e)), h))
  | inr e ↦ e
]

-- A member that is new beside `m` too is new before it, and has another name.
new-split :
    (before : List Member) (m : Member) (ms : List Member)
    → All (λ x. has_name x.name (before ++ m ∷ []) ≡ false) ms
    → All (λ x. has_name x.name before ≡ false) ms × (has_name m.name ms ≡ false)
new-split before m [] h = (tt, refl)
new-split before m (x ∷ ms) (first, rest) =
    let (new, distinct) = new-split before m ms rest in
    let both = sym (has_name-append x.name before (m ∷ [])) ∙ first in
    let old : has_name x.name before ≡ false = ground arith in
    let other : str_eq m.name x.name ≡ false = ground arith in
    ((old, new), rw (str_eq_symm m.name x.name other, distinct) refl)

add_members-Added :
    (rows : List Value) (before : List Member) (label : String)
    → Returns (Added rows before) (add_members rows before label)
unfolding add_members
add_members-Added [] before label = Returns-ok before (record {
  added = [];
  is_after = append-nil before;
  are_rows = tt;
  are_members = tt;
  are_new = tt;
  are_distinct = tt;
})
add_members-Added (row ∷ rows) before label = Returns-bind λ _ _. Returns-bind λ path has_path.
    Returns-bind λ name is_name. Returns-bind λ given has_size. Returns-bind λ size is_size.
      Returns-bind λ hash has_hash. Returns-bind λ sha256 is_digest.
        let m : Member = record { name = name; size = size; sha256 = sha256 } in
        let (same_path, safe) = (safe_name_iff path name).0 is_name in
        let (same_size, new) = (new_size-Returns name before given label).at size is_size in
        let (same_hash, hex) = (digest-Returns hash _).at sha256 is_digest in
        Returns-self _ λ after e.
          let ih = (add_members-Added rows (before ++ m ∷ []) label).at after e in
          let (others, distinct) = new-split before m ih.added ih.are_new in
          record {
            added = m ∷ ih.added;
            is_after = sym (append_assoc before m ih.added) ∙ ih.is_after;
            are_rows = (
              record {
                has_path = has_path ∙ ap ok same_path;
                has_size = has_size ∙ ap ok same_size;
                has_digest = has_hash ∙ ap ok same_hash;
              },
              ih.are_rows,
            );
            are_members = ((safe, hex), ih.are_members);
            are_new = (new, others);
            are_distinct = (distinct, ih.are_distinct);
          }

abbrev AreMembers : List Value → List Member → Type 0
AreMembers rows ms = AreRows rows ms × All IsMember ms × AreDistinct ms

manifest_members-AreMembers :
    (v : Value) (label : String)
    → Returns
        (λ ms.
          (row : Value) × (rest : Items) × (v ≡ list (cons row rest))
          × AreMembers (elements (cons row rest)) ms)
        (manifest_members v label)
unfolding manifest_members
manifest_members-AreMembers (list (cons row rest)) label = Returns-self _ λ ms e.
    let a = (add_members-Added (elements (cons row rest)) [] label).at ms e in
    (
      row,
      rest,
      refl,
      subst (AreMembers (elements (cons row rest))) a.is_after
          (a.are_rows, a.are_members, a.are_distinct),
    )
manifest_members-AreMembers v label = Returns-err _

-- A manifest that is accepted is a list with at least one row, and is read as one member for each row,
-- with the path, the size and the digest of the row; the paths are safe names and all different, and
-- the digests are 64 hexadecimal digits.
pub manifest_members_sound :
    (v : Value) (label : String) (ms : List Member)
    → manifest_members v label ≡ ok ms
    → (row : Value) × (rest : Items) × (v ≡ list (cons row rest))
      × AreRows (elements (cons row rest)) ms
      × All IsMember ms
      × AreDistinct ms
manifest_members_sound v label ms h =
    let (row, rest, e, (rows, members, distinct)) = (manifest_members-AreMembers v label).at ms h in
    (row, rest, e, rows, members, distinct)
