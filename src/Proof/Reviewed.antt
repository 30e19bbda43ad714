-- ===== src/Proof/Reviewed.antt =====
-- What an accepted audit of the axioms shows.
use mathlib.Core.List.{Perm}
use ckb_vm_sail_verify.Base.{
  String, ◌≡◌, refl, ap, ◌∙◌, Bool, true, ◌||◌, not, List, [], ◌∷◌, map, str_eq, eq_iff, In, here,
  there, All, &&-eq-true, arith,
}
use ckb_vm_sail_verify.Base.Result.{Result, ok}
use ckb_vm_sail_verify.Base.Result.Returns.{
  Returns, Returns-err, Returns-bind, Returns-require, Returns-self, require-eq-true,
}
use ckb_vm_sail_verify.Base.Sorted.{sorted-eq-Perm}
use ckb_vm_sail_verify.Base.Json.{Value, str, list, dict, items, equal}
use ckb_vm_sail_verify.Audit.Checks.Facts.{Reads, item-Reads, texts_of-items}
use ckb_vm_sail_verify.Proof.{
  names_of, groups_at, includes, are_distinct, is_clean, all_clean, flatten, sorted_groups,
  require_equal, same_texts, check_groups, check_witnesses, check_axioms, boundary_hashes,
  check_audit,
}

-- Each name stands in the list once.
abbrev pub AreDistinct : List String → Type 0
AreDistinct [] = Unit
AreDistinct (x ∷ xs) = ¬ In x xs × AreDistinct xs

-- Axioms that are all different, and none of which is that of an unfinished proof.
pub record IsClean (names : List String) : Type 0 where
  pub no_sorry : ¬ In "sorryAx" names
  pub distinct : AreDistinct names

In-includes : (xs : List String) (k : String) → In k xs → includes xs k ≡ true
In-includes [] k h = elim h [ ]
In-includes (x ∷ xs) k here = rw ((eq_iff k k).1 refl) refl
In-includes (x ∷ xs) k (there h) = or-true (str_eq x k) (includes xs k) (In-includes xs k h)
  where
    or-true : (a b : Bool) → b ≡ true → (a || b) ≡ true
    or-true a b h = ground arith

not-In : (xs : List String) (k : String) → not (includes xs k) ≡ true → ¬ In k xs
not-In xs k h m = clash (includes xs k) h (In-includes xs k m)
  where
    clash : (b : Bool) → not b ≡ true → b ≡ true → ⊥
    clash b h e = ground arith

are_distinct-AreDistinct : (xs : List String) → are_distinct xs ≡ true → AreDistinct xs
unfolding are_distinct
are_distinct-AreDistinct [] h = tt
are_distinct-AreDistinct (x ∷ xs) h =
    let (new, rest) = &&-eq-true (not (includes xs x)) (are_distinct xs) h in
    (not-In xs x new, are_distinct-AreDistinct xs rest)

is_clean-IsClean : (names : List String) → is_clean names ≡ true → IsClean names
unfolding is_clean
is_clean-IsClean names h =
    let (no_sorry, distinct) = &&-eq-true (not (includes names "sorryAx")) (are_distinct names) h in
    record {
      no_sorry = not-In names "sorryAx" no_sorry;
      distinct = are_distinct-AreDistinct names distinct;
    }

all_clean-IsClean :
    (groups : List (String × List String))
    → all_clean groups ≡ true
    → All (λ group. IsClean (group.1)) groups
all_clean-IsClean [] h = tt
all_clean-IsClean ((k, names) ∷ rest) h =
    let (first, later) = &&-eq-true (is_clean names) (all_clean rest) h in
    (is_clean-IsClean names first, all_clean-IsClean rest later)

same_texts-eq : (xs ys : List String) → same_texts xs ys ≡ true → xs ≡ ys
unfolding same_texts
same_texts-eq [] [] h = refl
same_texts-eq [] (y ∷ ys) h = cc h
same_texts-eq (x ∷ xs) [] h = cc h
same_texts-eq (x ∷ xs) (y ∷ ys) h =
    let (first, rest) = &&-eq-true (str_eq x y) (same_texts xs ys) h in
    let e = (eq_iff x y).0 first in let es = same_texts-eq xs ys rest in cc

-- The axioms of the final theorem are the reviewed ones, in some order, and clean.
pub record HasAxioms (audit policy : Value) : Type 0 where
  pub names : List String
  pub has_names : Reads audit ("axioms" ∷ []) (list (items (map str names)))
  pub groups : List (String × List String)
  pub has_groups : groups_at policy "axioms" ≡ ok groups
  pub reviewed : Perm names (flatten groups)
  pub clean : IsClean names

names_of-list : (v : Value) → Returns (λ names. v ≡ list (items (map str names))) (names_of v)
unfolding names_of
names_of-list (list vs) = Returns-self _ λ names e. ap list ((texts_of-items vs).at names e)
names_of-list v = Returns-err _

check_axioms-HasAxioms :
    (audit policy : Value) → Returns (λ _. HasAxioms audit policy) (check_axioms audit policy)
unfolding check_axioms
check_axioms-HasAxioms audit policy = Returns-bind λ given e. Returns-bind λ names f.
    Returns-require _ λ clean. Returns-bind λ groups g. Returns-self _ λ u h. record {
      names = names;
      has_names = item-Reads _ _ _ e ∙ ap ok ((names_of-list given).at names f);
      groups = groups;
      has_groups = g;
      reviewed =
          sorted-eq-Perm names (flatten groups) (same_texts-eq _ _ (require-eq-true _ _ u h));
      clean = is_clean-IsClean names clean;
    }

-- The axioms of the parts under this key are the reviewed ones, sorted, and clean for each part.
pub record HasGroups (audit policy : Value) (key : String) : Type 0 where
  pub groups : List (String × List String)
  pub has_groups : groups_at audit key ≡ ok groups
  pub expected : Value
  pub has_expected : Reads policy (key ∷ []) expected
  pub reviewed : equal (dict (sorted_groups groups)) expected ≡ true
  pub clean : All (λ group. IsClean (group.1)) groups

check_groups-HasGroups :
    (audit policy : Value) (key : String)
    → Returns (λ _. HasGroups audit policy key) (check_groups audit policy key)
unfolding check_groups require_equal
check_groups-HasGroups audit policy key = Returns-bind λ groups e. Returns-bind λ expected f.
    Returns-require _ λ same. Returns-self _ λ u h. record {
      groups = groups;
      has_groups = e;
      expected = expected;
      has_expected = item-Reads _ _ _ f;
      reviewed = same;
      clean = all_clean-IsClean groups (require-eq-true _ _ u h);
    }

check_witnesses-HasGroups :
    (audit policy : Value)
    → Returns (λ _. HasGroups audit policy "witness_axioms") (check_witnesses audit policy)
unfolding check_witnesses require_equal
check_witnesses-HasGroups audit policy = Returns-bind λ groups e. Returns-require _ λ clean.
    Returns-bind λ expected f. Returns-self _ λ u h. record {
      groups = groups;
      has_groups = e;
      expected = expected;
      has_expected = item-Reads _ _ _ f;
      reviewed = require-eq-true _ _ u h;
      clean = all_clean-IsClean groups clean;
    }

module _ (loads : String → Result Value) (digest : Value → String) where
  pub record IsReviewed (audit policy : Value) : Type 0 where
    pub axioms : HasAxioms audit policy
    pub found : Value
    pub has_found : boundary_hashes loads digest audit ≡ ok found
    pub boundary : Value
    pub has_boundary : Reads policy ("boundary_sha256" ∷ []) boundary
    pub same_boundary : equal found boundary ≡ true
    pub contracts : HasGroups audit policy "contract_axioms"
    pub witnesses : HasGroups audit policy "witness_axioms"

  pub check_audit-IsReviewed :
      (audit policy : Value)
      → Returns (λ _. IsReviewed audit policy) (check_audit loads digest audit policy)
  unfolding check_audit require_equal
  check_audit-IsReviewed audit policy = Returns-bind λ _ _. Returns-bind λ _ _.
      Returns-require _ λ _. Returns-bind λ b1 axioms. Returns-bind λ found e.
        Returns-bind λ boundary f. Returns-require _ λ same. Returns-bind λ b2 contracts.
          Returns-self _ λ b3 witnesses. record {
            axioms = (check_axioms-HasAxioms audit policy).at b1 axioms;
            found = found;
            has_found = e;
            boundary = boundary;
            has_boundary = item-Reads _ _ _ f;
            same_boundary = same;
            contracts = (check_groups-HasGroups audit policy _).at b2 contracts;
            witnesses = (check_witnesses-HasGroups audit policy).at b3 witnesses;
          }

  -- An audit of the final theorem that is accepted lists the reviewed axioms, in some order, each once
  -- and without `sorryAx`; so it does for each wrapper contract and each witness, where the sorted
  -- lists equal the reviewed ones; and the digests of its boundary equal the reviewed ones.
  pub check_audit_sound :
      (audit policy : Value)
      → check_audit loads digest audit policy ≡ ok tt
      → IsReviewed audit policy
  check_audit_sound audit policy h = (check_audit-IsReviewed audit policy).at tt h
