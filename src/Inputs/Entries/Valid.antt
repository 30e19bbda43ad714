-- ===== src/Inputs/Entries/Valid.antt =====
-- What an accepted inventory is.
use text.Mathlib.TextPositions.{eq_refl}
use ckb_vm_sail_verify.Base.{
  String, ◌≡◌, refl, ap, ◌∙◌, Bool, true, false, Option, none, some, List, [], ◌∷◌, All, ◌⊎◌, inl,
  inr,
}
use ckb_vm_sail_verify.Base.Result.{ok, bind-ok}
use ckb_vm_sail_verify.Base.Result.Returns.{
  Returns, Returns-ok, Returns-err, Returns-bind, Returns-require, Returns-self, require-eq-true,
}
use ckb_vm_sail_verify.Base.Json.{Value, str, dict, Fields, end, field, find, equal}
use ckb_vm_sail_verify.Release.Names.Safe.{IsSafe, safe_name_iff}
use ckb_vm_sail_verify.Audit.Publication.{get, gets}
use ckb_vm_sail_verify.Audit.Publication.Published.{gets-str}
use ckb_vm_sail_verify.Audit.Checks.{reads}
use ckb_vm_sail_verify.Audit.Checks.Facts.{EachField, each_field-EachField, Reads}
use ckb_vm_sail_verify.Inputs.Chains.{check_link, check_chain, check_chains}
use ckb_vm_sail_verify.Inputs.Chains.Ends.{HasKind, Chain, has_kind-HasKind, follow-Chain}
use ckb_vm_sail_verify.Inputs.Entries.{
  parents_of, is_parent, check_parents, check_entry, entry_rows, entries_valid,
}

-- What is recorded under this name is a directory.
abbrev pub IsParent : Fields → String → Type 0
IsParent entries name =
    (find name entries ≡ none)
    ⊎ ((row : Value) × (find name entries ≡ some row) × (get row "kind" ≡ ok (str "directory")))

abbrev pub IsPlaced : Fields → String → Value → Type 0
IsPlaced entries name row = IsSafe name × All (IsParent entries) (parents_of name)

-- A recorded link leads, over other recorded links, to a recorded file.
abbrev pub LeadsToFile : Fields → String → Value → Type 0
LeadsToFile entries name row =
    (reads row ("kind" ∷ []) (str "symlink") ≡ ok false)
    ⊎ ((last : String) × Chain entries name last × HasKind entries last "file")

is_parent-IsParent :
    (entries : Fields) (name : String) → is_parent entries name ≡ ok true → IsParent entries name
unfolding is_parent
is_parent-IsParent entries name h = by (find name entries) refl h
  where
    by :
        (o : Option Value)
        → find name entries ≡ o
        → elim o [ none ↦ ok true | some row ↦ gets row "kind" (str "directory") ] ≡ ok true
        → IsParent entries name
    by none e k = inl e
    by (some row) e k = inr (row, e, gets-str row "kind" "directory" k)

check_parents-All :
    (entries : Fields) (names : List String)
    → Returns (λ _. All (IsParent entries) names) (check_parents entries names)
unfolding check_parents
check_parents-All entries [] = Returns-ok tt tt
check_parents-All entries (name ∷ rest) = Returns-bind λ plain e. Returns-require _ λ k.
    Returns-self _ λ u f.
      (is_parent-IsParent entries name (e ∙ ap ok k), (check_parents-All entries rest).at u f)

check_entry-IsPlaced :
    (entries : Fields) (name : String) (row : Value)
    → Returns (λ _. IsPlaced entries name row) (check_entry entries name row)
unfolding check_entry
check_entry-IsPlaced entries name row = Returns-bind λ text e. Returns-bind λ u f.
    Returns-self _ λ v g.
      let (same, safe) = (safe_name_iff (str name) text).0 e in
      let own : text ≡ name = cc in
      (rw (← own) safe, (check_parents-All entries (parents_of name)).at u f)

check_chain-LeadsToFile :
    (entries : Fields) (name : String)
    → Returns
        (λ _. (last : String) × Chain entries name last × HasKind entries last "file")
        (check_chain entries name)
unfolding check_chain
check_chain-LeadsToFile entries name = Returns-bind λ last e. Returns-bind λ found f.
    Returns-self _ λ u g. (
      last,
      (follow-Chain entries _ name []).at last e,
      has_kind-HasKind entries last "file" (f ∙ ap ok (require-eq-true found _ u g)),
    )

-- A kind that is read is the kind that the test finds.
pub reads-not :
    (row : Value) (ks : List String) (t : String)
    → reads row ks (str t) ≡ ok false
    → Reads row ks (str t)
    → ⊥
unfolding reads equal
reads-not row ks t h k = absurd (cc (h, bind-ok (λ w. ok (equal w (str t))) k refl, eq_refl t))

check_chains-LeadsToFile :
    (entries rows : Fields)
    → Returns (λ _. EachField (LeadsToFile entries) rows) (check_chains entries rows)
unfolding check_chains
check_chains-LeadsToFile entries end = Returns-ok tt tt
check_chains-LeadsToFile entries (field name row rest) = Returns-bind λ linked e.
    Returns-bind
      λ u f. Returns-self _ λ v g. (by linked e u f, (check_chains-LeadsToFile entries rest).at v g)
  where
    by :
        (linked : Bool)
        → reads row ("kind" ∷ []) (str "symlink") ≡ ok linked
        → (u : Unit {0}) → check_link linked (check_chain entries name) ≡ ok u
        → LeadsToFile entries name row
    by true e u f = inr ((check_chain-LeadsToFile entries name).at u f)
    by false e u f = inl e

pub record IsValid (given : Value) (entries : Fields) : Type 0 where
  pub rows : given ≡ dict entries
  pub placed : EachField (IsPlaced entries) entries
  pub ends : EachField (LeadsToFile entries) entries

entry_rows-dict : (given : Value) → Returns (λ entries. given ≡ dict entries) (entry_rows given)
entry_rows-dict (dict (field name row rest)) = Returns-ok _ refl
entry_rows-dict given = Returns-err _

pub entries_valid-IsValid : (given : Value) → Returns (IsValid given) (entries_valid given)
unfolding entries_valid
entries_valid-IsValid given = Returns-bind λ entries e. Returns-bind λ u f. Returns-bind λ v g.
    Returns-ok entries (record {
      rows = (entry_rows-dict given).at entries e;
      placed =
          (each_field-EachField (check_entry entries) (check_entry-IsPlaced entries) entries).at u
            f;
      ends = (check_chains-LeadsToFile entries entries).at v g;
    })
