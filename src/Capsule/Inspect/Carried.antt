-- ===== src/Capsule/Inspect/Carried.antt =====
-- What an accepted source capsule carries.
use mathlib.Core.Path.{subst}
use ckb_vm_sail_verify.Base.{
  String, ℕ, ◌≡◌, refl, ap, sym, ◌∙◌, Bool, true, false, ◌&&◌, Option, none, some, List, [], ◌∷◌,
  str_eq, eq_iff, In, here, there, pos, if◌then◌else◌, &&-eq-true, ◌==◌,
}
use ckb_vm_sail_verify.Base.Result.{ok, err, key_error, ◌>>=◌, >>=-eq-ok}
use ckb_vm_sail_verify.Base.Result.Returns.{
  Returns, Returns-ok, Returns-err, Returns-bind, Returns-require, Returns-self, ok-injective,
  require-eq-true,
}
use ckb_vm_sail_verify.Base.Json.{
  Value, null, count_fields, str, int, dict, Fields, end, field, fields, find, item, equal,
  equal_fields,
}
use ckb_vm_sail_verify.Release.Manifest.{Member}
use ckb_vm_sail_verify.Release.Stages.{or_null}
use ckb_vm_sail_verify.Audit.Checks.{part}
use ckb_vm_sail_verify.Audit.Checks.Facts.{EachField}
use ckb_vm_sail_verify.Audit.Package.{member_named, need_member}
use ckb_vm_sail_verify.Capsule.Inspect.{member_value, check_member, payload_name, check_payload}
use ckb_vm_sail_verify.Release.Inventory.{Item}

equal_fields-first :
    (j : String) (a : Value) (rest bs : Fields)
    → equal_fields (field j a rest) bs ≡ true
    → (b : Value) × (find j bs ≡ some b) × (equal a b ≡ true) × (equal_fields rest bs ≡ true)
unfolding equal_fields
equal_fields-first j a rest bs h = by (find j bs) refl h
  where
    by :
        (o : Option Value)
        → find j bs ≡ o
        → (elim o [ none ↦ false | some b ↦ equal a b && equal_fields rest bs ]) ≡ true
        → (b : Value) × (find j bs ≡ some b) × (equal a b ≡ true) × (equal_fields rest bs ≡ true)
    by none e h = absurd (cc h)
    by (some b) e h = let (same, others) = &&-eq-true _ _ h in (b, e, same, others)

-- In equal dicts, what stands under a key of the first stands under it in the second.
equal_fields-find :
    (fs bs : Fields) (k : String) (w : Value)
    → equal_fields fs bs ≡ true
    → find k fs ≡ some w
    → (b : Value) × (find k bs ≡ some b) × (equal w b ≡ true)
equal_fields-find end bs k w h e = absurd (cc e)
equal_fields-find (field j a rest) bs k w h e =
    let (b, found, same, others) = equal_fields-first j a rest bs h in
    by (str_eq j k) refl e b found same (equal_fields-find rest bs k w others)
  where
    by :
        (t : Bool)
        → str_eq j k ≡ t
        → (if t then some a else find k rest) ≡ some w
        → (b : Value) → find j bs ≡ some b
        → equal a b ≡ true
        → (find k rest ≡ some w → (c : Value) × (find k bs ≡ some c) × (equal w c ≡ true))
        → (c : Value) × (find k bs ≡ some c) × (equal w c ≡ true)
    by true m e b found same later = (
      b,
      subst (λ n. find n bs ≡ some b) ((eq_iff j k).0 m) found,
      subst (λ v. equal v b ≡ true) (some-injective a w e) same,
    )
      where
        some-injective : (x y : Value) → some x ≡ some y → x ≡ y
        some-injective x y p = cc p
    by false m e b found same later = later e

EachField-find :
    (P : String → Value → Type 0) (fs : Fields) (k : String) (w : Value)
    → EachField P fs
    → find k fs ≡ some w
    → P k w
EachField-find P end k w h e = absurd (cc e)
EachField-find P (field j a rest) k w h e = by (str_eq j k) refl e (EachField-find P rest k w h.1)
  where
    by :
        (b : Bool)
        → str_eq j k ≡ b
        → (if b then some a else find k rest) ≡ some w
        → (find k rest ≡ some w → P k w)
        → P k w
    by true m e later = subst (λ v. P k v) (cc e) (subst (λ n. P n a) ((eq_iff j k).0 m) h.0)
    by false m e later = later e

member_named-In :
    (name : String) (ms : List Member) (m : Member)
    → member_named name ms ≡ some m
    → In m ms × (m.name ≡ name)
member_named-In name [] m e = absurd (cc e)
member_named-In name (n ∷ ms) m e = by (str_eq n.name name) refl e (member_named-In name ms m)
  where
    by :
        (t : Bool)
        → str_eq n.name name ≡ t
        → (if t then some n else member_named name ms) ≡ some m
        → (member_named name ms ≡ some m → In m ms × (m.name ≡ name))
        → In m (n ∷ ms) × (m.name ≡ name)
    by true h e later =
        subst (λ x. In x (n ∷ ms) × (x.name ≡ name)) (cc e) (here, (eq_iff n.name name).0 h)
    by false h e later = let (place, same) = later e in (there place, same)

need_member-In :
    (name : String) (ms : List Member)
    → Returns (λ m. In m ms × (m.name ≡ name)) (need_member name ms)
unfolding need_member
need_member-In name ms = by (member_named name ms) refl
  where
    by :
        (o : Option Member)
        → member_named name ms ≡ o
        → Returns
            (λ m. In m ms × (m.name ≡ name))
            (elim o [ none ↦ err (key_error name) | some m ↦ ok m ])
    by none h = Returns-err _
    by (some m) h = Returns-ok m (member_named-In name ms m h)

-- A file of the archive, with the size and the digest of this row.
pub record HasMember (found : List Member) (name : String) (row : Value) : Type 0 where
  pub member : Member
  pub listed : In member found
  pub named : member.name ≡ name
  pub given : Fields
  pub has_given : part row ("size" ∷ "sha256" ∷ []) ≡ ok given
  pub same : equal (member_value member) (dict given) ≡ true

pub check_member-HasMember :
    (archive : List Item) (found : List Member) (name : String) (row : Value)
    → Returns (λ _. HasMember found name row) (check_member archive found name row)
unfolding check_member
check_member-HasMember archive found name row = Returns-bind λ _ _. Returns-bind λ m e.
    Returns-bind λ given f. Returns-require _ λ same. Returns-self _ λ _ _.
      let (place, named) = (need_member-In name found).at m e in
      record {
        member = m;
        listed = place;
        named = named;
        given = given;
        has_given = f;
        same = same;
      }

-- The archive has the file of the snapshot at its payload name, with the digest of the snapshot.
abbrev pub Carries : List Member → String → String → Value → Type 0
Carries found repo name row =
    (m : Member) × In m found
    × (m.name ≡ payload_name repo name)
    × (item row "sha256" ≡ ok (str m.sha256))

str-equal : (t : String) (v : Value) → equal (str t) v ≡ true → v ≡ str t
unfolding equal
str-equal t (str s) h = ap str (sym ((eq_iff t s).0 h))
str-equal t v h = cc

-- What the two parts of a member's row are.
part-item :
    (row : Value) (given : Fields)
    → part row ("size" ∷ "sha256" ∷ []) ≡ ok given
    → (a : Value) × (b : Value) × (item row "sha256" ≡ ok b)
      × (given ≡ field "size" a (field "sha256" b end))
unfolding part ◌>>=◌
part-item row given e =
    let (a, _, rest) = >>=-eq-ok (item row "size") _ e in
    let (others, found, last) = >>=-eq-ok (part row ("sha256" ∷ [])) _ rest in
    let (b, has_b, end_b) = >>=-eq-ok (item row "sha256") _ found in
    (a, b, has_b, sym (ok-injective _ _ last) ∙ ap (field "size" a) (sym (ok-injective _ _ end_b)))

some-injective : (x y : Value) → some x ≡ some y → x ≡ y
some-injective x y p = cc p

equal_dict-fields : (fs bs : Fields) → equal (dict fs) (dict bs) ≡ true → equal_fields fs bs ≡ true
unfolding equal
equal_dict-fields fs bs h =
    (&&-eq-true (count_fields fs == count_fields bs) (equal_fields fs bs) h).1

null-dict : (fs : Fields) → equal null (dict fs) ≡ true → ⊥
unfolding equal
null-dict fs h = cc h

member_value-sha256 :
    (m : Member) (a w : Value)
    → equal (member_value m) (dict (field "size" a (field "sha256" w end))) ≡ true
    → w ≡ str m.sha256
member_value-sha256 m a w h =
    let (b, at_b, holds) =
      equal_fields-find _ _ "sha256" (str m.sha256) (equal_dict-fields _ _ h) refl in
    some-injective w b at_b ∙ str-equal m.sha256 b holds

HasMember-sha256 :
    (found : List Member) (name : String) (row w : Value)
    → (h : HasMember found name row) → item row "sha256" ≡ ok w
    → w ≡ str (h.member.sha256)
HasMember-sha256 found name row w h e =
    let (a, b, has_b, same) = part-item row h.given h.has_given in
    let is_b = ok-injective b w (sym has_b ∙ e) in
    member_value-sha256 h.member a w (
      subst (λ g. equal (member_value h.member) (dict g) ≡ true)
        (same ∙ ap (λ v. field "size" a (field "sha256" v end)) is_b) h.same)

item-find :
    (v w : Value) (k : String)
    → item v k ≡ ok w
    → (fs : Fields) × (v ≡ dict fs) × (find k fs ≡ some w)
item-find (dict fs) w k h = (fs, refl, by (find k fs) refl h)
  where
    by :
        (o : Option Value)
        → find k fs ≡ o
        → (elim o [ none ↦ err (key_error k) | some v ↦ ok v ]) ≡ ok w
        → find k fs ≡ some w
    by none e h = absurd (cc h)
    by (some v) e h = e ∙ ap some (ok-injective v w h)
item-find v w k h = cc

-- The row of a member that equals that of the snapshot has its digest.
row-sha256 :
    (row size digest mode w : Value)
    → equal row (dict (fields (("size", size) ∷ ("sha256", digest) ∷ ("mode", mode) ∷ []))) ≡ true
    → item row "sha256" ≡ ok w
    → equal w digest ≡ true
row-sha256 row size digest mode w h e =
    let (fs, is_dict, found) = item-find row w "sha256" e in
    let target = fields (("size", size) ∷ ("sha256", digest) ∷ ("mode", mode) ∷ []) in
    let same = equal_dict-fields fs target (subst (λ v. equal v (dict target) ≡ true) is_dict h) in
    let (b, at_b, holds) = equal_fields-find fs target "sha256" w same found in
    subst (λ v. equal w v ≡ true) (sym (some-injective digest b at_b)) holds

pub check_payload-Carries :
    (found : List Member) (members : Fields) (repo name : String) (row : Value)
    → EachField (HasMember found) members
    → Returns (λ _. Carries found repo name row) (check_payload members repo name row)
unfolding check_payload
check_payload-Carries found members repo name row rows = Returns-bind λ size e.
    Returns-bind λ digest f. Returns-bind λ mode g. Returns-bind λ bits h. Returns-self _ λ u same.
      by (find (payload_name repo name) members) refl size digest bits f
        (require-eq-true _ _ u same)
  where
    by :
        (o : Option Value)
        → find (payload_name repo name) members ≡ o
        → (size digest : Value) (bits : ℕ) → item row "sha256" ≡ ok digest
        → equal
            (or_null o)
            (dict (fields (("size", size) ∷ ("sha256", digest) ∷ ("mode", int (pos bits)) ∷ [])))
          ≡ true
        → Carries found repo name row
    by none e size digest bits f h = absurd (null-dict _ h)
    by (some r) e size digest bits f h =
        let m = EachField-find (HasMember found) members (payload_name repo name) r rows e in
        let (a, w, has_w, _) = part-item r m.given m.has_given in
        let is_member = HasMember-sha256 found _ r w m has_w in
        let holds = row-sha256 r size digest (int (pos bits)) w h has_w in
        (
          m.member,
          m.listed,
          m.named,
          f
              ∙ ap ok (
                  str-equal m.member.sha256 digest
                    (subst (λ v. equal v digest ≡ true) is_member holds)),
        )
