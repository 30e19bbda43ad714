-- ===== src/Inputs/Chains/Ends.antt =====
-- Where the chains of links end, and that the loop ends there.
use ckb_vm_sail_verify.Base.{
  String, ℕ, zero, suc, ◌+◌, ◌≤◌, ◌<◌, ◌≡◌, ◌≢◌, refl, ap, Bool, true, false, Option, none, some,
  List, [], ◌∷◌, if◌then◌else◌, arith, eq_iff,
}
use ckb_vm_sail_verify.Base.Result.{Result, ok, err, key_error, require, ◌>>=◌, bind-eq}
use ckb_vm_sail_verify.Base.Result.Returns.{
  Returns, Returns-ok, Returns-err, Returns-bind, Returns-require, Returns-self,
}
use ckb_vm_sail_verify.Base.Json.{Value, str, dict, Fields, end, field, find, item, count_fields}
use ckb_vm_sail_verify.Release.Names.{safe_name}
use ckb_vm_sail_verify.Release.Manifest.{is_one_of}
use ckb_vm_sail_verify.Release.Stages.{or_null}
use ckb_vm_sail_verify.Audit.Checks.{keys}
use ckb_vm_sail_verify.Audit.Publication.{get, gets}
use ckb_vm_sail_verify.Audit.Publication.Published.{gets-str}
use ckb_vm_sail_verify.Inputs.Chains.{
  has_kind, dirname, joined, normpath, target_of, as_text, next_name, follow, chain_end, unfinished,
}

-- There is an entry of this name, and of this kind.
abbrev pub HasKind : Fields → String → String → Type 0
HasKind entries name kind =
    (row : Value) × (find name entries ≡ some row) × (get row "kind" ≡ ok (str kind))

-- The link leads from this name to that one.
abbrev pub Leads : Fields → String → String → Type 0
Leads entries name next =
    (target : String) × (target_of entries name ≡ ok target)
    × (safe_name (str (normpath (joined (dirname name) target))) ≡ ok next)

-- A chain of links, and what it ends at.
pub data Chain (entries : Fields) : String → String → Type 0 where
  stop : {name : String} → Chain entries name name
  hop :
      {name next last : String}
      → HasKind entries name "symlink"
      → Leads entries name next
      → Chain entries next last
      → Chain entries name last

pub has_kind-HasKind :
    (entries : Fields) (name kind : String)
    → has_kind entries name kind ≡ ok true
    → HasKind entries name kind
unfolding has_kind
has_kind-HasKind entries name kind h = by (find name entries) refl h
  where
    by :
        (o : Option Value)
        → find name entries ≡ o
        → elim o [ none ↦ ok false | some row ↦ gets row "kind" (str kind) ] ≡ ok true
        → HasKind entries name kind
    by none e k = cc
    by (some row) e k = (row, e, gets-str row "kind" kind k)

next_name-Leads :
    (entries : Fields) (name : String) (visited : List String)
    → Returns
        (λ next. (is_one_of visited name ≡ false) × Leads entries name next)
        (next_name entries name visited)
unfolding next_name
next_name-Leads entries name visited =
    Returns-require _
      λ new. Returns-bind λ target e. Returns-self _ λ next h. (ground arith, (target, e, h))

pub follow-Chain :
    (entries : Fields) (fuel : ℕ) (name : String) (visited : List String)
    → Returns (Chain entries name) (follow entries fuel name visited)
unfolding follow
follow-Chain entries zero name visited = Returns-err _
follow-Chain entries (suc fuel) name visited =
    Returns-bind λ linked e. by (λ next. follow-Chain entries fuel next (name ∷ visited)) linked e
  where
    by :
        ((next : String) → Returns (Chain entries next) (follow entries fuel next (name ∷ visited)))
        → (linked : Bool) → has_kind entries name "symlink" ≡ ok linked
        → Returns (Chain entries name) (elim linked [
          | false ↦ ok name
          | true ↦
              next_name entries name visited >>= λ next. follow entries fuel next (name ∷ visited)
        ])
    by rest false e = Returns-ok name stop
    by rest true e = Returns-bind λ next f. Returns-self _ λ last h.
        hop (has_kind-HasKind entries name "symlink" e)
          (((next_name-Leads entries name visited).at next f).1) ((rest next).at last h)

-- How many of these names were not visited.
unfoldable left : List String → List String → ℕ
left [] visited = 0
left (k ∷ ks) visited = if is_one_of visited k then left ks visited else suc (left ks visited)

left-le :
    (ks : List String) (visited : List String) (name : String)
    → left ks (name ∷ visited) ≤ left ks visited
unfolding left
left-le [] visited name = omega arith
left-le (k ∷ ks) visited name = ground (arith, left-le ks visited name)

-- A visit of a name that was not visited leaves fewer.
left-lt :
    (ks : List String) (visited : List String) (name : String)
    → is_one_of ks name ≡ true
    → is_one_of visited name ≡ false
    → left ks (name ∷ visited) < left ks visited
unfolding left
left-lt [] visited name known new = cc
left-lt (k ∷ ks) visited name known new =
    ground (arith, eq_iff k name, eq_iff name k, left-le ks visited name, left-lt ks visited name)

left-count : (entries : Fields) → left (keys entries) [] ≡ count_fields entries
unfolding left
left-count end = refl
left-count (field k v rest) = ap suc (left-count rest)

find-is_one_of :
    (entries : Fields) (name : String) (row : Value)
    → find name entries ≡ some row
    → is_one_of (keys entries) name ≡ true
find-is_one_of end name row h = cc
find-is_one_of (field k v rest) name row h = ground (arith, find-is_one_of rest name row)

visit-less :
    (entries : Fields) (name : String) (visited : List String) (next : String)
    → has_kind entries name "symlink" ≡ ok true
    → next_name entries name visited ≡ ok next
    → left (keys entries) (name ∷ visited) < left (keys entries) visited
visit-less entries name visited next k n =
    let (row, found, _) = has_kind-HasKind entries name "symlink" k in
    let new = ((next_name-Leads entries name visited).at next n).0 in
    left-lt (keys entries) visited name (find-is_one_of entries name row found) new

-- The body of the loop, after its test.
abbrev ahead : Fields → ℕ → String → List String → Bool → Result String
ahead entries fuel name visited linked = elim linked [
  | false ↦ ok name
  | true ↦ next_name entries name visited >>= λ next. follow entries fuel next (name ∷ visited)
]

-- More fuel than there are links to visit changes nothing.
follow-enough :
    (entries : Fields) (fuel extra : ℕ) (name : String) (visited : List String)
    → left (keys entries) visited < fuel
    → follow entries (fuel + extra) name visited ≡ follow entries fuel name visited
unfolding follow ◌>>=◌
follow-enough entries zero extra name visited h = absurd (omega arith)
follow-enough entries (suc fuel) extra name visited h =
    let e : suc fuel + extra ≡ suc (fuel + extra) = omega arith in
    rw e (
      bind-eq (has_kind entries name "symlink") _ _
        (by λ next less. follow-enough entries fuel extra next (name ∷ visited) less))
  where
    by :
        ((next : String)
          → left (keys entries) (name ∷ visited) < fuel
          → follow entries (fuel + extra) next (name ∷ visited)
            ≡ follow entries fuel next (name ∷ visited))
        → (linked : Bool) → has_kind entries name "symlink" ≡ ok linked
        → ahead entries (fuel + extra) name visited linked ≡ ahead entries fuel name visited linked
    by rest false k = refl
    by rest true k =
        bind-eq (next_name entries name visited) _ _
          λ next n. rest next (omega (arith, visit-less entries name visited next k n))

-- Code that did not run out of rounds.
abbrev Ended {ℓ} : {A : Type ℓ} → Result A → Type ℓ
Ended r = r ≢ err unfinished

bind-Ended {ℓ κ} :
    {A : Type ℓ} {B : Type κ} (m : Result A) (f : A → Result B)
    → Ended m
    → ((a : A) → m ≡ ok a → Ended (f a))
    → Ended (m >>= f)
unfolding ◌>>=◌
bind-Ended (ok a) f hm hf = hf a refl
bind-Ended (err e) f hm hf = λ h. hm (cc h)

require-Ended : (b : Bool) (message : String) → Ended (require b message)
unfolding require
require-Ended true message = λ h. cc
require-Ended false message = λ h. cc

safe_name-Ended : (s : String) → Ended (safe_name (str s))
unfolding safe_name
safe_name-Ended s =
    bind-Ended _ _ (require-Ended _ _) λ u e. bind-Ended _ _ (require-Ended _ _) λ u' e'. λ h. cc

has_kind-Ended : (entries : Fields) (name kind : String) → Ended (has_kind entries name kind)
unfolding has_kind gets get ◌>>=◌
has_kind-Ended entries name kind = by (find name entries)
  where
    by :
        (o : Option Value)
        → Ended (elim o [ none ↦ ok false | some row ↦ gets row "kind" (str kind) ])
    by none = λ h. cc
    by (some (dict fs)) = λ h. cc
    by (some row) = λ h. cc

target_of-Ended : (entries : Fields) (name : String) → Ended (target_of entries name)
unfolding target_of
target_of-Ended entries name =
    bind-Ended _ _ (found (or_null (find name entries))) λ target e. text target
  where
    found : (row : Value) → Ended (item row "target")
    found (dict fs) = by (find "target" fs)
      where
        by : (o : Option Value) → Ended (elim o [ none ↦ err (key_error "target") | some v ↦ ok v ])
        by none = λ h. cc
        by (some v) = λ h. cc
    found row = λ h. cc

    text : (v : Value) → Ended (as_text v)
    text (str s) = λ h. cc
    text v = λ h. cc

next_name-Ended :
    (entries : Fields) (name : String) (visited : List String)
    → Ended (next_name entries name visited)
unfolding next_name
next_name-Ended entries name visited =
    bind-Ended _ _ (require-Ended _ _)
      λ u e. bind-Ended _ _ (target_of-Ended entries name) λ target f. safe_name-Ended _

follow-Ended :
    (entries : Fields) (fuel : ℕ) (name : String) (visited : List String)
    → left (keys entries) visited < fuel
    → Ended (follow entries fuel name visited)
unfolding follow
follow-Ended entries zero name visited h = absurd (omega arith)
follow-Ended entries (suc fuel) name visited h =
    bind-Ended _ _ (has_kind-Ended entries name "symlink")
      (by λ next less. follow-Ended entries fuel next (name ∷ visited) less)
  where
    by :
        ((next : String)
          → left (keys entries) (name ∷ visited) < fuel
          → Ended (follow entries fuel next (name ∷ visited)))
        → (linked : Bool) → has_kind entries name "symlink" ≡ ok linked
        → Ended (ahead entries fuel name visited linked)
    by rest false k = λ h. cc
    by rest true k =
        bind-Ended _ _ (next_name-Ended entries name visited)
          λ next n. rest next (omega (arith, visit-less entries name visited next k n))

-- The loop of `entries_valid` ends: one round for each entry and one more are enough to come to the
-- end of the chain or to an error that the code raises, and no number of further rounds changes what
-- it gives.
pub follow_total :
    (entries : Fields) (extra : ℕ) (name : String)
    → (chain_end entries name ≢ err unfinished)
      × (follow entries (suc (count_fields entries) + extra) name [] ≡ chain_end entries name)
follow_total entries extra name =
    let less : left (keys entries) [] < suc (count_fields entries) =
      rw (left-count entries) (omega arith) in
    (
      follow-Ended entries (suc (count_fields entries)) name [] less,
      follow-enough entries (suc (count_fields entries)) extra name [] less,
    )
