-- ===== src/Release/Names/Safe.antt =====
-- What `safe_name` accepts.
use mathlib.Core.Path.{subst}
use text.Mathlib.TextPositions.{eq_refl}
use ckb_vm_sail_verify.Base.{
  String, ◌≡◌, ◌↔◌, refl, ap, sym, ◌∙◌, true, false, not, List, [], ◌∷◌, All, str_eq, eq_iff,
  Bool-cases, inl, inr, ◌⊎◌, arith, &&-eq-true,
}
use ckb_vm_sail_verify.Base.Result.{ok, require, ◌>>=◌}
use ckb_vm_sail_verify.Base.Result.Returns.{Returns, Returns-ok, Returns-err, Returns-require}
use ckb_vm_sail_verify.Base.Json.{Value, str}
use ckb_vm_sail_verify.Release.Names.{
  is_slash, split, join, is_kept, keep_parts, parts_of, path_text, is_absolute, has_bad,
  is_plain_part, all_plain, safe_name,
}
use ckb_vm_sail_verify.Release.Names.Split.{
  join-split, split-join, split-cons, split-NoSlash, NoSlash,
}

-- A part that stands for itself.
pub record IsPlain (x : String) : Type 0 where
  pub nonempty : str_eq x "" ≡ false
  pub no_dot : str_eq x "." ≡ false
  pub no_parent : str_eq x ".." ≡ false

-- The names that are accepted: the lone dot, and the texts whose parts between slashes are all plain.
pub record IsSafe (s : String) : Type 0 where
  pub nonempty : str_eq s "" ≡ false
  pub clean : has_bad s ≡ false
  pub shape : (s ≡ ".") ⊎ All IsPlain (split s)

part-IsPlain : (x : String) → is_plain_part x ≡ true → IsPlain x
part-IsPlain x h = record {
  nonempty = ground arith;
  no_dot = ground arith;
  no_parent = ground arith;
}

IsPlain-is_plain_part : (x : String) → IsPlain x → is_plain_part x ≡ true
IsPlain-is_plain_part x h = rw (h.nonempty, h.no_dot, h.no_parent) refl

IsPlain-kept : (x : String) → IsPlain x → is_kept x ≡ true
IsPlain-kept x h = rw (h.nonempty, h.no_dot) refl

all_plain-IsPlain : (xs : List String) → all_plain xs ≡ true → All IsPlain xs
unfolding all_plain
all_plain-IsPlain [] h = tt
all_plain-IsPlain (x ∷ xs) h =
    let (first, rest) = &&-eq-true (is_plain_part x) (all_plain xs) h in
    (part-IsPlain x first, all_plain-IsPlain xs rest)

IsPlain-all_plain : (xs : List String) → All IsPlain xs → all_plain xs ≡ true
unfolding all_plain
IsPlain-all_plain [] h = refl
IsPlain-all_plain (x ∷ xs) h = rw (IsPlain-is_plain_part x h.0, IsPlain-all_plain xs h.1) refl

keep_parts-IsPlain : (xs : List String) → All IsPlain xs → keep_parts xs ≡ xs
unfolding keep_parts
keep_parts-IsPlain [] h = refl
keep_parts-IsPlain (x ∷ xs) h = rw (IsPlain-kept x h.0, keep_parts-IsPlain xs h.1) refl

keep_parts-NoSlash : (xs : List String) → All NoSlash xs → All NoSlash (keep_parts xs)
unfolding keep_parts
keep_parts-NoSlash [] h = tt
keep_parts-NoSlash (x ∷ xs) h =
    let rest = keep_parts-NoSlash xs h.1 in
    elim (Bool-cases (is_kept x)) [ inl e ↦ rw e (h.0, rest) | inr e ↦ rw e rest ]

-- A name that reads back from its parts is the lone dot, or has no other parts.
name-shape :
    (s : String) (xs : List String) → All NoSlash xs → path_text xs ≡ s → (s ≡ ".") ⊎ (split s ≡ xs)
name-shape s [] h e = inl (sym e)
name-shape s (x ∷ xs) h e = inr (ap split (sym e) ∙ split-join x xs h)

safe_name-IsSafe : (v : Value) → Returns (λ s. (v ≡ str s) × IsSafe s) (safe_name v)
unfolding safe_name
safe_name-IsSafe (str s) = Returns-require _ λ text. Returns-require _ λ form.
    let (rest, plain) = &&-eq-true _ _ form in
    let (_, same) = &&-eq-true _ _ rest in
    let (nonempty, clean) = &&-eq-true (not (str_eq s "")) (not (has_bad s)) text in
    Returns-ok s (
      refl,
      record {
        nonempty = ground arith;
        clean = ground arith;
        shape =
            by_shape
              (name-shape s (parts_of s) (keep_parts-NoSlash (split s) (split-NoSlash s))
                ((eq_iff (path_text (parts_of s)) s).0 same))
              plain;
      },
    )
  where
    by_shape :
        (s ≡ ".") ⊎ (split s ≡ parts_of s)
        → all_plain (parts_of s) ≡ true
        → (s ≡ ".") ⊎ All IsPlain (split s)
    by_shape (inl e) plain = inl e
    by_shape (inr e) plain =
        inr (subst (All IsPlain) (sym e) (all_plain-IsPlain (parts_of s) plain))
safe_name-IsSafe v = Returns-err _

dot-accepted : safe_name (str ".") ≡ ok "."
unfolding safe_name split keep_parts all_plain is_absolute has_bad ◌>>=◌ require
dot-accepted = refl

plain-relative : (s : String) → All IsPlain (split s) → is_absolute s ≡ false
unfolding is_absolute split
plain-relative String.[] h = refl
plain-relative (String.◌∷◌ c s) h = elim (Bool-cases (is_slash c)) [
  | inl e ↦ let slashed = rw e at h in absurd (cc slashed.0.nonempty)
  | inr e ↦ e
]

path_text-split : (s : String) → path_text (split s) ≡ s
path_text-split s =
    let (x, rest, cons) = split-cons s in ap path_text cons ∙ ap join (sym cons) ∙ join-split s

safe_name-of-IsSafe : (s : String) → IsSafe s → safe_name (str s) ≡ ok s
unfolding safe_name ◌>>=◌ require
safe_name-of-IsSafe s h = by_shape h.shape
  where
    by_shape : (s ≡ ".") ⊎ All IsPlain (split s) → safe_name (str s) ≡ ok s
    by_shape (inl e) = subst (λ t. safe_name (str t) ≡ ok t) (sym e) dot-accepted
    by_shape (inr plain) =
        rw
          (
            h.nonempty,
            h.clean,
            plain-relative s plain,
            keep_parts-IsPlain (split s) plain,
            path_text-split s,
            IsPlain-all_plain (split s) plain,
          )
          (rw eq_refl refl)

-- `safe_name` accepts exactly the texts without a backslash, a NUL or a line break whose parts
-- between slashes are neither empty nor a dot nor two dots, and beside these the lone dot; and it
-- returns them unchanged.
pub safe_name_iff : (v : Value) (s : String) → (safe_name v ≡ ok s) ↔ ((v ≡ str s) × IsSafe s)
safe_name_iff v s = (
  (safe_name-IsSafe v).at s,
  λ h. subst (λ w. safe_name w ≡ ok s) (sym h.0) (safe_name-of-IsSafe s h.1),
)
