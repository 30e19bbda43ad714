-- ===== src/Release/Names/Split.antt =====
-- Splitting at slashes and joining with slashes undo each other.
use text.Mathlib.TextEquality.{Char-path}
use Prim.Native.Char.{Char, code}
use ckb_vm_sail_verify.Base.{
  String, ◌≡◌, refl, ap, sym, ◌∙◌, Bool, false, ◌||◌, List, [], ◌∷◌, All, ==_iff, Bool-cases, inl,
  inr, arith,
}
use ckb_vm_sail_verify.Release.Names.{slash, is_slash, push, split, extend, join}

join-push : (c : Char) (xs : List String) → join (push c xs) ≡ String.◌∷◌ c (join xs)
unfolding join
join-push c [] = refl
join-push c (x ∷ []) = refl
join-push c (x ∷ y ∷ xs) = refl

push-cons :
    (c : Char) (xs : List String) → (x : String) × (rest : List String) × (push c xs ≡ x ∷ rest)
push-cons c [] = (_, _, refl)
push-cons c (x ∷ xs) = (_, _, refl)

pub split-cons : (s : String) → (x : String) × (rest : List String) × (split s ≡ x ∷ rest)
unfolding split
split-cons String.[] = (_, _, refl)
split-cons (String.◌∷◌ c s) = elim (Bool-cases (is_slash c)) [
  | inl e ↦ rw e (_, _, refl)
  | inr e ↦ rw e (push-cons c (split s))
]

join-nil :
    (x : String) (xs : List String) → join (String.[] ∷ x ∷ xs) ≡ String.◌∷◌ slash (join (x ∷ xs))
unfolding join
join-nil x xs = refl

join-single : (x : String) → join (x ∷ []) ≡ x
unfolding join
join-single x = refl

pub join-split : (s : String) → join (split s) ≡ s
unfolding split
join-split String.[] = join-single String.[]
join-split (String.◌∷◌ c s) =
    let ih = join-split s in
    elim (Bool-cases (is_slash c)) [
      | inl e ↦
          let (x, rest, cons) = split-cons s in
          let is : slash ≡ c = Char-path slash c (sym ((==_iff (code c) (code slash)).0 e)) in
          rw (e, cons)
            (join-nil x rest
              ∙ ap (λ t. String.◌∷◌ slash (join t)) (sym cons)
              ∙ ap (λ t. String.◌∷◌ slash t) ih
              ∙ ap (λ d. String.◌∷◌ d s) is)
      | inr e ↦ rw e (join-push c (split s) ∙ ap (λ t. String.◌∷◌ c t) ih)
    ]

abbrev pub has_slash : String → Bool
has_slash String.[] = false
has_slash (String.◌∷◌ c s) = is_slash c || has_slash s

abbrev pub NoSlash : String → Type 0
NoSlash s = has_slash s ≡ false

push-NoSlash :
    (c : Char) (xs : List String) → is_slash c ≡ false → All NoSlash xs → All NoSlash (push c xs)
push-NoSlash c [] e h = (rw e refl, tt)
push-NoSlash c (x ∷ xs) e h = (rw e h.0, h.1)

pub split-NoSlash : (s : String) → All NoSlash (split s)
unfolding split
split-NoSlash String.[] = (refl, tt)
split-NoSlash (String.◌∷◌ c s) = elim (Bool-cases (is_slash c)) [
  | inl e ↦ rw e (refl, split-NoSlash s)
  | inr e ↦ rw e (push-NoSlash c (split s) e (split-NoSlash s))
]

split-single : (x : String) → NoSlash x → split x ≡ x ∷ []
unfolding split
split-single String.[] h = refl
split-single (String.◌∷◌ c x) h =
    let ih = split-single x (ground arith) in
    let e : is_slash c ≡ false = ground arith in rw (e, ih) refl

split-extend : (x rest : String) → NoSlash x → split (extend x rest) ≡ x ∷ split rest
unfolding split extend
split-extend String.[] rest h = refl
split-extend (String.◌∷◌ c x) rest h =
    let ih = split-extend x rest (ground arith) in
    let e : is_slash c ≡ false = ground arith in rw (e, ih) refl

pub split-join :
    (x : String) (xs : List String) → All NoSlash (x ∷ xs) → split (join (x ∷ xs)) ≡ x ∷ xs
unfolding join
split-join x [] h = split-single x h.0
split-join x (y ∷ xs) h = split-extend x (join (y ∷ xs)) h.0 ∙ ap (λ t. x ∷ t) (split-join y xs h.1)
