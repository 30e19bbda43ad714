-- ===== src/FileSystem/Paths.antt =====
-- Paths, and when one is below another.
use text.Mathlib.TextPositions.{eq_refl}
use ckb_vm_sail_verify.Base.{
  String, str_eq, sym, ◌≡◌, ◌↔◌, refl, ap, true, false, none, some, [], ◌∷◌, ◌++◌, eq_iff, arith,
  Bool-cases, inl, inr,
}
use ckb_vm_sail_verify.FileSystem.{FilePath, strip, path_eq}

pub path_eq_iff : (p q : FilePath) → (path_eq p q ≡ true) ↔ (p ≡ q)
unfolding path_eq
path_eq_iff [] [] = (λ _. refl, λ _. refl)
path_eq_iff [] (y ∷ q) = (λ h. cc, λ h. cc)
path_eq_iff (x ∷ p) [] = (λ h. cc, λ h. cc)
path_eq_iff (x ∷ p) (y ∷ q) = ground (arith, eq_iff x y, path_eq_iff p q)

pub strip-append : (p r : FilePath) → strip p (p ++ r) ≡ some r
unfolding strip
strip-append [] r = refl
strip-append (x ∷ p) r = rw eq_refl (strip-append p r)

pub append-strip : (p k r : FilePath) → strip p k ≡ some r → p ++ r ≡ k
unfolding strip
append-strip [] k r h = cc
append-strip (x ∷ p) [] r h = cc
append-strip (x ∷ p) (y ∷ k) r h = ground (arith, eq_iff x y, append-strip p k r)

pub append-injective : (p r s : FilePath) → p ++ r ≡ p ++ s → r ≡ s
append-injective [] r s h = h
append-injective (x ∷ p) r s h = append-injective p r s (cc h)

-- Nothing at or below `q` is at or below `p`.
abbrev pub Outside : FilePath → FilePath → Type 0
Outside p q = (r : FilePath) → strip p (q ++ r) ≡ none

-- The two subtrees have no path in common.
pub record Apart (p q : FilePath) : Type 0 where
  pub outside : Outside p q
  pub outside' : Outside q p

pub Apart-symm : {p q : FilePath} → Apart p q → Apart q p
Apart-symm h = record { outside = h.outside'; outside' = h.outside }

pub path_eq-append : (p r s : FilePath) → path_eq (p ++ r) (p ++ s) ≡ path_eq r s
unfolding path_eq
path_eq-append [] r s = refl
path_eq-append (x ∷ p) r s = rw eq_refl (path_eq-append p r s)

-- A path outside a subtree is none of its paths.
pub path_eq-outside : (p j r : FilePath) → strip p j ≡ none → path_eq j (p ++ r) ≡ false
path_eq-outside p j r h = elim (Bool-cases (path_eq j (p ++ r))) [
  | inl same ↦
      let e : j ≡ p ++ r = (path_eq_iff j (p ++ r)).0 same in
      cc (ap (strip p) e, strip-append p r, h)
  | inr other ↦ other
]

strip-longer : (p s k : FilePath) → strip p k ≡ none → strip (p ++ s) k ≡ none
unfolding strip
strip-longer [] s k h = cc
strip-longer (x ∷ p) s [] h = refl
strip-longer (x ∷ p) s (y ∷ k) h = ground (arith, strip-longer p s k)

pub append_assoc : (p q r : FilePath) → p ++ q ++ r ≡ p ++ (q ++ r)
append_assoc [] q r = refl
append_assoc (x ∷ p) q r = ap (λ s. x ∷ s) (append_assoc p q r)

-- What lies in a subtree is as far apart as the subtree.
pub Apart-append : (p q s : FilePath) → Apart p q → Apart p (q ++ s)
Apart-append p q s h = record {
  outside = λ r. rw (append_assoc q s r) (h.outside (s ++ r));
  outside' = λ r. strip-longer q s (p ++ r) (h.outside' r);
}

sibling-Outside :
    (b : FilePath) (x y : String) → str_eq x y ≡ false → Outside (b ++ x ∷ []) (b ++ y ∷ [])
unfolding strip
sibling-Outside [] x y h r = rw h refl
sibling-Outside (z ∷ b) x y h r = rw eq_refl (sibling-Outside b x y h r)

-- Two names in one directory.
pub Apart-siblings :
    (b : FilePath) (x y : String)
    → str_eq x y ≡ false
    → str_eq y x ≡ false
    → Apart (b ++ x ∷ []) (b ++ y ∷ [])
Apart-siblings b x y h k = record {
  outside = sibling-Outside b x y h;
  outside' = sibling-Outside b y x k;
}

-- Neither of two paths is below the other: neither are the paths below them.
Outside-of : (p q : FilePath) → strip p q ≡ none → strip q p ≡ none → Outside p q
unfolding strip
Outside-of [] q h k r = absurd (cc h)
Outside-of (x ∷ p) [] h k r = absurd (cc k)
Outside-of (x ∷ p) (y ∷ q) h k r = elim (Bool-cases (str_eq x y)) [
  | inl e ↦
      let e' : str_eq y x ≡ true = (eq_iff y x).1 (sym ((eq_iff x y).0 e)) in
      rw e (Outside-of p q (rw e at h) (rw e' at k) r)
  | inr e ↦ rw e refl
]

pub Apart-of : (p q : FilePath) → strip p q ≡ none → strip q p ≡ none → Apart p q
Apart-of p q h k = record { outside = Outside-of p q h k; outside' = Outside-of q p k h }
