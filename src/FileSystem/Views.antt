-- ===== src/FileSystem/Views.antt =====
-- What renaming and copying leave of the subtrees: each reads as before, or as another did.
use mathlib.Core.Path.{subst}
use ckb_vm_sail_verify.Base.{
  ◌≡◌, refl, ap, sym, ◌∙◌, true, false, Option, none, some, [], ◌∷◌, ◌++◌, inl, inr, ◌⊎◌,
  Bool-cases,
}
use ckb_vm_sail_verify.Base.Result.{ok, err, os_error}
use ckb_vm_sail_verify.FileSystem.{
  FilePath, Entry, file, directory, special, link, Tree, lookup, occupied, move, rename, copytree,
  exists, is_symlink, stands, links,
}
use ckb_vm_sail_verify.FileSystem.Paths.{Apart}
use ckb_vm_sail_verify.FileSystem.Laws.{
  lookup-none, lookup-move_target, lookup-move_source, lookup-move_other, occupied-lookup,
  occupied-same, lookup-copies_other,
}

-- The subtree at `p` of `t` reads as the one at `q` of `u`.
abbrev pub ReadsAs : FilePath → Tree → FilePath → Tree → Type 0
ReadsAs p t q u = (r : FilePath) → lookup (p ++ r) t ≡ lookup (q ++ r) u

pub ReadsAs-free :
    (p q : FilePath) (t u : Tree) → ReadsAs p t q u → occupied q u ≡ false → occupied p t ≡ false
ReadsAs-free p q t u h free = occupied-same p q t u h ∙ free

pub occupied-none :
    (p : FilePath) (t : Tree) → ((r : FilePath) → lookup (p ++ r) t ≡ none) → occupied p t ≡ false
occupied-none p t h = elim (Bool-cases (occupied p t)) [
  | inl x ↦ let (r, found) = occupied-lookup p t x in absurd (found (h r))
  | inr x ↦ x
]

pub free-ReadsAs :
    (p q : FilePath) (t u : Tree) → occupied p t ≡ false → occupied q u ≡ false → ReadsAs p t q u
free-ReadsAs p q t u h k r = lookup-none p r t h ∙ sym (lookup-none q r u k)

pub move-keeps : (p q b : FilePath) (t : Tree) → Apart p b → Apart q b → ReadsAs b (move p q t) b t
move-keeps p q b t hp hq r = lookup-move_other p q (b ++ r) t (hp.outside r) (hq.outside r)

pub move-free : (p q : FilePath) (t : Tree) → Apart p q → occupied p (move p q t) ≡ false
move-free p q t h = occupied-none p _ (λ r. lookup-move_source p q r t h.outside)

pub move-ReadsAs : (p q : FilePath) (t : Tree) → occupied q t ≡ false → ReadsAs q (move p q t) p t
move-ReadsAs p q t free r = lookup-move_target p q r t free

pub copytree-keeps : (p q b : FilePath) (t : Tree) → Apart q b → ReadsAs b (copytree p q t).1 b t
unfolding copytree
copytree-keeps p q b t h r = elim (Bool-cases (occupied q t)) [
  | inl x ↦ rw x refl
  | inr x ↦ rw x (lookup-copies_other p q (b ++ r) t t (h.outside r))
]

-- A rename to a free name moves, or fails without a change.
pub rename-eq_move :
    (p q : FilePath) (t : Tree)
    → occupied p t ≡ true
    → occupied q t ≡ false
    → rename p q t ≡ (ok tt, move p q t)
unfolding rename
rename-eq_move p q t here free = rw (here, free) refl

pub rename-cases :
    (p q : FilePath) (t : Tree)
    → occupied q t ≡ false
    → (rename p q t ≡ (ok tt, move p q t)) ⊎ (rename p q t ≡ (err (os_error "no such file"), t))
unfolding rename
rename-cases p q t free = elim (Bool-cases (occupied p t)) [
  | inl x ↦ inl (rw (x, free) refl)
  | inr x ↦ inr (rw x refl)
]

pub append-nil : (p : FilePath) → p ++ [] ≡ p
append-nil [] = refl
append-nil (x ∷ p) = ap (λ q. x ∷ q) (append-nil p)

lookup-at : (p : FilePath) (t : Tree) → occupied p t ≡ false → lookup p t ≡ none
lookup-at p t h = subst (λ q. lookup q t ≡ none) (append-nil p) (lookup-none p [] t h)

pub free-exists : (p : FilePath) (t : Tree) → occupied p t ≡ false → exists p t ≡ false
free-exists p t h = rw (lookup-at p t h) h

pub free-is_symlink : (p : FilePath) (t : Tree) → occupied p t ≡ false → is_symlink p t ≡ false
free-is_symlink p t h = rw (lookup-at p t h) refl

-- What neither exists nor is a link is free.
pub free-of :
    (p : FilePath) (t : Tree) → exists p t ≡ false → is_symlink p t ≡ false → occupied p t ≡ false
free-of p t h k = by_entry (lookup p t) h k
  where
    by_entry :
        (o : Option Entry)
        → stands o (occupied p t) ≡ false
        → links o ≡ false
        → occupied p t ≡ false
    by_entry none h k = h
    by_entry (some (file _ _)) h k = h
    by_entry (some directory) h k = h
    by_entry (some special) h k = h
    by_entry (some (link _)) h k = cc

pub occupied-of : (p : FilePath) (t : Tree) → exists p t ≡ true → occupied p t ≡ true
occupied-of p t h = elim (Bool-cases (occupied p t)) [
  | inl x ↦ x
  | inr x ↦ absurd (cc (h, free-exists p t x))
]

-- A name whose subtree reads as before is a link only if it was one.
pub ReadsAs-is_symlink :
    (p : FilePath) (t u : Tree) → ReadsAs p t p u → is_symlink p u ≡ false → is_symlink p t ≡ false
ReadsAs-is_symlink p t u h e =
    let same = subst (λ q. lookup q t ≡ lookup q u) (append-nil p) (h []) in rw same e
