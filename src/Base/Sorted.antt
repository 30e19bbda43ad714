-- ===== src/Base/Sorted.antt =====
-- Python's `sorted` of a list of texts, and that it only moves them.
use Prim.Native.Char.{code}
use Prim.Native.String.{String}
use mathlib.Core.Path.{◌≡◌, subst, sym}
use mathlib.Core.Bool.{Bool, true, false, ◌&&◌, ◌||◌}
use mathlib.Core.List.{List, [], ◌∷◌, Perm}
use mathlib.Core.List.Perm
use ckb_vm_sail_verify.Base.Tests.{ltb, ◌==◌, if◌then◌else◌}

-- The `<=` of texts, by code points.
unfoldable pub text_leb : String → String → Bool
text_leb String.[] t = true
text_leb (String.◌∷◌ c s) String.[] = false
text_leb (String.◌∷◌ c s) (String.◌∷◌ d t) =
    ltb (code c) (code d) || code c == code d && text_leb s t

unfoldable pub insert : String → List String → List String
unfolding text_leb
insert x [] = x ∷ []
insert x (y ∷ ys) = if text_leb x y then x ∷ y ∷ ys else y ∷ insert x ys

unfoldable pub sorted : List String → List String
unfolding insert
sorted [] = []
sorted (x ∷ xs) = insert x (sorted xs)

insert-Perm : (x : String) (ys : List String) → Perm (x ∷ ys) (insert x ys)
unfolding insert
insert-Perm x [] = Perm.rfl
insert-Perm x (y ∷ ys) =
    by (text_leb x y) (Perm.trans (Perm.swap y x ys) (Perm.cons y (insert-Perm x ys)))
  where
    by :
        (b : Bool)
        → Perm (x ∷ y ∷ ys) (y ∷ insert x ys)
        → Perm (x ∷ y ∷ ys) (if b then x ∷ y ∷ ys else y ∷ insert x ys)
    by true p = Perm.rfl
    by false p = p

sorted-Perm : (xs : List String) → Perm xs (sorted xs)
unfolding sorted
sorted-Perm [] = Perm.rfl
sorted-Perm (x ∷ xs) = Perm.trans (Perm.cons x (sorted-Perm xs)) (insert-Perm x (sorted xs))

-- Two lists that sort alike have the same texts, in some order.
pub sorted-eq-Perm : (xs ys : List String) → sorted xs ≡ sorted ys → Perm xs ys
sorted-eq-Perm xs ys e =
    Perm.trans (sorted-Perm xs) (subst (λ zs. Perm zs ys) (sym e) (Perm.symm (sorted-Perm ys)))
