-- ===== src/Disk/Kept.antt =====
-- What stands stays as it is: directories and files are only made where nothing stands.
use mathlib.Core.Path.{subst}
use ckb_vm_sail_verify.Base.{
  true, false, String, ℕ, ◌≡◌, refl, ap, sym, ◌∙◌, Bool, Option, none, some, List, [], ◌∷◌,
  Option-cases, Bool-cases, ◌⊎◌, inl, inr,
}
use ckb_vm_sail_verify.Base.Result.{Result, ok, err, Error, os_error, require}
use ckb_vm_sail_verify.Base.Exec.{
  Exec, pure, raise, lift, demand, continue, ◌>>=◌, ◌>>◌, >>=-eq-ok, demand-eq-ok,
}
use ckb_vm_sail_verify.FileSystem.{FilePath, path_eq}
use ckb_vm_sail_verify.FileSystem.Paths.{path_eq_iff}
use ckb_vm_sail_verify.Disk.{
  Node, created, file, directory, Disk, node_at, look, made, make_directory, make_all, ancestors,
  create, chmod, place,
}

-- Every node of the one disk is one of the other.
abbrev pub Extends : Disk → Disk → Type 0
Extends d e = (p : FilePath) (n : Node) → node_at p d ≡ some n → node_at p e ≡ some n

-- An action that leaves all that stands, whether it returns or raises.
pub record Grows {A : Type 0} (m : Exec Disk A) : Type 0 where
  pub at : (d : Disk) → Extends d (m d).1

Extends-refl : (d : Disk) → Extends d d
Extends-refl d p n h = h

-- An entry for a path where the first disk has nothing.
Extends-put :
    (d e : Disk) (p : FilePath) (n : Node)
    → node_at p d ≡ none
    → Extends d e
    → Extends d ((p, n) ∷ e)
unfolding node_at
Extends-put d e p n free kept q x h = elim (Bool-cases (path_eq p q)) [
  | inl same ↦ let same' : p ≡ q = (path_eq_iff p q).0 same in absurd (cc)
  | inr apart ↦ rw apart (kept q x h)
]

pub node_at-put : (d : Disk) (p : FilePath) (n : Node) → node_at p ((p, n) ∷ d) ≡ some n
unfolding node_at
node_at-put d p n = rw ((path_eq_iff p p).1 refl) refl

module _ {A : Type 0} where
  pub Grows-pure : (a : A) → Grows (pure {S = Disk} a)
  unfolding pure
  Grows-pure a = record { at = λ d p n h. h }

  pub Grows-raise : (e : Error) → Grows (raise {S = Disk} {A = A} e)
  unfolding raise
  Grows-raise e = record { at = λ d p n h. h }

  pub Grows-lift : (r : Result A) → Grows (lift {S = Disk} r)
  unfolding lift
  Grows-lift r = record { at = λ d p n h. h }

  pub Grows-look : (f : Disk → Result A) → Grows (look f)
  unfolding look
  Grows-look f = record { at = λ d p n h. h }

pub Grows-demand : (b : Bool) (message : String) → Grows (demand {S = Disk} b message)
unfolding demand
Grows-demand b message = record { at = λ d p n h. h }

module _ {A B : Type 0} where
  pub Grows-bind :
      {m : Exec Disk A} {f : A → Exec Disk B} → Grows m → ((a : A) → Grows (f a)) → Grows (m >>= f)
  unfolding ◌>>=◌
  Grows-bind {m} {f} hm hf = record { at = λ d p n h. go (m d).0 (m d).1 p n (hm.at d p n h) }
    where
      go :
          (r : Result A) (e : Disk) (p : FilePath) (n : Node)
          → node_at p e ≡ some n
          → node_at p (continue r f e).1 ≡ some n
      go (ok a) e p n h = (hf a).at e p n h
      go (err x) e p n h = h

pub Grows-make_directory : (p : FilePath) → Grows (make_directory p)
unfolding make_directory
Grows-make_directory p = record { at = λ d. by d (node_at p d) refl }
  where
    by : (d : Disk) (o : Option Node) → node_at p d ≡ o → Extends d (made p d o).1
    by d none e = Extends-put d d p directory e (Extends-refl d)
    by d (some directory) e = Extends-refl d
    by d (some n) e = Extends-refl d

pub Grows-make_all : (ps : List FilePath) → Grows (make_all ps)
unfolding make_all
Grows-make_all [] = Grows-pure tt
Grows-make_all (p ∷ ps) = Grows-bind (Grows-make_directory p) λ u. Grows-make_all ps

-- What creating a file and setting its mode comes to.
abbrev new_file : FilePath → List ℕ → ℕ → Exec Disk (Unit {0})
new_file p content mode = do create p content; chmod p mode

abbrev entered : FilePath → List ℕ → ℕ → Disk → Disk
entered p content mode d = (p, file content mode) ∷ (p, file content 0x1a4) ∷ d

new_file-free :
    (p : FilePath) (content : List ℕ) (mode : ℕ) (d : Disk)
    → node_at p d ≡ none
    → new_file p content mode d ≡ (ok tt, entered p content mode d)
unfolding create chmod ◌>>=◌
new_file-free p content mode d free = rw free (rw (node_at-put d p (file content 0x1a4)) refl)

new_file-taken :
    (p : FilePath) (content : List ℕ) (mode : ℕ) (d : Disk) (n : Node)
    → node_at p d ≡ some n
    → new_file p content mode d ≡ (err (os_error "file exists"), d)
unfolding create chmod ◌>>=◌
new_file-taken p content mode d n taken = rw taken refl

Grows-new_file : (p : FilePath) (content : List ℕ) (mode : ℕ) → Grows (new_file p content mode)
Grows-new_file p content mode = record { at = λ d. by d (Option-cases (node_at p d)) }
  where
    by :
        (d : Disk)
        → (node_at p d ≡ none) ⊎ ((n : Node) × (node_at p d ≡ some n))
        → Extends d (new_file p content mode d).1
    by d (inl free) =
        rw (new_file-free p content mode d free)
          (Extends-put d _ p _ free (Extends-put d d p _ free (Extends-refl d)))
    by d (inr (n, taken)) = rw (new_file-taken p content mode d n taken) (Extends-refl d)

Grows-create : (p : FilePath) (content : List ℕ) → Grows (create p content)
unfolding create
Grows-create p content = record { at = λ d. by d (node_at p d) refl }
  where
    by : (d : Disk) (o : Option Node) → node_at p d ≡ o → Extends d (created p content d o).1
    by d none e = Extends-put d d p (file content 0x1a4) e (Extends-refl d)
    by d (some n) e = Extends-refl d

-- A new file whose bytes are tested before its mode is set.
abbrev pub tested_file : FilePath → List ℕ → ℕ → Bool → String → Exec Disk (Unit {0})
tested_file p content mode passed message = do create p content; demand passed message; chmod p mode

tested_file-passed :
    (p : FilePath) (content : List ℕ) (mode : ℕ) (message : String)
    → tested_file p content mode true message ≡ new_file p content mode
unfolding ◌>>=◌ require
tested_file-passed p content mode message = refl

Grows-failed : {A : Type 0} (message : String) (k : Exec Disk A) → Grows (demand false message >> k)
unfolding ◌>>=◌ require
Grows-failed message k = record { at = λ d p n h. h }

pub Grows-tested_file :
    (p : FilePath) (content : List ℕ) (mode : ℕ) (passed : Bool) (message : String)
    → Grows (tested_file p content mode passed message)
Grows-tested_file p content mode true message =
    rw (tested_file-passed p content mode message) (Grows-new_file p content mode)
Grows-tested_file p content mode false message =
    Grows-bind (Grows-create p content) λ _. Grows-failed message (chmod p mode)

pub Grows-place : (p : FilePath) (content : List ℕ) (mode : ℕ) → Grows (place p content mode)
unfolding place
Grows-place p content mode =
    Grows-bind (Grows-make_all (ancestors p)) λ u. Grows-new_file p content mode

new_file-node :
    (p : FilePath) (content : List ℕ) (mode : ℕ) (m e : Disk) (u : Unit {0})
    → new_file p content mode m ≡ (ok u, e)
    → node_at p e ≡ some (file content mode)
new_file-node p content mode m e u h = by (Option-cases (node_at p m))
  where
    by :
        (node_at p m ≡ none) ⊎ ((n : Node) × (node_at p m ≡ some n))
        → node_at p e ≡ some (file content mode)
    by (inl free) =
        let same : entered p content mode m ≡ e =
          ap (λ r. r.1) (sym (new_file-free p content mode m free) ∙ h) in
        rw (← same) (node_at-put _ p (file content mode))
    by (inr (n, taken)) = absurd (cc (new_file-taken p content mode m n taken, h))

-- A file that was placed stands with its bytes and its mode.
pub place-node :
    (p : FilePath) (content : List ℕ) (mode : ℕ) (d e : Disk) (u : Unit {0})
    → place p content mode d ≡ (ok u, e)
    → node_at p e ≡ some (file content mode)
unfolding place
place-node p content mode d e u h =
    let (_, m, _, rest) = >>=-eq-ok (make_all (ancestors p)) _ d h in
    new_file-node p content mode m e u rest

-- So does a file whose bytes were tested, and they passed the test.
pub tested_file-node :
    (p : FilePath) (content : List ℕ) (mode : ℕ) (passed : Bool) (message : String) (d e : Disk)
    (u : Unit {0})
    → tested_file p content mode passed message d ≡ (ok u, e)
    → (passed ≡ true) × (node_at p e ≡ some (file content mode))
tested_file-node p content mode passed message d e u h =
    let (_, f, _, rest) = >>=-eq-ok (create p content) _ d h in
    let (yes_passed, _) = demand-eq-ok passed message (chmod p mode) f rest in
    (
      yes_passed,
      new_file-node p content mode d e u (
          ap (λ m. m d) (sym (tested_file-passed p content mode message))
          ∙ subst (λ b. tested_file p content mode b message d ≡ (ok u, e)) yes_passed h),
    )

pub look-eq-ok :
    {A B : Type 0} (l : Disk → Result A) (f : A → Exec Disk B) (d : Disk) {b : B} {e : Disk}
    → (look l >>= f) d ≡ (ok b, e)
    → (a : A) × (l d ≡ ok a) × (f a d ≡ (ok b, e))
unfolding look ◌>>=◌
look-eq-ok {A} {B} l f d {b} {e} h = by (l d) refl h
  where
    by :
        (r : Result A)
        → l d ≡ r
        → continue r f d ≡ (ok b, e)
        → (a : A) × (l d ≡ ok a) × (f a d ≡ (ok b, e))
    by (ok a) same k = (a, same, k)
    by (err x) same k = cc
