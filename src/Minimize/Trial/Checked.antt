-- ===== src/Minimize/Trial/Checked.antt =====
-- What a replay that passes `check_trial` shows.
use ckb_vm_sail_verify.Base.{
  ℕ, ◌≡◌, refl, ap, ◌∙◌, Bool, true, false, List, [], ◌∷◌, Option, ◌==◌, ==_iff, ℤ, pos, negsuc,
  int_eq, &&-eq-true, if◌then◌else◌,
}
use ckb_vm_sail_verify.Base.Result.{ok}
use ckb_vm_sail_verify.Base.Result.Returns.{
  Returns, Returns-ok, Returns-bind, Returns-require, Returns-self, require-eq-true,
}
use ckb_vm_sail_verify.Base.Json.{Value}
use ckb_vm_sail_verify.Minimize.Artifact.{Signature, is_passed, program, signature}
use ckb_vm_sail_verify.Minimize.Trial.{words_eq, check_mode, check_trial, flag}

pub words_eq-≡ : (as' bs : List ℕ) → words_eq as' bs ≡ true → as' ≡ bs
unfolding words_eq
words_eq-≡ [] [] h = refl
words_eq-≡ [] (b ∷ bs) h = cc
words_eq-≡ (a ∷ as') [] h = cc
words_eq-≡ (a ∷ as') (b ∷ bs) h =
    let (first, rest) = &&-eq-true (a == b) (words_eq as' bs) h in
    cc ((==_iff a b).0 first, words_eq-≡ as' bs rest)

int_eq-≡ : (a b : ℤ) → int_eq a b ≡ true → a ≡ b
int_eq-≡ (pos a) (pos b) h = ap pos ((==_iff a b).0 h)
int_eq-≡ (negsuc a) (negsuc b) h = ap negsuc ((==_iff a b).0 h)
int_eq-≡ (pos a) (negsuc b) h = cc
int_eq-≡ (negsuc a) (pos b) h = cc

check_mode-program :
    (envelope artifact : Value) (words : List ℕ)
    → Returns (λ _. program artifact ≡ ok words) (check_mode envelope artifact words)
unfolding check_mode
check_mode-program envelope artifact words = Returns-bind λ mode _. Returns-require _ λ _.
    Returns-bind λ results _. Returns-bind λ count _. Returns-require _ λ _. Returns-bind λ found e.
      Returns-self _ (λ _ same. e ∙ ap ok (words_eq-≡ found words (require-eq-true _ _ _ same)))

flag_lem : (b : Bool) → flag b ≡ pos (if b then 0 else 1)
flag_lem true = refl
flag_lem false = refl

-- A replay that is accepted with an outcome replayed exactly the words that were asked for; the
-- outcome is the signature of its artifact, and the exit code is 0 if it is a match and 1 if not.
pub check_trial_sound :
    (envelope artifact : Value) (exit_code : ℤ) (words : List ℕ) (o : Option Signature)
    → check_trial envelope artifact exit_code words ≡ ok o
    → (program artifact ≡ ok words)
      × (signature artifact ≡ ok o)
      × (exit_code ≡ pos (if is_passed o then 0 else 1))
unfolding check_trial
check_trial_sound envelope artifact exit_code words o h = (proof.at o h)
  where
    proof :
        Returns
          (λ o.
            (program artifact ≡ ok words)
            × (signature artifact ≡ ok o)
            × (exit_code ≡ pos (if is_passed o then 0 else 1)))
          (check_trial envelope artifact exit_code words)
    proof = Returns-require _ λ _. Returns-bind λ _ mode. Returns-bind λ _ result.
        Returns-bind λ observed seen. Returns-bind λ summary _. Returns-require _ λ _.
          Returns-require _ λ code. Returns-ok observed (
            (check_mode-program envelope artifact words).at _ mode,
            seen,
            int_eq-≡ exit_code _ code ∙ flag_lem (is_passed observed),
          )
