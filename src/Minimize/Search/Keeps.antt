-- ===== src/Minimize/Search/Keeps.antt =====
-- What every call of the evaluator keeps, the search keeps.
use ckb_vm_sail_verify.Base.{
  ℕ, zero, suc, ◌+◌, ◌-◌, Bool, Option, none, some, List, [], ◌∷◌, length,
}
use ckb_vm_sail_verify.Base.Exec.{Exec}
use ckb_vm_sail_verify.Base.Exec.Triple.{Keeps, Triple-bind, Keeps-pure, Triple-if}
use ckb_vm_sail_verify.Minimize.Search.{stop_or, try_each, try_sizes, shortest_subsequence}

module _ {S Obs : Type 0} (evaluate : List ℕ → Exec S Obs) (matches : Obs → Bool) (words : List ℕ)
    (P : S → Type 0) (step : (w : List ℕ) → Keeps P (evaluate w)) where
  try_each-Keeps : (combos : List (List ℕ)) → Keeps P (try_each evaluate matches words combos)
  unfolding try_each
  try_each-Keeps [] = Keeps-pure none
  try_each-Keeps (c ∷ rest) =
      Triple-bind (step _) λ o. Triple-if (matches o) (Keeps-pure (some c)) (try_each-Keeps rest)

  stop_or-Keeps :
      (found : Option (List ℕ)) (next : Exec S (Option (List ℕ)))
      → Keeps P next
      → Keeps P (stop_or found next)
  stop_or-Keeps none next h = h
  stop_or-Keeps (some i) next h = Keeps-pure (some i)

  try_sizes-Keeps : (size n : ℕ) → Keeps P (try_sizes evaluate matches words size n)
  unfolding try_sizes
  try_sizes-Keeps size zero = Keeps-pure none
  try_sizes-Keeps size (suc n) =
      Triple-bind (try_each-Keeps _) λ found. stop_or-Keeps found _ (try_sizes-Keeps (size + 1) n)

  pub shortest_subsequence-Keeps : Keeps P (shortest_subsequence evaluate matches words)
  unfolding shortest_subsequence
  shortest_subsequence-Keeps =
      Triple-bind (try_sizes-Keeps 1 (length words - 1)) λ found. Keeps-pure _
