-- ===== src/Minimize/Search.antt =====
-- `shortest_subsequence` of scripts/minimize_mismatch.py, over any evaluator that keeps a state
-- and may raise.
pub mod Combinations
pub mod Attempts
pub mod Shortest
pub mod Keeps
use ckb_vm_sail_verify.Base.{
  ℕ, zero, suc, ◌+◌, ◌-◌, Bool, Option, none, some, List, [], ◌∷◌, ◌++◌, map, length, get_or,
  if◌then◌else◌,
}
use ckb_vm_sail_verify.Base.Exec.{Exec, ◌>>=◌, pure}

-- range(i, i + n)
unfoldable pub range_from : ℕ → ℕ → List ℕ
range_from i zero = []
range_from i (suc n) = i ∷ range_from (i + 1) n

-- itertools.combinations(xs, size), in its order
unfoldable pub combinations : {A : Type 0} → ℕ → List A → List (List A)
combinations zero xs = [] ∷ []
combinations (suc k) [] = []
combinations (suc k) (x ∷ xs) = map (λ c. x ∷ c) (combinations k xs) ++ combinations (suc k) xs

-- [words[i] for i in indices]; the indices come from `range(len(words))`
unfoldable pub pick : List ℕ → List ℕ → List ℕ
pick words [] = []
pick words (i ∷ rest) = get_or words i 0 ∷ pick words rest

-- The outer loop goes on where the inner one did not return.
abbrev pub stop_or :
    {S : Type 0} → Option (List ℕ) → Exec S (Option (List ℕ)) → Exec S (Option (List ℕ))
stop_or (some indices) next = pure (some indices)
stop_or none next = next

module _ {S Obs : Type 0} (evaluate : List ℕ → Exec S Obs) (matches : Obs → Bool)
    (words : List ℕ) where
  -- the inner loop; `some indices` is its `return`
  unfoldable pub try_each : List (List ℕ) → Exec S (Option (List ℕ))
  try_each [] = pure none
  try_each (indices ∷ rest) = do
    observed ← evaluate (pick words indices)
    if matches observed then pure (some indices) else try_each rest

  -- the outer loop, `n` rounds from `size` on
  unfoldable pub try_sizes : ℕ → ℕ → Exec S (Option (List ℕ))
  try_sizes size zero = pure none
  try_sizes size (suc n) = do
    found ← try_each (combinations size (range_from 0 (length words)))
    stop_or found (try_sizes (size + 1) n)

  abbrev outcome : Option (List ℕ) → List ℕ × List ℕ
  outcome none = (words, range_from 0 (length words))
  outcome (some indices) = (pick words indices, indices)

  unfoldable pub shortest_subsequence : Exec S (List ℕ × List ℕ)
  shortest_subsequence = do found ← try_sizes 1 (length words - 1); pure (outcome found)
