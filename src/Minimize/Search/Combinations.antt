-- ===== src/Minimize/Search/Combinations.antt =====
-- The index lists that the search goes through are the order-preserving subsequences, each of
-- them once its size has come.
use ckb_vm_sail_verify.Base.{
  ℕ, zero, suc, ◌+◌, ◌≡◌, refl, ap, List, [], ◌∷◌, length, get_or, In, here, there, In-append_left,
  In-append_right, In-append-cases, In-map, In-map-inv, inl, inr, arith,
}
use ckb_vm_sail_verify.Minimize.Search.{range_from, combinations, pick}

-- `Subseq ys xs`: ys is xs with some elements left out.
pub data Subseq : List ℕ → List ℕ → Type 0 where
  done : Subseq [] []
  skip : {ys xs : List ℕ} (x : ℕ) → Subseq ys xs → Subseq ys (x ∷ xs)
  keep : {ys xs : List ℕ} (x : ℕ) → Subseq ys xs → Subseq (x ∷ ys) (x ∷ xs)

-- The places in `xs` that are kept, counted from `i`.
pub positions : {ys xs : List ℕ} → Subseq ys xs → ℕ → List ℕ
positions done i = []
positions (skip x s) i = positions s (i + 1)
positions (keep x s) i = i ∷ positions s (i + 1)

positions-nil : {xs : List ℕ} (s : Subseq [] xs) (i : ℕ) → positions s i ≡ []
unfolding positions
positions-nil done i = refl
positions-nil (skip x s) i = positions-nil s (i + 1)

pub positions-In :
    {ys xs : List ℕ} (s : Subseq ys xs) (i : ℕ)
    → In (positions s i) (combinations (length ys) (range_from i (length xs)))
unfolding positions combinations range_from
positions-In done i = here
positions-In (skip {ys = []} x s) i = rw (positions-nil s (i + 1)) here
positions-In (skip {ys = y ∷ ys} x s) i = In-append_right _ (positions-In s (i + 1))
positions-In (keep x s) i = In-append_left _ (In-map (λ c. i ∷ c) (positions-In s (i + 1)))

-- `words` from place `i` on reads as `xs`.
abbrev pub ReadsAt : List ℕ → ℕ → List ℕ → Type 0
ReadsAt words i xs = (j : ℕ) → get_or words (i + j) 0 ≡ get_or xs j 0

ReadsAt-tail :
    (words : List ℕ) (i x : ℕ) (xs : List ℕ) → ReadsAt words i (x ∷ xs) → ReadsAt words (i + 1) xs
ReadsAt-tail words i x xs h j = let e : i + 1 + j ≡ i + suc j = omega arith in rw e (h (suc j))

ReadsAt-head :
    (words : List ℕ) (i x : ℕ) (xs : List ℕ) → ReadsAt words i (x ∷ xs) → get_or words i 0 ≡ x
ReadsAt-head words i x xs h = let e : i + 0 ≡ i = omega arith in rw e at (h 0)

pub ReadsAt-all : (words : List ℕ) → ReadsAt words 0 words
ReadsAt-all words j = ap (λ k. get_or words k 0) (omega arith)

pub pick-positions :
    {ys xs : List ℕ} (words : List ℕ) (s : Subseq ys xs) (i : ℕ)
    → ReadsAt words i xs
    → pick words (positions s i) ≡ ys
unfolding positions pick
pick-positions words done i h = refl
pick-positions words (skip {xs = xs} x s) i h =
    pick-positions words s (i + 1) (ReadsAt-tail words i x xs h)
pick-positions words (keep {xs = xs} x s) i h =
    cc (ReadsAt-head words i x xs h, pick-positions words s (i + 1) (ReadsAt-tail words i x xs h))

-- What `combinations` lists picks a subsequence of its size.
pub record IsPick (words xs : List ℕ) (size : ℕ) (indices : List ℕ) : Type 0 where
  pub is_subseq : Subseq (pick words indices) xs
  pub has_size : length indices ≡ size

pub Subseq-nil : (xs : List ℕ) → Subseq [] xs
Subseq-nil [] = done
Subseq-nil (x ∷ xs) = skip x (Subseq-nil xs)

pub combinations-IsPick :
    (words xs : List ℕ) (size i : ℕ) (indices : List ℕ)
    → ReadsAt words i xs
    → In indices (combinations size (range_from i (length xs)))
    → IsPick words xs size indices
unfolding combinations range_from pick
combinations-IsPick words xs zero i indices h here = record {
  is_subseq = Subseq-nil xs;
  has_size = refl;
}
combinations-IsPick words xs zero i indices h (there m) = elim m [ ]
combinations-IsPick words [] (suc k) i indices h m = elim m [ ]
combinations-IsPick words (x ∷ xs) (suc k) i indices h m = elim (In-append-cases _ _ m) [
  | inl l ↦
      let (c, mc, e) = In-map-inv (λ c. i ∷ c) _ l in
      let p = combinations-IsPick words xs k (i + 1) c (ReadsAt-tail words i x xs h) mc in
      rw (← e) (record {
        is_subseq = rw (ReadsAt-head words i x xs h) (keep x p.is_subseq);
        has_size = ap suc p.has_size;
      })
  | inr r ↦
      let p =
        combinations-IsPick words xs (suc k) (i + 1) indices (ReadsAt-tail words i x xs h) r in
      record { is_subseq = skip x p.is_subseq; has_size = p.has_size }
]

pub Subseq-refl : (xs : List ℕ) → Subseq xs xs
Subseq-refl [] = done
Subseq-refl (x ∷ xs) = keep x (Subseq-refl xs)

pub length-pick : (words indices : List ℕ) → length (pick words indices) ≡ length indices
unfolding pick
length-pick words [] = refl
length-pick words (i ∷ rest) = ap suc (length-pick words rest)

pub pick-range_from :
    (words xs : List ℕ) (i : ℕ) → ReadsAt words i xs → pick words (range_from i (length xs)) ≡ xs
unfolding pick range_from
pick-range_from words [] i h = refl
pick-range_from words (x ∷ xs) i h =
    cc (ReadsAt-head words i x xs h, pick-range_from words xs (i + 1) (ReadsAt-tail words i x xs h))
