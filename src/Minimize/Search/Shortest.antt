-- ===== src/Minimize/Search/Shortest.antt =====
-- What a returned result of the search rests on: an answer of the evaluator for each smaller
-- subsequence, kept in the state.
use mathlib.Core.Path.{subst}
use ckb_vm_sail_verify.Base.{
  ℕ, zero, suc, ◌+◌, ◌-◌, ◌<◌, ◌≤◌, ◌≡◌, ap, sym, Bool, true, false, Option, none, some, List,
  length, In, inl, inr, ◌⊎◌, Option-cases, arith,
}
use native.Mathlib.Decide.{dec_lt}
use ckb_vm_sail_verify.Base.Result.{ok}
use ckb_vm_sail_verify.Base.Exec.{Exec, ◌>>=◌, >>=-eq-ok}
use ckb_vm_sail_verify.Minimize.Search.{
  range_from, combinations, pick, try_each, try_sizes, shortest_subsequence,
}
use ckb_vm_sail_verify.Minimize.Search.Combinations.{
  Subseq, positions, positions-In, ReadsAt-all, pick-positions, pick-range_from, length-pick,
  Subseq-refl, combinations-IsPick,
}
use ckb_vm_sail_verify.Minimize.Search.Attempts.{
  IsRecording, Settled, evaluate-kept, try_each-kept, try_each-none, try_each-some,
}

module _ {S Obs : Type 0} (evaluate : List ℕ → Exec S Obs) (Known : S → List ℕ → Obs → Type 0)
    (recording : IsRecording evaluate Known) (matches : Obs → Bool) (words : List ℕ) where
  -- Every subsequence of a size from `low` up to `high`, without it, was tried and refused.
  abbrev Covered : S → ℕ → ℕ → Type 0
  Covered t low high =
      (k : ℕ)
      → low ≤ k
      → k < high
      → (indices : List ℕ) → In indices (combinations k (range_from 0 (length words)))
      → Settled Known matches t (pick words indices) false

  try_sizes-kept :
      (size n : ℕ) (s t : S) (r : Option (List ℕ)) (v : List ℕ) (p : Obs)
      → try_sizes evaluate matches words size n s ≡ (ok r, t)
      → Known s v p
      → Known t v p
  unfolding try_sizes ◌>>=◌
  try_sizes-kept size zero s t r v p h k = subst (λ u. Known u v p) (ap (λ q. q.1) h) k
  try_sizes-kept size (suc n) s t r v p h k =
      let combos = combinations size (range_from 0 (length words)) in
      let (found, u, e, g) = >>=-eq-ok (try_each evaluate matches words combos) _ s h in
      let k' = try_each-kept evaluate Known recording matches words combos s u found v p e k in
      elim (Option-cases found) [
        | inl x ↦ try_sizes-kept (size + 1) n u t r v p (rw x at g) k'
        | inr (i, x) ↦ subst (λ u. Known u v p) (ap (λ q. q.1) (rw x at g)) k'
      ]

  Covered-kept :
      (s t : S) (low high : ℕ)
      → ((v : List ℕ) (p : Obs) → Known s v p → Known t v p)
      → Covered s low high
      → Covered t low high
  Covered-kept s t low high keep c k l h indices m =
      let (o, known, refused) = c k l h indices m in (o, keep _ o known, refused)

  -- One more size.
  Covered-suc :
      (t : S) (low : ℕ)
      → ((indices : List ℕ)
          → In indices (combinations low (range_from 0 (length words)))
          → Settled Known matches t (pick words indices) false)
      → (high : ℕ) → Covered t (low + 1) high
      → Covered t low high
  Covered-suc t low first high rest k l h indices m = elim (dec_lt low k) [
    | yes p ↦ rest k (omega arith) h indices m
    | no q ↦
        let same : k ≡ low = omega arith in
        first indices
          (subst (λ j. In indices (combinations j (range_from 0 (length words)))) same m)
  ]

  try_sizes-none :
      (size n : ℕ) (s t : S)
      → try_sizes evaluate matches words size n s ≡ (ok none, t)
      → Covered t size (size + n)
  unfolding try_sizes ◌>>=◌
  try_sizes-none size zero s t h = λ k l b. absurd (omega arith)
  try_sizes-none size (suc n) s t h =
      let combos = combinations size (range_from 0 (length words)) in
      let (found, u, e, g) = >>=-eq-ok (try_each evaluate matches words combos) _ s h in
      elim (Option-cases found) [
        | inl x ↦
            let g' = rw x at g in
            let ends : size + 1 + n ≡ size + suc n = omega arith in
            let none_here =
              try_each-none evaluate Known recording matches words combos s u (rw x at e) in
            Covered-suc t size
              (λ indices m.
                let (o, known, refused) = none_here indices m in
                (o, try_sizes-kept (size + 1) n u t none _ o g' known, refused))
              (size + suc n)
              (subst (Covered t (size + 1)) ends (try_sizes-none (size + 1) n u t g'))
        | inr (i, x) ↦ cc (rw x at g)
      ]

  -- The search stopped at a size below which everything was refused.
  pub record StopsAt (t : S) (low : ℕ) (indices : List ℕ) : Type 0 where
    pub size : ℕ
    pub low-le-size : low ≤ size
    pub listed : In indices (combinations size (range_from 0 (length words)))
    pub confirmed : Settled Known matches t (pick words indices) true
    pub below : Covered t low size

  try_sizes-some :
      (size n : ℕ) (s t : S) (indices : List ℕ)
      → try_sizes evaluate matches words size n s ≡ (ok (some indices), t)
      → StopsAt t size indices
  unfolding try_sizes ◌>>=◌
  try_sizes-some size zero s t indices h = cc
  try_sizes-some size (suc n) s t indices h =
      let combos = combinations size (range_from 0 (length words)) in
      let (found, u, e, g) = >>=-eq-ok (try_each evaluate matches words combos) _ s h in
      elim (Option-cases found) [
        | inl x ↦
            let g' = rw x at g in
            let none_here =
              try_each-none evaluate Known recording matches words combos s u (rw x at e) in
            let later = try_sizes-some (size + 1) n u t indices g' in
            record {
              size = later.size;
              low-le-size = let l = later.low-le-size in omega arith;
              listed = later.listed;
              confirmed = later.confirmed;
              below =
                  Covered-suc t size
                    (λ i m.
                      let (o, known, refused) = none_here i m in
                      (o, try_sizes-kept (size + 1) n u t (some indices) _ o g' known, refused))
                    later.size later.below;
            }
        | inr (i, x) ↦
            let g' = rw x at g in
            let same : i ≡ indices = cc in
            let ends : u ≡ t = cc in
            let found_here =
              try_each-some evaluate Known recording matches words combos s t indices
                (rw (e, x, same, ends)) in
            record {
              size = size;
              low-le-size = omega arith;
              listed = found_here.0;
              confirmed = found_here.1;
              below = λ k l b. absurd (omega arith);
            }
      ]

  -- What a returned candidate is worth, at the state that the search leaves.
  pub record IsShortest (t : S) (candidate indices : List ℕ) : Type 0 where
    pub picked : candidate ≡ pick words indices
    pub is_subseq : Subseq candidate words
    pub smaller_refused :
        (ys : List ℕ)
        → Subseq ys words
        → 0 < length ys
        → length ys < length candidate
        → Settled Known matches t ys false
    pub shown : (candidate ≡ words) ⊎ Settled Known matches t candidate true

  Covered-Subseq :
      (t : S) (high : ℕ)
      → Covered t 1 high
      → (ys : List ℕ) → Subseq ys words
      → 0 < length ys
      → length ys < high
      → Settled Known matches t ys false
  Covered-Subseq t high c ys sub l h =
      subst (λ v. Settled Known matches t v false) (pick-positions words sub 0 (ReadsAt-all words))
        (c (length ys) (omega arith) h (positions sub 0) (positions-In sub 0))

  -- A run of the search that returns has found a subsequence of the words for which every smaller
  -- nonempty subsequence is on record with an answer that differs from the expected one; the
  -- candidate itself is on record with the expected answer, unless it is the whole input.
  pub shortest_subsequence-IsShortest :
      (s t : S) (candidate indices : List ℕ)
      → shortest_subsequence evaluate matches words s ≡ (ok (candidate, indices), t)
      → IsShortest t candidate indices
  unfolding shortest_subsequence ◌>>=◌
  shortest_subsequence-IsShortest s t candidate indices h =
      let (found, u, e, g) =
        >>=-eq-ok (try_sizes evaluate matches words 1 (length words - 1)) _ s h in
      elim (Option-cases found) [
        | inl x ↦
            let g' = rw x at g in
            let whole : words ≡ candidate = cc in
            let places : range_from 0 (length words) ≡ indices = cc in
            let ends : u ≡ t = cc in
            let covered = try_sizes-none 1 (length words - 1) s t (rw (e, x, ends)) in
            record {
              picked =
                  rw (← whole, ← places) (sym (pick-range_from words words 0 (ReadsAt-all words)));
              is_subseq = rw (← whole) (Subseq-refl words);
              smaller_refused = λ ys sub l b.
                  Covered-Subseq t _ covered ys sub l (let b' = rw (← whole) at b in omega arith);
              shown = inl (sym whole);
            }
        | inr (i, x) ↦
            let g' = rw x at g in
            let same : i ≡ indices = cc in
            let chosen : pick words indices ≡ candidate = cc in
            let ends : u ≡ t = cc in
            let stop = try_sizes-some 1 (length words - 1) s t indices (rw (e, x, same, ends)) in
            let p =
              combinations-IsPick words words stop.size 0 indices (ReadsAt-all words) stop.listed in
            record {
              picked = sym chosen;
              is_subseq = rw (← chosen) p.is_subseq;
              smaller_refused = λ ys sub l b. Covered-Subseq t stop.size stop.below ys sub l (
                  let b' = rw (← chosen) at b in
                  omega (arith, length-pick words indices, p.has_size));
              shown = inr (rw (← chosen) stop.confirmed);
            }
      ]

  IsShortest-kept :
      (s t : S) (candidate indices : List ℕ)
      → ((v : List ℕ) (p : Obs) → Known s v p → Known t v p)
      → IsShortest s candidate indices
      → IsShortest t candidate indices
  IsShortest-kept s t candidate indices keep h = record {
    picked = h.picked;
    is_subseq = h.is_subseq;
    smaller_refused =
        λ ys sub l b. let (o, known, v) = h.smaller_refused ys sub l b in (o, keep ys o known, v);
    shown = elim h.shown [ inl e ↦ inl e | inr (o, known, v) ↦ inr (o, keep candidate o known, v) ];
  }

  -- A further call of the evaluator adds its answer and leaves the rest on record.
  pub evaluate-IsShortest :
      (v : List ℕ) (s t : S) (o : Obs) (candidate indices : List ℕ)
      → evaluate v s ≡ (ok o, t)
      → IsShortest s candidate indices
      → IsShortest t candidate indices × Known t v o
  evaluate-IsShortest v s t o candidate indices e h = (
    IsShortest-kept s t candidate indices
        (λ w p k. evaluate-kept evaluate Known recording matches words v s t (ok o) w p e k) h,
    recording.answers v s t o e,
  )
