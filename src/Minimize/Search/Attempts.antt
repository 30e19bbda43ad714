-- ===== src/Minimize/Search/Attempts.antt =====
-- What a pass over the combinations of one size leaves on record.
use mathlib.Core.Path.{subst}
use ckb_vm_sail_verify.Base.{
  ℕ, ◌≡◌, ap, Bool, true, false, Option, none, some, List, [], ◌∷◌, In, here, there, inl, inr,
  Bool-cases,
}
use ckb_vm_sail_verify.Base.Result.{Result, ok}
use ckb_vm_sail_verify.Base.Exec.{Exec, ◌>>=◌, >>=-eq-ok}
use ckb_vm_sail_verify.Minimize.Search.{pick, try_each}

module _ {S Obs : Type 0} (evaluate : List ℕ → Exec S Obs) (Known : S → List ℕ → Obs → Type 0) where
  -- The evaluator writes down each answer, and loses none that was there.
  pub record IsRecording : Type 0 where
    pub answers :
        (words : List ℕ) (s t : S) (o : Obs) → evaluate words s ≡ (ok o, t) → Known t words o
    pub kept :
        (words : List ℕ) (s : S) (v : List ℕ) (p : Obs)
        → Known s v p
        → Known (evaluate words s).1 v p

module _ {S Obs : Type 0} (Known : S → List ℕ → Obs → Type 0) (matches : Obs → Bool) where
  -- An answer is on record that settles whether `v` still shows the difference.
  abbrev pub Settled : S → List ℕ → Bool → Type 0
  Settled s v verdict = (o : Obs) × Known s v o × (matches o ≡ verdict)

module _ {S Obs : Type 0} (evaluate : List ℕ → Exec S Obs) (Known : S → List ℕ → Obs → Type 0)
    (recording : IsRecording evaluate Known) (matches : Obs → Bool) (words : List ℕ) where
  pub evaluate-kept :
      (w : List ℕ) (s t : S) (r : Result Obs) (v : List ℕ) (p : Obs)
      → evaluate w s ≡ (r, t)
      → Known s v p
      → Known t v p
  evaluate-kept w s t r v p e k =
      subst (λ u. Known u v p) (ap (λ q. q.1) e) (recording.kept w s v p k)

  pub try_each-kept :
      (combos : List (List ℕ)) (s t : S) (r : Option (List ℕ)) (v : List ℕ) (p : Obs)
      → try_each evaluate matches words combos s ≡ (ok r, t)
      → Known s v p
      → Known t v p
  unfolding try_each ◌>>=◌
  try_each-kept [] s t r v p h k = subst (λ u. Known u v p) (ap (λ q. q.1) h) k
  try_each-kept (indices ∷ rest) s t r v p h k =
      let (o, u, e, g) = >>=-eq-ok (evaluate (pick words indices)) _ s h in
      let k' : Known u v p = evaluate-kept _ s u (ok o) v p e k in
      elim (Bool-cases (matches o)) [
        | inl m ↦ subst (λ u. Known u v p) (ap (λ q. q.1) (rw m at g)) k'
        | inr m ↦ try_each-kept rest u t r v p (rw m at g) k'
      ]

  pub try_each-none :
      (combos : List (List ℕ)) (s t : S)
      → try_each evaluate matches words combos s ≡ (ok none, t)
      → (indices : List ℕ) → In indices combos
      → Settled Known matches t (pick words indices) false
  unfolding try_each ◌>>=◌
  try_each-none [] s t h indices m = elim m [ ]
  try_each-none (c ∷ rest) s t h indices m =
      let (o, u, e, g) = >>=-eq-ok (evaluate (pick words c)) _ s h in
      elim (Bool-cases (matches o)) [
        | inl y ↦ cc (rw y at g)
        | inr n ↦
            let known : Known u (pick words c) o = recording.answers _ s u o e in
            let tail = rw n at g in
            split c rest u t (o, try_each-kept rest u t none _ o tail known, n)
              (try_each-none rest u t tail) indices m
      ]
    where
      split :
          (c : List ℕ) (rest : List (List ℕ)) (u t : S)
          → Settled Known matches t (pick words c) false
          → ((indices : List ℕ)
              → In indices rest
              → Settled Known matches t (pick words indices) false)
          → (indices : List ℕ) → In indices (c ∷ rest)
          → Settled Known matches t (pick words indices) false
      split c rest u t first others indices here = first
      split c rest u t first others indices (there m) = others indices m

  pub try_each-some :
      (combos : List (List ℕ)) (s t : S) (indices : List ℕ)
      → try_each evaluate matches words combos s ≡ (ok (some indices), t)
      → In indices combos × Settled Known matches t (pick words indices) true
  unfolding try_each ◌>>=◌
  try_each-some [] s t indices h = cc
  try_each-some (c ∷ rest) s t indices h =
      let (o, u, e, g) = >>=-eq-ok (evaluate (pick words c)) _ s h in
      elim (Bool-cases (matches o)) [
        | inl y ↦
            let g' = rw y at g in
            let same : c ≡ indices = cc in
            let ends : u ≡ t = cc in
            rw (← same) (here, (o, rw (← ends) (recording.answers _ s u o e), y))
        | inr n ↦
            let (m, settled) = try_each-some rest u t indices (rw n at g) in (there m, settled)
      ]
