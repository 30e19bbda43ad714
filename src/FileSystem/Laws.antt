-- ===== src/FileSystem/Laws.antt =====
-- What is found at a path after a subtree was moved or copied.
use ckb_vm_sail_verify.Base.{
  ◌≡◌, ◌≢◌, refl, ap, sym, ◌∙◌, true, false, none, some, [], ◌∷◌, ◌++◌, inl, inr, Option-cases,
  Bool-cases,
}
use ckb_vm_sail_verify.FileSystem.{
  FilePath, Entry, Tree, strip, path_eq, lookup, occupied, move, copies,
}
use ckb_vm_sail_verify.FileSystem.Paths.{
  path_eq_iff, strip-append, append-strip, path_eq-append, path_eq-outside, Outside,
}

-- A path that is not occupied is neither the head entry's nor above it.
occupied-cons :
    (p j : FilePath) (e : Entry) (t : Tree)
    → occupied p ((j, e) ∷ t) ≡ false
    → (strip p j ≡ none) × (occupied p t ≡ false)
unfolding occupied
occupied-cons p j e t h = elim (Option-cases (strip p j)) [
  | inl n ↦ (n, rw n at h)
  | inr (r, s) ↦ absurd (cc (rw s at h))
]

pub lookup-none : (p r : FilePath) (t : Tree) → occupied p t ≡ false → lookup (p ++ r) t ≡ none
unfolding lookup
lookup-none p r [] h = refl
lookup-none p r ((j, e) ∷ t) h =
    let (n, rest) = occupied-cons p j e t h in rw (path_eq-outside p j r n) (lookup-none p r t rest)

pub lookup-move_target :
    (p q r : FilePath) (t : Tree)
    → occupied q t ≡ false
    → lookup (q ++ r) (move p q t) ≡ lookup (p ++ r) t
unfolding lookup move
lookup-move_target p q r [] h = refl
lookup-move_target p q r ((j, e) ∷ t) h =
    let (n, rest) = occupied-cons q j e t h in
    let ih = lookup-move_target p q r t rest in
    elim (Option-cases (strip p j)) [
      | inl m ↦ rw (m, path_eq-outside q j r n, path_eq-outside p j r m) ih
      | inr (s, x) ↦
          let same = append-strip p j s x in
          rw (x, path_eq-append q s r, ← same, path_eq-append p s r, ih)
    ]

pub lookup-move_source :
    (p q r : FilePath) (t : Tree) → Outside p q → lookup (p ++ r) (move p q t) ≡ none
unfolding lookup move
lookup-move_source p q r [] h = refl
lookup-move_source p q r ((j, e) ∷ t) h =
    let ih = lookup-move_source p q r t h in
    elim (Option-cases (strip p j)) [
      | inl m ↦ rw (m, path_eq-outside p j r m) ih
      | inr (s, x) ↦ rw (x, path_eq-outside p (q ++ s) r (h s)) ih
    ]

pub lookup-move_other :
    (p q k : FilePath) (t : Tree)
    → strip p k ≡ none
    → strip q k ≡ none
    → lookup k (move p q t) ≡ lookup k t
unfolding lookup move
lookup-move_other p q k [] hp hq = refl
lookup-move_other p q k ((j, e) ∷ t) hp hq =
    let ih = lookup-move_other p q k t hp hq in
    elim (Option-cases (strip p j)) [
      | inl m ↦ rw (m, ih)
      | inr (s, x) ↦ rw (
        x,
        path_eq-of_strip (q ++ s) k q s (strip-append q s) hq,
        path_eq-of_strip j k p s x hp,
        ih,
      )
    ]
  where
    path_eq-of_strip :
        (j k p s : FilePath) → strip p j ≡ some s → strip p k ≡ none → path_eq j k ≡ false
    path_eq-of_strip j k p s inside out = elim (Bool-cases (path_eq j k)) [
      | inl same ↦ cc (ap (strip p) ((path_eq_iff j k).0 same), inside, out)
      | inr other ↦ other
    ]

-- Being occupied is to hold an entry at or below.
pub occupied-lookup :
    (p : FilePath) (t : Tree) → occupied p t ≡ true → (r : FilePath) × (lookup (p ++ r) t ≢ none)
unfolding lookup occupied
occupied-lookup p [] h = cc
occupied-lookup p ((j, e) ∷ t) h = elim (Option-cases (strip p j)) [
  | inr (s, x) ↦ (s, rw ((path_eq_iff j (p ++ s)).1 (sym (append-strip p j s x))) (λ n. cc n))
  | inl m ↦
      let (s, found) = occupied-lookup p t (rw m at h) in (s, rw (path_eq-outside p j s m) found)
]

-- Subtrees that read alike are occupied alike.
pub occupied-same :
    (p q : FilePath) (t u : Tree)
    → ((r : FilePath) → lookup (p ++ r) t ≡ lookup (q ++ r) u)
    → occupied p t ≡ occupied q u
occupied-same p q t u h = elim (Bool-cases (occupied p t)) [
  | inl x ↦ elim (Bool-cases (occupied q u)) [
    | inl y ↦ x ∙ sym y
    | inr y ↦ let (r, found) = occupied-lookup p t x in absurd (found (h r ∙ lookup-none q r u y))
  ]
  | inr x ↦ elim (Bool-cases (occupied q u)) [
    | inl y ↦
        let (r, found) = occupied-lookup q u y in absurd (found (sym (h r) ∙ lookup-none p r t x))
    | inr y ↦ x ∙ sym y
  ]
]

pub lookup-copies_other :
    (p q k : FilePath) (t u : Tree) → strip q k ≡ none → lookup k (copies p q t ++ u) ≡ lookup k u
unfolding lookup copies
lookup-copies_other p q k [] u h = refl
lookup-copies_other p q k ((j, e) ∷ t) u h =
    let ih = lookup-copies_other p q k t u h in
    elim (Option-cases (strip p j)) [
      | inl m ↦ rw (m, ih)
      | inr (s, x) ↦ rw (x, path_eq-beside q s k h, ih)
    ]
  where
    path_eq-beside : (q s k : FilePath) → strip q k ≡ none → path_eq (q ++ s) k ≡ false
    path_eq-beside q s k out = elim (Bool-cases (path_eq (q ++ s) k)) [
      | inl same ↦ cc (ap (strip q) ((path_eq_iff (q ++ s) k).0 same), strip-append q s, out)
      | inr other ↦ other
    ]
