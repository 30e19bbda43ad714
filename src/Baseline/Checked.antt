-- ===== src/Baseline/Checked.antt =====
-- What a check of the baseline changes, and what a passed one shows.
use mathlib.Core.Path.{subst}
use ckb_vm_sail_verify.Base.{
  String, ◌≡◌, refl, ap, sym, ◌∙◌, Bool, true, false, List, [], ◌∷◌, str_eq, eq_iff, inl, inr, ◌⊎◌,
  if◌then◌else◌,
}
use ckb_vm_sail_verify.Base.Result.{Result, ok, err}
use ckb_vm_sail_verify.Base.Exec.{Exec, pure}
use ckb_vm_sail_verify.Base.Exec.Triple.{
  Triple, Ensures, Keeps, Triple-bind, Triple-pure, Triple-raise, Triple-weaken, Triple-before,
  Triple-if, Triple-state, Keeps-lift, Keeps-pure, Keeps-demand, Triple-return, demand-Triple,
  Ensures-lift,
}
use ckb_vm_sail_verify.Baseline.{
  Checkout, Manifest, see, tree, check_tree, check_inputs, apply_patch, handled, ensure,
  check_manifest, check,
}

module _ (co : Checkout) where
  open co use {World, status, apply_check, apply, reverse_check}

  module _ {P : World → Type 0} where
    see-Keeps : {A : Type 0} (query : World → Result A) → Keeps P (see co query)
    unfolding see
    see-Keeps query = record { at = λ w h. Ensures-lift P (query w) w h }

    tree-Keeps : (added : List String) → Keeps P (tree co added)
    unfolding tree
    tree-Keeps added = Triple-bind (see-Keeps _) λ _. Triple-bind (Keeps-lift _) λ _.
        Triple-bind (see-Keeps _) λ _. Triple-bind (see-Keeps _) λ _.
          Triple-bind (Keeps-demand _ _)
            λ _. Triple-bind (Keeps-lift _) λ _. Triple-bind (see-Keeps _) λ _. Keeps-pure _

    check_tree-Keeps :
        (added : List String) (expected label : String)
        → Keeps P (check_tree co added expected label)
    unfolding check_tree
    check_tree-Keeps added expected label = Triple-bind (tree-Keeps added) λ _. Keeps-demand _ _

    check_inputs-Keeps : (rows : List (String × String)) → Keeps P (check_inputs co rows)
    unfolding check_inputs
    check_inputs-Keeps [] = Keeps-pure _
    check_inputs-Keeps ((name, expected) ∷ rest) =
        Triple-bind (see-Keeps _) λ _. Triple-bind (Keeps-demand _ _) λ _. check_inputs-Keeps rest

    check_manifest-Keeps : (m : Manifest) → Keeps P (check_manifest co m)
    unfolding check_manifest
    check_manifest-Keeps m = Triple-bind (Keeps-demand _ _) λ _. Triple-bind (see-Keeps _) λ _.
        Triple-bind (Keeps-demand _ _) λ _.
          Triple-bind (see-Keeps _) λ _. Triple-bind (Keeps-demand _ _) λ _. check_inputs-Keeps _

  see-Triple :
      {P : World → Type 0} {A : Type 0} (query : World → Result A)
      → Triple P (see co query) (λ a s. P s × (query s ≡ ok a)) P
  unfolding see
  see-Triple {P} {A} query = record { at = λ s h. go s h (query s) refl }
    where
      go :
          (s : World)
          → P s
          → (r : Result A) → query s ≡ r
          → Ensures (λ a u. P u × (query u ≡ ok a)) P (r, s)
      go s h (ok a) e = (h, e)
      go s h (err x) e = h

  tree-same : (added : List String) (s : World) → (tree co added s).1 ≡ s
  tree-same added s = Triple-state {P = λ t. t ≡ s} s (tree-Keeps added) refl

  tree-Triple :
      {P : World → Type 0} (added : List String)
      → Triple P (tree co added) (λ a s. ((tree co added s).0 ≡ ok a) × P s) P
  tree-Triple added =
      Triple-return (tree co added)
        (λ s a t _ e.
          subst (λ u. (tree co added u).0 ≡ ok a) (sym (tree-same added s) ∙ ap (λ q. q.1) e)
            (ap (λ q. q.0) e))
        (tree-Keeps added)

  -- A checked tree is the expected one.
  check_tree-Triple :
      {P : World → Type 0} (added : List String) (expected label : String)
      → Triple P
          (check_tree co added expected label)
          (λ _ s. ((tree co added s).0 ≡ ok expected) × P s)
          P
  unfolding check_tree
  check_tree-Triple {P} added expected label = Triple-bind (tree-Triple added) λ found.
      Triple-weaken (λ _ s h. (h.0.0 ∙ ap ok ((eq_iff found expected).0 h.1), h.0.1)) (λ s h. h.1)
        (demand-Triple (str_eq found expected) label)

  module _ (m : Manifest) where
    -- The patch was applied, to a clean checkout of exactly the upstream tree.
    pub record IsPatched (w s : World) : Type 0 where
      pub clean : status w ≡ ok ""
      pub upstream : (tree co [] w).0 ≡ ok m.upstream_tree_sha256
      pub applies : apply_check m.patch w ≡ ok tt
      pub patched : s ≡ (apply m.patch w).1

    abbrev Kept : World → World → Type 0
    Kept w s = (s ≡ w) ⊎ IsPatched w s

    Ready : World → Type 0
    Ready s =
        (status s ≡ ok "")
        × ((tree co [] s).0 ≡ ok m.upstream_tree_sha256)
        × (apply_check m.patch s ≡ ok tt)

    apply-Triple :
        (w : World) → Triple (λ s. (s ≡ w) × Ready s) (apply m.patch) (λ _. Kept w) (Kept w)
    unfolding Ready
    apply-Triple w = record {
      at = λ s (e, (clean, upstream, applies)). Ensures-lift (Kept w) (apply m.patch s).0 _ (
          subst (λ v. Kept v (apply m.patch s).1) e
            (inr
              (record { clean = clean; upstream = upstream; applies = applies; patched = refl })));
    }

    apply_patch-Triple : (w : World) → Triple (λ s. s ≡ w) (apply_patch co m) (λ _. Kept w) (Kept w)
    unfolding apply_patch Ready
    apply_patch-Triple w =
        Triple-bind (Triple-weaken (λ _ _ h. h) (λ _ e. inl e) (see-Triple _)) λ changes.
          Triple-bind (Triple-weaken (λ _ _ h. h) (λ _ h. inl h.0) (demand-Triple _ _)) λ _.
            Triple-bind (Triple-weaken (λ _ _ h. h) (λ _ h. inl h.0.0) (check_tree-Triple [] _ _))
              λ _. Triple-bind (Triple-weaken (λ _ _ h. h) (λ _ h. inl h.1.0.0) (see-Triple _)) λ u.
                Triple-before
                  (λ s h.
                    (h.0.1.0.0, (h.0.1.0.1 ∙ ap ok ((eq_iff changes "").0 h.0.1.1), h.0.0, h.1)))
                  (apply-Triple w)

    handled-Triple :
        (w : World) (r : Result (Unit {0}))
        → Triple (λ s. s ≡ w) (handled co m r) (λ _. Kept w) (Kept w)
    handled-Triple w (ok _) = Triple-weaken (λ _ _ e. inl e) (λ _ e. inl e) (Keeps-pure tt)
    handled-Triple w (err e) =
        Triple-if _ (apply_patch-Triple w) (Triple-before (λ _ e. inl e) (Triple-raise e))

    ensure-Triple : (w : World) → Triple (λ s. s ≡ w) (ensure co m) (λ _. Kept w) (Kept w)
    unfolding ensure
    ensure-Triple w = record {
      at = λ s e.
          let found = check_tree co m.added_files m.source_tree_sha256 "source tree" s in
          (handled-Triple w found.0).at found.1
            (Triple-state {P = λ u. u ≡ w} s (check_tree-Keeps m.added_files _ _) e);
    }

    abbrev Passed : World → Type 0
    Passed s =
        ((tree co m.added_files s).0 ≡ ok m.source_tree_sha256) × (reverse_check m.patch s ≡ ok tt)

    check-Triple :
        (applies : Bool) (w : World)
        → Triple
            (λ s. s ≡ w)
            (check co m applies)
            (λ _ s. Passed s × (if applies then Kept w s else s ≡ w))
            (λ s. if applies then Kept w s else s ≡ w)
    unfolding check
    check-Triple applies w = Triple-bind (kept-by (check_manifest-Keeps m)) λ _.
        Triple-bind (changing applies) λ _. Triple-bind (check_tree-Triple m.added_files _ _) λ _.
          Triple-bind (Triple-weaken (λ _ _ h. h) (λ _ h. h.1) (see-Triple _))
            λ u. Triple-before (λ s h. ((h.0.0, h.1), h.0.1)) (Triple-pure m)
      where
        kept-now : (applies : Bool) (s : World) → s ≡ w → if applies then Kept w s else s ≡ w
        kept-now true s e = inl e
        kept-now false s e = e

        kept-by :
            {act : Exec World (Unit {0})}
            → Keeps (λ s. s ≡ w) act
            → Triple (λ s. s ≡ w) act (λ _ s. s ≡ w) (λ s. if applies then Kept w s else s ≡ w)
        kept-by h = Triple-weaken (λ _ _ e. e) (λ s e. kept-now applies s e) h

        changing :
            (applies : Bool)
            → Triple
                (λ s. s ≡ w)
                (if applies then ensure co m else pure tt)
                (λ _ s. if applies then Kept w s else s ≡ w)
                (λ s. if applies then Kept w s else s ≡ w)
        changing true = ensure-Triple w
        changing false = Keeps-pure tt

    -- However a check ends, it has left the checkout as it was, or it was asked to apply the patch, and
    -- has done so on a clean checkout of exactly the upstream tree, to which the patch applies.
    pub check_changes :
        (applies : Bool) (w : World)
        → ((check co m applies w).1 ≡ w) ⊎ ((applies ≡ true) × IsPatched w (check co m applies w).1)
    check_changes applies w =
        split applies
          (Triple-state w (Triple-weaken (λ _ _ h. h.1) (λ _ h. h) (check-Triple applies w)) refl)
      where
        split :
            (b : Bool)
            → (if b then Kept w (check co m applies w).1 else (check co m applies w).1 ≡ w)
            → ((check co m applies w).1 ≡ w) ⊎ ((b ≡ true) × IsPatched w (check co m applies w).1)
        split true (inl e) = inl e
        split true (inr p) = inr (refl, p)
        split false e = inl e
