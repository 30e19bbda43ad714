-- ===== src/EvidenceBundle/Extracted.antt =====
-- What the extraction of a bundle leaves on the disk.
use mathlib.Core.Path.{subst}
use ckb_vm_sail_verify.Base.{
  String, ◌≡◌, refl, ap, sym, ◌∙◌, Bool, true, false, not, Option, none, some, List, [], ◌∷◌, All,
  In, here, there, ◌⊎◌, inl, inr, str_eq, eq_iff, &&-eq-true, arith,
}
use ckb_vm_sail_verify.Base.Result.{Result, ok, err}
use ckb_vm_sail_verify.Base.Result.Returns.{
  Returns, Returns-ok, Returns-bind, Returns-require, Returns-self,
}
use ckb_vm_sail_verify.Base.Exec.{pure, >>=-eq-ok, lift-eq-ok, demand-eq-ok}
use ckb_vm_sail_verify.Base.Json.{str}
use ckb_vm_sail_verify.Base.Text.{starts_with}
use ckb_vm_sail_verify.Base.Sorted.{sorted}
use ckb_vm_sail_verify.FileSystem.{FilePath}
use ckb_vm_sail_verify.Release.Names.{split}
use ckb_vm_sail_verify.Release.Names.Safe.{IsSafe, safe_name_iff}
use ckb_vm_sail_verify.Release.Manifest.{digest}
use ckb_vm_sail_verify.Release.Inventory.{Item}
use ckb_vm_sail_verify.Capsule.Inspect.Exact.{is_one_of-In}
use ckb_vm_sail_verify.Disk.{Node, file, Disk, node_at, is_some, is_there, has_link, place}
use ckb_vm_sail_verify.Disk.Kept.{
  Extends, Grows, Grows-pure, Grows-lift, Grows-look, Grows-demand, Grows-bind, Grows-place,
  place-node, look-eq-ok,
}
use ckb_vm_sail_verify.EvidenceBundle.Targets.{
  clean_prefix, excluded, report_name, record_name, any_of, safe_member, below, parents_in,
  check_targets, targets_of,
}
use ckb_vm_sail_verify.EvidenceBundle.{plain_mode, place_all, extract}

-- The name of a file of evidence: safe, in the clean-room directory, and in none that is left out.
pub record IsEvidence (name : String) : Type 0 where
  pub safe : IsSafe name
  pub inside : starts_with clean_prefix name ≡ true
  pub kept : any_of excluded (split name) ≡ false

-- Nothing stands where the member goes, and no link on the way there.
abbrev pub IsFree : FilePath → Disk → Item → Type 0
IsFree destination d m =
    IsEvidence m.path
    × (node_at (below destination m.path) d ≡ none)
    × (has_link (parents_in destination m.path) d ≡ false)

-- The file of the member stands, with its bytes and a plain mode.
abbrev pub Stands : FilePath → Disk → Item → Type 0
Stands destination d m =
    node_at (below destination m.path) d ≡ some (file m.content (plain_mode m.mode))

abbrev pub Named : List Item → String → Type 0
Named items name = (m : Item) × In m items × (m.path ≡ name)

safe_member-IsEvidence :
    (name : String) → Returns (λ n. (n ≡ name) × IsEvidence name) (safe_member name)
unfolding safe_member
safe_member-IsEvidence name = Returns-bind λ text e. Returns-require _ λ inside.
    Returns-require _ λ kept.
      let (same, safe) = (safe_name_iff (str name) text).0 e in
      let own : text ≡ name = cc in
      Returns-ok name
        (refl, record { safe = rw (← own) safe; inside = inside; kept = ground arith })

not-there : (p : FilePath) (d : Disk) → is_there p d ≡ false → node_at p d ≡ none
not-there p d h = by (node_at p d) refl h
  where
    by : (o : Option Node) → node_at p d ≡ o → is_some o ≡ false → node_at p d ≡ none
    by none e k = e
    by (some n) e k = cc

not-eq-true : (b : Bool) → not b ≡ true → b ≡ false
not-eq-true false h = refl
not-eq-true true h = cc

record Checked (destination : FilePath) (d : Disk) (items : List Item) (seen targets : List String)
    : Type 0 where
  pub free : All (IsFree destination d) items
  pub named : (name : String) → In name targets → In name seen ⊎ Named items name

check_targets-Checked :
    (destination : FilePath) (d : Disk) (items : List Item) (seen : List String)
    → Returns (Checked destination d items seen) (check_targets destination d items seen)
unfolding check_targets
check_targets-Checked destination d [] seen =
    Returns-ok seen (record { free = tt; named = λ name h. inl h })
check_targets-Checked destination d (m ∷ rest) seen = Returns-bind λ name e. Returns-require _ λ _.
    Returns-require _ λ _. Returns-require _ λ free. Returns-require _ λ unlinked.
      Returns-self _ λ targets g.
        let (own, evidence) = (safe_member-IsEvidence m.path).at name e in
        let c = (check_targets-Checked destination d rest (name ∷ seen)).at targets g in
        record {
          free = (
            (
              evidence,
              rw (← own) (not-there _ d (not-eq-true _ free)),
              rw (← own) (not-eq-true _ unlinked),
            ),
            c.free,
          );
          named = λ other h. among other own (c.named other h);
        }
  where
    among :
        (other : String) {name : String}
        → name ≡ m.path
        → In other (name ∷ seen) ⊎ Named rest other
        → In other seen ⊎ Named (m ∷ rest) other
    among other e (inl here) = inr (m, here, sym e)
    among other e (inl (there h)) = inl h
    among other e (inr (x, place, same)) = inr (x, there place, same)

record AreTargets (destination : FilePath) (d : Disk) (items : List Item) : Type 0 where
  pub free : All (IsFree destination d) items
  pub report : Named items report_name
  pub provenance : Named items record_name

targets_of-AreTargets :
    (destination : FilePath) (items : List Item) (d : Disk)
    → Returns (λ _. AreTargets destination d items) (targets_of destination items d)
unfolding targets_of
targets_of-AreTargets destination items d = Returns-bind λ targets e. Returns-require _ λ both.
    let c = (check_targets-Checked destination d items []).at targets e in
    let (report, provenance) = &&-eq-true _ _ both in
    Returns-ok targets (record {
      free = c.free;
      report = member report_name (c.named _ (is_one_of-In targets _ report));
      provenance = member record_name (c.named _ (is_one_of-In targets _ provenance));
    })
  where
    member : (name : String) → In name [] ⊎ Named items name → Named items name
    member name (inl h) = elim h [ ]
    member name (inr n) = n

Grows-place_all : (destination : FilePath) (items : List Item) → Grows (place_all destination items)
unfolding place_all
Grows-place_all destination [] = Grows-pure tt
Grows-place_all destination (m ∷ rest) =
    Grows-bind (Grows-place _ m.content (plain_mode m.mode)) λ u. Grows-place_all destination rest

place_all-Stands :
    (destination : FilePath) (items : List Item) (d e : Disk) (u : Unit {0})
    → place_all destination items d ≡ (ok u, e)
    → All (Stands destination e) items
unfolding place_all
place_all-Stands destination [] d e u h = tt
place_all-Stands destination (m ∷ rest) d e u h =
    let (v, f, first, others) =
      >>=-eq-ok (place (below destination m.path) m.content (plain_mode m.mode)) _ d h in
    let last : (place_all destination rest f).1 ≡ e = ap (λ r. r.1) others in
    (
      rw (← last) (
          (Grows-place_all destination rest).at f _ _
            (place-node (below destination m.path) m.content (plain_mode m.mode) d f v first)),
      place_all-Stands destination rest f e u others,
    )

module _ (sha : FilePath → Result String) (open_archive : FilePath → Result (List Item)) where
  Grows-extract :
      (bundle : FilePath) (expected : String) (destination : FilePath)
      → Grows (extract sha open_archive bundle expected destination)
  unfolding extract
  Grows-extract bundle expected destination = Grows-bind (Grows-lift (digest (str expected) _)) λ _.
      Grows-bind (Grows-lift (sha bundle)) λ before. Grows-bind (Grows-demand _ _) λ _.
        Grows-bind (Grows-lift (open_archive bundle)) λ items.
          Grows-bind (Grows-look (targets_of destination items)) λ targets.
            Grows-bind (Grows-place_all destination items) λ _.
              Grows-bind (Grows-lift (sha bundle))
                λ after. Grows-bind (Grows-demand _ _) λ _. Grows-pure _

  -- What an extraction that returned has done.
  pub record IsExtracted (bundle : FilePath) (expected : String) (destination : FilePath)
      (d e : Disk) : Type 0 where
    pub items : List Item
    pub opened : open_archive bundle ≡ ok items
    pub trusted : sha bundle ≡ ok expected
    pub free : All (IsFree destination d) items
    pub stand : All (Stands destination e) items
    pub report : Named items report_name
    pub provenance : Named items record_name

  extract-IsExtracted :
      (bundle : FilePath) (expected : String) (destination : FilePath) (d e : Disk)
      (names : List String)
      → extract sha open_archive bundle expected destination d ≡ (ok names, e)
      → IsExtracted bundle expected destination d e
  unfolding extract
  extract-IsExtracted bundle expected destination d e names h =
      let (_, _, h1) = lift-eq-ok (digest (str expected) "expected bundle SHA-256") _ d h in
      let (before, hashed, h2) = lift-eq-ok (sha bundle) _ d h1 in
      let (same, h3) = demand-eq-ok (str_eq before expected) _ _ d h2 in
      let (items, opened, h4) = lift-eq-ok (open_archive bundle) _ d h3 in
      let (targets, checked, h5) = look-eq-ok (targets_of destination items) _ d h4 in
      let (u, f, placed, h6) = >>=-eq-ok (place_all destination items) _ d h5 in
      let (after, _, h7) = lift-eq-ok (sha bundle) _ f h6 in
      let (_, h8) = demand-eq-ok (str_eq after expected) _ _ f h7 in
      let last : f ≡ e = ended f targets h8 in
      let t = (targets_of-AreTargets destination items d).at targets checked in
      record {
        items = items;
        opened = opened;
        trusted = hashed ∙ ap ok ((eq_iff before expected).0 same);
        free = t.free;
        stand = rw (← last) (place_all-Stands destination items d f u placed);
        report = t.report;
        provenance = t.provenance;
      }
    where
      ended : (f : Disk) (targets : List String) → pure (sorted targets) f ≡ (ok names, e) → f ≡ e
      ended f targets k = unfold pure in ap (λ r. r.1) k

  grown :
      (bundle : FilePath) (expected : String) (destination : FilePath) (d : Disk)
      (r : Result (List String)) (e : Disk)
      → extract sha open_archive bundle expected destination d ≡ (r, e)
      → Extends d e
  grown bundle expected destination d r e h =
      subst (Extends d) (ap (λ x. x.1) h) ((Grows-extract bundle expected destination).at d)

  -- What was done beside leaving what stood: all of it, after a return.
  abbrev pub Done : FilePath → String → FilePath → Disk → Disk → Result (List String) → Type 0
  Done bundle expected destination d e (ok names) = IsExtracted bundle expected destination d e
  Done bundle expected destination d e (err x) = Unit

  -- The extraction of a bundle leaves every file, directory and link as it was, also where it raises.
  -- If it returns, the bundle has the expected digest and holds the clean-room report and the record
  -- of its machine; every member has a safe name in the clean-room directory, in none that is left
  -- out, nothing stood where it goes and no link led there, and there its file stands now, with its
  -- bytes and a plain mode.
  pub extract_lem :
      (bundle : FilePath) (expected : String) (destination : FilePath) (d : Disk)
      (r : Result (List String)) (e : Disk)
      → extract sha open_archive bundle expected destination d ≡ (r, e)
      → Extends d e × Done bundle expected destination d e r
  extract_lem bundle expected destination d (ok names) e h = (
    grown bundle expected destination d (ok names) e h,
    extract-IsExtracted bundle expected destination d e names h,
  )
  extract_lem bundle expected destination d (err x) e h =
      (grown bundle expected destination d (err x) e h, tt)
