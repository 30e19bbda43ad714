-- ===== src/Audit/Report/Reproduced.antt =====
-- The clean-room report and the host's record together.
use mathlib.Core.Path.{subst}
use ckb_vm_sail_verify.Base.{String, ◌≡◌, ap, sym, ◌∙◌, true, [], ◌∷◌}
use ckb_vm_sail_verify.Base.Result.{Result, ok}
use ckb_vm_sail_verify.Base.Result.Returns.{
  Returns, Returns-ok, Returns-bind, Returns-require, Returns-self, ok-injective,
}
use ckb_vm_sail_verify.Base.Json.{Value, str, list, Items, equal, elements}
use ckb_vm_sail_verify.Base.Text.{append-injective}
use ckb_vm_sail_verify.Release.Stages.Passed.{ArePassed, check_stages_sound}
use ckb_vm_sail_verify.Audit.Checks.Facts.{
  Reads, Returns-expect, item-Reads, item-reach, Reads-item,
}
use ckb_vm_sail_verify.Audit.Site.{Files, sha_below}
use ckb_vm_sail_verify.Audit.Site.Member.{Refers, reference-Refers}
use ckb_vm_sail_verify.Audit.Policy.{Policy, CleanRoomPolicy}
use ckb_vm_sail_verify.Audit.Provenance.Hosted.{IsHosted, check_vm_provenance_sound}
use ckb_vm_sail_verify.Audit.Report.{check_snapshot, check_vm_report, reported_slots}
use ckb_vm_sail_verify.Audit.Report.Fresh.{
  HasTools, check_tools-HasTools, IsFresh, check_provider-IsFresh, IsCheckout,
  check_checkout-IsCheckout, check_identity-candidate, HasSlots, check_slots-HasSlots,
}

module _ (files : Files) (load_policy : Result Policy) (current_snapshot : Result Value) where
  open files use {FilePath, parent, read}

  -- The snapshot beside the report equals that of the current checkout.
  pub record IsCurrent (directory : FilePath) (report snapshot : Value) : Type 0 where
    pub row : Value
    pub has_row : Reads report ("source_snapshot" ∷ []) row
    pub path : FilePath
    pub kept : Refers files directory row path
    pub has_snapshot : read path ≡ ok snapshot
    pub current : Value
    pub has_current : current_snapshot ≡ ok current
    pub same : equal snapshot current ≡ true

  check_snapshot-IsCurrent :
      (directory : FilePath) (report : Value)
      → Returns
          (λ snapshot. IsCurrent directory report snapshot)
          (check_snapshot files load_policy current_snapshot directory report)
  unfolding check_snapshot
  check_snapshot-IsCurrent directory report = Returns-bind λ row e. Returns-bind λ path f.
      Returns-bind λ snapshot g. Returns-bind λ current h. Returns-require _ λ same.
        Returns-ok snapshot (record {
          row = row;
          has_row = item-Reads _ _ _ e;
          path = path;
          kept = (reference-Refers files directory row _).at path f;
          has_snapshot = g;
          current = current;
          has_current = h;
          same = same;
        })

  -- What the report and the host's record show together.
  pub record IsReproduced (path : FilePath) (candidate : String) : Type 0 where
    pub policy : Policy
    pub has_policy : load_policy ≡ ok policy
    pub report : Value
    pub passed : Reads report ("status" ∷ []) (str "passed")
    pub about : Reads report ("candidate" ∷ []) (str candidate)
    pub snapshot : Value
    pub current : IsCurrent (parent path) report snapshot
    pub checkout : IsCheckout report snapshot (policy.repository) candidate
    pub fresh : IsFresh report (policy.clean_room)
    pub tools : HasTools report (policy.clean_room.tools)
    pub stages : Items
    pub has_stages : Reads report ("stages" ∷ []) (list stages)
    pub stages_passed :
        ArePassed (sha_below files (parent path)) (elements stages) (policy.clean_room.stages)
    pub slots : HasSlots files (parent path) report reported_slots
    pub provenance : Value
    pub hosted : IsHosted files path report provenance
    -- the disk that the machine was made from is the pinned image
    pub pinned : hosted.disks.base ≡ policy.clean_room.image_sha256

  IsHosted-image :
      (path : FilePath) (report provenance : Value) (cfg : CleanRoomPolicy)
      → (hosted : IsHosted files path report provenance) → IsFresh report cfg
      → hosted.disks.base ≡ cfg.image_sha256
  IsHosted-image path report provenance cfg hosted fresh = append-injective "sha256:" _ _ (
      str-injective _ _ (
        ok-injective _ _ (
          sym (
            item-reach report hosted.provider "provider" _ (Reads-item _ _ _ hosted.has_provider)
              hosted.disks.same_base)
          ∙ fresh.image)))
    where
      str-injective : (a b : String) → str a ≡ str b → a ≡ b
      str-injective a b h = cc h

  pub check_vm_report-IsReproduced :
      (path : FilePath) (candidate : String)
      → Returns
          (λ _. IsReproduced path candidate)
          (check_vm_report files load_policy current_snapshot path candidate)
  unfolding check_vm_report
  check_vm_report-IsReproduced path candidate = Returns-bind λ report e. Returns-bind λ policy f.
      Returns-bind λ b1 identity. Returns-bind λ b2 provider. Returns-bind λ snapshot g.
        Returns-bind λ b3 checkout. Returns-bind λ log _. Returns-bind λ _ _.
          Returns-bind λ b4 tools. Returns-bind λ v h. Returns-bind λ b5 stages.
            Returns-bind λ b6 _. Returns-bind λ b7 slots. Returns-expect _ _ λ _.
              Returns-bind λ summary provenance. Returns-self _ λ _ _.
                let (passed, about) = (check_identity-candidate report candidate).at b1 identity in
                let fresh = (check_provider-IsFresh report policy.clean_room).at b2 provider in
                let (rows, is_list, done) =
                  check_stages_sound _ v policy.clean_room.stages stages in
                let (report', host, hosted') =
                  check_vm_provenance_sound files path summary provenance in
                let hosted =
                  subst (λ r. IsHosted files path r host)
                    (ok-injective report' report (sym hosted'.has_report ∙ e)) hosted' in
                record {
                  policy = policy;
                  has_policy = f;
                  report = report;
                  passed = passed;
                  about = about;
                  snapshot = snapshot;
                  current = (check_snapshot-IsCurrent (parent path) report).at snapshot g;
                  checkout = (check_checkout-IsCheckout _ _ _ _).at b3 checkout;
                  fresh = fresh;
                  tools = (check_tools-HasTools report _).at b4 tools;
                  stages = rows;
                  has_stages = item-Reads _ _ _ h ∙ ap ok is_list;
                  stages_passed = done;
                  slots = (check_slots-HasSlots files _ report _).at b7 slots;
                  provenance = host;
                  hosted = hosted;
                  pinned = IsHosted-image path report host policy.clean_room hosted fresh;
                }

  -- A clean-room report that is accepted says that the candidate passed every stage of the policy, in a
  -- fresh machine, on a checkout of the candidate that was clean at its end, with exactly the tools
  -- of the policy and a snapshot that equals that of the current checkout; the outputs of the stages
  -- and the reports of the other slots are files beside it, by their digests. The host's record of
  -- this machine is accepted too, and the disk from which the machine was made is the pinned image.
  pub check_vm_report_sound :
      (path : FilePath) (candidate : String) (summary : Value)
      → check_vm_report files load_policy current_snapshot path candidate ≡ ok summary
      → IsReproduced path candidate
  check_vm_report_sound path candidate summary h =
      (check_vm_report-IsReproduced path candidate).at summary h
