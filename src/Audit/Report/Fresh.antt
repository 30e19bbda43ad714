-- ===== src/Audit/Report/Fresh.antt =====
-- What an accepted clean-room report shows.
use ckb_vm_sail_verify.Base.{String, ◌≡◌, ap, ◌∙◌, true, false, List, [], ◌∷◌}
use ckb_vm_sail_verify.Base.Result.{ok}
use ckb_vm_sail_verify.Base.Result.Returns.{Returns, Returns-ok, Returns-bind, Returns-self}
use ckb_vm_sail_verify.Base.Json.{Value, str, bool, dict, Fields}
use ckb_vm_sail_verify.Base.Text.{append}
use ckb_vm_sail_verify.Release.Manifest.{is_hex_text}
use ckb_vm_sail_verify.Release.Manifest.Members.{digest-Returns}
use ckb_vm_sail_verify.Release.Stages.Passed.{text-Returns}
use ckb_vm_sail_verify.Audit.Checks.Facts.{
  Reads, Returns-expect, expect-Returns, item-Reads, reads-str, reads_true-bool, reads_false-bool,
  EachField, each_field-EachField, fields_of-dict, NamesAre, has_names-NamesAre,
}
use ckb_vm_sail_verify.Audit.Site.{Files}
use ckb_vm_sail_verify.Audit.Site.Member.{Refers, reference-Refers}
use ckb_vm_sail_verify.Audit.Policy.{CleanRoomPolicy}
use ckb_vm_sail_verify.Audit.Report.{
  check_tool, check_tools, check_identity, check_provider, check_checkout, check_slots,
}

-- A tool of the guest, with the version that it printed and the digest of its program.
pub record IsTool (row : Value) : Type 0 where
  pub version : String
  pub has_version : Reads row ("version" ∷ []) (str version)
  pub hash : String
  pub has_hash : Reads row ("executable_sha256" ∷ []) (str hash)
  pub digits : is_hex_text 64 hash ≡ true

check_tool-IsTool : (name : String) (row : Value) → Returns (λ _. IsTool row) (check_tool name row)
unfolding check_tool
check_tool-IsTool name row = Returns-bind λ v e. Returns-bind λ version f. Returns-bind λ w g.
    Returns-bind λ hash h.
      let (same, digits) = (digest-Returns w _).at hash h in
      Returns-ok tt (record {
        version = version;
        has_version = item-Reads _ _ _ e ∙ ap ok ((text-Returns v _).at version f);
        hash = hash;
        has_hash = item-Reads _ _ _ g ∙ ap ok same;
        digits = digits;
      })

-- The report lists exactly these tools.
abbrev pub HasTools : Value → List String → Type 0
HasTools report tools =
    (v : Value) × (rows : Fields) × Reads report ("tools" ∷ []) v
    × NamesAre v tools
    × (v ≡ dict rows)
    × EachField (λ _. IsTool) rows

pub check_tools-HasTools :
    (report : Value) (tools : List String)
    → Returns (λ _. HasTools report tools) (check_tools report tools)
unfolding check_tools
check_tools-HasTools report tools = Returns-bind λ v e. Returns-expect _ _ λ names.
    Returns-bind λ rows f. Returns-self _ λ u each. (
      v,
      rows,
      item-Reads _ _ _ e,
      has_names-NamesAre v tools names.0,
      (fields_of-dict v).at rows f,
      (each_field-EachField check_tool check_tool-IsTool rows).at u each,
    )

-- The guest was a new machine, made from the pinned image, which did not see the host's checkout.
pub record IsFresh (report : Value) (cfg : CleanRoomPolicy) : Type 0 where
  pub ephemeral : Reads report ("provider" ∷ "ephemeral" ∷ []) (bool true)
  pub unmounted : Reads report ("provider" ∷ "original_workspace_mounted" ∷ []) (bool false)
  pub image :
      Reads report ("provider" ∷ "image_digest" ∷ []) (str (append "sha256:" (cfg.image_sha256)))

pub check_provider-IsFresh :
    (report : Value) (cfg : CleanRoomPolicy)
    → Returns (λ _. IsFresh report cfg) (check_provider report cfg)
unfolding check_provider
check_provider-IsFresh report cfg = expect-Returns _ _ λ h. record {
  ephemeral = reads_true-bool _ _ h.1.0;
  unmounted = reads_false-bool _ _ h.1.1.0;
  image = reads-str _ _ _ h.1.1.1.0;
}

-- The guest worked on the candidate, in a checkout that was clean at its end.
pub record IsCheckout (report snapshot : Value) (repository candidate : String) : Type 0 where
  pub source : Reads report ("checkout" ∷ "repository" ∷ []) (str repository)
  pub head : Reads report ("checkout" ∷ "head" ∷ []) (str candidate)
  pub snapshot_head : Reads snapshot ("repositories" ∷ "." ∷ "head" ∷ []) (str candidate)
  pub clean : Reads report ("checkout" ∷ "worktree_status" ∷ []) (str "")

pub check_checkout-IsCheckout :
    (report snapshot : Value) (repository candidate : String)
    → Returns
        (λ _. IsCheckout report snapshot repository candidate)
        (check_checkout report snapshot repository candidate)
unfolding check_checkout
check_checkout-IsCheckout report snapshot repository candidate = expect-Returns _ _ λ h. record {
  source = reads-str _ _ _ h.0;
  head = reads-str _ _ _ h.1.0;
  snapshot_head = reads-str _ _ _ h.1.1.0;
  clean = reads-str _ _ _ h.1.1.1.1.0;
}

pub check_identity-candidate :
    (report : Value) (candidate : String)
    → Returns
        (λ _.
          Reads report ("status" ∷ []) (str "passed")
          × Reads report ("candidate" ∷ []) (str candidate))
        (check_identity report candidate)
unfolding check_identity
check_identity-candidate report candidate =
    Returns-bind λ _ _. expect-Returns _ _ λ h. (reads-str _ _ _ h.1.1.0, reads-str _ _ _ h.1.1.1.0)

module _ (files : Files) where
  open files use {FilePath, parent, read}

  -- The reports of these slots are files beside the report, by their digests.
  abbrev pub HasSlots : FilePath → Value → List String → Type 0
  HasSlots directory report [] = Unit
  HasSlots directory report (name ∷ names) =
      ((row : Value) × (path : FilePath) × Reads report ("slots" ∷ name ∷ []) row
        × Refers files directory row path)
      × HasSlots directory report names

  pub check_slots-HasSlots :
      (directory : FilePath) (report : Value) (names : List String)
      → Returns (λ _. HasSlots directory report names) (check_slots files directory report names)
  unfolding check_slots
  check_slots-HasSlots directory report [] = Returns-ok tt tt
  check_slots-HasSlots directory report (name ∷ names) = Returns-bind λ row e.
      Returns-bind λ path f. Returns-self _ λ u g. (
        (row, path, e, (reference-Refers files directory row _).at path f),
        (check_slots-HasSlots directory report names).at u g,
      )
