-- ===== src/Audit/Provenance/Hosted.antt =====
-- What an accepted record of the host shows of the machine in which the clean-room report was made.
use mathlib.Core.Path.{subst}
use ckb_vm_sail_verify.Base.{
  String, ◌≡◌, refl, ap, sym, ◌∙◌, true, false, List, [], ◌∷◌, map, all, pos, &&-eq-true,
}
use ckb_vm_sail_verify.Base.Result.{ok, >>=-eq-ok}
use ckb_vm_sail_verify.Base.Result.Returns.{
  Returns, Returns-ok, Returns-bind, Returns-require, Returns-self, ok-injective, require-eq-true,
}
use ckb_vm_sail_verify.Base.Json.{
  Value, str, int, bool, list, dict, cons, Fields, fields, items, equal,
}
use ckb_vm_sail_verify.Base.Text.{append, occurs, spaced}
use ckb_vm_sail_verify.Release.Manifest.{is_hex_text}
use ckb_vm_sail_verify.Release.Manifest.Members.{digest-Returns}
use ckb_vm_sail_verify.Audit.Checks.{texts_of, part}
use ckb_vm_sail_verify.Audit.Checks.Facts.{
  Hold, Reads, Returns-expect, texts_of-items, expect-Returns, item-reach, item-Reads, reads-str,
  reads_true-bool, reads_false-bool, reads_number-int,
}
use ckb_vm_sail_verify.Audit.Site.{Files, regular}
use ckb_vm_sail_verify.Audit.Site.Member.{Refers, reference-Refers}
use ckb_vm_sail_verify.Audit.Provenance.{
  provider_fields, is_unshared, is_launch, provenance_path, check_bound, check_hypervisor,
  check_disks, check_launch, check_report_bound, check_vm_provenance,
}

-- The machine ran under kvm, and no argument of its command names a filesystem that the host shares.
pub record IsLaunch (argv : Value) : Type 0 where
  pub texts : List String
  pub is_list : argv ≡ list (items (map str texts))
  pub kvm : occurs "accel=kvm" (spaced texts) ≡ true
  pub unshared : all is_unshared texts ≡ true

is_launch-IsLaunch : (argv : Value) → Hold (is_launch argv) → IsLaunch argv
unfolding is_launch
is_launch-IsLaunch (list (cons v rest)) h =
    let (ts, e, holds) = >>=-eq-ok (texts_of (cons v rest)) _ h in
    let (kvm, unshared) = &&-eq-true _ _ (ok-injective _ _ holds) in
    record {
      texts = ts;
      is_list = ap list ((texts_of-items (cons v rest)).at ts e);
      kvm = kvm;
      unshared = unshared;
    }
is_launch-IsLaunch v h = cc

-- The disks of the machine are gone, and its first one had the digest that the report's provider has.
pub record AreDestroyed (provenance provider : Value) : Type 0 where
  pub base : String
  pub digits : is_hex_text 64 base ≡ true
  pub has_base : Reads provenance ("disks" ∷ "base_image_sha256" ∷ []) (str base)
  pub same_base : Reads provider ("image_digest" ∷ []) (str (append "sha256:" base))
  pub overlay : Reads provenance ("disks" ∷ "overlay" ∷ "destroyed" ∷ []) (bool true)
  pub evidence : Reads provenance ("disks" ∷ "evidence" ∷ "destroyed" ∷ []) (bool true)
  pub secrets : Reads provenance ("disks" ∷ "secrets" ∷ "destroyed" ∷ []) (bool true)

check_disks-AreDestroyed :
    (provenance provider : Value)
    → Returns (λ _. AreDestroyed provenance provider) (check_disks provenance provider)
unfolding check_disks
check_disks-AreDestroyed provenance provider = Returns-bind λ disks e. Returns-bind λ given f.
    Returns-bind λ base g. Returns-expect _ _ λ image. expect-Returns _ _ λ gone.
      let (same, digits) = (digest-Returns given _).at base g in
      record {
        base = base;
        digits = digits;
        has_base = item-reach _ _ _ _ e (item-Reads _ _ _ f) ∙ ap ok same;
        same_base = reads-str _ _ _ image.0;
        overlay = item-reach _ _ _ _ e (reads_true-bool _ _ gone.0);
        evidence = item-reach _ _ _ _ e (reads_true-bool _ _ gone.1.0);
        secrets = item-reach _ _ _ _ e (reads_true-bool _ _ gone.1.1.0);
      }

check_hypervisor-kvm :
    (provenance : Value)
    → Returns
        (λ _. Reads provenance ("hypervisor" ∷ "accelerator" ∷ []) (str "kvm"))
        (check_hypervisor provenance)
unfolding check_hypervisor
check_hypervisor-kvm provenance = Returns-bind λ hypervisor e.
    Returns-bind λ _ _. expect-Returns _ _ λ h. item-reach _ _ _ _ e (reads-str _ _ _ h.0)

-- The host has the same provider as the report.
abbrev pub SameProvider : Value → Value → Type 0
SameProvider provenance provider =
    (given : Value) × (expected : Fields) × Reads provenance ("provider" ∷ []) given
    × (part provider provider_fields ≡ ok expected)
    × (equal given (dict expected) ≡ true)

check_bound-SameProvider :
    (provenance provider : Value)
    → Returns (λ _. SameProvider provenance provider) (check_bound provenance provider)
unfolding check_bound
check_bound-SameProvider provenance provider = Returns-bind λ given e. Returns-bind λ expected f.
    Returns-self _ λ u h. (given, expected, item-Reads _ _ _ e, f, require-eq-true _ _ u h)

module _ (files : Files) where
  open files use {FilePath, parent, name, child, exists, is_symlink, sha, read}

  -- The machine ended with 0, as did its guest, and its console log is kept.
  pub record IsEnded (directory : FilePath) (provenance : Value) : Type 0 where
    pub argv : Value
    pub has_argv : Reads provenance ("launch" ∷ "argv" ∷ []) argv
    pub launch : IsLaunch argv
    pub code_zero : Reads provenance ("launch" ∷ "exit_code" ∷ []) (int (pos 0))
    pub guest_zero : Reads provenance ("guest" ∷ "controller_exit_code" ∷ []) (int (pos 0))
    pub console : Value
    pub has_console : Reads provenance ("launch" ∷ "console_log" ∷ []) console
    pub log : FilePath
    pub console_kept : Refers files directory console log

  check_launch-IsEnded :
      (directory : FilePath) (provenance : Value)
      → Returns (λ _. IsEnded directory provenance) (check_launch files directory provenance)
  unfolding check_launch
  check_launch-IsEnded directory provenance = Returns-bind λ argv e. Returns-expect _ _ λ launch.
      Returns-expect _ _ λ zero. Returns-bind λ console f. Returns-bind λ log g.
        Returns-ok tt (record {
          argv = argv;
          has_argv = e;
          launch = is_launch-IsLaunch argv launch.0;
          code_zero = reads_number-int _ _ _ zero.0;
          guest_zero = reads_number-int _ _ _ zero.1.0;
          console = console;
          has_console = f;
          log = log;
          console_kept = (reference-Refers files directory console _).at log g;
        })

  -- The host's record is about this report: it has its name and its digest.
  abbrev pub IsBound : FilePath → Value → Type 0
  IsBound report_path provenance =
      (given : Value) × (hash : String) × Reads provenance ("report" ∷ []) given
      × (sha report_path ≡ ok hash)
      × (equal given (dict (fields (("path", str (name report_path)) ∷ ("sha256", str hash) ∷ [])))
          ≡ true)

  check_report_bound-IsBound :
      (report_path : FilePath) (provenance : Value)
      → Returns
          (λ _. IsBound report_path provenance)
          (check_report_bound files report_path provenance)
  unfolding check_report_bound
  check_report_bound-IsBound report_path provenance = Returns-bind λ given e.
      Returns-bind λ hash f.
        Returns-self _ λ u h. (given, hash, item-Reads _ _ _ e, f, require-eq-true _ _ u h)

  pub record IsHosted (report_path : FilePath) (report provenance : Value) : Type 0 where
    pub has_report : read report_path ≡ ok report
    pub has_provenance : read (provenance_path files report_path) ≡ ok provenance
    pub provider : Value
    pub has_provider : Reads report ("provider" ∷ []) provider
    pub same_provider : SameProvider provenance provider
    pub kvm : Reads provenance ("hypervisor" ∷ "accelerator" ∷ []) (str "kvm")
    pub disks : AreDestroyed provenance provider
    pub ended : IsEnded (parent report_path) provenance
    pub bound : IsBound report_path provenance
    pub attested : Reads provenance ("boundaries" ∷ "operator_attested" ∷ []) (bool true)
    pub no_release : Reads provenance ("boundaries" ∷ "release_claimed" ∷ []) (bool false)

  regular-same : (path : FilePath) → Returns (λ p. path ≡ p) (regular files path)
  unfolding regular
  regular-same path =
      Returns-require _ λ _. Returns-bind λ _ _. Returns-require _ λ _. Returns-ok path refl

  pub check_vm_provenance-IsHosted :
      (report_path : FilePath)
      → Returns
          (λ _. (report : Value) × (provenance : Value) × IsHosted report_path report provenance)
          (check_vm_provenance files report_path)
  unfolding check_vm_provenance
  check_vm_provenance-IsHosted report_path = Returns-bind λ report e. Returns-bind λ provider f.
      Returns-bind λ _ _. Returns-bind λ path g. Returns-bind λ provenance h. Returns-bind λ _ _.
        Returns-expect _ _ λ _. Returns-bind λ b1 same. Returns-bind λ b2 kvm.
          Returns-bind λ b3 disks. Returns-bind λ b4 ended. Returns-bind λ b5 bound.
            Returns-expect _ _ λ claims. Returns-self _ λ _ _. (
              report,
              provenance,
              record {
                has_report = e;
                has_provenance =
                    subst (λ p. read p ≡ ok provenance) (sym ((regular-same _).at path g)) h;
                provider = provider;
                has_provider = item-Reads _ _ _ f;
                same_provider = (check_bound-SameProvider provenance provider).at b1 same;
                kvm = (check_hypervisor-kvm provenance).at b2 kvm;
                disks = (check_disks-AreDestroyed provenance provider).at b3 disks;
                ended = (check_launch-IsEnded (parent report_path) provenance).at b4 ended;
                bound = (check_report_bound-IsBound report_path provenance).at b5 bound;
                attested = reads_true-bool _ _ claims.0;
                no_release = reads_false-bool _ _ claims.1.1.0;
              },
            )

  -- A record of the host that is accepted stands beside the report that it is about, by name and by
  -- digest, and has the provider of the report: a machine that ran under kvm with no filesystem that
  -- the host shares, from the image that the provider names; it ended with 0, as did its guest, its
  -- disks are gone, and its console log is kept.
  pub check_vm_provenance_sound :
      (report_path : FilePath) (summary : Value)
      → check_vm_provenance files report_path ≡ ok summary
      → (report : Value) × (provenance : Value) × IsHosted report_path report provenance
  check_vm_provenance_sound report_path summary h =
      (check_vm_provenance-IsHosted report_path).at summary h
