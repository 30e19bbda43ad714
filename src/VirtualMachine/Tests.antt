-- ===== src/VirtualMachine/Tests.antt =====
-- A launch, the files of a guest, and the theorem about launches at the launch.
use ckb_vm_sail_verify.Base.{String, ◌≡◌, refl, true, [], ◌∷◌, map}
use ckb_vm_sail_verify.Base.Result.{ok, err, runtime_error, ◌>>=◌}
use ckb_vm_sail_verify.Base.Text
use ckb_vm_sail_verify.Base.Json.{str, list, items}
use ckb_vm_sail_verify.Minimize.Decimal
use ckb_vm_sail_verify.Release.Names
use ckb_vm_sail_verify.Release.Inventory.{Item, Kind, is_file, is_directory}
use ckb_vm_sail_verify.Audit.Provenance.{is_launch}
use ckb_vm_sail_verify.VirtualMachine.Launch
use ckb_vm_sail_verify.VirtualMachine.Launch.{Paths, argv_of, qemu_argv}
use ckb_vm_sail_verify.VirtualMachine.Launch.Accepted.{qemu_argv-is_launch}
use ckb_vm_sail_verify.VirtualMachine.Evidence
use ckb_vm_sail_verify.VirtualMachine.Evidence.{Target, Base, evidence, guest, evidence_members}

abbrev some_paths : Paths
some_paths = record {
  qemu = "/usr/bin/qemu-system-x86_64";
  overlay = "/tmp/run/overlay.qcow2";
  evidence = "/tmp/run/evidence.raw";
  secrets = "/tmp/run/secrets.raw";
  seed = "/tmp/run/seed.iso";
  console = "/tmp/run/console.log";
}

launched : qemu_argv some_paths 8 32 ≡ ok (argv_of some_paths 8 32)
unfolding Launch.argv_of Launch.qemu_argv ◌>>=◌ Text.append Text.occurs Text.starts_with
    Decimal.decimal
launched = refl

-- A path that names a shared filesystem stops the launch.
shared :
    qemu_argv (record some_paths { seed = "/tmp/virtiofs/seed.iso" }) 8 32
    ≡ err (runtime_error "shared host filesystem is not allowed")
unfolding Launch.argv_of Launch.qemu_argv ◌>>=◌ Text.append Text.occurs Text.starts_with
    Decimal.decimal
shared = refl

qemu_argv-is_launch_example : is_launch (list (items (map str (argv_of some_paths 8 32)))) ≡ ok true
qemu_argv-is_launch_example = qemu_argv-is_launch some_paths 8 32 (argv_of some_paths 8 32) launched

abbrev written : String → Kind → Item
written name kind = record {
  path = name;
  mode = 0x1a4;
  kind = kind;
  linkname = "";
  size = 0;
  content = [];
}

abbrev target : Base → String → Target
target base relative = record { base = base; relative = relative }

members :
    evidence_members "home/user/checkout" (
      written "home/user/checkout/artifacts/boundary-check/clean-room" is_directory
      ∷ written "home/user/checkout/artifacts/boundary-check/clean-room/report.json" is_file
      ∷ written "home/user/checkout/artifacts/boundary-check/lean/run.log" is_file
      ∷ written "home/user/checkout/artifacts/boundary-check/lean/cargo-target/run.log" is_file
      ∷ written "home/clair/clean-room-run/guest.json" is_file
      ∷ written "home/user/clean-room-checkout-1.log" is_file
      ∷ [])
    ≡ ok (
        (
          "home/user/checkout/artifacts/boundary-check/clean-room/report.json",
          target evidence "artifacts/boundary-check/clean-room/report.json",
        )
        ∷ (
          "home/user/checkout/artifacts/boundary-check/lean/run.log",
          target evidence "artifacts/boundary-check/lean/run.log",
        )
        ∷ ("home/clair/clean-room-run/guest.json", target guest "guest.json")
        ∷ ("home/user/clean-room-checkout-1.log", target guest "checkout-logs/1.log")
        ∷ [])
unfolding Evidence.starts_with_any Evidence.ends_with_any Evidence.drop Evidence.boundary_target
    Evidence.target_of Evidence.add_member Evidence.add_members Evidence.evidence_members ◌>>=◌
    Text.append Text.starts_with Text.ends_with Names.split Names.join Names.extend
    Names.is_absolute Names.all_plain
members = refl
