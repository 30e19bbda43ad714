-- ===== src/Audit/Tests/Examples.antt =====
-- Examples of what is proved of the audit, on the toy release.
use ckb_vm_sail_verify.Base.{String, ◌≡◌, List, [], ◌∷◌}
use ckb_vm_sail_verify.Base.Result.{ok}
use ckb_vm_sail_verify.Audit.Report.Reproduced.{IsReproduced, check_vm_report_sound}
use ckb_vm_sail_verify.Audit.Ci.Accepted.{IsCollected, check_clean_room_sound}
use ckb_vm_sail_verify.Audit.ThirdParty.Accepted.{IsReproducedBy, check_third_party_sound}
use ckb_vm_sail_verify.Audit.Aggregate.{Report, failed}
use ckb_vm_sail_verify.Audit.Aggregate.Verdict.{verdict, IsCode, aggregate_refines}
use ckb_vm_sail_verify.Audit.Validators.{validators}
use ckb_vm_sail_verify.Audit.Tests.Toy.{host, files}
use ckb_vm_sail_verify.Audit.Tests.Source.{commit}
use ckb_vm_sail_verify.Audit.Tests.Records.{audit_manifest}
use ckb_vm_sail_verify.Audit.Tests.Accepted.{
  vm_summary, vm-accepted, clean_room_summary, clean_room-accepted, third_party_summary,
  third_party-accepted,
}
use ckb_vm_sail_verify.Audit.Tests.Whole.{audit_report, audit-accepted}

abbrev evidence : String → List String
evidence name = name ∷ "ev" ∷ []

check_vm_report_sound_example :
    IsReproduced files host.load_policy host.current_snapshot (evidence "report.json") commit
check_vm_report_sound_example =
    check_vm_report_sound files host.load_policy host.current_snapshot (evidence "report.json")
      commit vm_summary vm-accepted

check_clean_room_sound_example :
    IsCollected files host.load_policy host.current_snapshot [] host.is_attested
      (evidence "ci.json")
      commit
check_clean_room_sound_example =
    check_clean_room_sound files host.load_policy host.current_snapshot [] host.is_attested
      (evidence "ci.json") commit clean_room_summary clean_room-accepted

check_third_party_sound_example :
    IsReproducedBy files host.read_text host.is_signed host.load_policy host.current_snapshot []
      (evidence "third.json")
      commit
check_third_party_sound_example =
    check_third_party_sound files host.read_text host.is_signed host.load_policy
      host.current_snapshot [] (evidence "third.json") commit third_party_summary
      third_party-accepted

aggregate_refines_example :
    (audit_report.status ≡ verdict audit_report (failed (ok tt))) × IsCode audit_report.status 0
aggregate_refines_example =
    aggregate_refines files [] (validators host) (ok tt) host.current_snapshot audit_manifest
      audit_report 0 audit-accepted
