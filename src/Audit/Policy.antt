-- ===== src/Audit/Policy.antt =====
-- The keys of docs/release/policy.json that the validators read, and what the validators ask of git,
-- gh, ssh-keygen and the archives.
use ckb_vm_sail_verify.Base.{String, ℕ, List}

pub record Signer : Type 0 where
  pub identity : String
  pub allowed_signers : String
  pub namespace : String

pub record CleanRoomPolicy : Type 0 where
  pub providers : List String
  pub image_sha256 : String
  pub stages : List String
  pub tools : List String
  pub generated_roots : List String

pub record CiPolicy : Type 0 where
  pub workflow : String
  pub jobs : List String
  pub artifact_name_prefix : String
  pub replay_case : String

pub record ThirdPartyPolicy : Type 0 where
  pub namespace : String
  pub stages : List String

-- `tool_size` and `tool_sha256` are those of the tool asset among the fixed inputs.
pub record PackagePolicy : Type 0 where
  pub required_members : List String
  pub docs : List String
  pub tool_asset : String
  pub tool_size : ℕ
  pub tool_sha256 : String

pub record Policy : Type 0 where
  pub repository : String
  pub version : String
  pub signer : Signer
  pub clean_room : CleanRoomPolicy
  pub ci : CiPolicy
  pub third_party : ThirdPartyPolicy
  pub pkg : PackagePolicy
