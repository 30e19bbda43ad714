-- ===== src/VirtualMachine/Launch.antt =====
-- What scripts/ephemeral_vm.py gives to the machine: `meta_data`, `secrets_blob` and `qemu_argv`.
pub mod Accepted
use Prim.Native.Char.{code}
use ckb_vm_sail_verify.Base.{
  String, ℕ, zero, suc, ◌+◌, ◌-◌, ◌*◌, ◌/◌, ◌%◌, Bool, true, false, ◌&&◌, ◌||◌, not, List, [], ◌∷◌,
  ◌++◌, map, all, length, str_eq, if◌then◌else◌, ltb, ◌==◌,
}
use ckb_vm_sail_verify.Base.Result.{Result, ok, require, ◌>>=◌, ◌>>◌}
use ckb_vm_sail_verify.Base.Text.{append, starts_with}
use ckb_vm_sail_verify.Minimize.Decimal.{decimal}
use ckb_vm_sail_verify.Audit.Provenance.{is_unshared}

abbrev pub secret_urls : List String
secret_urls =
    "WEEK6_INSTALL_ARCHIVE_URL" ∷ "WEEK6_INSTALL_MANIFEST_URL" ∷ "WEEK6_DECODER_ARCHIVE_URL" ∷ []

abbrev pub proxy_variables : List String
proxy_variables =
    "HTTP_PROXY" ∷ "HTTPS_PROXY" ∷ "http_proxy" ∷ "https_proxy" ∷ "NO_PROXY" ∷ "no_proxy" ∷ []

abbrev pub secrets_bytes : ℕ
secrets_bytes = 1024 * 1024

-- a + b + ...
abbrev pub concat : List String → String
concat [] = ""
concat (x ∷ xs) = append x (concat xs)

-- '\n' not in value and "'" not in value
unfoldable pub is_plain_value : String → Bool
is_plain_value String.[] = true
is_plain_value (String.◌∷◌ c s) = not (code c == 10) && not (code c == 39) && is_plain_value s

-- name + "='" + value + "'"
abbrev pub assignment : String → String → String
assignment name value = concat (name ∷ "='" ∷ value ∷ "'" ∷ [])

-- The variables of the environment, empty where they are not set.
unfoldable pub url_lines : (String → String) → List String → Result (List String)
url_lines environment [] = ok []
url_lines environment (name ∷ rest) = do
  require (starts_with "https://" (environment name) && is_plain_value (environment name))
      "missing/non-HTTPS variable"
  lines ← url_lines environment rest
  ok (assignment name (environment name) ∷ lines)

abbrev pub with_proxy : String → String → List String → List String
with_proxy name value lines = if str_eq value "" then lines else assignment name value ∷ lines

unfoldable pub proxy_lines : (String → String) → List String → Result (List String)
proxy_lines environment [] = ok []
proxy_lines environment (name ∷ rest) = do
  require (is_plain_value (environment name)) "unsafe proxy variable"
  lines ← proxy_lines environment rest
  ok (with_proxy name (environment name) lines)

-- '\n'.join(lines) + '\n', of lines of which there is one at least
unfoldable pub ended_lines : List String → String
ended_lines [] = ""
ended_lines (x ∷ xs) = append x (append "\n" (ended_lines xs))

-- The bytes of one character.
unfoldable pub encode_char : ℕ → List ℕ
encode_char c =
    if ltb c 0x80
    then c ∷ []
    else if ltb c 0x800
    then (0xc0 + c / 64) ∷ (0x80 + c % 64) ∷ []
    else if ltb c 0x10000
    then (0xe0 + c / 4096) ∷ (0x80 + c / 64 % 64) ∷ (0x80 + c % 64) ∷ []
    else (0xf0 + c / 262144) ∷ (0x80 + c / 4096 % 64) ∷ (0x80 + c / 64 % 64) ∷ (0x80 + c % 64) ∷ []

-- text.encode()
unfoldable pub encode : String → List ℕ
encode String.[] = []
encode (String.◌∷◌ c s) = encode_char (code c) ++ encode s

-- b'\0' * n
unfoldable pub zeros : ℕ → List ℕ
zeros zero = []
zeros (suc n) = 0 ∷ zeros n

unfoldable pub secrets_blob : (String → String) → Result (List ℕ)
secrets_blob environment = do
  urls ← url_lines environment secret_urls
  proxies ← proxy_lines environment proxy_variables
  let blob = encode (ended_lines (urls ++ proxies))
  require (ltb (length blob) secrets_bytes) "secrets blob too large"
  ok (blob ++ zeros (secrets_bytes - length blob))

unfoldable pub meta_data : String → String
meta_data environment_id =
    concat ("instance-id: clean-room-" ∷ environment_id ∷ "\nlocal-hostname: clean-room\n" ∷ [])

-- The places of the machine, as texts.
pub record Paths : Type 0 where
  pub qemu : String
  pub overlay : String
  pub evidence : String
  pub secrets : String
  pub seed : String
  pub console : String

unfoldable pub argv_of : Paths → ℕ → ℕ → List String
argv_of paths vcpus memory_gb =
    paths.qemu
    ∷ "-machine"
    ∷ "q35,accel=kvm"
    ∷ "-cpu"
    ∷ "host"
    ∷ "-smp"
    ∷ decimal vcpus
    ∷ "-m"
    ∷ append (decimal memory_gb) "G"
    ∷ "-display"
    ∷ "none"
    ∷ "-no-reboot"
    ∷ "-serial"
    ∷ append "file:" paths.console
    ∷ "-drive"
    ∷ concat ("file=" ∷ paths.overlay ∷ ",if=none,format=qcow2,cache=unsafe,id=root" ∷ [])
    ∷ "-device"
    ∷ "virtio-blk-pci,drive=root,bootindex=0"
    ∷ "-drive"
    ∷ concat ("file=" ∷ paths.evidence ∷ ",if=none,format=raw,id=evidence" ∷ [])
    ∷ "-device"
    ∷ "virtio-blk-pci,drive=evidence,serial=clean-room-evidence"
    ∷ "-drive"
    ∷ concat ("file=" ∷ paths.secrets ∷ ",if=none,format=raw,id=secrets,readonly=on" ∷ [])
    ∷ "-device"
    ∷ "virtio-blk-pci,drive=secrets,serial=clean-room-secrets"
    ∷ "-drive"
    ∷ concat ("file=" ∷ paths.seed ∷ ",if=virtio,format=raw,readonly=on" ∷ [])
    ∷ "-netdev"
    ∷ "user,id=net0"
    ∷ "-device"
    ∷ "virtio-net-pci,netdev=net0"
    ∷ []

-- The flags of a shared filesystem are those that the audit looks for.
unfoldable pub qemu_argv : Paths → ℕ → ℕ → Result (List String)
qemu_argv paths vcpus memory_gb = do
  require (all is_unshared (argv_of paths vcpus memory_gb)) "shared host filesystem is not allowed"
  ok (argv_of paths vcpus memory_gb)
