-- ===== src/VirtualMachine/Launch/Accepted.antt =====
-- The machine that the launcher starts is one that the audit accepts, and its secrets fill their disk.
use ckb_vm_sail_verify.Base.{
  String, ℕ, ◌-◌, ◌≡◌, refl, ap, ◌∙◌, true, false, ◌||◌, List, [], ◌∷◌, ◌++◌, map, all, length,
  arith, ltb, ltb→lt, suc, zero, length-append, ◌&&◌,
}
use ckb_vm_sail_verify.Base.Result.{ok, bind-ok}
use ckb_vm_sail_verify.Base.Result.Returns.{Returns, Returns-ok, Returns-bind, Returns-require}
use ckb_vm_sail_verify.Base.Text.{append, starts_with, occurs, spaced}
use ckb_vm_sail_verify.Base.Json.{str, list, items}
use ckb_vm_sail_verify.Audit.Checks.{texts_of}
use ckb_vm_sail_verify.Audit.Provenance.{is_launch, is_unshared}
use ckb_vm_sail_verify.VirtualMachine.Launch.{
  Paths, argv_of, qemu_argv, secrets_blob, secrets_bytes, zeros,
}

occurs-append : (part x s : String) → occurs part s ≡ true → occurs part (append x s) ≡ true
unfolding occurs append
occurs-append part String.[] s h = h
occurs-append part (String.◌∷◌ c x) s h =
    rw (occurs-append part x s h)
      (elim (starts_with part (String.◌∷◌ c (append x s))) as (λ b. (b || true) ≡ true) [
        | true ↦ refl
        | false ↦ refl
      ])

texts_of-strs : (ts : List String) → texts_of (items (map str ts)) ≡ ok ts
unfolding texts_of
texts_of-strs [] = refl
texts_of-strs (t ∷ ts) = bind-ok (λ ss. ok (t ∷ ss)) (texts_of-strs ts) refl

accelerated : (rest : String) → occurs "accel=kvm" (append "q35,accel=kvm" rest) ≡ true
unfolding occurs append
accelerated rest = refl

is_launch-argv :
    (v : String) (rest : List String)
    → occurs "accel=kvm" (spaced (v ∷ "-machine" ∷ "q35,accel=kvm" ∷ "-cpu" ∷ rest)) ≡ true
unfolding spaced
is_launch-argv v rest = occurs-append "accel=kvm" v _ (
    occurs-append "accel=kvm" " " _
      (occurs-append "accel=kvm" "-machine" _ (occurs-append "accel=kvm" " " _ (accelerated _))))

-- Whatever the places, the number of processors and the memory: an argv that the launcher builds is
-- one that the audit accepts in the record of the machine, accelerated and without a shared
-- filesystem.
pub qemu_argv-is_launch :
    (paths : Paths) (vcpus memory_gb : ℕ) (argv : List String)
    → qemu_argv paths vcpus memory_gb ≡ ok argv
    → is_launch (list (items (map str argv))) ≡ ok true
unfolding qemu_argv
qemu_argv-is_launch paths vcpus memory_gb argv h = launched.at argv h
  where
    launched :
        Returns
          (λ argv. is_launch (list (items (map str argv))) ≡ ok true)
          (qemu_argv paths vcpus memory_gb)
    launched = Returns-require _ λ unshared. Returns-ok (argv_of paths vcpus memory_gb) (
        unfold is_launch argv_of in
        bind-ok (λ argv. ok (occurs "accel=kvm" (spaced argv) && all is_unshared argv))
          (texts_of-strs (argv_of paths vcpus memory_gb))
          (rw (is_launch-argv paths.qemu _) (ap ok unshared)))

length-zeros : (n : ℕ) → length (zeros n) ≡ n
unfolding zeros
length-zeros zero = refl
length-zeros (suc n) = ap suc (length-zeros n)

filled :
    (blob : List ℕ)
    → ltb (length blob) secrets_bytes ≡ true
    → length (blob ++ zeros (secrets_bytes - length blob)) ≡ secrets_bytes
filled blob small =
    length-append blob _
    ∙ omega (arith, length-zeros (secrets_bytes - length blob), ltb→lt _ _ small)

-- The secrets fill their disk: it has exactly one MiB.
secrets_blob-length :
    (environment : String → String)
    → Returns (λ blob. length blob ≡ secrets_bytes) (secrets_blob environment)
unfolding secrets_blob
secrets_blob-length environment =
    Returns-bind
      λ urls _. Returns-bind λ proxies _. Returns-require _ λ small. Returns-ok _ (filled _ small)
