-- ===== src/Vm/Load.antt =====
-- crates/vm/src/config.rs: `VmConfig::load`.
use vpn_bridge.Io.{Result, ok}
use vpn_bridge.Loading.{Store, load_checked, load_checked_iff}
use vpn_bridge.Locating.{Paths}
use vpn_bridge.Prelude.{length, ◌<◌, ◌≡◌}
use vpn_bridge.Vm.Config.{VmConfig, validate, vm_validate_iff}

module _ (P : Paths) {IpNet : Type 0} (store : Store P (VmConfig IpNet)) where
  unfoldable pub load : P.FilePath → Result (VmConfig IpNet)
  unfolding load_checked validate
  load path = load_checked P store (λ p raw. raw) (λ cfg. (validate cfg).1) path

  -- A configuration that was loaded has been checked.
  pub load_token :
      (path : P.FilePath) (cfg : VmConfig IpNet) → load path ≡ ok cfg → length cfg.token < 256
  unfolding load
  load_token path cfg h =
      let (content, raw, e, p, same, passed) =
        (load_checked_iff P store (λ p raw. raw) (λ c. (validate c).1) path cfg).0 h in
      (vm_validate_iff cfg).0 passed
