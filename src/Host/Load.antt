-- ===== src/Host/Load.antt =====
-- crates/host/src/config.rs: `HostConfig::load`.
use vpn_bridge.Host.Config.{HostConfig, IsValid, host_validate_iff, validate}
use vpn_bridge.Io.{Result, ok}
use vpn_bridge.Loading.{Store, load_checked, load_checked_iff}
use vpn_bridge.Locating.{Paths}
use vpn_bridge.Net.{IpAddr}
use vpn_bridge.Prelude.{Bool, List, ap, refl, ℕ, ◌↔◌, ◌∙◌, ◌≡◌}

module _ (P : Paths) {IpNet : Type 0} (contains : IpNet → IpAddr → Bool)
    (show_ipv4 : List ℕ → List ℕ) (store : Store P (HostConfig IpNet)) where
  unfoldable pub load : P.FilePath → Result (HostConfig IpNet)
  unfolding load_checked validate
  load path = load_checked P store (λ p raw. raw) (validate contains show_ipv4) path

  -- A configuration is loaded exactly if its file can be read and parsed and it is valid, and it is the
  -- one in the file.
  pub host_load_iff :
      (path : P.FilePath) (cfg : HostConfig IpNet)
      → (load path ≡ ok cfg) ↔ (
          (content : List ℕ) × (store.read_to_string path ≡ ok content)
          × (store.from_str content ≡ ok cfg)
          × IsValid contains cfg)
  unfolding load
  host_load_iff path cfg =
      let loaded = load_checked_iff P store (λ p raw. raw) (validate contains show_ipv4) path cfg in
      let valid = host_validate_iff contains show_ipv4 cfg in
      (
        λ h.
            let (content, raw, e, p, same, passed) = loaded.0 h in
            (content, e, p ∙ ap ok same, valid.0 passed),
        λ (content, e, p, fit). loaded.1 (content, cfg, e, p, refl, valid.1 fit),
      )
