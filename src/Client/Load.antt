-- ===== src/Client/Load.antt =====
-- crates/proxy-client/src/config.rs: `ClientConfig::load`.
use vpn_bridge.Client.Config.{ClientConfig, IsValid, client_validate_iff, validate}
use vpn_bridge.Io.{Result, ok}
use vpn_bridge.Loading.{
  PathNames, Store, load_checked, load_checked_iff, IsBeside, base_of, located_iff,
}
use vpn_bridge.Locating.{Paths}
use vpn_bridge.Net.{IpAddr}
use vpn_bridge.Prelude.{
  Bool, List, if◌then◌else◌, ℕ, ◌↔◌, ◌≡◌, Bool-cases, inl, inr, refl, sym, ap, ◌∙◌,
}

module _ (P : Paths) (names : PathNames P) {IpNet : Type 0} (contains : IpNet → IpAddr → Bool)
    (net_addr : IpNet → IpAddr) (show_ip : IpAddr → List ℕ)
    (store : Store P (ClientConfig IpNet)) where
  abbrev pub located : P.FilePath → ClientConfig IpNet → ClientConfig IpNet
  located path cfg = if names.is_absolute cfg.certificate then cfg else record cfg {
    certificate = names.to_name (P.join (base_of P names (P.parent path)) cfg.certificate);
  }

  -- The configuration is the one in the file but for its certificate, which is beside the file where
  -- its path is relative.
  abbrev pub IsLocated : P.FilePath → ClientConfig IpNet → ClientConfig IpNet → Type 0
  IsLocated path raw cfg =
      IsBeside P names path raw.certificate cfg.certificate
      × (cfg ≡ record raw { certificate = cfg.certificate })

  located-certificate :
      (path : P.FilePath) (raw : ClientConfig IpNet)
      → located path raw ≡ record raw {
        certificate =
            if names.is_absolute raw.certificate
            then raw.certificate
            else names.to_name (P.join (base_of P names (P.parent path)) raw.certificate);
      }
  located-certificate path raw = elim (Bool-cases (names.is_absolute raw.certificate)) [
    | inl absolute ↦ rw absolute refl
    | inr relative ↦ rw relative refl
  ]

  located-IsLocated :
      (path : P.FilePath) (raw cfg : ClientConfig IpNet)
      → (located path raw ≡ cfg) ↔ IsLocated path raw cfg
  located-IsLocated path raw cfg =
      let whole = located-certificate path raw in
      let beside = located_iff P names path raw.certificate cfg.certificate in
      (
        λ h.
            let same = sym whole ∙ h in
            let certificate = ap (λ c. c.certificate) same in
            (beside.0 certificate, sym same ∙ ap (λ x. record raw { certificate = x }) certificate),
        λ (is_beside, same).
            whole ∙ ap (λ x. record raw { certificate = x }) (beside.1 is_beside) ∙ sym same,
      )

  unfoldable pub load : P.FilePath → Result (ClientConfig IpNet)
  unfolding load_checked validate
  load path = load_checked P store located (validate contains net_addr show_ip) path

  -- A configuration is loaded exactly if its file can be read and parsed and it is valid: it is the one
  -- in the file but for its certificate, whose path is kept where it is absolute, and taken from the
  -- directory of the file where it is relative.
  pub client_load_iff :
      (path : P.FilePath) (cfg : ClientConfig IpNet)
      → (load path ≡ ok cfg) ↔ (
          (content : List ℕ) × (raw : ClientConfig IpNet) × (store.read_to_string path ≡ ok content)
          × (store.from_str content ≡ ok raw)
          × IsLocated path raw cfg
          × IsValid contains net_addr show_ip cfg)
  unfolding load
  client_load_iff path cfg =
      let loaded = load_checked_iff P store located (validate contains net_addr show_ip) path cfg in
      let valid = client_validate_iff contains net_addr show_ip cfg in
      (
        λ h.
            let (content, raw, e, p, same, passed) = loaded.0 h in
            (content, raw, e, p, (located-IsLocated path raw cfg).0 same, valid.0 passed),
        λ (content, raw, e, p, same, fit).
            loaded.1 (content, raw, e, p, (located-IsLocated path raw cfg).1 same, valid.1 fit),
      )
