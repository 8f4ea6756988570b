-- ===== src/Server/Load.antt =====
-- crates/proxy-server/src/config.rs: `ServerConfig::load` and `resolve`.
use vpn_bridge.Io.{Result, ok}
use vpn_bridge.Loading.{
  PathNames, Store, load_checked, load_checked_iff, IsBeside, base_of, located_iff,
}
use vpn_bridge.Locating.{Paths}
use vpn_bridge.Prelude.{List, if◌then◌else◌, ℕ, ◌↔◌, ◌≡◌, sym, ap, ap₂, ◌∙◌}
use vpn_bridge.Server.Config.{IsValid, ServerConfig, server_validate_iff, validate}

module _ (P : Paths) (names : PathNames P) {IpNet : Type 0}
    (store : Store P (ServerConfig IpNet)) where
  unfoldable pub resolve : P.FilePath → List ℕ → List ℕ
  resolve base path = if names.is_absolute path then path else names.to_name (P.join base path)

  abbrev pub located : P.FilePath → ServerConfig IpNet → ServerConfig IpNet
  located path cfg = record cfg {
    certificate = resolve (base_of P names (P.parent path)) cfg.certificate;
    private_key = resolve (base_of P names (P.parent path)) cfg.private_key;
  }

  -- The configuration is the one in the file but for its certificate and its key, each of which is
  -- beside the file where its path is relative.
  abbrev pub IsLocated : P.FilePath → ServerConfig IpNet → ServerConfig IpNet → Type 0
  IsLocated path raw cfg =
      IsBeside P names path raw.certificate cfg.certificate
      × IsBeside P names path raw.private_key cfg.private_key
      × (cfg ≡ record raw { certificate = cfg.certificate; private_key = cfg.private_key })

  located-IsLocated :
      (path : P.FilePath) (raw cfg : ServerConfig IpNet)
      → (located path raw ≡ cfg) ↔ IsLocated path raw cfg
  unfolding resolve
  located-IsLocated path raw cfg =
      let certificate = located_iff P names path raw.certificate cfg.certificate in
      let key = located_iff P names path raw.private_key cfg.private_key in
      (
        λ h.
            let first = ap (λ c. c.certificate) h in
            let second = ap (λ c. c.private_key) h in
            (
              certificate.0 first,
              key.0 second,
              sym h ∙ ap₂ (λ x y. record raw { certificate = x; private_key = y }) first second,
            ),
        λ (first, second, same).
            ap₂ (λ x y. record raw { certificate = x; private_key = y }) (certificate.1 first)
              (key.1 second)
            ∙ sym same,
      )

  unfoldable pub load : P.FilePath → Result (ServerConfig IpNet)
  unfolding load_checked validate resolve
  load path = load_checked P store located validate path

  -- A configuration is loaded exactly if its file can be read and parsed and it is valid: it is the one
  -- in the file but for its certificate and its key, whose paths are kept where they are absolute, and
  -- taken from the directory of the file where they are relative.
  pub server_load_iff :
      (path : P.FilePath) (cfg : ServerConfig IpNet)
      → (load path ≡ ok cfg) ↔ (
          (content : List ℕ) × (raw : ServerConfig IpNet) × (store.read_to_string path ≡ ok content)
          × (store.from_str content ≡ ok raw)
          × IsLocated path raw cfg
          × IsValid cfg)
  unfolding load
  server_load_iff path cfg =
      let loaded = load_checked_iff P store located validate path cfg in
      let valid = server_validate_iff cfg in
      (
        λ h.
            let (content, raw, e, p, same, passed) = loaded.0 h in
            (content, raw, e, p, (located-IsLocated path raw cfg).0 same, valid.0 passed),
        λ (content, raw, e, p, same, fit).
            loaded.1 (content, raw, e, p, (located-IsLocated path raw cfg).1 same, valid.1 fit),
      )
