-- ===== src/Loading.antt =====
-- The loading of a configuration that every program of the repository makes (`load` in each config.rs):
-- files and `toml` as an interface, and the steps that the four have in common.
use vpn_bridge.Handshake.{in_context}
use vpn_bridge.Io.{Result, err, ok}
use vpn_bridge.Io.Text.{text}
use vpn_bridge.Locating.{Paths}
use vpn_bridge.Prelude.{
  Bool, List, ap, refl, sym, ℕ, ◌++◌, ◌↔◌, ◌∙◌, ◌≡◌, Option, none, some, true, false, if◌then◌else◌,
  inl, inr, ◌⊎◌,
}

-- `std::fs::read_to_string` and `toml::from_str`.
pub record Store (P : Paths) (C : Type 0) : Type 0 where
  pub read_to_string : P.FilePath → Result (List ℕ)
  pub from_str : List ℕ → Result C

-- A path as it stands in a configuration.
pub record PathNames (P : Paths) : Type 0 where
  pub from_name : List ℕ → P.FilePath
  pub to_name : P.FilePath → List ℕ
  pub is_absolute : List ℕ → Bool

-- `finish` is what follows the parsing.
module _ (P : Paths) {C : Type 0} (store : Store P C) (finish : P.FilePath → C → Result C) where
  abbrev pub parsed_config : P.FilePath → Result C → Result C
  parsed_config path (ok cfg) = finish path cfg
  parsed_config path (err e) = err e

  abbrev pub read_config : P.FilePath → Result (List ℕ) → Result C
  read_config path (ok content) =
      parsed_config path
        (in_context (text "parsing config " ++ P.display path) (store.from_str content))
  read_config path (err e) = err e

  unfoldable pub load_with : P.FilePath → Result C
  load_with path =
      read_config path
        (in_context (text "reading config " ++ P.display path) (store.read_to_string path))

  -- The file is read, it holds a configuration, and this one is finished.
  abbrev pub IsLoaded : P.FilePath → C → Type 0
  IsLoaded path cfg =
      (content : List ℕ) × (raw : C) × (store.read_to_string path ≡ ok content)
      × (store.from_str content ≡ ok raw)
      × (finish path raw ≡ ok cfg)

  parsed_iff :
      (path : P.FilePath) (cfg : C) (message : List ℕ) (r : Result C)
      → (parsed_config path (in_context message r) ≡ ok cfg)
        ↔ ((raw : C) × (r ≡ ok raw) × (finish path raw ≡ ok cfg))
  parsed_iff path cfg message (ok raw) =
      (λ h. (raw, refl, h), λ (x, e, h). let same : raw ≡ x = cc in ap (finish path) same ∙ h)
  parsed_iff path cfg message (err e) = (λ h. cc, λ (x, e', h). cc)

  read_iff :
      (path : P.FilePath) (cfg : C) (message : List ℕ) (r : Result (List ℕ))
      → (read_config path (in_context message r) ≡ ok cfg) ↔ (
          (content : List ℕ) × (raw : C) × (r ≡ ok content)
          × (store.from_str content ≡ ok raw)
          × (finish path raw ≡ ok cfg))
  read_iff path cfg message (ok content) =
      let parsed =
        parsed_iff path cfg (text "parsing config " ++ P.display path) (store.from_str content) in
      (
        λ h. let (raw, e, f) = parsed.0 h in (content, raw, refl, e, f),
        λ (x, raw, e, p, f).
            let same : content ≡ x = cc in parsed.1 (raw, ap store.from_str same ∙ p, f),
      )
  read_iff path cfg message (err e) = (λ h. cc, λ (x, raw, e', p, f). cc)

  load_with_iff : (path : P.FilePath) (cfg : C) → (load_with path ≡ ok cfg) ↔ IsLoaded path cfg
  unfolding load_with
  load_with_iff path cfg =
      read_iff path cfg (text "reading config " ++ P.display path) (store.read_to_string path)

-- `cfg.validate()?; Ok(cfg)`
abbrev pub checked : {C : Type 0} → C → Result (Unit {0}) → Result C
checked cfg (ok _) = ok cfg
checked cfg (err e) = err e

checked_iff :
    {C : Type 0} (c d : C) (r : Result (Unit {0})) → (checked c r ≡ ok d) ↔ ((c ≡ d) × (r ≡ ok tt))
checked_iff c d (ok u) = (λ h. (cc, refl), λ (e, k). ap ok e)
checked_iff c d (err e) = (λ h. cc, λ (e', k). cc)

-- `located` is what `load` makes of the paths in the configuration.
module _ (P : Paths) {C : Type 0} (store : Store P C) (located : P.FilePath → C → C)
    (validate : C → Result (Unit {0})) where
  unfoldable pub load_checked : P.FilePath → Result C
  unfolding load_with
  load_checked path =
      load_with P store (λ p raw. checked (located p raw) (validate (located p raw))) path

  -- The file is read, it holds a configuration, and this one, with its paths located, passes.
  abbrev pub IsChecked : P.FilePath → C → Type 0
  IsChecked path cfg =
      (content : List ℕ) × (raw : C) × (store.read_to_string path ≡ ok content)
      × (store.from_str content ≡ ok raw)
      × (located path raw ≡ cfg)
      × (validate cfg ≡ ok tt)

  pub load_checked_iff :
      (path : P.FilePath) (cfg : C) → (load_checked path ≡ ok cfg) ↔ IsChecked path cfg
  unfolding load_checked
  load_checked_iff path cfg =
      let finish : P.FilePath → C → Result C =
        λ p raw. checked (located p raw) (validate (located p raw)) in
      let loaded = load_with_iff P store finish path cfg in
      (
        λ h.
            let (content, raw, e, p, f) = loaded.0 h in
            let (same, passed) = (checked_iff _ cfg _).0 f in
            (content, raw, e, p, same, sym (ap validate same) ∙ passed),
        λ (content, raw, e, p, same, passed).
            loaded.1
              (content, raw, e, p, (checked_iff _ cfg _).1 (same, ap validate same ∙ passed)),
      )

-- How a path in the configuration file at `path` is read: an absolute one as it is, and a relative one
-- from the directory of that file, or from the working directory where the path names no other.
module _ (P : Paths) (names : PathNames P) where
  abbrev pub IsBase : P.FilePath → P.FilePath → Type 0
  IsBase path base =
      (P.parent path ≡ some base) ⊎ ((P.parent path ≡ none) × (base ≡ names.from_name (text ".")))

  abbrev pub IsBeside : P.FilePath → (given used : List ℕ) → Type 0
  IsBeside path given used =
      ((names.is_absolute given ≡ true) × (used ≡ given))
      ⊎ ((names.is_absolute given ≡ false)
          × ((base : P.FilePath) × IsBase path base × (used ≡ names.to_name (P.join base given))))

  -- `path.parent().unwrap_or_else(|| Path::new("."))`
  abbrev pub base_of : Option P.FilePath → P.FilePath
  base_of (some dir) = dir
  base_of none = names.from_name (text ".")

  base_of-IsBase : (path : P.FilePath) → IsBase path (base_of (P.parent path))
  base_of-IsBase path = by_parent (P.parent path) refl
    where
      by_parent : (dir : Option P.FilePath) → P.parent path ≡ dir → IsBase path (base_of dir)
      by_parent (some dir) e = inl e
      by_parent none e = inr (e, refl)

  base_only : (path base : P.FilePath) → IsBase path base → base_of (P.parent path) ≡ base
  base_only path base (inl e) = ap base_of e
  base_only path base (inr (e, here)) = ap base_of e ∙ sym here

  pub located_iff :
      (path : P.FilePath) (given used : List ℕ)
      → ((if names.is_absolute given
            then given
            else names.to_name (P.join (base_of (P.parent path)) given))
          ≡ used)
        ↔ IsBeside path given used
  located_iff path given used = by_kind (names.is_absolute given) refl
    where
      by_kind :
          (absolute : Bool)
          → names.is_absolute given ≡ absolute
          → ((if absolute then given else names.to_name (P.join (base_of (P.parent path)) given))
              ≡ used)
            ↔ IsBeside path given used
      by_kind true e = (
        λ h. inl (e, sym h),
        λ h. elim h [ inl (k, same) ↦ sym same | inr (k, rest) ↦ cc (e, k) ],
      )
      by_kind false e = (
        λ h. inr (e, (base_of (P.parent path), base_of-IsBase path, sym h)),
        λ h. elim h [
          | inl (k, same) ↦ cc (e, k)
          | inr (k, (base, is_base, same)) ↦
              ap (λ b. names.to_name (P.join b given)) (base_only path base is_base) ∙ sym same
        ],
      )
