-- ===== src/Vm/Locate.antt =====
-- crates/vm/src/main.rs: `resolve_config_path` and `choose_config_path`.
use vpn_bridge.Checks.{bail}
use vpn_bridge.Handshake.{in_context}
use vpn_bridge.Io.{Result, err, ok}
use vpn_bridge.Io.Text.{text}
use vpn_bridge.Locating.{FirstFile, IsLocated, Paths, Process, beside}
use vpn_bridge.Prelude.{
  Bool, List, Option, ap, false, if◌then◌else◌, inl, inr, none, refl, some, subst₂, true, ℕ, ◌++◌,
  ◌↔◌, ◌∷◌, ◌≡◌, ◌⊎◌,
}

module _ (P : Paths) (here : Process P) where
  abbrev pub choose_adjacent : List ℕ → P.FilePath → Option P.FilePath → Result P.FilePath
  choose_adjacent file_name current none = bail (text "executable path has no parent directory")
  choose_adjacent file_name current (some dir) =
      let adjacent = P.join dir file_name in
      if here.is_file adjacent
      then ok adjacent
      else bail (
          text "configuration file `"
          ++ file_name
          ++ text "` not found; checked "
          ++ P.display current
          ++ text " and "
          ++ P.display adjacent)

  unfoldable pub choose_config_path : List ℕ → P.FilePath → P.FilePath → Result P.FilePath
  choose_config_path file_name current_dir executable =
      let current = P.join current_dir file_name in
      if here.is_file current
      then ok current
      else choose_adjacent file_name current (P.parent executable)

  abbrev pub chosen_in : List ℕ → Result P.FilePath → Result P.FilePath → Result P.FilePath
  chosen_in file_name (err e) exe = in_context (text "getting current working directory") (err e)
  chosen_in file_name (ok dir) (err e) = in_context (text "getting executable path") (err e)
  chosen_in file_name (ok dir) (ok exe) = choose_config_path file_name dir exe

  unfoldable pub resolve_config_path : Option P.FilePath → List ℕ → Result P.FilePath
  unfolding choose_config_path
  resolve_config_path (some path) file_name = ok path
  resolve_config_path none file_name = chosen_in file_name here.current_dir here.current_exe

  first_by :
      {Q : Type 0} (there : Bool) (q p : P.FilePath) (rest : Result P.FilePath)
      → ((rest ≡ ok p) ↔ Q)
      → ((if there then ok q else rest) ≡ ok p)
        ↔ (((q ≡ p) × (there ≡ true)) ⊎ ((there ≡ false) × Q))
  first_by true q p rest later =
      (λ h. inl (cc, refl), λ h. elim h [ inl (e, t) ↦ ap ok e | inr (t, more) ↦ cc ])
  first_by false q p rest later =
      (λ h. inr (refl, later.0 h), λ h. elim h [ inl (e, t) ↦ cc | inr (t, more) ↦ later.1 more ])

  adjacent_iff :
      (file_name : List ℕ) (current p : P.FilePath) (dir : Option P.FilePath)
      → (choose_adjacent file_name current dir ≡ ok p)
        ↔ FirstFile P here p (beside P here file_name dir)
  adjacent_iff file_name current p none = (λ h. cc, λ h. absurd h)
  adjacent_iff file_name current p (some dir) =
      first_by (here.is_file (P.join dir file_name)) (P.join dir file_name) p _
        (λ h. cc, λ h. absurd h)

  chosen_iff :
      (file_name : List ℕ) (p : P.FilePath) (dir exe : Result P.FilePath)
      → (chosen_in file_name dir exe ≡ ok p) ↔ (
          (d : P.FilePath) × (e : P.FilePath) × (dir ≡ ok d)
          × (exe ≡ ok e)
          × FirstFile P here p (P.join d file_name ∷ beside P here file_name (P.parent e)))
  unfolding choose_config_path
  chosen_iff file_name p (err e) exe = (λ h. cc, λ (d, x, hd, hx, found). cc)
  chosen_iff file_name p (ok dir) (err e) = (λ h. cc, λ (d, x, hd, hx, found). cc)
  chosen_iff file_name p (ok dir) (ok exe) =
      let choice =
        first_by (here.is_file (P.join dir file_name)) (P.join dir file_name) p
          (choose_adjacent file_name (P.join dir file_name) (P.parent exe))
          (adjacent_iff file_name (P.join dir file_name) p (P.parent exe)) in
      (
        λ h. (dir, exe, refl, refl, choice.0 h),
        λ (d, x, hd, hx, found).
            let same_dir : d ≡ dir = cc in
            let same_exe : x ≡ exe = cc in
            choice.1 (
              subst₂
                (λ a b.
                  FirstFile P here p (P.join a file_name ∷ beside P here file_name (P.parent b)))
                same_dir same_exe found),
      )

  -- The configuration file is the one named on the command line; with none named, it is the one in
  -- the working directory, and where there is none, the one beside the program. Where neither is
  -- there, or the process does not know its directories, there is no answer.
  pub resolve_config_path_iff :
      (explicit : Option P.FilePath) (file_name : List ℕ) (p : P.FilePath)
      → (resolve_config_path explicit file_name ≡ ok p) ↔ IsLocated P here explicit file_name p
  unfolding resolve_config_path
  resolve_config_path_iff (some q) file_name p = (λ h. cc, λ h. ap ok h)
  resolve_config_path_iff none file_name p =
      chosen_iff file_name p here.current_dir here.current_exe
