-- ===== src/Locating.antt =====
-- The search for the configuration file that every program of the repository makes
-- (`resolve_config_path` in each main.rs): file names and the process as interfaces, and what the
-- search is to find.
use vpn_bridge.Io.{Result, ok}
use vpn_bridge.Prelude.{Bool, List, Option, [], false, none, some, true, ℕ, ◌∷◌, ◌≡◌, ◌⊎◌}
pub mod Agreed

-- `std::path::Path`
pub record Paths : Type 1 where
  pub FilePath : Type 0
  pub join : FilePath → List ℕ → FilePath
  pub parent : FilePath → Option FilePath
  pub display : FilePath → List ℕ

-- `std::env::current_dir`, `std::env::current_exe` and `Path::is_file`.
pub record Process (P : Paths) : Type 0 where
  pub current_dir : Result P.FilePath
  pub current_exe : Result P.FilePath
  pub is_file : P.FilePath → Bool

module _ (P : Paths) (here : Process P) where
  -- The first of the paths at which there is a file.
  abbrev pub FirstFile : P.FilePath → List P.FilePath → Type 0
  FirstFile p [] = ⊥
  FirstFile p (q ∷ more) =
      ((q ≡ p) × (here.is_file q ≡ true)) ⊎ ((here.is_file q ≡ false) × FirstFile p more)

  abbrev pub beside : List ℕ → Option P.FilePath → List P.FilePath
  beside file_name none = []
  beside file_name (some dir) = P.join dir file_name ∷ []

  -- The file named on the command line, whether it is there or not; with none, the first there is
  -- in the working directory and then beside the program.
  abbrev pub IsLocated : Option P.FilePath → List ℕ → P.FilePath → Type 0
  IsLocated (some q) file_name p = q ≡ p
  IsLocated none file_name p =
      (dir : P.FilePath) × (exe : P.FilePath) × (here.current_dir ≡ ok dir)
      × (here.current_exe ≡ ok exe)
      × FirstFile p (P.join dir file_name ∷ beside file_name (P.parent exe))
