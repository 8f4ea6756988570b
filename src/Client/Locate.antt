-- ===== src/Client/Locate.antt =====
-- crates/proxy-client/src/main.rs: `resolve_config_path` and `choose_config_path`.
use vpn_bridge.Checks.{bail}
use vpn_bridge.Handshake.{in_context}
use vpn_bridge.Io.{Result, err, ok}
use vpn_bridge.Io.Text.{text}
use vpn_bridge.Locating.{Paths, Process}
use vpn_bridge.Prelude.{List, Option, if◌then◌else◌, none, some, ℕ, ◌++◌}

module _ (P : Paths) (here : Process P) where
  abbrev pub choose_adjacent : List ℕ → P.FilePath → Option P.FilePath → Result P.FilePath
  choose_adjacent file_name current none = bail (text "executable path has no parent directory")
  choose_adjacent file_name current (some dir) =
      let adjacent = P.join dir file_name in
      if here.is_file adjacent
      then ok adjacent
      else bail (
          text "configuration file `"
          ++ file_name
          ++ text "` not found; checked "
          ++ P.display current
          ++ text " and "
          ++ P.display adjacent)

  unfoldable pub choose_config_path : List ℕ → P.FilePath → P.FilePath → Result P.FilePath
  choose_config_path file_name current_dir executable =
      let current = P.join current_dir file_name in
      if here.is_file current
      then ok current
      else choose_adjacent file_name current (P.parent executable)

  abbrev pub chosen_in : List ℕ → Result P.FilePath → Result P.FilePath → Result P.FilePath
  chosen_in file_name (err e) exe = in_context (text "getting current working directory") (err e)
  chosen_in file_name (ok dir) (err e) = in_context (text "getting executable path") (err e)
  chosen_in file_name (ok dir) (ok exe) = choose_config_path file_name dir exe

  unfoldable pub resolve_config_path : Option P.FilePath → List ℕ → Result P.FilePath
  unfolding choose_config_path
  resolve_config_path (some path) file_name = ok path
  resolve_config_path none file_name = chosen_in file_name here.current_dir here.current_exe
