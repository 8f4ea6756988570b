-- ===== src/Locating/Agreed.antt =====
-- The four programs look for their configuration files in the same way.
use vpn_bridge.Io.{Result, err, ok}
use vpn_bridge.Locating.{Paths, Process}
use vpn_bridge.Prelude.{List, Option, ap, if◌then◌else◌, none, refl, some, ℕ, ◌≡◌}
use vpn_bridge.Server.Locate.{choose_adjacent, choose_config_path, chosen_in, resolve_config_path}
use vpn_bridge.Client.Locate as InClient
use vpn_bridge.Host.Locate as InHost
use vpn_bridge.Server.Locate as InServer
use vpn_bridge.Vm.Locate as InVm

module _ (P : Paths) (here : Process P) where
  abbrev AllSame : (a b c d : Result P.FilePath) → Type 0
  AllSame a b c d = (b ≡ a) × (c ≡ a) × (d ≡ a)

  same_adjacent :
      (file_name : List ℕ) (current : P.FilePath) (dir : Option P.FilePath)
      → AllSame
          (InVm.choose_adjacent P here file_name current dir)
          (InHost.choose_adjacent P here file_name current dir)
          (InServer.choose_adjacent P here file_name current dir)
          (InClient.choose_adjacent P here file_name current dir)
  same_adjacent file_name current none = (refl, refl, refl)
  same_adjacent file_name current (some dir) = (refl, refl, refl)

  same_choice :
      (file_name : List ℕ) (dir exe : P.FilePath)
      → AllSame
          (InVm.choose_config_path P here file_name dir exe)
          (InHost.choose_config_path P here file_name dir exe)
          (InServer.choose_config_path P here file_name dir exe)
          (InClient.choose_config_path P here file_name dir exe)
  unfolding InVm.choose_config_path InHost.choose_config_path InServer.choose_config_path
      InClient.choose_config_path
  same_choice file_name dir exe =
      let (h, s, c) = same_adjacent file_name (P.join dir file_name) (P.parent exe) in
      let either = λ (r : Result P.FilePath).
        if here.is_file (P.join dir file_name) then ok (P.join dir file_name) else r in
      (ap either h, ap either s, ap either c)

  same_chosen :
      (file_name : List ℕ) (dir exe : Result P.FilePath)
      → AllSame
          (InVm.chosen_in P here file_name dir exe)
          (InHost.chosen_in P here file_name dir exe)
          (InServer.chosen_in P here file_name dir exe)
          (InClient.chosen_in P here file_name dir exe)
  same_chosen file_name (err e) exe = (refl, refl, refl)
  same_chosen file_name (ok dir) (err e) = (refl, refl, refl)
  same_chosen file_name (ok dir) (ok exe) = same_choice file_name dir exe

  -- In the same surroundings, and given the same file name, the host agent, the proxy server and the
  -- proxy client choose the file that the agent in the VM would choose, or fail with the same error.
  pub resolve_config_path-same :
      (explicit : Option P.FilePath) (file_name : List ℕ)
      → AllSame
          (InVm.resolve_config_path P here explicit file_name)
          (InHost.resolve_config_path P here explicit file_name)
          (InServer.resolve_config_path P here explicit file_name)
          (InClient.resolve_config_path P here explicit file_name)
  unfolding InVm.resolve_config_path InHost.resolve_config_path InServer.resolve_config_path
      InClient.resolve_config_path
  resolve_config_path-same (some path) file_name = (refl, refl, refl)
  resolve_config_path-same none file_name = same_chosen file_name here.current_dir here.current_exe
