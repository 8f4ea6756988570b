-- ===== src/Shell.antt =====
-- `std::process::Command` as both route managers use it: a parameter, with the texts that they make of
-- what it answers.
use vpn_bridge.Checks.{bail}
use vpn_bridge.Handshake.{in_context}
use vpn_bridge.Io.{Result, err, ok}
use vpn_bridge.Io.Text.{from_utf8_lossy, text}
use vpn_bridge.Prelude.{
  Bool, List, [], ap, ap₂, false, if◌then◌else◌, refl, sym, true, ℕ, ◌++◌, ◌∙◌, ◌∷◌, ◌≡◌,
}

-- `std::process::Output`, with the exit status as it is displayed.
pub record Output : Type 0 where
  pub success : Bool
  pub status : List ℕ
  pub stdout : List ℕ
  pub stderr : List ℕ

-- A machine, and what a program with its arguments does to it and answers.
pub record Shell : Type 1 where
  pub Machine : Type 0
  pub execute : List ℕ → List (List ℕ) → Machine → Result Output × Machine
  -- `str::trim`
  pub trim : List ℕ → List ℕ

-- `args.join(" ")`
abbrev pub joined : List (List ℕ) → List ℕ
joined [] = []
joined (word ∷ []) = word
joined (word ∷ next_word ∷ words) = word ++ (text " " ++ joined (next_word ∷ words))

module _ (sh : Shell) where
  abbrev pub command_line : List ℕ → List (List ℕ) → List ℕ
  command_line program args = text "`" ++ program ++ text " " ++ joined args ++ text "`"

  -- The standard output of a command that succeeded.
  abbrev pub judged : List ℕ → List (List ℕ) → Result Output → Result (List ℕ)
  judged program args (err e) = in_context (text "running " ++ command_line program args) (err e)
  judged program args (ok out) =
      if out.success
      then ok (from_utf8_lossy out.stdout)
      else bail (
          command_line program args
          ++ text " failed ("
          ++ out.status
          ++ text "): "
          ++ sh.trim (from_utf8_lossy out.stderr))

  -- Whether a command succeeded, and the machine behind it.
  abbrev pub changed_by : {A : Type 0} → Result A × sh.Machine → Bool × sh.Machine
  changed_by (ok out, m) = (true, m)
  changed_by (err e, m) = (false, m)

  -- The command changed the machine from `m` to `m'`, and said that it succeeded.
  abbrev pub Succeeds : List ℕ → List (List ℕ) → sh.Machine → sh.Machine → Type 0
  Succeeds program args m m' =
      (out : Output) × (sh.execute program args m ≡ (ok out, m')) × (out.success ≡ true)

  -- What `undo` is documented to do behind `args`: to leave the machine as it was before.
  abbrev pub Undoes : List ℕ → (args undo : List (List ℕ)) → Type 0
  Undoes program args undo =
      (m m' : sh.Machine) → Succeeds program args m m' → Succeeds program undo m' m

  -- A command that could not be started, or that said that it failed.
  abbrev pub IsFailure : Result Output → Type 0
  IsFailure (ok out) = out.success ≡ false
  IsFailure (err e) = Unit {0}

  -- The command leaves the machine as it is where it fails.
  abbrev pub KeepsOnFailure : List ℕ → List (List ℕ) → Type 0
  KeepsOnFailure program args =
      (m m' : sh.Machine) (r : Result Output)
      → sh.execute program args m ≡ (r, m')
      → IsFailure r
      → m' ≡ m

  by_success :
      (success went : Bool) (answer message : List ℕ) (m m' : sh.Machine)
      → changed_by (if success then ok answer else bail message, m) ≡ (went, m')
      → (m ≡ m') × (success ≡ went)
  by_success true went answer message m m' h = (ap (λ r. r.1) h, ap (λ r. r.0) h)
  by_success false went answer message m m' h = (ap (λ r. r.1) h, ap (λ r. r.0) h)

  judged_success :
      (program : List ℕ) (args : List (List ℕ)) (r : Result Output) (m m' : sh.Machine)
      → changed_by (judged program args r, m) ≡ (true, m')
      → (out : Output) × (r ≡ ok out) × (m ≡ m') × (out.success ≡ true)
  judged_success program args (err e) m m' h = cc
  judged_success program args (ok out) m m' h =
      let (same, went) = by_success out.success true _ _ m m' h in (out, refl, same, went)

  -- `run`: the standard output of a command that succeeded.
  abbrev pub run_command : List ℕ → List (List ℕ) → sh.Machine → Result (List ℕ) × sh.Machine
  run_command program args m =
      let answer = sh.execute program args m in (judged program args answer.0, answer.1)

  pub run_command-Succeeds :
      (program : List ℕ) (args : List (List ℕ)) (m m' : sh.Machine)
      → changed_by (run_command program args m) ≡ (true, m')
      → Succeeds program args m m'
  run_command-Succeeds program args m m' h =
      let (out, e, same, went) =
        judged_success program args (sh.execute program args m).0 (sh.execute program args m).1 m'
          h in
      (out, ap₂ (λ x y. (x, y)) e same, went)

  pub Succeeds-run_command :
      (program : List ℕ) (args : List (List ℕ)) (m m' : sh.Machine)
      → Succeeds program args m m'
      → changed_by (run_command program args m) ≡ (true, m')
  Succeeds-run_command program args m m' (out, e, went) =
      ap (λ r. changed_by (judged program args r.0, r.1)) e ∙ rw went refl

  judged-IsFailure :
      (program : List ℕ) (args : List (List ℕ)) (r : Result Output) (m m' : sh.Machine)
      → changed_by (judged program args r, m) ≡ (false, m')
      → IsFailure r × (m ≡ m')
  judged-IsFailure program args (err e) m m' h = (tt, ap (λ r. r.1) h)
  judged-IsFailure program args (ok out) m m' h =
      let (same, failed) = by_success out.success false _ _ m m' h in (failed, same)

  pub run_command-KeepsOnFailure :
      (program : List ℕ) (args : List (List ℕ)) (m m' : sh.Machine)
      → KeepsOnFailure program args
      → changed_by (run_command program args m) ≡ (false, m')
      → m' ≡ m
  run_command-KeepsOnFailure program args m m' keeps h =
      let answer = sh.execute program args m in
      let (failed, same) = judged-IsFailure program args answer.0 answer.1 m' h in
      sym same ∙ keeps m answer.1 answer.0 refl failed
