-- ===== src/Install/Uninstaller.antt =====
-- src/bin/uninstaller.rs, as it is built for Unix. It asks whether its output is a terminal.
use rust_api_boilerplate.Prelude.{
  ℕ, Bool, true, false, ◌&&◌, ◌||◌, not, Option, none, some, List, [], ◌∷◌, ◌++◌, String, Result,
  ok, err, if◌then◌else◌, unwrap_or, ◌==◌, text_eq,
}
use rust_api_boilerplate.Prelude.Actions.{◌>>◌}
use rust_api_boilerplate.Install.System.{
  PathBuf, Machine, Run, fatal, remove_file_if_exists, remove_dir_if_exists,
}
use rust_api_boilerplate.Install.Options.{installer_dir}
use rust_api_boilerplate.Install.Program.{systemctl, unit_path}

pub record Flags : Type 0 where
  pub service_name : Option String
  pub install_dir : Option PathBuf
  pub non_interactive : Bool

abbrev pub no_flags : Flags
no_flags = record { service_name = none; install_dir = none; non_interactive = false }

module _ {Bytes : Type 0} (m : Machine Bytes) where
  unfoldable pub value_flag : String → Option (String → Flags → Flags)
  value_flag flag =
      if flag == "--service-name"
      then some (λ v f. record f { service_name = some v })
      else if flag == "--install-dir"
      then some (λ v f. record f { install_dir = some (m.path_of v) })
      else none

  -- The other flags: `none` for the help text, and an unknown one ends the process.
  unfoldable pub switch : String → Flags → Result ℕ (Option Flags)
  switch flag f =
      if flag == "--help" || flag == "-h"
      then ok none
      else if flag == "--non-interactive"
      then ok (some (record f { non_interactive = true }))
      else err 2

  -- The arguments after the program's name; `none` where the help text is asked for.
  unfoldable pub parse_args : List String → Flags → Result ℕ (Option Flags)
  parse_args [] f = ok (some f)
  parse_args (flag ∷ []) f = elim (value_flag flag) [
    | some set ↦ ok (some f)
    | none ↦ switch flag f
  ]
  parse_args (flag ∷ value ∷ rest) f = elim (value_flag flag) [
    | some set ↦ parse_args rest (set value f)
    | none ↦ elim (switch flag f) [
      | err code ↦ err code
      | ok none ↦ ok none
      | ok (some f') ↦ parse_args (value ∷ rest) f'
    ]
  ]

  -- A command that cannot be run is only reported.
  unfoldable pub run_cmd : List String → Run m
  run_cmd args s =
      if m.faults.spawn args
      then (ok tt, record s { commands = s.commands ++ (args ∷ []) })
      else (ok tt, s)

  unfoldable pub stop_service : String → Run m
  stop_service name = run_cmd (systemctl ("stop" ∷ name ∷ []))

  unfoldable pub deregister_service : String → Run m
  deregister_service name =
      run_cmd (systemctl ("disable" ∷ name ∷ []))
      >> remove_file_if_exists m (unit_path m name)
      >> run_cmd (systemctl ("daemon-reload" ∷ []))

  unfoldable pub remove_install_dir : PathBuf → Run m
  remove_install_dir = remove_dir_if_exists m

  unfoldable pub remove_service : String → PathBuf → Run m
  remove_service service_name install_dir =
      stop_service service_name >> deregister_service service_name >> remove_install_dir install_dir

  -- The directory of this binary, where no flag names one.
  unfoldable pub target_dir : Flags → PathBuf
  target_dir flags = unwrap_or flags.install_dir (installer_dir m)

  unfoldable pub run : Flags → Run m
  run flags s =
      if not m.is_root
      then fatal m s
      else if (not flags.non_interactive && m.is_stdout_tty)
          && not (unwrap_or m.answers.proceed false)
      then (ok tt, s)
      else remove_service (unwrap_or flags.service_name "api") (target_dir flags) s

  unfoldable pub main : List String → Run m
  main args s = elim (parse_args args no_flags) [
    | err code ↦ (err code, s)
    | ok none ↦ (ok tt, s)
    | ok (some flags) ↦ run flags s
  ]
