-- ===== src/Install/Program.antt =====
-- src/bin/installer.rs, as it is built for Unix: the subcommands.
--
-- What is printed is left out, and the pause before the process ends.
use rust_api_boilerplate.Prelude.{
  true, false, ◌&&◌, ◌||◌, not, List, [], ◌∷◌, ◌++◌, String, ok, err, if◌then◌else◌, unwrap_or,
  ◌==◌, text_eq,
}
use Prim.Native.String.{◌++◌ as str_append}
use rust_api_boilerplate.Prelude.Actions.{◌>>◌, when}
use rust_api_boilerplate.Install.System.{
  PathBuf, Machine, Run, join, exists, fatal, create_dir_all, copy_file, set_executable, save,
  remove_file_if_exists, remove_dir_if_exists,
}
use rust_api_boilerplate.Install.Options.{
  Flags, Options, parse_args, choose, installer_dir, is_interactive, gather, uninstall_dir,
}

-- `format!` on its pieces.
unfoldable pub format : List String → String
format [] = ""
format (piece ∷ pieces) = str_append piece (format pieces)

abbrev pub binary_names : List String
binary_names = "api" ∷ "worker" ∷ "updater" ∷ "installer" ∷ "uninstaller" ∷ []

abbrev pub systemctl : List String → List String
systemctl args = "systemctl" ∷ args

unfoldable pub config_path : PathBuf → PathBuf
config_path install_dir = join (join install_dir "config") "default.yaml"

module _ {Bytes : Type 0} (m : Machine Bytes) where
  -- The status of the command is only printed.
  unfoldable pub run_cmd : List String → Run m
  run_cmd args s =
      if m.faults.spawn args
      then (ok tt, record s { commands = s.commands ++ (args ∷ []) })
      else fatal m s

  unfoldable pub unit_path : String → PathBuf
  unit_path name = m.path_of (format ("/etc/systemd/system/" ∷ name ∷ ".service" ∷ []))

  unfoldable pub unit_text : String → String → String → PathBuf → String
  unit_text name display desc install_dir = format (
      "# DisplayName: "
      ∷ display
      ∷ "\n[Unit]\nDescription="
      ∷ desc
      ∷ "\nAfter=network-online.target\nWants=network-online.target\n\n[Service]\nType=simple\n"
      ∷ "ExecStart="
      ∷ m.display (join install_dir "api")
      ∷ "\nWorkingDirectory="
      ∷ m.display install_dir
      ∷ "\nEnvironment=APP_ENV=production\nEnvironment=APP_CONFIG_DIR="
      ∷ m.display (join install_dir "config")
      ∷ "\nRestart=on-failure\nRestartSec=5\nStandardOutput=journal\nStandardError=journal\n"
      ∷ "SyslogIdentifier="
      ∷ name
      ∷ "\n\n[Install]\nWantedBy=multi-user.target\n"
      ∷ [])

  unfoldable pub register_service : String → String → String → PathBuf → Run m
  register_service name display desc install_dir =
      save m (unit_path name) (m.content (unit_text name display desc install_dir))
      >> run_cmd (systemctl ("daemon-reload" ∷ []))
      >> run_cmd (systemctl ("enable" ∷ name ∷ []))

  unfoldable pub deregister_service : String → Run m
  deregister_service name =
      run_cmd (systemctl ("disable" ∷ "--now" ∷ name ∷ []))
      >> remove_file_if_exists m (unit_path name)
      >> run_cmd (systemctl ("daemon-reload" ∷ []))

  unfoldable pub start_service : String → Run m
  start_service name = run_cmd (systemctl ("start" ∷ name ∷ []))

  unfoldable pub stop_service : String → Run m
  stop_service name = run_cmd (systemctl ("stop" ∷ name ∷ []))

  -- A failure to run the command is ignored.
  unfoldable pub show_status : String → Run m
  show_status name s = (ok tt, (run_cmd (systemctl ("status" ∷ name ∷ [])) s).1)

  -- One round of the loop on the binaries.
  unfoldable pub copy_binary : PathBuf → PathBuf → String → Run m
  copy_binary src_dir install_dir name s =
      if exists m (join src_dir name) s
      then (copy_file m (join src_dir name) (join install_dir name)
            >> set_executable m (join install_dir name))
          s
      else (ok tt, s)

  unfoldable pub copy_binaries : PathBuf → PathBuf → List String → Run m
  copy_binaries src_dir install_dir [] s = (ok tt, s)
  copy_binaries src_dir install_dir (name ∷ names) s =
      (copy_binary src_dir install_dir name >> copy_binaries src_dir install_dir names) s

  unfoldable pub save_config : PathBuf → Run m
  save_config install_dir s =
      if exists m (config_path install_dir) s
      then (ok tt, s)
      else save m (config_path install_dir) m.default_config s

  -- From `// 1.` on.
  unfoldable pub install_with : Options → Run m
  install_with o =
      create_dir_all m o.install_dir
      >> create_dir_all m (join o.install_dir "config")
      >> copy_binaries (installer_dir m) o.install_dir binary_names
      >> save_config o.install_dir
      >> register_service o.service_name o.display_name o.description o.install_dir
      >> when o.should_start (start_service o.service_name)

  unfoldable pub cmd_install : Flags → Run m
  cmd_install flags s =
      if not m.is_root
      then fatal m s
      else if is_interactive m flags && not (unwrap_or m.answers.proceed true)
      then (ok tt, s)
      else install_with (gather m flags) s

  unfoldable pub uninstall_with : String → PathBuf → Run m
  uninstall_with service_name install_dir =
      stop_service service_name
      >> deregister_service service_name
      >> remove_dir_if_exists m install_dir

  unfoldable pub cmd_uninstall : Flags → Run m
  cmd_uninstall flags s =
      if not m.is_root
      then fatal m s
      else if is_interactive m flags && not (unwrap_or m.answers.proceed false)
      then (ok tt, s)
      else uninstall_with (gather m flags).service_name (uninstall_dir m flags) s

  unfoldable pub cmd_status : Flags → Run m
  cmd_status flags = show_status (gather m flags).service_name

  unfoldable pub dispatch : String → Flags → Run m
  dispatch subcommand flags s =
      if subcommand == "install"
      then cmd_install flags s
      else if subcommand == "uninstall"
      then cmd_uninstall flags s
      else if subcommand == "status"
      then cmd_status flags s
      else if subcommand == "help" || (subcommand == "--help" || subcommand == "-h")
      then (ok tt, s)
      else (err 2, s)

  unfoldable pub main : List String → Run m
  main args s = elim (parse_args m args) [
    | err code ↦ (err code, s)
    | ok (subcommand, flags) ↦ dispatch (choose m args subcommand) flags s
  ]
