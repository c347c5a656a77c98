-- ===== src/Install/Examples.antt =====
-- The theorems on the installer, on a machine with the release in /tmp/release.
use rust_api_boilerplate.Prelude.{List, ◌≡◌, true, false, none, some, [], ◌∷◌, String, ok, refl}
use rust_api_boilerplate.Map
use rust_api_boilerplate.Updater.Program.{File}
use rust_api_boilerplate.Install.System.{PathBuf, System, Machine, Answers, Faults, components_eq}
use rust_api_boilerplate.Install.Options.{
  no_flags, gather, installer_dir, is_interactive, resolve, resolve_dir, default_install_dir,
  uninstall_dir,
}
use rust_api_boilerplate.Install.Program.{
  format, unit_path, config_path, main, cmd_install, cmd_uninstall,
}
use rust_api_boilerplate.Install.Uninstaller
use rust_api_boilerplate.Install.Uninstaller.{target_dir}
use rust_api_boilerplate.Install.Safe.{cmd_install-keeps_config}
use rust_api_boilerplate.Install.Outcome.{Outcome, cmd_install-Outcome}
use rust_api_boilerplate.Install.Removal.{
  with_commands, removed, uninstaller_commands, uninstall_commands,
}
use rust_api_boilerplate.Install.Uninstalls.{guarded, uninstaller-agrees}
use rust_api_boilerplate.Install.Roundtrip.{repaired}
use rust_api_boilerplate.Install.Arguments.{Setting, service_name, non_interactive, args_of}
use rust_api_boilerplate.Install.Programs.{main-main}
use rust_api_boilerplate.Install.Overwritten.{cmd_install-empties}

abbrev answers : Answers
answers = record {
  menu = none;
  service_name = none;
  install_dir = none;
  display_name = none;
  description = none;
  start = none;
  proceed = some true;
}

-- The unit file cannot be written.
abbrev faults : Faults String
faults = record {
  create_dir = λ p. none;
  copy = λ p. none;
  chmod = λ p. true;
  save = λ p. some none;
  remove_file = λ p. true;
  remove_dir = λ p. none;
  spawn = λ args. true;
}

-- A text is one component of a path here.
abbrev machine : Machine String
machine = record {
  is_root = true;
  is_tty = false;
  is_stdout_tty = false;
  current_exe = some ("/tmp/release" ∷ "installer" ∷ []);
  path_of = λ text. text ∷ [];
  display = λ p. "";
  content = λ text. text;
  default_config = "port: 8080";
  answers = answers;
  faults = faults;
}

abbrev binary : String → File String
binary name = record { bytes = name; executable = false }

abbrev release : System String
release = record {
  files =
      ("/tmp/release" ∷ "api" ∷ [], binary "api")
      ∷ ("/tmp/release" ∷ "worker" ∷ [], binary "worker")
      ∷ ("/tmp/release" ∷ "updater" ∷ [], binary "updater")
      ∷ ("/tmp/release" ∷ "installer" ∷ [], binary "installer")
      ∷ ("/tmp/release" ∷ "uninstaller" ∷ [], binary "uninstaller")
      ∷ [];
  dirs = ("/tmp/release" ∷ []) ∷ [];
  commands = [];
}

abbrev config : PathBuf
config = "/opt/api" ∷ "config" ∷ "default.yaml" ∷ []

-- An installed service, with a config of the user's.
abbrev installed : System String
installed = record {
  files = (config, binary "port: 9000") ∷ ("/opt/api" ∷ "api" ∷ [], binary "api") ∷ [];
  dirs = ("/opt/api" ∷ []) ∷ [];
  commands = [];
}

cmd_install-keeps_config_example :
    Map.get config (cmd_install machine no_flags installed).1.files ≡ some (binary "port: 9000")
unfolding gather resolve resolve_dir default_install_dir is_interactive config_path Map.get
    unit_path format
cmd_install-keeps_config_example =
    cmd_install-keeps_config machine no_flags installed (binary "port: 9000") (λ h. cc) refl

cmd_install-Outcome_example :
    Outcome
      (repaired machine)
      (gather (repaired machine) no_flags)
      binary
      true
      false
      release
      (cmd_install (repaired machine) no_flags release)
unfolding gather resolve resolve_dir default_install_dir is_interactive config_path Map.get
    unit_path format installer_dir
cmd_install-Outcome_example =
    cmd_install-Outcome (repaired machine) no_flags binary release refl (λ h. cc) (λ h. cc)
      (λ h. cc, (λ h. cc, (λ h. cc, (λ h. cc, (λ h. cc, tt))))) refl
      (refl, (refl, (refl, (refl, (refl, tt)))))

-- The uninstaller in the install directory.
abbrev beside : Machine String
beside = record machine { current_exe = some ("/opt/api" ∷ "uninstaller" ∷ []) }

uninstaller-agrees_example :
    (Uninstaller.run beside Uninstaller.no_flags installed
      ≡ guarded beside true false installed (
        ok tt,
        with_commands beside
            (uninstaller_commands beside true "api" [])
            (removed beside "api" ("/opt/api" ∷ []) installed),
      ))
    × (cmd_uninstall beside no_flags installed
        ≡ guarded beside true false installed (
          ok tt,
          with_commands beside
              (uninstall_commands beside "api" [])
              (removed beside "api" ("/opt/api" ∷ []) installed),
        ))
unfolding gather resolve resolve_dir default_install_dir is_interactive installer_dir target_dir
    uninstall_dir
uninstaller-agrees_example =
    uninstaller-agrees beside true no_flags Uninstaller.no_flags installed (λ command. refl) refl
      refl refl refl

abbrev settings : List Setting
settings = service_name "shop" ∷ non_interactive ∷ []

main-main_example :
    ((main
        (repaired machine)
        ("uninstall" ∷ args_of settings)
        (main machine ("install" ∷ args_of settings) release).1).0
      ≡ ok tt)
    × (Map.get
          ("/tmp/release" ∷ "api" ∷ [])
          (main
            (repaired machine)
            ("uninstall" ∷ args_of settings)
            (main machine ("install" ∷ args_of settings) release).1).1.files
        ≡ some (binary "api"))
unfolding gather resolve resolve_dir default_install_dir is_interactive uninstall_dir unit_path
    format Map.get
main-main_example =
    main-main machine settings release ("/tmp/release" ∷ "api" ∷ []) refl refl refl refl refl
      (λ h. cc)

-- The installed installer, where the unit file cannot be written.
abbrev in_place : Machine String
in_place = record machine { current_exe = some ("/opt/api" ∷ "installer" ∷ []) }

cmd_install-empties_example :
    Map.get ("/opt/api" ∷ "api" ∷ []) (cmd_install in_place no_flags installed).1.files
    ≡ some (record { bytes = ""; executable = true })
unfolding gather resolve resolve_dir default_install_dir is_interactive unit_path format Map.get
    installer_dir
cmd_install-empties_example =
    cmd_install-empties in_place no_flags installed (binary "api") refl refl refl refl refl refl
      (λ h. cc) refl
