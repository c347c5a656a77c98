-- ===== src/Install/Arguments.antt =====
-- The command lines of src/bin/installer.rs.
use rust_api_boilerplate.Prelude.{◌≡◌, ◌∙◌, refl, true, some, List, [], ◌∷◌, String, ok, text_eq}
use rust_api_boilerplate.Install.System.{PathBuf, System, Machine}
use rust_api_boilerplate.Install.Options.{
  Flags, no_flags, value_flag, switch, parse_flags, parse_args, choose,
}
use rust_api_boilerplate.Install.Program.{cmd_install, cmd_uninstall, dispatch, main}

-- What a user may ask for, with any texts.
pub data Setting : Type 0 where
  install_dir service_name display_name description : String → Setting
  no_start non_interactive : Setting

abbrev pub args_of : List Setting → List String
args_of [] = []
args_of (install_dir v ∷ settings) = "--install-dir" ∷ v ∷ args_of settings
args_of (service_name v ∷ settings) = "--service-name" ∷ v ∷ args_of settings
args_of (display_name v ∷ settings) = "--display-name" ∷ v ∷ args_of settings
args_of (description v ∷ settings) = "--description" ∷ v ∷ args_of settings
args_of (no_start ∷ settings) = "--no-start" ∷ args_of settings
args_of (non_interactive ∷ settings) = "--non-interactive" ∷ args_of settings

-- The settings in turn: a later one stands over an earlier one.
abbrev pub settle : (String → PathBuf) → List Setting → Flags → Flags
settle path_of [] f = f
settle path_of (install_dir v ∷ settings) f =
    settle path_of settings (record f { install_dir = some (path_of v) })
settle path_of (service_name v ∷ settings) f =
    settle path_of settings (record f { service_name = some v })
settle path_of (display_name v ∷ settings) f =
    settle path_of settings (record f { display_name = some v })
settle path_of (description v ∷ settings) f =
    settle path_of settings (record f { description = some v })
settle path_of (no_start ∷ settings) f = settle path_of settings (record f { no_start = true })
settle path_of (non_interactive ∷ settings) f =
    settle path_of settings (record f { non_interactive = true })

module _ {Bytes : Type 0} (m : Machine Bytes) where
  parse_no_start :
      (args : List String) (f : Flags)
      → parse_flags m ("--no-start" ∷ args) f ≡ parse_flags m args (record f { no_start = true })
  unfolding parse_flags value_flag switch
  parse_no_start [] f = refl
  parse_no_start (a ∷ args) f = refl

  parse_non_interactive :
      (args : List String) (f : Flags)
      → parse_flags m ("--non-interactive" ∷ args) f
        ≡ parse_flags m args (record f { non_interactive = true })
  unfolding parse_flags value_flag switch
  parse_non_interactive [] f = refl
  parse_non_interactive (a ∷ args) f = refl

  parse_flags-args_of :
      (settings : List Setting) (f : Flags)
      → parse_flags m (args_of settings) f ≡ ok (settle m.path_of settings f)
  unfolding parse_flags value_flag
  parse_flags-args_of [] f = refl
  parse_flags-args_of (install_dir v ∷ settings) f =
      parse_flags-args_of settings (record f { install_dir = some (m.path_of v) })
  parse_flags-args_of (service_name v ∷ settings) f =
      parse_flags-args_of settings (record f { service_name = some v })
  parse_flags-args_of (display_name v ∷ settings) f =
      parse_flags-args_of settings (record f { display_name = some v })
  parse_flags-args_of (description v ∷ settings) f =
      parse_flags-args_of settings (record f { description = some v })
  parse_flags-args_of (no_start ∷ settings) f =
      parse_no_start (args_of settings) f
      ∙ parse_flags-args_of settings (record f { no_start = true })
  parse_flags-args_of (non_interactive ∷ settings) f =
      parse_non_interactive (args_of settings) f
      ∙ parse_flags-args_of settings (record f { non_interactive = true })

  -- `installer install` and `installer uninstall` with any settings run the subcommand on them.
  pub main_install :
      (settings : List Setting) (s : System Bytes)
      → main m ("install" ∷ args_of settings) s
        ≡ cmd_install m (settle m.path_of settings no_flags) s
  unfolding main parse_args choose dispatch
  main_install settings s = rw (main, parse_args, parse_flags-args_of settings no_flags) refl

  pub main_uninstall :
      (settings : List Setting) (s : System Bytes)
      → main m ("uninstall" ∷ args_of settings) s
        ≡ cmd_uninstall m (settle m.path_of settings no_flags) s
  unfolding main parse_args choose dispatch
  main_uninstall settings s = rw (main, parse_args, parse_flags-args_of settings no_flags) refl
