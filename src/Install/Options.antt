-- ===== src/Install/Options.antt =====
-- src/bin/installer.rs: its arguments, the menu and the prompts.
use rust_api_boilerplate.Prelude.{
  ℕ, Bool, true, false, ◌&&◌, not, Option, none, some, List, [], ◌∷◌, String, Result, ok, err,
  ◌>>=◌, if◌then◌else◌, unwrap_or, ◌==◌, text_eq, nat_eq,
}
use Prim.Native.String.{◌++◌ as str_append}
use rust_api_boilerplate.Install.System.{PathBuf, Machine, parent}

pub record Flags : Type 0 where
  pub install_dir : Option PathBuf
  pub service_name : Option String
  pub display_name : Option String
  pub description : Option String
  pub no_start : Bool
  pub non_interactive : Bool

abbrev pub no_flags : Flags
no_flags = record {
  install_dir = none;
  service_name = none;
  display_name = none;
  description = none;
  no_start = false;
  non_interactive = false;
}

-- What the prompts settle.
pub record Options : Type 0 where
  pub service_name : String
  pub install_dir : PathBuf
  pub display_name : String
  pub description : String
  pub should_start : Bool

module _ {Bytes : Type 0} (m : Machine Bytes) where
  -- The flags that take a value.
  unfoldable pub value_flag : String → Option (String → Flags → Flags)
  value_flag flag =
      if flag == "--install-dir"
      then some (λ v f. record f { install_dir = some (m.path_of v) })
      else if flag == "--service-name"
      then some (λ v f. record f { service_name = some v })
      else if flag == "--display-name"
      then some (λ v f. record f { display_name = some v })
      else if flag == "--description"
      then some (λ v f. record f { description = some v })
      else none

  -- The other flags; an unknown one ends the process.
  unfoldable pub switch : String → Flags → Result ℕ Flags
  switch flag f =
      if flag == "--no-start"
      then ok (record f { no_start = true })
      else if flag == "--non-interactive"
      then ok (record f { non_interactive = true })
      else err 2

  -- The loop; a flag that lacks its value is passed over.
  unfoldable pub parse_flags : List String → Flags → Result ℕ Flags
  parse_flags [] f = ok f
  parse_flags (flag ∷ []) f = elim (value_flag flag) [ some set ↦ ok f | none ↦ switch flag f ]
  parse_flags (flag ∷ value ∷ rest) f = elim (value_flag flag) [
    | some set ↦ parse_flags rest (set value f)
    | none ↦ elim (switch flag f) [ err code ↦ err code | ok f' ↦ parse_flags (value ∷ rest) f' ]
  ]

  -- The arguments after the program's name.
  unfoldable pub parse_args : List String → Result ℕ (String × Flags)
  parse_args [] = ok ("help", no_flags)
  parse_args (subcommand ∷ args) = do flags ← parse_flags args no_flags; ok (subcommand, flags)

  -- The menu, where the program is started without arguments in a terminal.
  unfoldable pub choose : List String → String → String
  choose [] subcommand =
      if m.is_tty
      then (let idx = unwrap_or m.answers.menu 3 in
          if idx == 0
          then "install"
          else if idx == 1
          then "uninstall"
          else if idx == 2
          then "status"
          else "help")
      else subcommand
  choose (a ∷ args) subcommand = subcommand

  unfoldable pub default_install_dir : String → PathBuf
  default_install_dir service_name = m.path_of (str_append "/opt/" service_name)

  unfoldable pub installer_dir : PathBuf
  installer_dir = elim m.current_exe [
    | none ↦ m.path_of "."
    | some exe ↦ unwrap_or (parent exe) (m.path_of ".")
  ]

  -- The answer of the prompt, or the default where there is none.
  unfoldable pub resolve : Option String → Bool → Option String → String → String
  resolve (some v) interactive answer default_val = v
  resolve none true answer default_val = unwrap_or answer default_val
  resolve none false answer default_val = default_val

  unfoldable pub is_interactive : Flags → Bool
  is_interactive flags = not flags.non_interactive && m.is_tty

  unfoldable pub resolve_dir : Option PathBuf → Bool → String → PathBuf
  resolve_dir (some dir) interactive service_name = dir
  resolve_dir none true service_name =
      m.path_of (unwrap_or m.answers.install_dir (m.display (default_install_dir service_name)))
  resolve_dir none false service_name = default_install_dir service_name

  unfoldable pub gather : Flags → Options
  gather flags =
      let interactive = is_interactive flags in
      let name = resolve flags.service_name interactive m.answers.service_name "api" in
      record {
        service_name = name;
        install_dir = resolve_dir flags.install_dir interactive name;
        display_name = resolve flags.display_name interactive m.answers.display_name "API Service";
        description =
            resolve flags.description interactive m.answers.description
              "Rust API boilerplate service";
        should_start =
            if flags.no_start
            then false
            else if interactive
            then unwrap_or m.answers.start true
            else true;
      }

  unfoldable pub uninstall_dir : Flags → PathBuf
  uninstall_dir flags =
      unwrap_or flags.install_dir (default_install_dir (gather flags).service_name)
