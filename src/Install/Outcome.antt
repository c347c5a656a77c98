-- ===== src/Install/Outcome.antt =====
-- src/bin/installer.rs: what `cmd_install` does on each of its branches.
use rust_api_boilerplate.Prelude.{
  ℕ, Result, ◌≡◌, ◌≢◌, refl, sym, ap, ◌∙◌, subst, Bool, true, false, not, ◌&&◌, Option, some, List,
  [], ◌∷◌, ◌++◌, String, ok, err, if◌then◌else◌, unwrap_or,
}
use rust_api_boilerplate.Prelude.Actions.{Succeeds, Succeeds->>, ok->>, ◌>>◌, when}
use rust_api_boilerplate.Map
use rust_api_boilerplate.Updater.Program.{File}
use rust_api_boilerplate.Install.System.{
  PathBuf, System, Machine, Run, join, create_dir_all, save, components_eq, is_member, put,
  ancestors,
}
use rust_api_boilerplate.Install.Options.{Flags, Options, installer_dir, is_interactive, gather}
use rust_api_boilerplate.Install.Program.{
  binary_names, systemctl, run_cmd, unit_path, unit_text, register_service, start_service,
  copy_binaries, config_path, save_config, install_with, cmd_install,
}
use rust_api_boilerplate.Install.Frames.{Holds, Foreign}
use rust_api_boilerplate.Install.Names.{config_path-is_made}
use rust_api_boilerplate.Install.Copies.{no_faults, Sources, Targets}
use rust_api_boilerplate.Install.Safe.{register_service-Keeps}
use rust_api_boilerplate.Install.Stages.{
  written, kept_or, Stage, Targets-kept, save_works, run_cmd_works, copy_binaries-Stage,
  save_config-Stage,
}

module _ {Bytes : Type 0} (m : Machine Bytes) (c : Options) (binary : String → File Bytes) where
  abbrev unit_bytes : Bytes
  unit_bytes = m.content (unit_text m c.service_name c.display_name c.description c.install_dir)

  -- The commands of `register_service` after others.
  abbrev registered : List (List String) → List (List String)
  registered commands =
      (commands ++ (systemctl ("daemon-reload" ∷ []) ∷ []))
      ++ (systemctl ("enable" ∷ c.service_name ∷ []) ∷ [])

  abbrev register : Run m
  register = register_service m c.service_name c.display_name c.description c.install_dir

  register_works :
      (s : System Bytes)
      → m.faults ≡ no_faults
      → register s ≡ (
        ok tt,
        record (put m
            (unit_path m c.service_name)
            (written unit_bytes (Map.get (unit_path m c.service_name) s.files))
            s) { commands = registered s.commands },
      )
  unfolding register_service
  register_works s f =
      let saved =
        put m (unit_path m c.service_name)
          (written unit_bytes (Map.get (unit_path m c.service_name) s.files)) s in
      let reload = systemctl ("daemon-reload" ∷ []) in
      let enable = systemctl ("enable" ∷ c.service_name ∷ []) in
      let reloaded = record saved { commands = s.commands ++ (reload ∷ []) } in
      ok->> (save m (unit_path m c.service_name) unit_bytes >> run_cmd m reload) (run_cmd m enable)
        s reloaded
        (ok->> (save m (unit_path m c.service_name) unit_bytes) (run_cmd m reload) s saved
            (save_works m (unit_path m c.service_name) unit_bytes s f)
          ∙ run_cmd_works m reload saved f)
      ∙ run_cmd_works m enable reloaded f

  register-Stage :
      (s : System Bytes) (config old : Option (File Bytes)) (dirs : List PathBuf)
      (commands : List (List String))
      → m.faults ≡ no_faults
      → unit_path m c.service_name ≢ config_path c.install_dir
      → Foreign c.install_dir binary_names (unit_path m c.service_name)
      → Stage m c binary config old dirs commands s
      → Succeeds
          (Stage m c binary config (some (written unit_bytes old)) dirs (registered commands))
          (register s)
  register-Stage s config old dirs commands f n u h =
      let unit = unit_path m c.service_name in
      let e = register_works s f in
      let config_kept =
        register_service-Keeps m (config_path c.install_dir) config c.service_name c.display_name
          c.description c.install_dir n s h.1 in
      let targets_kept =
        Targets-kept m c binary binary_names unit register s
          (λ p o e.
            register_service-Keeps m p o c.service_name c.display_name c.description c.install_dir
              e)
          u h.0 in
      subst
        (Succeeds
          (Stage m c binary config (some (written unit_bytes old)) dirs (registered commands)))
        (sym e)
        (
          subst
              (λ (r : Result ℕ Unit × System Bytes).
                Targets m (installer_dir m) c.install_dir binary binary_names r.1)
              e targets_kept,
          subst
              (λ (r : Result ℕ Unit × System Bytes). Holds m (config_path c.install_dir) config r.1)
              e config_kept,
          Map.get-insert_same unit (written unit_bytes (Map.get unit s.files)) s.files
              ∙ ap (λ x. some (written unit_bytes x)) h.2,
          h.3,
          ap registered h.4,
        )

  -- The commands of an installation after others.
  abbrev install_commands : List (List String) → List (List String)
  install_commands commands =
      if c.should_start
      then registered commands ++ (systemctl ("start" ∷ c.service_name ∷ []) ∷ [])
      else registered commands

  start-Stage :
      (s : System Bytes) (config unit : Option (File Bytes)) (dirs : List PathBuf)
      (commands : List (List String)) (starts : Bool)
      → m.faults ≡ no_faults
      → Stage m c binary config unit dirs commands s
      → Succeeds
          (Stage m c binary config unit dirs (
            if starts
            then commands ++ (systemctl ("start" ∷ c.service_name ∷ []) ∷ [])
            else commands))
          (when starts (start_service m c.service_name) s)
  unfolding start_service
  start-Stage s config unit dirs commands false f h = h
  start-Stage s config unit dirs commands true f h =
      let start = systemctl ("start" ∷ c.service_name ∷ []) in
      subst (Succeeds (Stage m c binary config unit dirs (commands ++ (start ∷ []))))
        (sym (run_cmd_works m start s f)) (h.0, h.1, h.2, h.3, ap (λ x. x ++ (start ∷ [])) h.4)

  -- The directories that are made.
  abbrev install_dirs : List PathBuf → List PathBuf
  install_dirs dirs = ancestors (join c.install_dir "config") ++ (ancestors c.install_dir ++ dirs)

  create_dir_works :
      (p : PathBuf) (s : System Bytes)
      → m.faults ≡ no_faults
      → create_dir_all m p s ≡ (ok tt, record s { dirs = ancestors p ++ s.dirs })
  unfolding create_dir_all
  create_dir_works p s f = rw (ap (λ k. k.create_dir p) f)

  create_dirs_works :
      (s : System Bytes)
      → m.faults ≡ no_faults
      → (create_dir_all m c.install_dir >> create_dir_all m (join c.install_dir "config")) s
        ≡ (ok tt, record s { dirs = install_dirs s.dirs })
  create_dirs_works s f =
      let made = record s { dirs = ancestors c.install_dir ++ s.dirs } in
      ok->> (create_dir_all m c.install_dir) (create_dir_all m (join c.install_dir "config")) s made
        (create_dir_works c.install_dir s f)
      ∙ create_dir_works (join c.install_dir "config") made f

  -- The whole installation of a release, where no call fails.
  abbrev pub Installed : System Bytes → System Bytes → Type 0
  Installed s =
      Stage m c binary
        (some (kept_or m.default_config (Map.get (config_path c.install_dir) s.files)))
        (some (written unit_bytes (Map.get (unit_path m c.service_name) s.files)))
        (install_dirs s.dirs) (install_commands s.commands)

  install_with-Installed :
      (s : System Bytes)
      → m.faults ≡ no_faults
      → installer_dir m ≢ c.install_dir
      → unit_path m c.service_name ≢ config_path c.install_dir
      → Foreign c.install_dir binary_names (unit_path m c.service_name)
      → is_member (config_path c.install_dir) s.dirs ≡ false
      → Sources m (installer_dir m) c.install_dir binary binary_names s
      → Succeeds (Installed s) (install_with m c s)
  unfolding install_with
  install_with-Installed s f n u b d h =
      let dir = c.install_dir in
      let a12 = create_dir_all m dir >> create_dir_all m (join dir "config") in
      let a3 = copy_binaries m (installer_dir m) dir binary_names in
      let a4 = save_config m dir in
      let a6 = when c.should_start (start_service m c.service_name) in
      let config = Map.get (config_path dir) s.files in
      let unit = Map.get (unit_path m c.service_name) s.files in
      let kept = some (kept_or m.default_config config) in
      let text = some (written unit_bytes unit) in
      let dirs = install_dirs s.dirs in
      let made = record s { dirs = dirs } in
      let here = config_path-is_made dir s.dirs ∙ d in
      let copied =
        subst (Succeeds (Stage m c binary config unit dirs s.commands))
          (sym (ok->> a12 a3 s made (create_dirs_works s f)))
          (copy_binaries-Stage m c binary made f n b h) in
      let configured =
        Succeeds->> (Stage m c binary config unit dirs s.commands)
          (Stage m c binary kept unit dirs s.commands) (a12 >> a3) a4 s copied
          (λ t q. save_config-Stage m c binary t config unit dirs s.commands f u here q) in
      let done =
        Succeeds->> (Stage m c binary kept unit dirs s.commands)
          (Stage m c binary kept text dirs (registered s.commands)) (a12 >> a3 >> a4) register s
          configured (λ t q. register-Stage t kept unit dirs s.commands f u b q) in
      Succeeds->> (Stage m c binary kept text dirs (registered s.commands)) (Installed s)
        (a12 >> a3 >> a4 >> register) a6 s done
        (λ t q. start-Stage t kept text dirs (registered s.commands) c.should_start f q)

-- What `cmd_install` comes to, by whether the user is root and whether the summary is declined.
abbrev pub Outcome :
    {Bytes : Type 0}
    → Machine Bytes
    → Options
    → (String → File Bytes)
    → Bool
    → Bool
    → System Bytes
    → Result ℕ Unit × System Bytes
    → Type 0
Outcome m c binary false declined s r = r ≡ (err 1, s)
Outcome m c binary true true s r = r ≡ (ok tt, s)
Outcome m c binary true false s r = Succeeds (Installed m c binary s) r

-- Where the five binaries stand beside the installer, no call fails, the install directory is
-- another one, nothing is a directory at the config's path, and the unit file's path is neither the
-- config's nor a binary's: without root the process ends with code 1 and changes nothing; where the
-- user declines the summary it ends well and changes nothing; else it ends well, each binary stands
-- in the install directory with the same bytes and is executable, the config is the one that was
-- there or the default one, the unit file has the text for the options, the directories are made,
-- and the commands that were run are daemon-reload, enable and, where it is to start, start.
pub cmd_install-Outcome :
    {Bytes : Type 0} (m : Machine Bytes) (flags : Flags) (binary : String → File Bytes)
    (s : System Bytes)
    → m.faults ≡ no_faults
    → installer_dir m ≢ (gather m flags).install_dir
    → unit_path m (gather m flags).service_name ≢ config_path (gather m flags).install_dir
    → Foreign (gather m flags).install_dir binary_names (unit_path m (gather m flags).service_name)
    → is_member (config_path (gather m flags).install_dir) s.dirs ≡ false
    → Sources m (installer_dir m) (gather m flags).install_dir binary binary_names s
    → Outcome m
        (gather m flags)
        binary
        m.is_root
        (is_interactive m flags && not (unwrap_or m.answers.proceed true))
        s
        (cmd_install m flags s)
unfolding cmd_install
cmd_install-Outcome m flags binary s f n u b d h =
    branch m.is_root (is_interactive m flags && not (unwrap_or m.answers.proceed true))
  where
    branch :
        (root declined : Bool)
        → Outcome m (gather m flags) binary root declined s (
            if not root
            then (err 1, s)
            else if declined
            then (ok tt, s)
            else install_with m (gather m flags) s)
    branch false declined = refl
    branch true true = refl
    branch true false = install_with-Installed m (gather m flags) binary s f n u b d h
