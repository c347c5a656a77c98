-- ===== src/Install/Safe.antt =====
-- src/bin/installer.rs: what an installation leaves alone, however it ends.
use rust_api_boilerplate.Prelude.{
  ◌≡◌, ◌≢◌, ◌⊎◌, inr, refl, true, not, ◌&&◌, Option, some, [], ◌∷◌, String, ok, err, if◌then◌else◌,
  is_some, unwrap_or,
}
use rust_api_boilerplate.Prelude.Actions.{Keeps, Keeps->>, Keeps-when, if-Keeps, ◌>>◌, when}
use rust_api_boilerplate.Map
use rust_api_boilerplate.Updater.Program.{File}
use rust_api_boilerplate.Install.System.{
  PathBuf, System, Machine, join, create_dir_all, save, components_eq,
}
use rust_api_boilerplate.Install.Options.{Flags, Options, is_interactive, gather, installer_dir}
use rust_api_boilerplate.Install.Program.{
  binary_names, systemctl, run_cmd, unit_path, unit_text, register_service, start_service,
  copy_binaries, config_path, save_config, install_with, cmd_install,
}
use rust_api_boilerplate.Install.Frames.{
  Holds, Foreign, create_dir_all-Keeps, save-Keeps, run_cmd-Keeps, copy_binaries-Keeps,
  save_config-Keeps,
}
use rust_api_boilerplate.Install.Names.{config_path-Foreign}

module _ {Bytes : Type 0} (m : Machine Bytes) (p : PathBuf) (o : Option (File Bytes)) where
  pub register_service-Keeps :
      (name display desc : String) (dir : PathBuf)
      → unit_path m name ≢ p
      → Keeps (Holds m p o) (register_service m name display desc dir)
  unfolding register_service
  register_service-Keeps name display desc dir n =
      let text = m.content (unit_text m name display desc dir) in
      let reload = run_cmd m (systemctl ("daemon-reload" ∷ [])) in
      Keeps->> (Holds m p o) (save m (unit_path m name) text >> reload)
        (run_cmd m (systemctl ("enable" ∷ name ∷ [])))
        (Keeps->> (Holds m p o) (save m (unit_path m name) text) reload
          (save-Keeps m p o (unit_path m name) text n)
          (run_cmd-Keeps m p o (systemctl ("daemon-reload" ∷ []))))
        (run_cmd-Keeps m p o (systemctl ("enable" ∷ name ∷ [])))

  pub start_service-Keeps : (name : String) → Keeps (Holds m p o) (start_service m name)
  unfolding start_service
  start_service-Keeps name = run_cmd-Keeps m p o (systemctl ("start" ∷ name ∷ []))

  pub install_with-Keeps :
      (c : Options)
      → unit_path m c.service_name ≢ p
      → Foreign c.install_dir binary_names p
      → (config_path c.install_dir ≢ p) ⊎ (is_some o ≡ true)
      → Keeps (Holds m p o) (install_with m c)
  unfolding install_with
  install_with-Keeps c u b d =
      let K = Holds m p o in
      let a1 = create_dir_all m c.install_dir in
      let a2 = create_dir_all m (join c.install_dir "config") in
      let a3 = copy_binaries m (installer_dir m) c.install_dir binary_names in
      let a4 = save_config m c.install_dir in
      let a5 = register_service m c.service_name c.display_name c.description c.install_dir in
      let a6 = start_service m c.service_name in
      let k2 =
        Keeps->> K a1 a2 (create_dir_all-Keeps m p o c.install_dir)
          (create_dir_all-Keeps m p o (join c.install_dir "config")) in
      let k3 =
        Keeps->> K (a1 >> a2) a3 k2
          (copy_binaries-Keeps m p o (installer_dir m) c.install_dir binary_names b) in
      let k4 = Keeps->> K (a1 >> a2 >> a3) a4 k3 (save_config-Keeps m p o c.install_dir d) in
      let k5 =
        Keeps->> K (a1 >> a2 >> a3 >> a4) a5 k4
          (register_service-Keeps c.service_name c.display_name c.description c.install_dir u) in
      Keeps->> K (a1 >> a2 >> a3 >> a4 >> a5) (when c.should_start a6) k5
        (Keeps-when K c.should_start a6 (start_service-Keeps c.service_name))

  pub cmd_install-Keeps :
      (flags : Flags)
      → unit_path m (gather m flags).service_name ≢ p
      → Foreign (gather m flags).install_dir binary_names p
      → (config_path (gather m flags).install_dir ≢ p) ⊎ (is_some o ≡ true)
      → Keeps (Holds m p o) (cmd_install m flags)
  unfolding cmd_install
  cmd_install-Keeps flags u b d s h =
      let K = Holds m p o in
      let proceeds = install_with m (gather m flags) s in
      let asked = is_interactive m flags && not (unwrap_or m.answers.proceed true) in
      if-Keeps K (not m.is_root) (err 1, s) (if asked then (ok tt, s) else proceeds) h
        (if-Keeps K asked (ok tt, s) proceeds h (install_with-Keeps (gather m flags) u b d s h))

-- Where a config stands in the install directory, an installation leaves that file as it is, content
-- and mode, whatever the flags and the answers are and whichever calls fail; the config's path is
-- assumed not to be that of the unit file.
pub cmd_install-keeps_config :
    {Bytes : Type 0} (m : Machine Bytes) (flags : Flags) (s : System Bytes) (config : File Bytes)
    → unit_path m (gather m flags).service_name ≢ config_path (gather m flags).install_dir
    → Map.get (config_path (gather m flags).install_dir) s.files ≡ some config
    → Map.get (config_path (gather m flags).install_dir) (cmd_install m flags s).1.files
      ≡ some config
cmd_install-keeps_config m flags s config u h =
    let dir = (gather m flags).install_dir in
    cmd_install-Keeps m (config_path dir) (some config) flags u
      (config_path-Foreign dir binary_names) (inr refl) s h
