-- ===== src/Install/Made.antt =====
-- src/bin/installer.rs: the install directory stays once it is made.
use rust_api_boilerplate.Prelude.{
  Bool, false, ◌≡◌, sym, subst, true, Option, none, some, List, [], ◌∷◌, ◌++◌, String, ok, err,
  arith, text_eq,
}
use rust_api_boilerplate.Prelude.Actions.{
  Keeps, Keeps->>, Keeps-when, if-Keeps, After->>, ◌>>◌, when,
}
use rust_api_boilerplate.Install.System.{
  PathBuf, System, Machine, join, is_member, components_eq, create_dir_all, save, create_dir_left,
  ancestors,
}
use rust_api_boilerplate.Install.Options.{Options, installer_dir}
use rust_api_boilerplate.Install.Program.{
  binary_names, systemctl, run_cmd, unit_path, unit_text, register_service, start_service,
  copy_binaries, save_config, install_with,
}
use rust_api_boilerplate.Install.Names.{is_member-append, is_member-ancestors}
use rust_api_boilerplate.Install.Untouched.{
  Beside, save-Beside, copy_binaries-Beside, save_config-Beside,
}

module _ {Bytes : Type 0} (m : Machine Bytes) (dir : PathBuf) where
  -- The directory is there.
  abbrev Made : System Bytes → Type 0
  Made = Beside m (λ dirs commands. is_member dir dirs ≡ true)

  run_cmd-Made : (args : List String) → Keeps Made (run_cmd m args)
  unfolding run_cmd
  run_cmd-Made args s h =
      if-Keeps Made (m.faults.spawn args) (ok tt, record s { commands = s.commands ++ (args ∷ []) })
        (err 1, s) h h

  create_dir_left-Made :
      (p : PathBuf) (left : Option (Bool × List PathBuf)) → Keeps Made (create_dir_left m p left)
  create_dir_left-Made p none s h = ground (arith, is_member-append dir (ancestors p) s.dirs, h)
  create_dir_left-Made p (some (true, made)) s h =
      ground (arith, is_member-append dir made s.dirs, h)
  create_dir_left-Made p (some (false, made)) s h =
      ground (arith, is_member-append dir made s.dirs, h)

  create_dir-Made : (p : PathBuf) → Keeps Made (create_dir_all m p)
  unfolding create_dir_all
  create_dir-Made p s h = create_dir_left-Made p (m.faults.create_dir p) s h

  create_dir-makes :
      (s : System Bytes) → m.faults.create_dir dir ≡ none → Made (create_dir_all m dir s).1
  unfolding create_dir_all
  create_dir-makes s f =
      rw (f) (ground (arith, is_member-append dir (ancestors dir) s.dirs, is_member-ancestors dir))

  register_service-Made :
      (name display desc : String) (d : PathBuf)
      → Keeps Made (register_service m name display desc d)
  unfolding register_service
  register_service-Made name display desc d =
      let text = m.content (unit_text m name display desc d) in
      let reload = systemctl ("daemon-reload" ∷ []) in
      let enable = systemctl ("enable" ∷ name ∷ []) in
      Keeps->> Made (save m (unit_path m name) text >> run_cmd m reload) (run_cmd m enable)
        (Keeps->> Made (save m (unit_path m name) text) (run_cmd m reload)
          (save-Beside m (λ dirs k. is_member dir dirs ≡ true) (unit_path m name) text)
          (run_cmd-Made reload))
        (run_cmd-Made enable)

  start_service-Made : (name : String) → Keeps Made (start_service m name)
  unfolding start_service
  start_service-Made name = run_cmd-Made (systemctl ("start" ∷ name ∷ []))

  pub install_with-makes :
      (c : Options) (s : System Bytes)
      → c.install_dir ≡ dir
      → m.faults.create_dir dir ≡ none
      → Made (install_with m c s).1
  unfolding install_with
  install_with-makes c s e f =
      let P = λ (dirs : List PathBuf) (k : List (List String)). is_member dir dirs ≡ true in
      let a1 = create_dir_all m c.install_dir in
      let a2 = create_dir_all m (join c.install_dir "config") in
      let a3 = copy_binaries m (installer_dir m) c.install_dir binary_names in
      let a4 = save_config m c.install_dir in
      let a5 = register_service m c.service_name c.display_name c.description c.install_dir in
      let a6 = start_service m c.service_name in
      let k1 = subst (λ d. Made (create_dir_all m d s).1) (sym e) (create_dir-makes s f) in
      let k2 = After->> Made a1 a2 s k1 (create_dir-Made (join c.install_dir "config")) in
      let k3 =
        After->> Made (a1 >> a2) a3 s k2
          (copy_binaries-Beside m P (installer_dir m) c.install_dir binary_names) in
      let k4 = After->> Made (a1 >> a2 >> a3) a4 s k3 (save_config-Beside m P c.install_dir) in
      let k5 =
        After->> Made (a1 >> a2 >> a3 >> a4) a5 s k4
          (register_service-Made c.service_name c.display_name c.description c.install_dir) in
      After->> Made (a1 >> a2 >> a3 >> a4 >> a5) (when c.should_start a6) s k5
        (Keeps-when Made c.should_start a6 (start_service-Made c.service_name))
