-- ===== src/Install/Overwritten.antt =====
-- src/bin/installer.rs: an installation into the directory that the installer runs from.
use rust_api_boilerplate.Prelude.{
  ◌≡◌, ◌≢◌, inl, refl, sym, ap, ◌∙◌, subst, Bool, true, false, not, ◌&&◌, ◌||◌, none, some, [], ◌∷◌,
  ◌++◌, String, Result, ok, unwrap_or, ==_refl, ℕ,
}
use rust_api_boilerplate.Prelude.Actions.{Keeps-when, After->>, ok->>, ◌>>◌, when}
use rust_api_boilerplate.Map
use rust_api_boilerplate.Updater.Program.{File}
use rust_api_boilerplate.Install.System.{
  PathBuf, System, Machine, Run, join, components_eq, create_dir_all, copy_file, set_executable,
  chmod_left, put, ancestors,
}
use rust_api_boilerplate.Install.Options.{Flags, Options, is_interactive, gather, installer_dir}
use rust_api_boilerplate.Install.Program.{
  binary_names, unit_path, register_service, start_service, copy_binary, copy_binaries, save_config,
  install_with, cmd_install,
}
use rust_api_boilerplate.Install.Frames.{Holds, copy_binaries-Keeps, save_config-Keeps}
use rust_api_boilerplate.Install.Names.{config_path-Foreign}
use rust_api_boilerplate.Install.Copies.{exists_file}
use rust_api_boilerplate.Install.Safe.{register_service-Keeps, start_service-Keeps}
use rust_api_boilerplate.Install.Uninstalls.{guarded-goes}
use rust_api_boilerplate.Install.Stages.{binary_names-AreDistinct}

module _ {Bytes : Type 0} (m : Machine Bytes) (p : PathBuf) (f : File Bytes) where
  -- The file without its content.
  abbrev pub emptied : File Bytes
  emptied = record { bytes = m.content ""; executable = m.faults.chmod p || f.executable }

  copy_onto_itself :
      (s : System Bytes)
      → m.faults.copy p ≡ none
      → Map.get p s.files ≡ some f
      → copy_file m p p s ≡ (ok tt, put m p (record f { bytes = m.content "" }) s)
  unfolding copy_file
  copy_onto_itself s c h = rw (c, h, ==_refl p)

  chmod_left-Holds :
      (works : Bool) (s : System Bytes)
      → Holds m p
          (some (record { bytes = m.content ""; executable = works || f.executable }))
          (chmod_left m p works
            (some (record f { bytes = m.content "" }))
            (put m p (record f { bytes = m.content "" }) s)).1
  chmod_left-Holds true s =
      Map.get-insert_same p (record { bytes = m.content ""; executable = true })
        (Map.insert p (record f { bytes = m.content "" }) s.files)
  chmod_left-Holds false s = Map.get-insert_same p (record f { bytes = m.content "" }) s.files

  set_executable-Holds :
      (s : System Bytes)
      → Holds m p
          (some emptied)
          (set_executable m p (put m p (record f { bytes = m.content "" }) s)).1
  unfolding set_executable
  set_executable-Holds s =
      rw (Map.get-insert_same p (record f { bytes = m.content "" }) s.files)
        (chmod_left-Holds (m.faults.chmod p) s)

  copy_binary-Holds :
      (dir : PathBuf) (name : String) (s : System Bytes)
      → join dir name ≡ p
      → m.faults.copy p ≡ none
      → Map.get p s.files ≡ some f
      → Holds m p (some emptied) (copy_binary m dir dir name s).1
  unfolding copy_binary
  copy_binary-Holds dir name s e c h =
      let written = put m p (record f { bytes = m.content "" }) s in
      rw
        (
          e,
          exists_file m p f s h,
          ok->> (copy_file m p p) (set_executable m p) s written (copy_onto_itself s c h),
        )
        (set_executable-Holds s)

module _ {Bytes : Type 0} (m : Machine Bytes) (c : Options) (f : File Bytes) where
  create_dir_goes :
      (p : PathBuf) (s : System Bytes)
      → m.faults.create_dir p ≡ none
      → create_dir_all m p s ≡ (ok tt, record s { dirs = ancestors p ++ s.dirs })
  unfolding create_dir_all
  create_dir_goes p s h = rw (h)

  create_dirs-Holds :
      (k : Run m) (P : System Bytes → Type 0) (s : System Bytes)
      → m.faults.create_dir c.install_dir ≡ none
      → m.faults.create_dir (join c.install_dir "config") ≡ none
      → ((t : System Bytes) → t.files ≡ s.files → P (k t).1)
      → P
          ((create_dir_all m c.install_dir >> create_dir_all m (join c.install_dir "config") >> k)
            s).1
  create_dirs-Holds k P s h1 h2 holds =
      let d1 = create_dir_all m c.install_dir in
      let d2 = create_dir_all m (join c.install_dir "config") in
      let s1 = record s { dirs = ancestors c.install_dir ++ s.dirs } in
      let s2 = record s1 { dirs = ancestors (join c.install_dir "config") ++ s1.dirs } in
      subst (λ (r : Result ℕ Unit × System Bytes). P r.1)
        (sym (
          ok->> (d1 >> d2) k s s2 (
            ok->> d1 d2 s s1 (create_dir_goes c.install_dir s h1)
            ∙ create_dir_goes (join c.install_dir "config") s1 h2)))
        (holds s2 refl)

  install_with-Holds :
      (s : System Bytes)
      → installer_dir m ≡ c.install_dir
      → m.faults.create_dir c.install_dir ≡ none
      → m.faults.create_dir (join c.install_dir "config") ≡ none
      → m.faults.copy (join c.install_dir "api") ≡ none
      → unit_path m c.service_name ≢ join c.install_dir "api"
      → Map.get (join c.install_dir "api") s.files ≡ some f
      → Holds m
          (join c.install_dir "api")
          (some (emptied m (join c.install_dir "api") f))
          (install_with m c s).1
  unfolding install_with copy_binaries
  install_with-Holds s same h1 h2 copies u h =
      let dir = c.install_dir in
      let api = join dir "api" in
      let gone = some (emptied m api f) in
      let K = Holds m api gone in
      let a12 = create_dir_all m dir >> create_dir_all m (join dir "config") in
      let a3 = copy_binaries m (installer_dir m) dir binary_names in
      let others = "worker" ∷ "updater" ∷ "installer" ∷ "uninstaller" ∷ [] in
      let a4 = save_config m dir in
      let a5 = register_service m c.service_name c.display_name c.description dir in
      let a6 = start_service m c.service_name in
      let distinct = binary_names-AreDistinct dir in
      let apart = config_path-Foreign dir binary_names in
      let k3 = create_dirs-Holds a3 K s h1 h2 (λ t e.
        After->> K (copy_binary m (installer_dir m) dir "api")
          (copy_binaries m (installer_dir m) dir others) t
          (subst (λ d. K (copy_binary m d dir "api" t).1) (sym same)
            (copy_binary-Holds m api f dir "api" t refl copies (ap (Map.get api) e ∙ h)))
          (copy_binaries-Keeps m api gone (installer_dir m) dir others distinct.0)) in
      let k4 =
        After->> K (a12 >> a3) a4 s k3
          (save_config-Keeps m api gone dir (inl (λ e. apart.0 (sym e)))) in
      let k5 =
        After->> K (a12 >> a3 >> a4) a5 s k4
          (register_service-Keeps m api gone c.service_name c.display_name c.description dir u) in
      After->> K (a12 >> a3 >> a4 >> a5) (when c.should_start a6) s k5
        (Keeps-when K c.should_start a6 (start_service-Keeps m api gone c.service_name))

-- For a user with root who goes on, where the directories can be made and the installer runs from the
-- install directory itself, as the installed `installer` does: once the copy of `api` onto itself
-- succeeds, `api` is an empty file at the end, however the installation ends. The unit file's path
-- is assumed not to be that of `api`.
pub cmd_install-empties :
    {Bytes : Type 0} (m : Machine Bytes) (flags : Flags) (s : System Bytes) (f : File Bytes)
    → m.is_root ≡ true
    → (is_interactive m flags && not (unwrap_or m.answers.proceed true)) ≡ false
    → installer_dir m ≡ (gather m flags).install_dir
    → m.faults.create_dir (gather m flags).install_dir ≡ none
    → m.faults.create_dir (join (gather m flags).install_dir "config") ≡ none
    → m.faults.copy (join (gather m flags).install_dir "api") ≡ none
    → unit_path m (gather m flags).service_name ≢ join (gather m flags).install_dir "api"
    → Map.get (join (gather m flags).install_dir "api") s.files ≡ some f
    → Map.get (join (gather m flags).install_dir "api") (cmd_install m flags s).1.files
      ≡ some (emptied m (join (gather m flags).install_dir "api") f)
unfolding cmd_install
cmd_install-empties m flags s f root agreed same h1 h2 copies u h =
    subst
      (λ (r : Result ℕ Unit × System _).
        Holds m (join (gather m flags).install_dir "api")
          (some (emptied m (join (gather m flags).install_dir "api") f)) r.1)
      (sym (
        guarded-goes m m.is_root (is_interactive m flags && not (unwrap_or m.answers.proceed true))
          s (install_with m (gather m flags) s) root agreed))
      (install_with-Holds m (gather m flags) f s same h1 h2 copies u h)
