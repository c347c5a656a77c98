-- ===== src/Install/Untouched.antt =====
-- What src/bin/installer.rs does to files leaves the directories and the list of commands alone.
use rust_api_boilerplate.Prelude.{
  Bool, true, false, ◌&&◌, Option, none, some, List, [], ◌∷◌, String, ok,
}
use rust_api_boilerplate.Prelude.Actions.{Keeps, Keeps->>, if-Keeps, ◌>>◌}
use rust_api_boilerplate.Map
use rust_api_boilerplate.Updater.Program.{File}
use rust_api_boilerplate.Install.System.{
  PathBuf, System, Machine, join, exists, copy_file, set_executable, save, put_part,
  remove_file_if_exists, copied, copy_left, chmod_left, save_left, components_eq,
}
use rust_api_boilerplate.Install.Program.{copy_binary, copy_binaries, save_config, config_path}

module _ {Bytes : Type 0} (m : Machine Bytes) (P : List PathBuf → List (List String) → Type 0) where
  abbrev pub Beside : System Bytes → Type 0
  Beside s = P s.dirs s.commands

  put_part-Beside :
      (q : PathBuf) (part : Option (File Bytes)) (s : System Bytes)
      → Beside s
      → Beside (put_part m q part s)
  put_part-Beside q none s h = h
  put_part-Beside q (some f) s h = h

  copied-Beside : (src dst : PathBuf) (f : Option (File Bytes)) → Keeps Beside (copied m src dst f)
  copied-Beside src dst none s h = h
  copied-Beside src dst (some f) s h = h

  copy_left-Beside :
      (src dst : PathBuf) (left : Option (Option (File Bytes)))
      → Keeps Beside (copy_left m src dst left)
  copy_left-Beside src dst none s h = copied-Beside src dst (Map.get src s.files) s h
  copy_left-Beside src dst (some part) s h = put_part-Beside dst part s h

  copy_file-Beside : (src dst : PathBuf) → Keeps Beside (copy_file m src dst)
  unfolding copy_file
  copy_file-Beside src dst s h = copy_left-Beside src dst (m.faults.copy dst) s h

  chmod_left-Beside :
      (q : PathBuf) (works : Bool) (f : Option (File Bytes)) → Keeps Beside (chmod_left m q works f)
  chmod_left-Beside q false f s h = h
  chmod_left-Beside q true none s h = h
  chmod_left-Beside q true (some f) s h = h

  set_executable-Beside : (q : PathBuf) → Keeps Beside (set_executable m q)
  unfolding set_executable
  set_executable-Beside q s h = chmod_left-Beside q (m.faults.chmod q) (Map.get q s.files) s h

  save_left-Beside :
      (q : PathBuf) (bytes : Bytes) (left : Option (Option (File Bytes)))
      → Keeps Beside (save_left m q bytes left)
  save_left-Beside q bytes (some part) s h = put_part-Beside q part s h
  save_left-Beside q bytes none s h = h

  pub save-Beside : (q : PathBuf) (bytes : Bytes) → Keeps Beside (save m q bytes)
  unfolding save
  save-Beside q bytes s h = save_left-Beside q bytes (m.faults.save q) s h

  pub remove_file-Beside : (q : PathBuf) → Keeps Beside (remove_file_if_exists m q)
  unfolding remove_file_if_exists
  remove_file-Beside q s h =
      if-Keeps Beside (exists m q s && m.faults.remove_file q)
        (ok tt, record s { files = Map.remove q s.files }) (ok tt, s) h h

  copy_binary-Beside :
      (src_dir dir : PathBuf) (name : String) → Keeps Beside (copy_binary m src_dir dir name)
  unfolding copy_binary
  copy_binary-Beside src_dir dir name s h =
      if-Keeps Beside (exists m (join src_dir name) s)
        ((copy_file m (join src_dir name) (join dir name) >> set_executable m (join dir name)) s)
        (ok tt, s)
        (Keeps->> Beside (copy_file m (join src_dir name) (join dir name))
          (set_executable m (join dir name)) (copy_file-Beside (join src_dir name) (join dir name))
          (set_executable-Beside (join dir name)) s h)
        h

  pub copy_binaries-Beside :
      (src_dir dir : PathBuf) (names : List String)
      → Keeps Beside (copy_binaries m src_dir dir names)
  unfolding copy_binaries
  copy_binaries-Beside src_dir dir [] s h = h
  copy_binaries-Beside src_dir dir (name ∷ names) s h =
      Keeps->> Beside (copy_binary m src_dir dir name) (copy_binaries m src_dir dir names)
        (copy_binary-Beside src_dir dir name) (copy_binaries-Beside src_dir dir names) s h

  pub save_config-Beside : (dir : PathBuf) → Keeps Beside (save_config m dir)
  unfolding save_config
  save_config-Beside dir s h =
      if-Keeps Beside (exists m (config_path dir) s) (ok tt, s)
        (save m (config_path dir) m.default_config s) h
        (save-Beside (config_path dir) m.default_config s h)
