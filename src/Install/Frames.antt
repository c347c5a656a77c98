-- ===== src/Install/Frames.antt =====
-- What the actions of src/bin/installer.rs leave alone: the files at other paths, and the list of
-- the commands that were run.
use rust_api_boilerplate.Prelude.{
  ◌≡◌, ◌≢◌, ◌⊎◌, inl, inr, sym, ap, ◌∙◌, subst, Bool, true, false, ◌&&◌, not, Option, none, some,
  List, [], ◌∷◌, ◌++◌, String, ok, err, if◌then◌else◌, is_some, arith, Bool-cases, ◌==◌, eq_of_==,
}
use rust_api_boilerplate.Prelude.Actions.{Keeps, Keeps->>, if-Keeps, ◌>>◌}
use rust_api_boilerplate.Map
use rust_api_boilerplate.Updater.Program.{File}
use rust_api_boilerplate.Install.System.{
  PathBuf, System, Machine, join, exists, create_dir_all, copy_file, set_executable, save, put,
  put_part, remove_file_if_exists, remove_dir_if_exists, is_under, get-remove_where, components_eq,
  create_dir_left, copied, copy_left, chmod_left, save_left, remove_tree, remove_left, is_member,
}
use rust_api_boilerplate.Install.Program.{
  run_cmd, copy_binary, copy_binaries, save_config, config_path,
}

-- None of the names in the directory is the path.
abbrev pub Foreign : PathBuf → List String → PathBuf → Type 0
Foreign dir [] p = Unit
Foreign dir (name ∷ names) p = (join dir name ≢ p) × Foreign dir names p

module _ {Bytes : Type 0} (m : Machine Bytes) (p : PathBuf) (o : Option (File Bytes)) where
  abbrev pub Holds : System Bytes → Type 0
  Holds s = Map.get p s.files ≡ o

  put-Holds :
      (q : PathBuf) (f : File Bytes) (s : System Bytes) → q ≢ p → Holds s → Holds (put m q f s)
  put-Holds q f s n h = Map.get-insert_other q p f s.files n ∙ h

  put_part-Holds :
      (q : PathBuf) (part : Option (File Bytes)) (s : System Bytes)
      → q ≢ p
      → Holds s
      → Holds (put_part m q part s)
  put_part-Holds q none s n h = h
  put_part-Holds q (some f) s n h = put-Holds q f s n h

  create_dir_left-Keeps :
      (q : PathBuf) (left : Option (Bool × List PathBuf)) → Keeps Holds (create_dir_left m q left)
  create_dir_left-Keeps q none s h = h
  create_dir_left-Keeps q (some (true, made)) s h = h
  create_dir_left-Keeps q (some (false, made)) s h = h

  pub create_dir_all-Keeps : (q : PathBuf) → Keeps Holds (create_dir_all m q)
  unfolding create_dir_all
  create_dir_all-Keeps q s h = create_dir_left-Keeps q (m.faults.create_dir q) s h

  copied-Keeps :
      (src dst : PathBuf) (f : Option (File Bytes)) → dst ≢ p → Keeps Holds (copied m src dst f)
  copied-Keeps src dst none n s h = h
  copied-Keeps src dst (some f) n s h =
      put-Holds dst (if src == dst then record f { bytes = m.content "" } else f) s n h

  copy_left-Keeps :
      (src dst : PathBuf) (left : Option (Option (File Bytes)))
      → dst ≢ p
      → Keeps Holds (copy_left m src dst left)
  copy_left-Keeps src dst none n s h = copied-Keeps src dst (Map.get src s.files) n s h
  copy_left-Keeps src dst (some part) n s h = put_part-Holds dst part s n h

  pub copy_file-Keeps : (src dst : PathBuf) → dst ≢ p → Keeps Holds (copy_file m src dst)
  unfolding copy_file
  copy_file-Keeps src dst n s h = copy_left-Keeps src dst (m.faults.copy dst) n s h

  chmod_left-Keeps :
      (q : PathBuf) (works : Bool) (f : Option (File Bytes))
      → q ≢ p
      → Keeps Holds (chmod_left m q works f)
  chmod_left-Keeps q false f n s h = h
  chmod_left-Keeps q true none n s h = h
  chmod_left-Keeps q true (some f) n s h = put-Holds q (record f { executable = true }) s n h

  pub set_executable-Keeps : (q : PathBuf) → q ≢ p → Keeps Holds (set_executable m q)
  unfolding set_executable
  set_executable-Keeps q n s h = chmod_left-Keeps q (m.faults.chmod q) (Map.get q s.files) n s h

  save_left-Keeps :
      (q : PathBuf) (bytes : Bytes) (left : Option (Option (File Bytes)))
      → q ≢ p
      → Keeps Holds (save_left m q bytes left)
  save_left-Keeps q bytes (some part) n s h = put_part-Holds q part s n h
  save_left-Keeps q bytes none n s h =
      put-Holds q
        (record {
          bytes = bytes;
          executable = elim (Map.get q s.files) [ none ↦ false | some old ↦ old.executable ];
        })
        s n h

  pub save-Keeps : (q : PathBuf) (bytes : Bytes) → q ≢ p → Keeps Holds (save m q bytes)
  unfolding save
  save-Keeps q bytes n s h = save_left-Keeps q bytes (m.faults.save q) n s h

  pub run_cmd-Keeps : (args : List String) → Keeps Holds (run_cmd m args)
  unfolding run_cmd
  run_cmd-Keeps args s h =
      if-Keeps Holds (m.faults.spawn args)
        (ok tt, record s { commands = s.commands ++ (args ∷ []) }) (err 1, s) h h

  pub remove_file-Keeps : (q : PathBuf) → q ≢ p → Keeps Holds (remove_file_if_exists m q)
  unfolding remove_file_if_exists
  remove_file-Keeps q n s h =
      if-Keeps Holds (exists m q s && m.faults.remove_file q)
        (ok tt, record s { files = Map.remove q s.files }) (ok tt, s)
        (Map.get-remove_other q p s.files n ∙ h) h

  remove_tree-Holds :
      (t : PathBuf → Bool) (s : System Bytes) → t p ≡ false → Holds s → Holds (remove_tree m t s)
  remove_tree-Holds t s n h =
      get-remove_where t p s.files ∙ ap (λ b. if b then none else Map.get p s.files) n ∙ h

  remove_left-Keeps :
      (q : PathBuf) (left : Option (PathBuf → Bool))
      → is_under q p ≡ false
      → Keeps Holds (remove_left m q left)
  remove_left-Keeps q none n s h = remove_tree-Holds (is_under q) s n h
  remove_left-Keeps q (some kept) n s h =
      remove_tree-Holds (λ r. is_under q r && not (kept r)) s (ground (arith, n)) h

  pub remove_dir-Keeps :
      (q : PathBuf) → is_under q p ≡ false → Keeps Holds (remove_dir_if_exists m q)
  unfolding remove_dir_if_exists
  remove_dir-Keeps q n s h =
      if-Keeps Holds (is_some (Map.get q s.files)) (ok tt, s)
        (if is_member q s.dirs then remove_left m q (m.faults.remove_dir q) s else (ok tt, s)) h
        (if-Keeps Holds (is_member q s.dirs) (remove_left m q (m.faults.remove_dir q) s) (ok tt, s)
          (remove_left-Keeps q (m.faults.remove_dir q) n s h) h)

  pub copy_binary-Keeps :
      (src_dir dir : PathBuf) (name : String)
      → join dir name ≢ p
      → Keeps Holds (copy_binary m src_dir dir name)
  unfolding copy_binary
  copy_binary-Keeps src_dir dir name n s h =
      if-Keeps Holds (exists m (join src_dir name) s)
        ((copy_file m (join src_dir name) (join dir name) >> set_executable m (join dir name)) s)
        (ok tt, s)
        (Keeps->> Holds (copy_file m (join src_dir name) (join dir name))
          (set_executable m (join dir name)) (copy_file-Keeps (join src_dir name) (join dir name) n)
          (set_executable-Keeps (join dir name) n) s h)
        h

  pub copy_binaries-Keeps :
      (src_dir dir : PathBuf) (names : List String)
      → Foreign dir names p
      → Keeps Holds (copy_binaries m src_dir dir names)
  unfolding copy_binaries
  copy_binaries-Keeps src_dir dir [] n s h = h
  copy_binaries-Keeps src_dir dir (name ∷ names) n s h =
      Keeps->> Holds (copy_binary m src_dir dir name) (copy_binaries m src_dir dir names)
        (copy_binary-Keeps src_dir dir name n.0) (copy_binaries-Keeps src_dir dir names n.1) s h

  save_config_absent-Keeps : (dir : PathBuf) → config_path dir ≢ p → Keeps Holds (save_config m dir)
  unfolding save_config
  save_config_absent-Keeps dir n s h =
      if-Keeps Holds (exists m (config_path dir) s) (ok tt, s)
        (save m (config_path dir) m.default_config s) h
        (save-Keeps (config_path dir) m.default_config n s h)

  -- The config is written where there is none.
  pub save_config-Keeps :
      (dir : PathBuf) → (config_path dir ≢ p) ⊎ (is_some o ≡ true) → Keeps Holds (save_config m dir)
  unfolding save_config
  save_config-Keeps dir (inl n) s h = save_config_absent-Keeps dir n s h
  save_config-Keeps dir (inr k) s h = elim (Bool-cases (config_path dir == p)) [
    | inl e ↦
        (let same = eq_of_== (config_path dir) p e in
          let there : exists m (config_path dir) s ≡ true =
            ground (arith, ap (λ q. Map.get q s.files) same, h, k) in
          subst
            (λ b. Holds (if b then (ok tt, s) else save m (config_path dir) m.default_config s).1)
            (sym there) h)
    | inr e ↦
        save_config_absent-Keeps dir
          (λ q. ground (arith, components_eq.beq_iff (config_path dir) p, q, e)) s h
  ]
