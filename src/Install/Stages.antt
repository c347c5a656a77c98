-- ===== src/Install/Stages.antt =====
-- src/bin/installer.rs: the state after each part of `cmd_install`, where no call fails.
use rust_api_boilerplate.Prelude.{
  ◌≡◌, ◌≢◌, inl, refl, sym, ap, ◌∙◌, Bool, true, false, not, ◌&&◌, Option, none, some, List, [],
  ◌∷◌, ◌++◌, String, ok, arith, ◌==◌, text_eq,
}
use rust_api_boilerplate.Prelude.Actions.{Keeps, Succeeds, Succeeds-map}
use rust_api_boilerplate.Map
use rust_api_boilerplate.Updater.Program.{File}
use rust_api_boilerplate.Install.System.{
  PathBuf, System, Machine, Run, join, save, components_eq, is_member, put,
}
use rust_api_boilerplate.Install.Options.{Options, installer_dir}
use rust_api_boilerplate.Install.Program.{
  binary_names, run_cmd, unit_path, copy_binaries, config_path, save_config,
}
use rust_api_boilerplate.Install.Frames.{Holds, Foreign, copy_binaries-Keeps, save_config-Keeps}
use rust_api_boilerplate.Install.Names.{config_path-Foreign, join_other_name}
use rust_api_boilerplate.Install.Untouched.{copy_binaries-Beside, save_config-Beside}
use rust_api_boilerplate.Install.Copies.{
  no_faults, AreDistinct, Sources, Targets, copy_binaries-Targets,
}

abbrev is_absent : String → List String → Bool
is_absent a [] = true
is_absent a (b ∷ names) = not (b == a) && is_absent a names

abbrev are_distinct : List String → Bool
are_distinct [] = true
are_distinct (a ∷ names) = is_absent a names && are_distinct names

is_absent-Foreign :
    (dir : PathBuf) (a : String) (names : List String)
    → is_absent a names ≡ true
    → Foreign dir names (join dir a)
is_absent-Foreign dir a [] h = tt
is_absent-Foreign dir a (b ∷ names) h = (
  join_other_name dir dir b a (λ e. ground (arith, h, e, text_eq.beq_iff b a)),
  is_absent-Foreign dir a names (ground (arith, h)),
)

are_distinct-AreDistinct :
    (dir : PathBuf) (names : List String) → are_distinct names ≡ true → AreDistinct dir names
are_distinct-AreDistinct dir [] h = tt
are_distinct-AreDistinct dir (a ∷ names) h = (
  is_absent-Foreign dir a names (ground (arith, h)),
  are_distinct-AreDistinct dir names (ground (arith, h)),
)

pub binary_names-AreDistinct : (dir : PathBuf) → AreDistinct dir binary_names
binary_names-AreDistinct dir = are_distinct-AreDistinct dir binary_names refl

-- What `fs::write` leaves at a path: a new file has no executable bit.
abbrev pub written : {Bytes : Type 0} → Bytes → Option (File Bytes) → File Bytes
written bytes old = record {
  bytes = bytes;
  executable = elim old [ none ↦ false | some f ↦ f.executable ];
}

-- The config that was there, or the default one.
abbrev pub kept_or : {Bytes : Type 0} → Bytes → Option (File Bytes) → File Bytes
kept_or bytes none = written bytes none
kept_or bytes (some old) = old

module _ {Bytes : Type 0} (m : Machine Bytes) where
  pub save_works :
      (p : PathBuf) (bytes : Bytes) (s : System Bytes)
      → m.faults ≡ no_faults
      → save m p bytes s ≡ (ok tt, put m p (written bytes (Map.get p s.files)) s)
  unfolding save
  save_works p bytes s f = rw (ap (λ k. k.save p) f)

  pub run_cmd_works :
      (args : List String) (s : System Bytes)
      → m.faults ≡ no_faults
      → run_cmd m args s ≡ (ok tt, record s { commands = s.commands ++ (args ∷ []) })
  unfolding run_cmd
  run_cmd_works args s f = rw (ap (λ k. k.spawn args) f)

module _ {Bytes : Type 0} (m : Machine Bytes) (c : Options) (binary : String → File Bytes) where
  abbrev pub Stage :
      Option (File Bytes)
      → Option (File Bytes)
      → List PathBuf
      → List (List String)
      → System Bytes
      → Type 0
  Stage config unit dirs commands s =
      Targets m (installer_dir m) c.install_dir binary binary_names s
      × (Map.get (config_path c.install_dir) s.files ≡ config)
      × (Map.get (unit_path m c.service_name) s.files ≡ unit)
      × (s.dirs ≡ dirs)
      × (s.commands ≡ commands)

  pub Targets-kept :
      (names : List String) (q : PathBuf) (a : Run m) (s : System Bytes)
      → ((p : PathBuf) (o : Option (File Bytes)) → q ≢ p → Keeps (Holds m p o) a)
      → Foreign c.install_dir names q
      → Targets m (installer_dir m) c.install_dir binary names s
      → Targets m (installer_dir m) c.install_dir binary names (a s).1
  Targets-kept [] q a s k n h = tt
  Targets-kept (name ∷ names) q a s k n h = (
    k (join c.install_dir name) (some (record (binary name) { executable = true }))
        (λ e. n.0 (sym e)) s h.0,
    Targets-kept names q a s k n.1 h.1,
  )

  pub copy_binaries-Stage :
      (s : System Bytes)
      → m.faults ≡ no_faults
      → installer_dir m ≢ c.install_dir
      → Foreign c.install_dir binary_names (unit_path m c.service_name)
      → Sources m (installer_dir m) c.install_dir binary binary_names s
      → Succeeds
          (Stage
            (Map.get (config_path c.install_dir) s.files)
            (Map.get (unit_path m c.service_name) s.files)
            s.dirs
            s.commands)
          (copy_binaries m (installer_dir m) c.install_dir binary_names s)
  copy_binaries-Stage s f n u h =
      let src = installer_dir m in
      let dir = c.install_dir in
      let config = config_path dir in
      let unit = unit_path m c.service_name in
      let run = copy_binaries m src dir binary_names s in
      Succeeds-map (Targets m src dir binary binary_names)
        (Stage (Map.get config s.files) (Map.get unit s.files) s.dirs s.commands) run
        (copy_binaries-Targets m src dir binary binary_names s f n (binary_names-AreDistinct dir) h)
        (λ t. (
          t,
          copy_binaries-Keeps m config (Map.get config s.files) src dir binary_names
              (config_path-Foreign dir binary_names) s refl,
          copy_binaries-Keeps m unit (Map.get unit s.files) src dir binary_names u s refl,
          copy_binaries-Beside m (λ d k. d ≡ s.dirs) src dir binary_names s refl,
          copy_binaries-Beside m (λ d k. k ≡ s.commands) src dir binary_names s refl,
        ))

  save_config-Holds :
      (s : System Bytes) (old : Option (File Bytes))
      → m.faults ≡ no_faults
      → Map.get (config_path c.install_dir) s.files ≡ old
      → is_member (config_path c.install_dir) s.dirs ≡ false
      → Succeeds
          (Holds m (config_path c.install_dir) (some (kept_or m.default_config old)))
          (save_config m c.install_dir s)
  unfolding save_config
  save_config-Holds s (some old) f h d = rw (h) h
  save_config-Holds s none f h d =
      let config = config_path c.install_dir in
      rw (h, d, save_works m config m.default_config s f, h)
        (Map.get-insert_same config (written m.default_config none) s.files)

  pub save_config-Stage :
      (s : System Bytes) (old unit : Option (File Bytes)) (dirs : List PathBuf)
      (commands : List (List String))
      → m.faults ≡ no_faults
      → unit_path m c.service_name ≢ config_path c.install_dir
      → is_member (config_path c.install_dir) dirs ≡ false
      → Stage old unit dirs commands s
      → Succeeds
          (Stage (some (kept_or m.default_config old)) unit dirs commands)
          (save_config m c.install_dir s)
  save_config-Stage s old unit dirs commands f n d h =
      let dir = c.install_dir in
      let config = config_path dir in
      let run = save_config m dir s in
      Succeeds-map (Holds m config (some (kept_or m.default_config old)))
        (Stage (some (kept_or m.default_config old)) unit dirs commands) run
        (save_config-Holds s old f h.1 (ap (is_member config) h.3 ∙ d))
        (λ k. (
          Targets-kept binary_names config (save_config m dir) s
              (λ p o e. save_config-Keeps m p o dir (inl e)) (config_path-Foreign dir binary_names)
              h.0,
          k,
          save_config-Keeps m (unit_path m c.service_name) unit dir (inl (λ e. n (sym e))) s h.2,
          save_config-Beside m (λ x k. x ≡ dirs) dir s h.3,
          save_config-Beside m (λ x k. k ≡ commands) dir s h.4,
        ))
