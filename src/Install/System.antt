-- ===== src/Install/System.antt =====
-- What src/bin/installer.rs and src/bin/uninstaller.rs see of a Unix machine.
--
-- A path is the list of its components, without symbolic links. The files stand in a map, the
-- directories in a list, and the commands that were run in another; systemctl is not modelled.
-- `Faults` says which calls fail and what each leaves. An action that stops the process gives its
-- exit code. `std::fs::copy` of a file onto itself truncates it, as its documentation says.
use rust_api_boilerplate.Prelude.{
  ◌≡◌, ◌↔◌, Bool, true, false, ◌&&◌, ◌||◌, not, Option, none, some, List, [], ◌∷◌, ◌++◌, map,
  String, err, ok, if◌then◌else◌, PartialEq, ◌==◌, text_eq, arith, ℕ, is_some,
}
use rust_api_boilerplate.Prelude.Actions.{Action}
use rust_api_boilerplate.Map
use rust_api_boilerplate.Map.{Map}
use rust_api_boilerplate.Updater.Program.{File}

abbrev pub PathBuf : Type 0
PathBuf = List String

abbrev pub same_components : PathBuf → PathBuf → Bool
same_components [] [] = true
same_components (a ∷ p) (b ∷ q) = a == b && same_components p q
same_components _ _ = false

pub same_components_iff : (p q : PathBuf) → (same_components p q ≡ true) ↔ (p ≡ q)
same_components_iff [] [] = ground arith
same_components_iff [] (b ∷ q) = ground arith
same_components_iff (a ∷ p) [] = ground arith
same_components_iff (a ∷ p) (b ∷ q) = ground (arith, text_eq.beq_iff a b, same_components_iff p q)

instance abbrev pub components_eq : PartialEq PathBuf
components_eq = record { beq = same_components; beq_iff = same_components_iff }

abbrev pub join : PathBuf → String → PathBuf
join dir name = dir ++ (name ∷ [])

-- `Path::parent` of a path with components.
abbrev pub parent : PathBuf → Option PathBuf
parent [] = none
parent (a ∷ []) = some []
parent (a ∷ b ∷ p) = elim (parent (b ∷ p)) [ none ↦ none | some q ↦ some (a ∷ q) ]

-- The path and the directories above it, which `fs::create_dir_all` makes.
abbrev pub ancestors : PathBuf → List PathBuf
ancestors [] = [] ∷ []
ancestors (a ∷ p) = [] ∷ map (λ q. a ∷ q) (ancestors p)

-- Whether the path is `dir` or stands under it.
abbrev pub is_under : PathBuf → PathBuf → Bool
is_under [] p = true
is_under (a ∷ d) [] = false
is_under (a ∷ d) (b ∷ p) = a == b && is_under d p

module _ {V : Type 0} where
  abbrev pub remove_where : (PathBuf → Bool) → Map PathBuf V → Map PathBuf V
  remove_where t [] = []
  remove_where t ((k, v) ∷ m) = let rest = remove_where t m in if t k then rest else (k, v) ∷ rest

  pub get-remove_where :
      (t : PathBuf → Bool) (p : PathBuf) (m : Map PathBuf V)
      → Map.get p (remove_where t m) ≡ (if t p then none else Map.get p m)
  unfolding Map.get
  get-remove_where t p [] = ground arith
  get-remove_where t p ((k, v) ∷ m) =
      ground (arith, get-remove_where t p m, components_eq.beq_iff k p)

abbrev pub remove_dirs : (PathBuf → Bool) → List PathBuf → List PathBuf
remove_dirs t [] = []
remove_dirs t (d ∷ ds) = let rest = remove_dirs t ds in if t d then rest else d ∷ rest

abbrev pub is_member : PathBuf → List PathBuf → Bool
is_member p [] = false
is_member p (q ∷ ps) = p == q || is_member p ps

pub record System (Bytes : Type 0) : Type 0 where
  pub files : Map PathBuf (File Bytes)
  pub dirs : List PathBuf
  pub commands : List (List String)

-- By the path, or the command, of the call: `none` where it succeeds, and else what it leaves. For a
-- directory there is also whether the error is `AlreadyExists`.
pub record Faults (Bytes : Type 0) : Type 0 where
  pub create_dir : PathBuf → Option (Bool × List PathBuf)
  pub copy : PathBuf → Option (Option (File Bytes))
  pub chmod : PathBuf → Bool
  pub save : PathBuf → Option (Option (File Bytes))
  pub remove_file : PathBuf → Bool
  pub remove_dir : PathBuf → Option (PathBuf → Bool)
  pub spawn : List String → Bool

-- What dialoguer answers to each prompt, if it does.
pub record Answers : Type 0 where
  pub menu : Option ℕ
  pub service_name : Option String
  pub install_dir : Option String
  pub display_name : Option String
  pub description : Option String
  pub start : Option Bool
  pub proceed : Option Bool

-- The machine and the libraries; `is_tty` is of the standard input, as the installer asks for it.
-- `path_of` and `display` are `PathBuf::from` and `display`,
-- `content` the bytes of a text, and `default_config` those of config/default.yaml.
pub record Machine (Bytes : Type 0) : Type 0 where
  pub is_root : Bool
  pub is_tty : Bool
  pub is_stdout_tty : Bool
  pub current_exe : Option PathBuf
  pub path_of : String → PathBuf
  pub display : PathBuf → String
  pub content : String → Bytes
  pub default_config : Bytes
  pub answers : Answers
  pub faults : Faults Bytes

module _ {Bytes : Type 0} (m : Machine Bytes) where
  -- A run: it goes on, or the process ends with an exit code.
  abbrev pub Run : Type 0
  Run = Action (System Bytes) ℕ Unit

  abbrev pub put : PathBuf → File Bytes → System Bytes → System Bytes
  put p f s = record s { files = Map.insert p f s.files }

  -- What a failed write leaves at the path: nothing of its own, or a part.
  abbrev pub put_part : PathBuf → Option (File Bytes) → System Bytes → System Bytes
  put_part p none s = s
  put_part p (some f) s = put p f s

  abbrev pub exists : PathBuf → System Bytes → Bool
  exists p s = is_some (Map.get p s.files) || is_member p s.dirs

  -- `fatal`
  abbrev pub fatal : Run
  fatal s = (err 1, s)

  -- `create_dir_all`
  abbrev pub create_dir_left : PathBuf → Option (Bool × List PathBuf) → Run
  create_dir_left p none s = (ok tt, record s { dirs = ancestors p ++ s.dirs })
  create_dir_left p (some (true, made)) s = (ok tt, record s { dirs = made ++ s.dirs })
  create_dir_left p (some (false, made)) s = (err 1, record s { dirs = made ++ s.dirs })

  unfoldable pub create_dir_all : PathBuf → Run
  create_dir_all p = create_dir_left p (m.faults.create_dir p)

  -- What `fs::copy` writes: the content is gone where the two paths are one.
  abbrev pub copied : PathBuf → PathBuf → Option (File Bytes) → Run
  copied src dst none s = (err 1, s)
  copied src dst (some f) s =
      (ok tt, put dst (if src == dst then record f { bytes = m.content "" } else f) s)

  abbrev pub copy_left : PathBuf → PathBuf → Option (Option (File Bytes)) → Run
  copy_left src dst none s = copied src dst (Map.get src s.files) s
  copy_left src dst (some part) s = (err 1, put_part dst part s)

  unfoldable pub copy_file : PathBuf → PathBuf → Run
  copy_file src dst = copy_left src dst (m.faults.copy dst)

  abbrev pub chmod_left : PathBuf → Bool → Option (File Bytes) → Run
  chmod_left p true (some f) s = (ok tt, put p (record f { executable = true }) s)
  chmod_left p _ _ s = (ok tt, s)

  unfoldable pub set_executable : PathBuf → Run
  set_executable p s = chmod_left p (m.faults.chmod p) (Map.get p s.files) s

  abbrev pub save_left : PathBuf → Bytes → Option (Option (File Bytes)) → Run
  save_left p bytes none s = (
    ok tt,
    put p
        (record {
          bytes = bytes;
          executable = elim (Map.get p s.files) [ none ↦ false | some old ↦ old.executable ];
        })
        s,
  )
  save_left p bytes (some part) s = (err 1, put_part p part s)

  -- `fs::write`, and `fatal` where it fails.
  unfoldable pub save : PathBuf → Bytes → Run
  save p bytes = save_left p bytes (m.faults.save p)

  -- `let _ = fs::remove_file(..)` where the path exists.
  unfoldable pub remove_file_if_exists : PathBuf → Run
  remove_file_if_exists p s =
      if exists p s && m.faults.remove_file p
      then (ok tt, record s { files = Map.remove p s.files })
      else (ok tt, s)

  abbrev pub remove_tree : (PathBuf → Bool) → System Bytes → System Bytes
  remove_tree t s = record s { files = remove_where t s.files; dirs = remove_dirs t s.dirs }

  abbrev pub remove_left : PathBuf → Option (PathBuf → Bool) → Run
  remove_left p none s = (ok tt, remove_tree (is_under p) s)
  remove_left p (some kept) s = (ok tt, remove_tree (λ q. is_under p q && not (kept q)) s)

  -- `fs::remove_dir_all` where the path exists, with a warning where it fails; on a file it does.
  unfoldable pub remove_dir_if_exists : PathBuf → Run
  remove_dir_if_exists p s =
      if is_some (Map.get p s.files)
      then (ok tt, s)
      else if is_member p s.dirs
      then remove_left p (m.faults.remove_dir p) s
      else (ok tt, s)
