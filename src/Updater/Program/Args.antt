-- ===== src/Updater/Program/Args.antt =====
-- src/bin/updater.rs: the arguments, and in src/infra/updater/mod.rs those that are passed.
--
-- The model starts after the program's own name. `parse_u32` is `str::parse::<u32>`.
use rust_api_boilerplate.Prelude.{
  ℕ, ◌≡◌, Option, none, some, List, [], ◌∷◌, String, Result, ok, err, ◌>>=◌, ok_or, if◌then◌else◌,
  ◌==◌, text_eq, refl,
}
use Prim.Native.String.{◌++◌ as str_append}
use rust_api_boilerplate.Config.{RestartMode, spawn, supervisor}

pub record Args : Type 0 where
  pub zip_path : String
  pub target_path : String
  pub binary_name : String
  pub pid : ℕ
  pub restart_mode : String

-- The variables of the loop.
pub record Partial : Type 0 where
  pub zip_path : Option String
  pub target_path : Option String
  pub binary_name : Option String
  pub pid : ℕ
  pub restart_mode : String

abbrev pub initial : Partial
initial = record {
  zip_path = none;
  target_path = none;
  binary_name = none;
  pid = 0;
  restart_mode = "supervisor";
}

module _ (parse_u32 : String → Option ℕ) where
  -- One round of the loop, on a flag and the value after it, if there is one.
  unfoldable pub store : String → Option String → Partial → Result String Partial
  store flag value p =
      if flag == "--zip-path"
      then (do v ← ok_or value "missing value for --zip-path"; ok (record p { zip_path = some v }))
      else if flag == "--target-path"
      then (do
        v ← ok_or value "missing value for --target-path"
        ok (record p { target_path = some v }))
      else if flag == "--binary-name"
      then (do
        v ← ok_or value "missing value for --binary-name"
        ok (record p { binary_name = some v }))
      else if flag == "--pid"
      then (do
        v ← ok_or value "missing value for --pid"
        n ← ok_or (parse_u32 v) "invalid --pid value"
        ok (record p { pid = n }))
      else if flag == "--restart-mode"
      then (do
        v ← ok_or value "missing value for --restart-mode"
        ok (record p { restart_mode = v }))
      else err (str_append "unknown argument: " flag)

  unfoldable pub parse_loop : List String → Partial → Result String Partial
  parse_loop [] p = ok p
  parse_loop (flag ∷ []) p = store flag none p
  parse_loop (flag ∷ value ∷ rest) p = do p' ← store flag (some value) p; parse_loop rest p'

  unfoldable pub parse_args : List String → Result String Args
  parse_args args = do
    p ← parse_loop args initial
    zip_path ← ok_or p.zip_path "--zip-path is required"
    target_path ← ok_or p.target_path "--target-path is required"
    binary_name ← ok_or p.binary_name "--binary-name is required"
    ok (record {
      zip_path = zip_path;
      target_path = target_path;
      binary_name = binary_name;
      pid = p.pid;
      restart_mode = p.restart_mode;
    })

-- The text that `spawn_updater` passes for its configuration.
abbrev pub mode_text : RestartMode → String
mode_text spawn = "spawn"
mode_text supervisor = "supervisor"

-- The arguments of the process that `spawn_updater` starts.
unfoldable pub spawn_args : (ℕ → String) → String → String → String → ℕ → RestartMode → List String
spawn_args show_u32 zip_path target_path binary_name pid mode =
    "--zip-path"
    ∷ zip_path
    ∷ "--target-path"
    ∷ target_path
    ∷ "--binary-name"
    ∷ binary_name
    ∷ "--pid"
    ∷ show_u32 pid
    ∷ "--restart-mode"
    ∷ mode_text mode
    ∷ []

-- What `spawn_updater` passes, the program reads: the same paths, name, process and mode, whatever
-- their texts are, given that a number is read back from its text.
pub parse_args-spawn_args :
    (parse_u32 : String → Option ℕ) (show_u32 : ℕ → String)
    (zip_path target_path binary_name : String) (pid : ℕ) (mode : RestartMode)
    → parse_u32 (show_u32 pid) ≡ some pid
    → parse_args parse_u32 (spawn_args show_u32 zip_path target_path binary_name pid mode)
      ≡ ok (record {
        zip_path = zip_path;
        target_path = target_path;
        binary_name = binary_name;
        pid = pid;
        restart_mode = mode_text mode;
      })
unfolding parse_args parse_loop store spawn_args
parse_args-spawn_args parse_u32 show_u32 zip_path target_path binary_name pid mode h = rw h refl
