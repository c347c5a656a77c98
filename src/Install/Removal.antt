-- ===== src/Install/Removal.antt =====
-- src/bin/uninstaller.rs and `uninstall` of src/bin/installer.rs: what they remove.
use rust_api_boilerplate.Prelude.{
  ℕ, ◌≡◌, refl, ◌∙◌, Bool, true, false, ◌&&◌, Option, none, some, List, [], ◌∷◌, ◌++◌, String,
  Result, ok, err, if◌then◌else◌, is_some, text_eq,
}
use rust_api_boilerplate.Prelude.Actions.{ok->>, err->>, ◌>>◌}
use rust_api_boilerplate.Map
use rust_api_boilerplate.Install.System.{
  PathBuf, System, Machine, Run, exists, remove_file_if_exists, remove_dir_if_exists, is_member,
  components_eq, remove_left,
}
use rust_api_boilerplate.Install.Program.{
  systemctl, run_cmd, unit_path, stop_service, deregister_service, uninstall_with,
}
use rust_api_boilerplate.Install.Uninstaller
use rust_api_boilerplate.Install.Uninstaller.{target_dir, remove_service}

module _ {Bytes : Type 0} (m : Machine Bytes) where
  -- The same files and directories, after other commands.
  abbrev pub with_commands : List (List String) → System Bytes → System Bytes
  with_commands commands s = record s { commands = commands }

  if-apart :
      (b : Bool) (commands : List (List String)) (x y x' y' : Result ℕ Unit × System Bytes)
      → x' ≡ (ok tt, with_commands commands x.1)
      → y' ≡ (ok tt, with_commands commands y.1)
      → (if b then x' else y') ≡ (ok tt, with_commands commands (if b then x else y).1)
  if-apart true commands x y x' y' h k = h
  if-apart false commands x y x' y' h k = k

  remove_file_apart :
      (p : PathBuf) (commands : List (List String)) (s : System Bytes)
      → remove_file_if_exists m p (with_commands commands s)
        ≡ (ok tt, with_commands commands (remove_file_if_exists m p s).1)
  unfolding remove_file_if_exists
  remove_file_apart p commands s =
      let t = with_commands commands s in
      if-apart (exists m p s && m.faults.remove_file p) commands
        (ok tt, record s { files = Map.remove p s.files }) (ok tt, s)
        (ok tt, record t { files = Map.remove p t.files }) (ok tt, t) refl refl

  remove_left_apart :
      (p : PathBuf) (left : Option (PathBuf → Bool)) (commands : List (List String))
      (s : System Bytes)
      → remove_left m p left (with_commands commands s)
        ≡ (ok tt, with_commands commands (remove_left m p left s).1)
  remove_left_apart p none commands s = refl
  remove_left_apart p (some kept) commands s = refl

  remove_dir_apart :
      (p : PathBuf) (commands : List (List String)) (s : System Bytes)
      → remove_dir_if_exists m p (with_commands commands s)
        ≡ (ok tt, with_commands commands (remove_dir_if_exists m p s).1)
  unfolding remove_dir_if_exists
  remove_dir_apart p commands s =
      let t = with_commands commands s in
      let left = m.faults.remove_dir p in
      if-apart (is_some (Map.get p s.files)) commands (ok tt, s)
        (if is_member p s.dirs then remove_left m p left s else (ok tt, s)) (ok tt, t)
        (if is_member p s.dirs then remove_left m p left t else (ok tt, t)) refl
        (if-apart (is_member p s.dirs) commands (remove_left m p left s) (ok tt, s)
          (remove_left m p left t) (ok tt, t) (remove_left_apart p left commands s) refl)

  -- The machine without the unit file and the install directory, as far as the calls work.
  abbrev pub removed : String → PathBuf → System Bytes → System Bytes
  removed name dir s =
      (remove_dir_if_exists m dir (remove_file_if_exists m (unit_path m name) s).1).1

  -- A command that starts, or systemctl is not there.
  abbrev pub ran : Bool → List String → List (List String) → List (List String)
  ran starts args commands = if starts then commands ++ (systemctl args ∷ []) else commands

  run_cmd_starts :
      (args : List String) (s : System Bytes)
      → m.faults.spawn args ≡ true
      → run_cmd m args s ≡ (ok tt, with_commands (s.commands ++ (args ∷ [])) s)
  unfolding run_cmd
  run_cmd_starts args s h = rw (h)

  run_cmd_stops :
      (args : List String) (s : System Bytes)
      → m.faults.spawn args ≡ false
      → run_cmd m args s ≡ (err 1, s)
  unfolding run_cmd
  run_cmd_stops args s h = rw (h)

  Uninstaller-run_cmd :
      (starts : Bool) (args : List String) (s : System Bytes)
      → m.faults.spawn (systemctl args) ≡ starts
      → Uninstaller.run_cmd m (systemctl args) s
        ≡ (ok tt, with_commands (ran starts args s.commands) s)
  unfolding Uninstaller.run_cmd
  Uninstaller-run_cmd true args s h = rw (h)
  Uninstaller-run_cmd false args s h = rw (h)

  -- The commands of the uninstaller after others, and those of `uninstall`.
  abbrev pub uninstaller_commands : Bool → String → List (List String) → List (List String)
  uninstaller_commands starts name commands =
      ran starts ("daemon-reload" ∷ [])
        (ran starts ("disable" ∷ name ∷ []) (ran starts ("stop" ∷ name ∷ []) commands))

  abbrev pub uninstall_commands : String → List (List String) → List (List String)
  uninstall_commands name commands =
      ran true ("daemon-reload" ∷ [])
        (ran true ("disable" ∷ "--now" ∷ name ∷ []) (ran true ("stop" ∷ name ∷ []) commands))

  -- Three commands with the removals after the second and the third.
  removal_works :
      (stop disable reload : Run m) (name : String) (dir : PathBuf) (c1 c2 c3 : List (List String))
      (s : System Bytes)
      → stop s ≡ (ok tt, with_commands c1 s)
      → disable (with_commands c1 s) ≡ (ok tt, with_commands c2 s)
      → reload (with_commands c2 (remove_file_if_exists m (unit_path m name) s).1)
        ≡ (ok tt, with_commands c3 (remove_file_if_exists m (unit_path m name) s).1)
      → (stop
            >> (disable >> remove_file_if_exists m (unit_path m name) >> reload)
            >> remove_dir_if_exists m dir)
          s
        ≡ (ok tt, with_commands c3 (removed name dir s))
  removal_works stop disable reload name dir c1 c2 c3 s h1 h2 h3 =
      let file = remove_file_if_exists m (unit_path m name) in
      let rest = disable >> file >> reload in
      let s1 = with_commands c1 s in
      let s2 = with_commands c2 s in
      let s' = (file s).1 in
      let filed = ok->> disable file s1 s2 h2 ∙ remove_file_apart (unit_path m name) c2 s in
      let inner = ok->> (disable >> file) reload s1 (with_commands c2 s') filed ∙ h3 in
      ok->> (stop >> rest) (remove_dir_if_exists m dir) s (with_commands c3 s')
        (ok->> stop rest s s1 h1 ∙ inner)
      ∙ remove_dir_apart dir c3 s'

  pub remove_service_works :
      (starts : Bool) (name : String) (dir : PathBuf) (s : System Bytes)
      → ((args : List String) → m.faults.spawn args ≡ starts)
      → remove_service m name dir s
        ≡ (ok tt, with_commands (uninstaller_commands starts name s.commands) (removed name dir s))
  unfolding remove_service Uninstaller.stop_service Uninstaller.deregister_service
      Uninstaller.remove_install_dir
  remove_service_works starts name dir s h =
      let stop = "stop" ∷ name ∷ [] in
      let disable = "disable" ∷ name ∷ [] in
      let reload = "daemon-reload" ∷ [] in
      let c1 = ran starts stop s.commands in
      let c2 = ran starts disable c1 in
      removal_works (Uninstaller.run_cmd m (systemctl stop))
        (Uninstaller.run_cmd m (systemctl disable)) (Uninstaller.run_cmd m (systemctl reload)) name
        dir c1 c2 (ran starts reload c2) s (Uninstaller-run_cmd starts stop s (h (systemctl stop)))
        (Uninstaller-run_cmd starts disable (with_commands c1 s) (h (systemctl disable)))
        (Uninstaller-run_cmd starts reload
          (with_commands c2 (remove_file_if_exists m (unit_path m name) s).1)
          (h (systemctl reload)))

  pub uninstall_with_works :
      (name : String) (dir : PathBuf) (s : System Bytes)
      → ((args : List String) → m.faults.spawn args ≡ true)
      → uninstall_with m name dir s
        ≡ (ok tt, with_commands (uninstall_commands name s.commands) (removed name dir s))
  unfolding uninstall_with stop_service deregister_service
  uninstall_with_works name dir s h =
      let stop = "stop" ∷ name ∷ [] in
      let disable = "disable" ∷ "--now" ∷ name ∷ [] in
      let reload = "daemon-reload" ∷ [] in
      let c1 = ran true stop s.commands in
      let c2 = ran true disable c1 in
      removal_works (run_cmd m (systemctl stop)) (run_cmd m (systemctl disable))
        (run_cmd m (systemctl reload)) name dir c1 c2 (ran true reload c2) s
        (run_cmd_starts (systemctl stop) s (h (systemctl stop)))
        (run_cmd_starts (systemctl disable) (with_commands c1 s) (h (systemctl disable)))
        (run_cmd_starts (systemctl reload)
          (with_commands c2 (remove_file_if_exists m (unit_path m name) s).1)
          (h (systemctl reload)))

  pub uninstall_with_stops :
      (name : String) (dir : PathBuf) (s : System Bytes)
      → ((args : List String) → m.faults.spawn args ≡ false)
      → uninstall_with m name dir s ≡ (err 1, s)
  unfolding uninstall_with stop_service
  uninstall_with_stops name dir s h =
      let stop = run_cmd m (systemctl ("stop" ∷ name ∷ [])) in
      err->> (stop >> deregister_service m name) (remove_dir_if_exists m dir) s s 1 (
        err->> stop (deregister_service m name) s s 1
          (run_cmd_stops (systemctl ("stop" ∷ name ∷ [])) s (h (systemctl ("stop" ∷ name ∷ [])))))
