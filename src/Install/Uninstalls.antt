-- ===== src/Install/Uninstalls.antt =====
-- src/bin/uninstaller.rs and `uninstall` of src/bin/installer.rs, beside each other and after an
-- installation.
use rust_api_boilerplate.Prelude.{
  ℕ, ◌≡◌, refl, ap, ◌∙◌, Bool, true, false, not, ◌&&◌, ◌||◌, none, List, String, Result, ok, err,
  if◌then◌else◌, unwrap_or, ◌==◌, arith, text_eq, Bool-cases, inl, inr,
}
use rust_api_boilerplate.Map
use rust_api_boilerplate.Install.System.{
  PathBuf, System, Machine, exists, remove_file_if_exists, remove_dir_if_exists, is_under,
  is_member, components_eq, get-remove_where,
}
use rust_api_boilerplate.Install.Options.{Flags, is_interactive, gather, uninstall_dir}
use rust_api_boilerplate.Install.Program.{unit_path, uninstall_with, cmd_uninstall}
use rust_api_boilerplate.Install.Untouched.{remove_file-Beside}
use rust_api_boilerplate.Install.Copies.{no_faults}
use rust_api_boilerplate.Install.Uninstaller
use rust_api_boilerplate.Install.Uninstaller.{target_dir, remove_service}
use rust_api_boilerplate.Install.Removal.{
  with_commands, removed, uninstaller_commands, uninstall_commands, remove_service_works,
  uninstall_with_works, uninstall_with_stops,
}

module _ {Bytes : Type 0} (m : Machine Bytes) where
  absent_file :
      (u p : PathBuf) (s : System Bytes)
      → exists m u s ≡ false
      → Map.get p s.files ≡ (if u == p then none else Map.get p s.files)
  absent_file u p s e = ground (arith, e, components_eq.beq_iff u p)

  remove_file-get :
      (u p : PathBuf) (s : System Bytes)
      → m.faults.remove_file u ≡ true
      → Map.get p (remove_file_if_exists m u s).1.files
        ≡ (if u == p then none else Map.get p s.files)
  unfolding remove_file_if_exists
  remove_file-get u p s h = elim (Bool-cases (exists m u s)) [
    | inl e ↦ rw (e, h) (Map.get-remove u p s.files)
    | inr e ↦ rw (e) (absent_file u p s e)
  ]

  remove_dir-get :
      (dir p : PathBuf) (s : System Bytes)
      → m.faults.remove_dir dir ≡ none
      → Map.get dir s.files ≡ none
      → is_member dir s.dirs ≡ true
      → Map.get p (remove_dir_if_exists m dir s).1.files
        ≡ (if is_under dir p then none else Map.get p s.files)
  unfolding remove_dir_if_exists
  remove_dir-get dir p s f h d = rw (h, d, f) (get-remove_where (is_under dir) p s.files)

  remove_file-dirs :
      (u : PathBuf) (s : System Bytes) → (remove_file_if_exists m u s).1.dirs ≡ s.dirs
  remove_file-dirs u s = remove_file-Beside m (λ d k. d ≡ s.dirs) u s refl

  -- The files that the removal leaves.
  pub removed-get :
      (name : String) (dir p : PathBuf) (s : System Bytes)
      → m.faults ≡ no_faults
      → Map.get dir s.files ≡ none
      → is_member dir s.dirs ≡ true
      → Map.get p (removed m name dir s).files
        ≡ (if is_under dir p || unit_path m name == p then none else Map.get p s.files)
  removed-get name dir p s f h d =
      let unit = unit_path m name in
      let s' = (remove_file_if_exists m unit s).1 in
      let works = ap (λ k. k.remove_file unit) f in
      let gone =
        remove_dir-get dir p s' (ap (λ k. k.remove_dir dir) f)
          (ground (arith, remove_file-get unit dir s works, h))
          (ap (is_member dir) (remove_file-dirs unit s) ∙ d) in
      ground (arith, gone, remove_file-get unit p s works)

  -- How a removal comes out: refused without root, and nothing where it is declined.
  abbrev pub guarded :
      Bool → Bool → System Bytes → Result ℕ Unit × System Bytes → Result ℕ Unit × System Bytes
  guarded root declined s r = if not root then (err 1, s) else if declined then (ok tt, s) else r

  pub guarded-goes :
      (root declined : Bool) (t : System Bytes) (r : Result ℕ Unit × System Bytes)
      → root ≡ true
      → declined ≡ false
      → guarded root declined t r ≡ r
  guarded-goes root declined t r h k = rw (h, k)

  uninstall_with_either :
      (starts : Bool) (name : String) (dir : PathBuf) (s : System Bytes)
      → ((args : List String) → m.faults.spawn args ≡ starts)
      → uninstall_with m name dir s ≡ (
          if starts
          then (
            ok tt,
            with_commands m (uninstall_commands m name s.commands) (removed m name dir s),
          )
          else (err 1, s))
  uninstall_with_either true name dir s h = uninstall_with_works m name dir s h
  uninstall_with_either false name dir s h = uninstall_with_stops m name dir s h

-- For the same service, directory and mode of asking, with both streams or neither a terminal, and
-- where systemctl can be started or never can: without root both tools end with code 1, and where
-- the user declines both change nothing.
-- Else the uninstaller ends well with the unit file and the install directory removed, as far as
-- these calls work; `installer uninstall` leaves the same files and directories, and differs in its
-- commands, where systemctl starts, and where it does not it stops with code 1, nothing removed.
pub uninstaller-agrees :
    {Bytes : Type 0} (m : Machine Bytes) (starts : Bool) (flags : Flags) (args : Uninstaller.Flags)
    (s : System Bytes)
    → ((command : List String) → m.faults.spawn command ≡ starts)
    → args.non_interactive ≡ flags.non_interactive
    → m.is_stdout_tty ≡ m.is_tty
    → unwrap_or args.service_name "api" ≡ (gather m flags).service_name
    → target_dir m args ≡ uninstall_dir m flags
    → (Uninstaller.run m args s
        ≡ guarded m m.is_root
            (is_interactive m flags && not (unwrap_or m.answers.proceed false))
            s
            (
              ok tt,
              with_commands m
                  (uninstaller_commands m starts (gather m flags).service_name s.commands)
                  (removed m (gather m flags).service_name (uninstall_dir m flags) s),
            ))
      × (cmd_uninstall m flags s
          ≡ guarded m m.is_root
              (is_interactive m flags && not (unwrap_or m.answers.proceed false))
              s
              (if starts
                then (
                  ok tt,
                  with_commands m
                      (uninstall_commands m (gather m flags).service_name s.commands)
                      (removed m (gather m flags).service_name (uninstall_dir m flags) s),
                )
                else (err 1, s)))
unfolding Uninstaller.run cmd_uninstall is_interactive
uninstaller-agrees m starts flags args s h i o n d = (
  rw
      (
        d,
        n,
        i,
        remove_service_works m starts (gather m flags).service_name (uninstall_dir m flags) s h,
      )
      (ap
        (λ b.
          guarded m m.is_root
            ((not flags.non_interactive && b) && not (unwrap_or m.answers.proceed false)) s
            (
              ok tt,
              with_commands m
                  (uninstaller_commands m starts (gather m flags).service_name s.commands)
                  (removed m (gather m flags).service_name (uninstall_dir m flags) s),
            ))
        o),
  rw (uninstall_with_either m starts (gather m flags).service_name (uninstall_dir m flags) s h),
)
