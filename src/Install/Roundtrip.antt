-- ===== src/Install/Roundtrip.antt =====
-- src/bin/installer.rs: an installation, whole or not, and then the removal.
use rust_api_boilerplate.Prelude.{
  ℕ, ◌≡◌, ◌≢◌, refl, sym, ap, ◌∙◌, subst, Bool, true, false, not, ◌&&◌, ◌||◌, Option, none, some,
  List, [], ◌∷◌, ◌++◌, String, Result, ok, if◌then◌else◌, unwrap_or, ◌==◌, arith, text_eq,
  Bool-cases, inl, inr, length,
}
use mathlib.Core.List.{append_assoc}
use rust_api_boilerplate.Map
use rust_api_boilerplate.Install.System.{
  PathBuf, System, Machine, is_under, is_member, components_eq,
}
use rust_api_boilerplate.Install.Options.{
  Flags, Options, is_interactive, gather, uninstall_dir, resolve, resolve_dir, default_install_dir,
}
use rust_api_boilerplate.Install.Program.{
  binary_names, unit_path, config_path, install_with, cmd_install, uninstall_with, cmd_uninstall,
}
use rust_api_boilerplate.Install.Frames.{Foreign}
use rust_api_boilerplate.Install.Names.{length-join, length-config_path}
use rust_api_boilerplate.Install.Uninstalls.{removed-get, guarded-goes}
use rust_api_boilerplate.Install.Removal.{
  with_commands, removed, uninstall_commands, uninstall_with_works,
}
use rust_api_boilerplate.Install.Copies.{no_faults}
use rust_api_boilerplate.Install.Safe.{cmd_install-Keeps}
use rust_api_boilerplate.Install.Made.{install_with-makes}

is_under-append : (d p : PathBuf) → is_under d (d ++ p) ≡ true
is_under-append [] p = refl
is_under-append (a ∷ d) p = ground (arith, is_under-append d p, text_eq.beq_iff a a)

is_under-Foreign : (d p : PathBuf) (names : List String) → is_under d p ≡ false → Foreign d names p
is_under-Foreign d p [] h = tt
is_under-Foreign d p (name ∷ names) h = (
  λ e. ground (arith, is_under-append d (name ∷ []), ap (is_under d) e, h),
  is_under-Foreign d p names h,
)

-- The same machine where every call works.
abbrev pub repaired : {Bytes : Type 0} → Machine Bytes → Machine Bytes
repaired m = record m { faults = no_faults }

declined_less :
    (asks : Bool) (answer : Option Bool)
    → (asks && not (unwrap_or answer false)) ≡ false
    → (asks && not (unwrap_or answer true)) ≡ false
declined_less asks none h = ground arith
declined_less asks (some b) h = h

is_under-config_path : (d p : PathBuf) → is_under d p ≡ false → config_path d ≢ p
unfolding config_path
is_under-config_path d p h e = ground (
  arith,
  is_under-append d ("config" ∷ "default.yaml" ∷ []),
  append_assoc d ("config" ∷ []) ("default.yaml" ∷ []),
  ap (is_under d) e,
  h,
)

dir-Foreign : (d : PathBuf) (names : List String) → Foreign d names d
dir-Foreign d [] = tt
dir-Foreign d (name ∷ names) =
    (λ e. ground (arith, ap length e, length-join d name), dir-Foreign d names)

module _ {Bytes : Type 0} (m : Machine Bytes) (flags : Flags) (s : System Bytes) where
  gather-repaired : gather (repaired m) flags ≡ gather m flags
  unfolding gather resolve resolve_dir default_install_dir is_interactive
  gather-repaired = refl

  uninstall_dir-repaired : uninstall_dir (repaired m) flags ≡ uninstall_dir m flags
  unfolding uninstall_dir gather resolve default_install_dir is_interactive
  uninstall_dir-repaired = refl

  cmd_install-makes :
      m.is_root ≡ true
      → (is_interactive m flags && not (unwrap_or m.answers.proceed false)) ≡ false
      → m.faults.create_dir (gather m flags).install_dir ≡ none
      → is_member (gather m flags).install_dir (cmd_install m flags s).1.dirs ≡ true
  unfolding cmd_install
  cmd_install-makes root agreed f =
      subst
        (λ (r : Result ℕ Unit × System Bytes).
          is_member (gather m flags).install_dir r.1.dirs ≡ true)
        (sym (
          guarded-goes m m.is_root
            (is_interactive m flags && not (unwrap_or m.answers.proceed true)) s
            (install_with m (gather m flags) s) root
            (declined_less (is_interactive m flags) m.answers.proceed agreed)))
        (install_with-makes m (gather m flags).install_dir (gather m flags) s refl f)

  -- There was no file at the install directory, and there is none.
  cmd_install-dir :
      Map.get (gather m flags).install_dir s.files ≡ none
      → unit_path m (gather m flags).service_name ≢ (gather m flags).install_dir
      → Map.get (gather m flags).install_dir (cmd_install m flags s).1.files ≡ none
  cmd_install-dir h n =
      let dir = (gather m flags).install_dir in
      cmd_install-Keeps m dir none flags n (dir-Foreign dir binary_names)
        (inl (λ e. ground (arith, ap length e, length-config_path dir))) s h

  -- The files that are neither in the install directory nor the unit file.
  cmd_install-others :
      (p : PathBuf)
      → is_under (gather m flags).install_dir p ≡ false
      → unit_path m (gather m flags).service_name ≢ p
      → Map.get p (cmd_install m flags s).1.files ≡ Map.get p s.files
  cmd_install-others p h n =
      let dir = (gather m flags).install_dir in
      cmd_install-Keeps m p (Map.get p s.files) flags n (is_under-Foreign dir p binary_names h)
        (inl (is_under-config_path dir p h)) s refl

  cmd_install-kept :
      (p : PathBuf)
      → (if is_under (gather m flags).install_dir p
            || unit_path m (gather m flags).service_name == p
          then none
          else Map.get p (cmd_install m flags s).1.files)
        ≡ (if is_under (gather m flags).install_dir p
              || unit_path m (gather m flags).service_name == p
            then none
            else Map.get p s.files)
  cmd_install-kept p =
      let under = is_under (gather m flags).install_dir p in
      let unit = unit_path m (gather m flags).service_name in
      elim (Bool-cases (under || unit == p)) [
        | inl h ↦ rw (h)
        | inr h ↦ rw (h) (
            cmd_install-others p (ground (arith, h))
              (λ e. ground (arith, e, components_eq.beq_iff unit p, h)))
      ]

  cmd_uninstall_works :
      m.is_root ≡ true
      → (is_interactive m flags && not (unwrap_or m.answers.proceed false)) ≡ false
      → uninstall_dir m flags ≡ (gather m flags).install_dir
      → cmd_uninstall (repaired m) flags s ≡ (
        ok tt,
        with_commands m
            (uninstall_commands m (gather m flags).service_name s.commands)
            (removed (repaired m) (gather m flags).service_name (gather m flags).install_dir s),
      )
  unfolding cmd_uninstall is_interactive
  cmd_uninstall_works root agreed d =
      let options = gather-repaired in
      let name = ap (λ (o : Options). o.service_name) options in
      let run =
        uninstall_with (repaired m) (gather (repaired m) flags).service_name
          (uninstall_dir (repaired m) flags) s in
      guarded-goes m m.is_root (is_interactive m flags && not (unwrap_or m.answers.proceed false)) s
        run root agreed
      ∙ ap (λ x. uninstall_with (repaired m) x (uninstall_dir (repaired m) flags) s) name
      ∙ ap (λ x. uninstall_with (repaired m) (gather m flags).service_name x s)
          (uninstall_dir-repaired ∙ d)
      ∙ uninstall_with_works (repaired m) (gather m flags).service_name (gather m flags).install_dir
          s (λ args. refl)

  removed-repaired :
      (p : PathBuf)
      → Map.get (gather m flags).install_dir s.files ≡ none
      → is_member (gather m flags).install_dir s.dirs ≡ true
      → Map.get p
          (removed (repaired m) (gather m flags).service_name (gather m flags).install_dir s).files
        ≡ (if is_under (gather m flags).install_dir p
              || unit_path m (gather m flags).service_name == p
            then none
            else Map.get p s.files)
  unfolding unit_path
  removed-repaired p h k =
      removed-get (repaired m) (gather m flags).service_name (gather m flags).install_dir p s refl h
        k

-- For a user with root who goes on, where the install directory can be made, is no file before, and
-- is the one that `uninstall` takes, and the unit file's path is not that directory: after an
-- installation, which may have failed at any later call, and an `uninstall` where the calls work, the
-- removal ends well, there is no file in the install directory and no unit file, and every other
-- path has the file that it had before the installation.
pub cmd_uninstall-cmd_install :
    {Bytes : Type 0} (m : Machine Bytes) (flags : Flags) (s : System Bytes) (p : PathBuf)
    → m.is_root ≡ true
    → (is_interactive m flags && not (unwrap_or m.answers.proceed false)) ≡ false
    → m.faults.create_dir (gather m flags).install_dir ≡ none
    → uninstall_dir m flags ≡ (gather m flags).install_dir
    → Map.get (gather m flags).install_dir s.files ≡ none
    → unit_path m (gather m flags).service_name ≢ (gather m flags).install_dir
    → ((cmd_uninstall (repaired m) flags (cmd_install m flags s).1).0 ≡ ok tt)
      × (Map.get p (cmd_uninstall (repaired m) flags (cmd_install m flags s).1).1.files ≡ (
          if is_under (gather m flags).install_dir p
            || unit_path m (gather m flags).service_name == p
          then none
          else Map.get p s.files))
cmd_uninstall-cmd_install m flags s p root agreed f d file n =
    let t = (cmd_install m flags s).1 in
    let dir = (gather m flags).install_dir in
    let unit = unit_path m (gather m flags).service_name in
    let e = cmd_uninstall_works m flags t root agreed d in
    let gone =
      removed-repaired m flags t p (cmd_install-dir m flags s file n)
        (cmd_install-makes m flags s root agreed f) in
    (
      ap (λ (r : Result ℕ Unit × System _). r.0) e,
      ap (λ (r : Result ℕ Unit × System _). Map.get p r.1.files) e
          ∙ gone
          ∙ cmd_install-kept m flags s p,
    )
