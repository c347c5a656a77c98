-- ===== src/Install/Copies.antt =====
-- src/bin/installer.rs: where no call fails, the binaries are at their places.
use rust_api_boilerplate.Prelude.{
  ◌≡◌, ◌≢◌, sym, ap, true, none, some, List, [], ◌∷◌, String, ok, ==_of_ne,
}
use rust_api_boilerplate.Prelude.Actions.{Succeeds, Succeeds->>, Succeeds-and, ◌>>◌}
use rust_api_boilerplate.Map
use rust_api_boilerplate.Updater.Program.{File}
use rust_api_boilerplate.Install.System.{
  PathBuf, System, Machine, Faults, join, exists, copy_file, set_executable, components_eq, put,
}
use rust_api_boilerplate.Install.Program.{copy_binary, copy_binaries}
use rust_api_boilerplate.Install.Frames.{Holds, Foreign, copy_binary-Keeps, copy_binaries-Keeps}
use rust_api_boilerplate.Install.Names.{join_other_dir}

abbrev pub no_faults : {Bytes : Type 0} → Faults Bytes
no_faults = record {
  create_dir = λ p. none;
  copy = λ p. none;
  chmod = λ p. true;
  save = λ p. none;
  remove_file = λ p. true;
  remove_dir = λ p. none;
  spawn = λ args. true;
}

-- The names are distinct, as places in the directory.
abbrev pub AreDistinct : PathBuf → List String → Type 0
AreDistinct dir [] = Unit
AreDistinct dir (name ∷ names) = Foreign dir names (join dir name) × AreDistinct dir names

module _ {Bytes : Type 0} (m : Machine Bytes) where
  copy_file_works :
      (src dst : PathBuf) (f : File Bytes) (s : System Bytes)
      → m.faults.copy dst ≡ none
      → src ≢ dst
      → Map.get src s.files ≡ some f
      → copy_file m src dst s ≡ (ok tt, put m dst f s)
  unfolding copy_file
  copy_file_works src dst f s works n h = rw (works, h, ==_of_ne src dst n)

  set_executable_works :
      (p : PathBuf) (f : File Bytes) (s : System Bytes)
      → m.faults.chmod p ≡ true
      → Map.get p s.files ≡ some f
      → set_executable m p s ≡ (ok tt, put m p (record f { executable = true }) s)
  unfolding set_executable
  set_executable_works p f s works h = rw (works, h)

  pub exists_file :
      (p : PathBuf) (f : File Bytes) (s : System Bytes)
      → Map.get p s.files ≡ some f
      → exists m p s ≡ true
  exists_file p f s h = rw h

module _ {Bytes : Type 0} (m : Machine Bytes) (src_dir dir : PathBuf)
    (binary : String → File Bytes) where
  -- A release: each binary stands in the directory of the installer.
  abbrev pub Sources : List String → System Bytes → Type 0
  Sources [] s = Unit
  Sources (name ∷ names) s = Holds m (join src_dir name) (some (binary name)) s × Sources names s

  -- Each binary stands in the install directory, with the bits of an executable.
  abbrev pub Targets : List String → System Bytes → Type 0
  Targets [] s = Unit
  Targets (name ∷ names) s =
      Holds m (join dir name) (some (record (binary name) { executable = true })) s
      × Targets names s

  copy_binary-Holds :
      (name : String) (s : System Bytes)
      → m.faults ≡ no_faults
      → src_dir ≢ dir
      → Holds m (join src_dir name) (some (binary name)) s
      → Succeeds
          (Holds m (join dir name) (some (record (binary name) { executable = true })))
          (copy_binary m src_dir dir name s)
  unfolding copy_binary
  copy_binary-Holds name s f n h =
      let src = join src_dir name in
      let dst = join dir name in
      let copied =
        copy_file_works m src dst (binary name) s (ap (λ k. k.copy dst) f)
          (join_other_dir src_dir dir name name n) h in
      let marked =
        set_executable_works m dst (binary name) (put m dst (binary name) s)
          (ap (λ k. k.chmod dst) f) (Map.get-insert_same dst (binary name) s.files) in
      rw (exists_file m src (binary name) s h, ◌>>◌, copied, copied, marked)
        (Map.get-insert_same dst (record (binary name) { executable = true })
          (Map.insert dst (binary name) s.files))

  Sources-kept :
      (name : String) (names : List String) (s : System Bytes)
      → src_dir ≢ dir
      → Sources names s
      → Sources names (copy_binary m src_dir dir name s).1
  Sources-kept name [] s n h = tt
  Sources-kept name (k ∷ names) s n h = (
    copy_binary-Keeps m (join src_dir k) (some (binary k)) src_dir dir name
        (λ e. join_other_dir src_dir dir k name n (sym e)) s h.0,
    Sources-kept name names s n h.1,
  )

  pub copy_binaries-Targets :
      (names : List String) (s : System Bytes)
      → m.faults ≡ no_faults
      → src_dir ≢ dir
      → AreDistinct dir names
      → Sources names s
      → Succeeds (Targets names) (copy_binaries m src_dir dir names s)
  unfolding copy_binaries
  copy_binaries-Targets [] s f n d h = tt
  copy_binaries-Targets (name ∷ names) s f n d h =
      Succeeds->>
        (λ s'.
          Sources names s'
          × Holds m (join dir name) (some (record (binary name) { executable = true })) s')
        (Targets (name ∷ names)) (copy_binary m src_dir dir name)
        (copy_binaries m src_dir dir names) s
        (Succeeds-and (Holds m (join dir name) (some (record (binary name) { executable = true })))
          (Sources names) (copy_binary m src_dir dir name s) (copy_binary-Holds name s f n h.0)
          (Sources-kept name names s n h.1))
        (λ s' q.
          Succeeds-and (Targets names)
            (Holds m (join dir name) (some (record (binary name) { executable = true })))
            (copy_binaries m src_dir dir names s') (copy_binaries-Targets names s' f n d.1 q.0)
            (copy_binaries-Keeps m (join dir name)
              (some (record (binary name) { executable = true })) src_dir dir names d.0 s' q.1))
