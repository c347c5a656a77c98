-- ===== src/Updater/Program.antt =====
-- src/bin/updater.rs: the process that replaces the binary of the service.
--
-- The file system is a map from paths to files. Each call of it stands at one place of the program
-- and runs at most once, so `Faults` says which calls fail; a copy that fails may leave a part of
-- the file. The zip crate is an argument that gives the entries of an archive; `Bytes` is content.
pub mod Args
pub mod Wait
pub mod Steps
pub mod Install
pub mod Main
pub mod Ends
mod Examples
use Prim.Native.String.{◌++◌ as str_append}
use rust_api_boilerplate.Prelude.{
  ℕ, ◌≡◌, ◌↔◌, Bool, true, false, ◌&&◌, ◌||◌, Option, none, some, List, [], ◌∷◌, String,
  if◌then◌else◌, PartialEq, ◌==◌, text_eq, arith, is_some, Result, ok, err, nat_eq,
}
use text.Mathlib.TextEquality.{eq_iff}
use rust_api_boilerplate.Map
use rust_api_boilerplate.Map.{Map}
use rust_api_boilerplate.Text.{ends_with}

-- A path with a file name: `stem` and, after its last dot, `extension`.
pub record FilePath : Type 0 where
  pub parent : String
  pub stem : String
  pub extension : Option String

abbrev pub same_extension : Option String → Option String → Bool
same_extension none none = true
same_extension (some e) (some f) = e == f
same_extension _ _ = false

abbrev pub same_path : FilePath → FilePath → Bool
same_path p q = p.parent == q.parent && (p.stem == q.stem && same_extension p.extension q.extension)

same_extension_iff : (e f : Option String) → (same_extension e f ≡ true) ↔ (e ≡ f)
same_extension_iff none none = ground arith
same_extension_iff none (some f) = ground arith
same_extension_iff (some e) none = ground arith
same_extension_iff (some e) (some f) = ground (arith, eq_iff e f)

pub same_path_iff : (p q : FilePath) → (same_path p q ≡ true) ↔ (p ≡ q)
same_path_iff p q = ground (
  arith,
  eq_iff p.parent q.parent,
  eq_iff p.stem q.stem,
  same_extension_iff p.extension q.extension,
)

instance abbrev pub path_eq : PartialEq FilePath
path_eq = record { beq = same_path; beq_iff = same_path_iff }

pub record File (Bytes : Type 0) : Type 0 where
  pub bytes : Bytes
  pub executable : Bool

-- Which calls succeed, by their places, and what a failed copy leaves.
pub record Faults (Bytes : Type 0) : Type 0 where
  pub remove_stale : Bool
  pub back_up : Bool
  pub move_in : Bool
  pub copy_in : Option Bytes
  pub remove_new : Bool
  pub chmod : Bool
  pub remove_backup : Bool
  pub restore : Bool

unfoldable pub backup_path : FilePath → FilePath
backup_path p = record p {
  extension = some (elim p.extension [ none ↦ "bak" | some e ↦ str_append e ".bak" ]);
}

abbrev pub Fs : Type 0 → Type 0
Fs Bytes = Map FilePath (File Bytes)

-- A call of the file system: the state comes back after an error too.
abbrev pub Io : Type 0 → Type 0 → Type 0
Io Bytes A = Fs Bytes → Result String A × Fs Bytes

module _ {Bytes : Type 0} where
  abbrev pub pure : {A : Type 0} → A → Io Bytes A
  pure a fs = (ok a, fs)

  abbrev pub fails : {A : Type 0} → String → Io Bytes A
  fails e fs = (err e, fs)

  infixl 5 ◌>>=◌ ◌>>◌
  abbrev pub ◌>>=◌ : {A B : Type 0} → Io Bytes A → (A → Io Bytes B) → Io Bytes B
  ◌>>=◌ m f fs = let (r, fs') = m fs in elim r [ ok a ↦ f a fs' | err e ↦ (err e, fs') ]

  abbrev pub ◌>>◌ : {B : Type 0} → Io Bytes Unit → Io Bytes B → Io Bytes B
  ◌>>◌ m k = m >>= (λ _. k)

  -- `if test { call?; }`
  abbrev pub when : Bool → Io Bytes Unit → Io Bytes Unit
  when b m fs = if b then m fs else (ok tt, fs)

  abbrev pub exists : FilePath → Io Bytes Bool
  exists p fs = (ok (is_some (Map.get p fs)), fs)

  -- `works` says whether the system carries the call out.
  unfoldable pub remove_file : Bool → FilePath → Io Bytes Unit
  remove_file works p fs =
      if works && is_some (Map.get p fs) then (ok tt, Map.remove p fs) else (err "remove_file", fs)

  unfoldable pub rename : Bool → FilePath → FilePath → Io Bytes Unit
  rename works a b fs = elim (Map.get a fs) [
    | none ↦ (err "rename", fs)
    | some f ↦ if works then (ok tt, Map.insert b f (Map.remove a fs)) else (err "rename", fs)
  ]

  -- `partial` is what a failed copy leaves.
  unfoldable pub copy : Option Bytes → FilePath → FilePath → Io Bytes Unit
  copy partial a b fs = elim (Map.get a fs) [
    | none ↦ (err "copy", fs)
    | some f ↦ elim partial [
      | none ↦ (ok tt, Map.insert b f fs)
      | some rest ↦ (err "copy", Map.insert b (record f { bytes = rest }) fs)
    ]
  ]

  -- The mode bits of `metadata` with `0o111`, through `set_permissions`.
  unfoldable pub add_executable : Bool → FilePath → Io Bytes Unit
  add_executable works p fs = elim (Map.get p fs) [
    | none ↦ (err "metadata", fs)
    | some f ↦
        if works
        then (ok tt, Map.insert p (record f { executable = true }) fs)
        else (err "set_permissions", fs)
  ]

  -- `let _ = call`
  abbrev pub ignore : Io Bytes Unit → Io Bytes Unit
  ignore m fs = (ok tt, (m fs).1)

  -- `if let Err(_) = first { second }`
  abbrev pub or_else : Io Bytes Unit → Io Bytes Unit → Io Bytes Unit
  or_else m k fs = let (r, fs') = m fs in elim r [ ok u ↦ (ok u, fs') | err e ↦ k fs' ]

  module _ (faults : Faults Bytes) where
    unfoldable pub clear_stale : FilePath → Io Bytes Unit
    clear_stale target = do
      stale ← exists (backup_path target)
      when stale (remove_file faults.remove_stale (backup_path target))

    unfoldable pub back_up : FilePath → Io Bytes Unit
    back_up target = do
      present ← exists target
      when present (rename faults.back_up target (backup_path target))

    -- A rename may fail between mount points.
    unfoldable pub move_in : FilePath → FilePath → Io Bytes Unit
    move_in new_bin target =
        or_else (rename faults.move_in new_bin target)
          (do copy faults.copy_in new_bin target; remove_file faults.remove_new new_bin)

    unfoldable pub clear_backup : FilePath → Io Bytes Unit
    clear_backup target = do
      kept ← exists (backup_path target)
      when kept (ignore (remove_file faults.remove_backup (backup_path target)))

    unfoldable pub replace_binary : FilePath → FilePath → Io Bytes Unit
    replace_binary new_bin target = do
      clear_stale target
      back_up target
      move_in new_bin target
      add_executable faults.chmod target
      clear_backup target

    -- The third step of `main`: whether the binary was replaced; if not, the backup is put back.
    unfoldable pub install : FilePath → FilePath → Fs Bytes → Bool × Fs Bytes
    install new_bin target fs =
        let (r, fs') = replace_binary new_bin target fs in
        elim r [
          | ok u ↦ (true, fs')
          | err e ↦ (
            false,
            (when (is_some (Map.get (backup_path target) fs'))
                (ignore (rename faults.restore (backup_path target) target)) fs').1,
          )
        ]
