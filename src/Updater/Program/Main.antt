-- ===== src/Updater/Program/Main.antt =====
-- src/bin/updater.rs: the search in the archive, and `main`.
--
-- The zip crate gives the entries, each a name with its content, or none where the entry's header
-- or content cannot be read. The wait is in Wait; its answer is only logged.
use rust_api_boilerplate.Prelude.{
  ℕ, Bool, false, ◌||◌, Option, none, some, List, [], ◌∷◌, String, Result, ok, err, if◌then◌else◌,
  ◌==◌, text_eq,
}
use Prim.Native.String.{◌++◌ as str_append}
use rust_api_boilerplate.Map
use rust_api_boilerplate.Text.{ends_with}
use rust_api_boilerplate.Updater.Program.{FilePath, Faults, Fs, install, path_eq}

-- The closure of `find`.
unfoldable pub is_named : String → String → Bool
is_named binary_name name =
    name == binary_name
    || (ends_with (str_append "/" binary_name) name || ends_with (str_append "\\" binary_name) name)

-- An entry of the archive: its name, and its content, where each can be read.
pub record Entry (Bytes : Type 0) : Type 0 where
  pub name : Option String
  pub content : Option Bytes

-- Beside the archive, under the name of the binary.
unfoldable pub out_path : FilePath → String → FilePath
out_path zip_path binary_name = record {
  parent = zip_path.parent;
  stem = binary_name;
  extension = some "new";
}

-- How the process ends: with an exit code, or as another program.
pub data End : Type 0 where
  exited : ℕ → End
  executed : End

module _ {Bytes : Type 0} where
  unfoldable pub find_entry : String → List (Entry Bytes) → Option (Entry Bytes)
  find_entry binary_name [] = none
  find_entry binary_name (e ∷ es) =
      let rest = find_entry binary_name es in
      elim e.name [ none ↦ rest | some name ↦ if is_named binary_name name then some e else rest ]

  -- The bytes of the entry and where they are written; a new file has no executable bit.
  unfoldable pub extract_binary :
      Bool
      → Option (List (Entry Bytes))
      → FilePath
      → String
      → Fs Bytes
      → Result String FilePath × Fs Bytes
  extract_binary writes none zip_path binary_name fs = (err "invalid archive", fs)
  extract_binary writes (some entries) zip_path binary_name fs =
      elim (find_entry binary_name entries) [
        | none ↦ (err "not found inside zip archive", fs)
        | some e ↦ elim e.content [
          | none ↦ (err "invalid entry", fs)
          | some bytes ↦
              if writes
              then (
                ok (out_path zip_path binary_name),
                Map.insert (out_path zip_path binary_name)
                    (record { bytes = bytes; executable = false }) fs,
              )
              else (err "write", fs)
        ]
      ]

  module _ (execs removes : Bool) where
    -- `main` after the binary was replaced.
    unfoldable pub restart : String → FilePath → Fs Bytes → End × Fs Bytes
    restart restart_mode zip_path fs =
        if restart_mode == "spawn"
        then (if execs then (executed, fs) else (exited 1, fs))
        else (exited 0, if removes then Map.remove zip_path fs else fs)

  module _ (faults : Faults Bytes) (writes execs removes : Bool)
      (archive : Option (List (Entry Bytes))) where
    unfoldable pub main : FilePath → FilePath → String → String → Fs Bytes → End × Fs Bytes
    main zip_path target_path binary_name restart_mode fs =
        let (r, fs') = extract_binary writes archive zip_path binary_name fs in
        elim r [
          | err e ↦ (exited 1, fs')
          | ok extracted ↦
              let (done, fs'') = install faults extracted target_path fs' in
              if done then restart execs removes restart_mode zip_path fs'' else (exited 1, fs'')
        ]
