-- ===== src/Install/Names.antt =====
-- Lemmas on the paths that src/bin/installer.rs builds: a path tells its directory and its last
-- component, and the config stands deeper than the binaries and is no directory that is made.
use rust_api_boilerplate.Prelude.{
  ◌+◌, ◌≤◌, ◌≡◌, ◌≢◌, refl, ap, true, ◌||◌, ◌&&◌, Option, none, some, List, [], ◌∷◌, ◌++◌, map,
  String, arith, length, length-append, text_eq, ◌==◌,
}
use rust_api_boilerplate.Install.System.{PathBuf, join, parent, ancestors, is_member, components_eq}
use rust_api_boilerplate.Install.Program.{config_path}
use rust_api_boilerplate.Install.Frames.{Foreign}

pub parent-join : (d : PathBuf) (a : String) → parent (join d a) ≡ some d
parent-join [] a = refl
parent-join (x ∷ []) a = refl
parent-join (x ∷ y ∷ d) a = rw (parent-join (y ∷ d) a)

-- The last component.
abbrev pub file_name : PathBuf → Option String
file_name [] = none
file_name (a ∷ []) = some a
file_name (a ∷ b ∷ p) = file_name (b ∷ p)

pub file_name-join : (d : PathBuf) (a : String) → file_name (join d a) ≡ some a
file_name-join [] a = refl
file_name-join (x ∷ []) a = refl
file_name-join (x ∷ y ∷ d) a = file_name-join (y ∷ d) a

pub join_other_dir : (d e : PathBuf) (a b : String) → d ≢ e → join d a ≢ join e b
join_other_dir d e a b n h = grind (arith, n, ap parent h, parent-join d a, parent-join e b)

pub join_other_name : (d e : PathBuf) (a b : String) → a ≢ b → join d a ≢ join e b
join_other_name d e a b n h =
    grind (arith, n, ap file_name h, file_name-join d a, file_name-join e b)

pub length-config_path : (d : PathBuf) → length (config_path d) ≡ length d + 2
unfolding config_path
length-config_path d =
    ground (
      arith,
      length-append (join d "config") ("default.yaml" ∷ []),
      length-append d ("config" ∷ []),
    )

pub length-join : (d : PathBuf) (a : String) → length (join d a) ≡ length d + 1
length-join d a = length-append d (a ∷ [])

pub config_path-Foreign : (d : PathBuf) (names : List String) → Foreign d names (config_path d)
config_path-Foreign d [] = tt
config_path-Foreign d (name ∷ names) = (
  λ h. ground (arith, ap length h, length-config_path d, length-join d name),
  config_path-Foreign d names,
)

pub is_member-append :
    (p : PathBuf) (xs ys : List PathBuf)
    → is_member p (xs ++ ys) ≡ (is_member p xs || is_member p ys)
is_member-append p [] ys = refl
is_member-append p (x ∷ xs) ys = ground (arith, is_member-append p xs ys)

is_member-map :
    (a b : String) (p : PathBuf) (ps : List PathBuf)
    → is_member (a ∷ p) (map (λ q. b ∷ q) ps) ≡ (a == b && is_member p ps)
is_member-map a b p [] = ground arith
is_member-map a b p (q ∷ ps) = ground (arith, is_member-map a b p ps)

ancestor_short : (p q : PathBuf) → is_member p (ancestors q) ≡ true → length p ≤ length q
ancestor_short [] q h = ground arith
ancestor_short (a ∷ p) [] h = ground arith
ancestor_short (a ∷ p) (b ∷ q) h =
    ground (arith, is_member-map a b p (ancestors q), ancestor_short p q, h)

-- The directories that are made before the config is written are not at its path.
pub config_path-is_made :
    (d : PathBuf) (dirs : List PathBuf)
    → is_member (config_path d) (ancestors (join d "config") ++ (ancestors d ++ dirs))
      ≡ is_member (config_path d) dirs
config_path-is_made d dirs = ground (
  arith,
  is_member-append (config_path d) (ancestors (join d "config")) (ancestors d ++ dirs),
  is_member-append (config_path d) (ancestors d) dirs,
  ancestor_short (config_path d) (join d "config"),
  ancestor_short (config_path d) d,
  length-config_path d,
  length-join d "config",
)

pub is_member-ancestors : (p : PathBuf) → is_member p (ancestors p) ≡ true
is_member-ancestors [] = refl
is_member-ancestors (a ∷ p) =
    ground (arith, is_member-map a a p (ancestors p), is_member-ancestors p, text_eq.beq_iff a a)

pub install_dir-is_made :
    (d : PathBuf) (dirs : List PathBuf)
    → is_member d (ancestors (join d "config") ++ (ancestors d ++ dirs)) ≡ true
install_dir-is_made d dirs = ground (
  arith,
  is_member-append d (ancestors (join d "config")) (ancestors d ++ dirs),
  is_member-append d (ancestors d) dirs,
  is_member-ancestors d,
)
