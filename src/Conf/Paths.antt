-- ===== src/Conf/Paths.antt =====
-- The checks of a path in nats-mq/conf/utils.go, over a file system that is a parameter.
use nats_mq.Prelude.{
  String, ◌≡◌, ◌↔◌, refl, Bool, true, false, is_set, inl, inr, Bool-cases, if◌then◌else◌,
}
use nats_mq.Error.{
  Result, ok, err, Result-cases, Outcome, done, fails, panics, path_unset, bad_path, no_path,
  not_a_directory, not_a_file,
}

-- What os.Stat finds: nothing, an error of another kind with no file information, or a file.
pub data Stat : Type 0 where
  missing unreadable regular directory special : Stat

-- filepath.Abs and os.Stat.
pub record FileSystem : Type 0 where
  pub abs : String → Result String
  pub stat : String → Stat

-- The checks on the mode; finfo.Mode() panics on the nil information of another error.
unfoldable pub check_mode : Bool → String → Stat → Outcome String
check_mode dir abs missing = fails (no_path abs)
check_mode dir abs unreadable = panics
check_mode dir abs regular = if dir then fails (not_a_directory abs) else done abs
check_mode dir abs directory = if dir then done abs else fails (not_a_file abs)
check_mode dir abs special = done abs

abbrev pub check_abs : FileSystem → Bool → String → Result String → Outcome String
check_abs fs dir path (err e) = fails (bad_path path)
check_abs fs dir path (ok abs) = check_mode dir abs (fs.stat abs)

unfoldable pub validate_path_exists : FileSystem → String → Bool → Outcome String
unfolding check_mode
validate_path_exists fs path dir =
    if is_set path then check_abs fs dir path (fs.abs path) else fails path_unset

unfoldable pub validate_dir_path : FileSystem → String → Outcome String
unfolding validate_path_exists
validate_dir_path fs path = validate_path_exists fs path true

unfoldable pub validate_file_path : FileSystem → String → Outcome String
unfolding validate_path_exists
validate_file_path fs path = validate_path_exists fs path false

check_mode_panics :
    (dir : Bool) (abs : String) (s : Stat) → check_mode dir abs s ≡ panics → s ≡ unreadable
unfolding check_mode
check_mode_panics dir abs missing h = cc
check_mode_panics dir abs unreadable h = refl
check_mode_panics true abs regular h = cc
check_mode_panics false abs regular h = cc
check_mode_panics true abs directory h = cc
check_mode_panics false abs directory h = cc
check_mode_panics dir abs special h = cc

-- ValidateFilePath and ValidateDirPath panic exactly for a path that is set, that has an absolute form,
-- and for which Stat returns an error other than that nothing is there.
pub validate_path_exists-panics :
    (fs : FileSystem) (path : String) (dir : Bool)
    → (validate_path_exists fs path dir ≡ panics)
      ↔ ((is_set path ≡ true) × ((a : String) × (fs.abs path ≡ ok a) × (fs.stat a ≡ unreadable)))
unfolding validate_path_exists check_mode
validate_path_exists-panics fs path dir = elim (Bool-cases (is_set path)) [
  | inr unset ↦ rw unset ((λ h. cc), (λ h. cc))
  | inl set ↦ elim (Result-cases (fs.abs path)) [
    | inl (e, bad) ↦ rw (set, bad) ((λ h. cc), (λ h. let (u, (x, p, q)) = h in cc))
    | inr (a, found) ↦
        rw (set, found)
          (
            (λ h. (refl, (a, refl, check_mode_panics dir a (fs.stat a) h))),
            (λ h. let (u, (x, p, q)) = h in let e : fs.stat a ≡ unreadable = cc in rw e refl),
          )
  ]
]
