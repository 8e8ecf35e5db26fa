-- ===== src/LogDir.antt =====
-- Where the daemon's log goes (checkDirectoryPermissions, checkBinaryPermissions and findWritableLogDirectory of
-- ui/desktop/src/main/main.ts). What the file system answers for a path and `path.join` are arguments; error texts are
-- constructors.
pub mod Choice
mod Tests
use orc_torrent.Prelude.{Bool, true, false, Option, none, some, List, [], ◌∷◌, ◌++◌, if◌then◌else◌}
use orc_torrent.Prelude.Codes.{Text, codes}

-- the code of an error: EACCES or EPERM, or another
pub data Code : Type 0 where
  no_permission other_code : Code

pub record Disk : Type 0 where
  pub exists : Text → Bool
  -- none where the call succeeds
  pub make : Text → Option Code
  pub access : Text → Option Code
  pub write_test : Text → Option Code

pub data Problem : Type 0 where
  denied_creating failed_creating denied_access no_access denied_writing no_writing not_found :
      Problem

abbrev pub problem_of : Problem → Problem → Code → Problem
problem_of denied failed no_permission = denied
problem_of denied failed other_code = failed

abbrev pub then_write : Option Code → Option Problem
then_write none = none
then_write (some c) = some (problem_of denied_writing no_writing c)

abbrev pub then_access : Option Code → Option Code → Option Problem
then_access none w = then_write w
then_access (some c) w = some (problem_of denied_access no_access c)

abbrev pub then_make : Option Code → Option Code → Option Code → Option Problem
then_make none a w = then_access a w
then_make (some c) a w = some (problem_of denied_creating failed_creating c)

-- none where the directory is writable
unfoldable pub check_directory_permissions : Disk → Text → Option Problem
check_directory_permissions d p =
    if d.exists p
    then then_access (d.access p) (d.write_test p)
    else then_make (d.make p) (d.access p) (d.write_test p)

-- none where the binary can be read
unfoldable pub check_binary_permissions : Disk → Text → Option Problem
check_binary_permissions d p = if d.exists p then then_access (d.access p) none else some not_found

-- the loop over the candidates
unfoldable pub first_writable : Disk → List Text → Option Text
unfolding check_directory_permissions
first_writable d [] = none
first_writable d (p ∷ candidates) =
    let rest = first_writable d candidates in
    elim (check_directory_permissions d p) [ none ↦ some p | some e ↦ rest ]

pub record LogPath : Type 0 where
  pub path : Text
  pub unverified : Bool

-- `app.getPath("userData")`, `os.tmpdir()`, `process.cwd()`, where they are given, and `path.join`
pub record Places : Type 0 where
  pub user_data : Option Text
  pub temp : Text
  pub cwd : Option Text
  pub join : Text → Text → Text

abbrev pub logs_in : Places → Option Text → List Text
logs_in w none = []
logs_in w (some p) = w.join p (codes "logs") ∷ []

-- The directory of the process is a candidate in development only.
unfoldable pub candidates : Bool → Places → List Text
candidates is_dev w =
    logs_in w w.user_data
    ++ (w.join (w.join w.temp (codes "orc-torrent")) (codes "logs")
        ∷ w.temp
        ∷ (if is_dev then logs_in w w.cwd else []))

abbrev pub log_path_in : Places → Option Text → LogPath
log_path_in w (some p) = record { path = w.join p (codes "daemon.log"); unverified = false }
log_path_in w none = record { path = w.join w.temp (codes "orc-daemon.log"); unverified = true }

unfoldable pub find_writable_log_directory : Disk → Bool → Places → LogPath
find_writable_log_directory d is_dev w = log_path_in w (first_writable d (candidates is_dev w))
