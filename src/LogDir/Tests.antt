-- ===== src/LogDir/Tests.antt =====
-- Runs of the choice of the log's directory, and its theorem at a concrete input.
use orc_torrent.Prelude.{◌≡◌, refl, true, false, none, some, ◌++◌, if◌then◌else◌}
use orc_torrent.Prelude.Assoc.{list_eq, nat_eq, same_list}
use orc_torrent.Prelude.Codes.{codes}
use orc_torrent.LogDir.{
  Disk, first_writable, no_permission, Places, candidates, check_binary_permissions, denied_access,
  find_writable_log_directory,
}
use orc_torrent.LogDir.Choice.{Chosen, find_writable_log_directory-Chosen}

-- Only the directory for temporary files can be accessed.
abbrev disk : Disk
disk = record {
  exists = λ p. true;
  make = λ p. none;
  access = λ p. if (list_eq ⦃e = nat_eq⦄).beq p (codes "/tmp") then none else some no_permission;
  write_test = λ p. none;
}

abbrev places : Places
places = record {
  user_data = some (codes "/home/u");
  temp = codes "/tmp";
  cwd = none;
  join = λ p q. p ++ (codes "/" ++ q);
}

in_temp : (find_writable_log_directory disk false places).path ≡ codes "/tmp/daemon.log"
unfolding find_writable_log_directory first_writable candidates list_eq same_list
in_temp = refl

binary : check_binary_permissions disk (codes "/bin/daemon") ≡ some denied_access
unfolding check_binary_permissions list_eq same_list
binary = refl

find_writable_log_directory-Chosen_example :
    Chosen disk places (candidates true places) (find_writable_log_directory disk true places)
find_writable_log_directory-Chosen_example = find_writable_log_directory-Chosen disk places true
