-- ===== src/FileTree/Tests.antt =====
-- A run of the file tree's model, and the theorems about it at concrete lists of files.
use orc_torrent.Prelude.{
  ℕ, ◌≡◌, ◌⊎◌, ◌↔◌, refl, arith, true, false, some, List, [], ◌∷◌, All, ◌==◌, if◌then◌else◌,
}
use orc_torrent.Prelude.Assoc.{list_eq, nat_eq, same_list, lookup, insert}
use orc_torrent.Prelude.Codes.{codes}
use orc_torrent.FileTree.{
  Text, FileEntry, FileNode, Forest, empty, node, file, dir, join, new_file, new_dir,
  build_file_tree, add_entries, add_entry, find_parent, make_dirs, push_under, push_child, push,
  parents, extend, last_part, or_else,
}
use orc_torrent.FileTree.Select.{Selections, split_path, split_parts, collect, collect_all}
use orc_torrent.FileTree.Links.{weigh}
use orc_torrent.FileTree.Weigh.{entries_weigh, build_file_tree-weigh}
use orc_torrent.FileTree.Chosen.{IsPath}
use orc_torrent.FileTree.Confirm.{
  skip, download, Priorities, Dialog, confirmed, confirm, Among, At, IsAny, IsChosen, all_ok,
  confirm-lookup,
}

-- "a/b" and "a/c", the second to be skipped
abbrev files : List FileEntry
files =
    record { path = codes "a" ∷ codes "b" ∷ []; size = 5; priority = "download" }
    ∷ record { path = codes "a" ∷ codes "c" ∷ []; size = 7; priority = "skip" }
    ∷ []

files-IsPath : All (λ e. IsPath e.path) files
files-IsPath = ground arith

paths :
    collect_all (build_file_tree files)
    ≡ (codes "a" ∷ codes "b" ∷ []) ∷ (codes "a" ∷ codes "c" ∷ []) ∷ []
unfolding collect_all collect build_file_tree add_entries add_entry find_parent make_dirs push_under
    push_child push parents extend last_part or_else new_file new_dir join split_path split_parts
    lookup insert list_eq same_list
paths = refl

-- one for the first file
abbrev is_first : FileNode → ℕ
is_first x = elim x.id [ file i ↦ if i == 0 then 1 else 0 | dir t ↦ 0 ]

light : (name path : Text) → is_first (new_dir name path) ≡ 0
unfolding new_dir
light name path = refl

build_file_tree-weigh_example :
    weigh is_first (build_file_tree files) ≡ entries_weigh is_first 0 files
build_file_tree-weigh_example = build_file_tree-weigh is_first light files

abbrev unselected : Selections
unselected = (codes "a/c", false) ∷ []

abbrev leaf : FileNode
leaf = record { id = file 0; name = codes "b"; path = codes "b"; size = 5; selected = true }

abbrev two : Forest
two =
    node 0 leaf empty
      (node 1 (record leaf { id = file 1; name = codes "c"; path = codes "c" }) empty empty)

-- the second file is not selected
abbrev dialog : Dialog
dialog = record {
  has_torrent = true;
  busy = false;
  files = two;
  selections = (codes "c", false) ∷ [];
}

abbrev before : Priorities
before = (codes "c" ∷ [], download) ∷ []

confirm-lookup_example :
    (c : List (List Text)) × ((confirm all_ok all_ok false dialog before).0 ≡ confirmed c)
    × (Among (codes "c" ∷ []) c ↔ At (IsChosen dialog.selections) (codes "c" ∷ []) two)
    × ((At (IsChosen dialog.selections) (codes "c" ∷ []) two
          × (lookup (codes "c" ∷ []) (confirm all_ok all_ok false dialog before).1 ≡ some download))
        ⊎ ((¬ At (IsChosen dialog.selections) (codes "c" ∷ []) two)
            × ((At IsAny (codes "c" ∷ []) two
                  × (lookup (codes "c" ∷ []) (confirm all_ok all_ok false dialog before).1
                      ≡ some skip))
                ⊎ ((¬ At IsAny (codes "c" ∷ []) two)
                    × (lookup (codes "c" ∷ []) (confirm all_ok all_ok false dialog before).1
                        ≡ lookup (codes "c" ∷ []) before)))))
confirm-lookup_example =
    confirm-lookup false dialog before (codes "c" ∷ []) refl refl (λ e. ground arith)
