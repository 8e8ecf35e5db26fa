-- ===== src/FileTree/Select.antt =====
-- The selections of components/FileSelectionDialog.tsx (ui/desktop/src/renderer): a map from a node's
-- path to whether it is selected, and what is collected from the tree by it.
use orc_torrent.Prelude.{
  ℕ, ◌+◌, Bool, true, false, none, some, List, [], ◌∷◌, ◌++◌, ltb, ◌==◌, if◌then◌else◌,
}
use orc_torrent.Prelude.Assoc.{list_eq, nat_eq, lookup, insert}
use orc_torrent.FileTree.{Text, slash, FileNode, Forest, empty, node}

abbrev pub Selections : Type 0
Selections = List (Text × Bool)

-- `node.size > 0`
abbrev pub is_file : FileNode → Bool
is_file x = ltb 0 x.size

-- `fileSelections.get(node.path) ?? true`
unfoldable pub is_selected : Selections → FileNode → Bool
is_selected m x = elim (lookup x.path m) [ none ↦ true | some b ↦ b ]

unfoldable pub selected_size : Selections → Forest → ℕ
unfolding is_selected
selected_size m empty = 0
selected_size m (node r x children rest) =
    (if is_file x then (if is_selected m x then x.size else 0) else 0)
    + (selected_size m children + selected_size m rest)

-- `path.split("/").filter(s => s.length > 0)`, with the part read so far
unfoldable pub split_parts : Text → Text → List Text
split_parts [] [] = []
split_parts (c ∷ part) [] = (c ∷ part) ∷ []
split_parts part (c ∷ path) =
    let next = split_parts [] path in
    let longer = split_parts (part ++ c ∷ []) path in
    if c == slash then elim part [ [] ↦ next | d ∷ ds ↦ (d ∷ ds) ∷ next ] else longer

unfoldable pub split_path : Text → List Text
unfolding split_parts
split_path path = split_parts [] path

-- the parts of the files that pass a test, in the order of the tree
unfoldable pub collect : (FileNode → Bool) → Forest → List (List Text)
unfolding split_path
collect passes empty = []
collect passes (node r x children rest) =
    let below = collect passes children ++ collect passes rest in
    if is_file x then (if passes x then split_path x.path ∷ below else below) else below

unfoldable pub collect_selected : Selections → Forest → List (List Text)
unfolding collect is_selected
collect_selected m f = collect (is_selected m) f

unfoldable pub collect_all : Forest → List (List Text)
unfolding collect
collect_all f = collect (λ x. true) f

-- `setSelections`, and `addNewFiles`, which leaves the paths that the map has
unfoldable pub initial_selections : Forest → Selections → Selections
initial_selections empty m = m
initial_selections (node r x children rest) m =
    initial_selections rest
      (initial_selections children (insert x.path (if is_file x then x.selected else true) m))

unfoldable pub add_new_files : Forest → Selections → Selections
add_new_files empty m = m
add_new_files (node r x children rest) m = add_new_files rest (
    add_new_files children (elim (lookup x.path m) [
      | some b ↦ m
      | none ↦ insert x.path (if is_file x then x.selected else true) m
    ]))

-- `hasExistingSelections`
unfoldable pub has_existing : Selections → Forest → Bool
has_existing m empty = false
has_existing m (node r x children rest) = elim (lookup x.path m) [
  | some b ↦ true
  | none ↦ if has_existing m children then true else has_existing m rest
]

-- the update when the files arrive
unfoldable pub load_selections : Forest → Selections → Selections
unfolding has_existing add_new_files initial_selections
load_selections f m = if has_existing m f then add_new_files f m else initial_selections f []

unfoldable pub toggle_all : Bool → Forest → Selections → Selections
toggle_all select empty m = m
toggle_all select (node r x children rest) m =
    toggle_all select rest
      (toggle_all select children (if is_file x then insert x.path select m else m))
