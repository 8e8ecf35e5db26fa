-- ===== src/FileTree.antt =====
-- components/FileSelectionDialog.tsx of ui/desktop/src/renderer: the file tree that is built from a
-- torrent's flat list of files, and the selections on it. Text is the list of its code units. The
-- objects that the source shares between the tree and its map go by numbers, and the tree holds for
-- each of them its children and what follows it.
pub mod Select
pub mod Paths
pub mod Links
pub mod Weigh
pub mod Chosen
pub mod Toggle
pub mod Confirm
mod Tests
use orc_torrent.Prelude.{
  ℕ, suc, ◌+◌, Bool, true, false, not, Option, none, some, List, [], ◌∷◌, ◌++◌, length, ltb,
  if◌then◌else◌,
}
use Prim.Native.String.{String}
use orc_torrent.Prelude.Assoc.{string_eq, list_eq, nat_eq, lookup, insert}
use orc_torrent.Prelude.Codes.{codes}
pub use orc_torrent.Prelude.Codes.{Text}

pub record FileEntry : Type 0 where
  pub path : List Text
  pub size : ℕ
  pub priority : String

-- the id of a node: `file-${index}` or `dir-${path}`
pub data NodeId : Type 0 where
  file : ℕ → NodeId
  dir : Text → NodeId

pub record FileNode : Type 0 where
  pub id : NodeId
  pub name : Text
  pub path : Text
  pub size : ℕ
  pub selected : Bool

-- A list of nodes: the first one's object, its fields, its children, and the nodes behind it.
pub data Forest : Type 0 where
  empty : Forest
  node : ℕ → FileNode → Forest → Forest → Forest

abbrev pub slash : ℕ
slash = 0x2f

-- `path.join("/")`
pub join : List Text → Text
join [] = []
join (part ∷ []) = part
join (part ∷ next ∷ parts) = part ++ slash ∷ join (next ∷ parts)

-- `path.slice(0, -1)`, and the last part
pub parents : List Text → List Text
parents [] = []
parents (part ∷ []) = []
parents (part ∷ next ∷ parts) = part ∷ parents (next ∷ parts)

last_part : List Text → Text
last_part [] = []
last_part (part ∷ []) = part
last_part (part ∷ next ∷ parts) = last_part (next ∷ parts)

-- `a || b` on texts
or_else : Text → Text → Text
or_else [] b = b
or_else (c ∷ a) b = c ∷ a

-- `list.push(node)`
pub push : ℕ → FileNode → Forest → Forest
push r x empty = node r x empty empty
push r x (node q y children rest) = node q y children (push r x rest)

-- `parent.children.push(node)`, where the parent stands in the tree
pub push_child : ℕ → ℕ → FileNode → Forest → Option Forest
unfolding push
push_child p r x empty = none
push_child p r x (node q y children rest) =
    let deeper = push_child p r x children in
    let later = push_child p r x rest in
    if nat_eq.beq q p then some (node q y (push r x children) rest) else elim deeper [
      | some f ↦ some (node q y f rest)
      | none ↦ elim later [ some f ↦ some (node q y children f) | none ↦ none ]
    ]

-- the two variables of `buildFileTree`, and the number of the next object
pub record Build : Type 0 where
  pub tree : Forest
  pub node_map : List (Text × ℕ)
  pub next : ℕ

-- Push an object under a parent, or at the root.
pub push_under : Option ℕ → ℕ → FileNode → Forest → Forest
unfolding push push_child
push_under none r x f = push r x f
push_under (some p) r x f = elim (push_child p r x f) [ some g ↦ g | none ↦ f ]

pub new_dir : Text → Text → FileNode
new_dir name path = record { id = dir path; name = name; path = path; size = 0; selected = true }

-- `i === 0 ? parentParts[i] : …`
pub extend : Option Text → Text → Text
extend none part = part
extend (some path) part = path ++ slash ∷ part

-- the loop that makes the missing directories; it ends with the last one
pub make_dirs : List Text → Option Text → Option ℕ → Build → Build × Option ℕ
unfolding extend push_under new_dir
make_dirs [] path parent b = (b, parent)
make_dirs (part ∷ parts) path parent b =
    let p = extend path part in
    elim (lookup p b.node_map) [
      | some q ↦ make_dirs parts (some p) (some q) b
      | none ↦ make_dirs parts (some p) (some b.next) (record {
        tree = push_under parent b.next (new_dir part p) b.tree;
        node_map = insert p b.next b.node_map;
        next = suc b.next;
      })
    ]

-- the directory that a path's file belongs in
pub find_parent : List Text → Build → Build × Option ℕ
unfolding make_dirs join parents
find_parent path b = elim (lookup (join (parents path)) b.node_map) [
  | some q ↦ (b, some q)
  | none ↦ make_dirs (parents path) none none b
]

pub new_file : ℕ → FileEntry → FileNode
unfolding join last_part or_else
new_file index e = record {
  id = file index;
  name = or_else (last_part e.path) (or_else (join e.path) (codes "download"));
  path = or_else (join e.path) (codes "download");
  size = e.size;
  selected = not (string_eq.beq e.priority "skip");
}

pub add_entry : ℕ → FileEntry → Build → Build
unfolding find_parent new_file push_under join
add_entry index e b =
    let r = b.next in
    let x = new_file index e in
    let c : Build = record b { node_map = insert (join e.path) r b.node_map; next = suc r } in
    if ltb 1 (length e.path)
    then (let (d, parent) = find_parent e.path c in
        elim parent [ none ↦ d | some p ↦ record d { tree = push_under (some p) r x d.tree } ])
    else record c { tree = push_under none r x c.tree }

pub add_entries : ℕ → List FileEntry → Build → Build
unfolding add_entry
add_entries index [] b = b
add_entries index (e ∷ es) b = add_entries (suc index) es (add_entry index e b)

pub build_file_tree : List FileEntry → Forest
unfolding add_entries
build_file_tree entries =
    (add_entries 0 entries (record { tree = empty; node_map = []; next = 0 })).tree
