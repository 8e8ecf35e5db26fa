-- ===== src/FileTree/Chosen.antt =====
-- The size and the paths that components/FileSelectionDialog.tsx (ui/desktop/src/renderer) reads off its
-- tree, against the flat list of files.
use orc_torrent.Prelude.{
  ℕ, suc, ◌+◌, ◌≡◌, ◌≢◌, refl, ◌∙◌, arith, Bool, true, none, some, List, [], ◌∷◌, ◌++◌, All, ltb,
  if◌then◌else◌,
}
use orc_torrent.Prelude.Assoc.{list_eq, nat_eq, lookup}
use orc_torrent.FileTree.{
  Text, FileEntry, FileNode, Forest, empty, node, join, new_dir, new_file, build_file_tree, or_else,
}
use orc_torrent.FileTree.Select.{
  Selections, is_file, is_selected, selected_size, split_path, collect, collect_selected,
}
use orc_torrent.FileTree.Paths.{IsPart, split_path-join}
use orc_torrent.FileTree.Links.{weigh}
use orc_torrent.FileTree.Weigh.{entries_weigh, build_file_tree-weigh}

-- What the entries of a list that pass a test weigh, each by its path and size.
abbrev pub total : (FileEntry → Bool) → (FileEntry → ℕ) → List FileEntry → ℕ
total passes v [] = 0
total passes v (e ∷ es) =
    (if ltb 0 e.size then (if passes e then v e else 0) else 0) + total passes v es

-- what the paths of a list weigh
abbrev pub paths_total : (List Text → ℕ) → List (List Text) → ℕ
paths_total v [] = 0
paths_total v (p ∷ ps) = v p + paths_total v ps

paths_total-append :
    (v : List Text → ℕ) (ps qs : List (List Text))
    → paths_total v (ps ++ qs) ≡ paths_total v ps + paths_total v qs
paths_total-append v [] qs = omega arith
paths_total-append v (p ∷ ps) qs = omega (arith, paths_total-append v ps qs)

abbrev path_weight : (FileNode → Bool) → (List Text → ℕ) → FileNode → ℕ
path_weight passes v x = if is_file x then (if passes x then v (split_path x.path) else 0) else 0

collect-weigh :
    (passes : FileNode → Bool) (v : List Text → ℕ) (f : Forest)
    → paths_total v (collect passes f) ≡ weigh (path_weight passes v) f
unfolding collect weigh
collect-weigh passes v empty = refl
collect-weigh passes v (node r x children rest) = ground (
  arith,
  collect-weigh passes v children,
  collect-weigh passes v rest,
  paths_total-append v (collect passes children) (collect passes rest),
)

-- whether a file is selected by a map
abbrev pub is_chosen : Selections → FileEntry → Bool
is_chosen m e = elim (lookup (join e.path) m) [ none ↦ true | some b ↦ b ]

-- The path has a part, and all its parts are proper.
abbrev pub IsPath : List Text → Type 0
IsPath path = (path ≢ []) × All IsPart path

join-IsPath : (path : List Text) (d : Text) → IsPath path → or_else (join path) d ≡ join path
unfolding or_else join
join-IsPath [] d h = ground (arith, h.0)
join-IsPath ([] ∷ path) d h = ground (arith, h.1.0.0)
join-IsPath ((c ∷ part) ∷ []) d h = refl
join-IsPath ((c ∷ part) ∷ next ∷ path) d h = refl

new_file-path : (index : ℕ) (e : FileEntry) → IsPath e.path → (new_file index e).path ≡ join e.path
unfolding new_file
new_file-path index e h = join-IsPath e.path _ h

-- An entry's own weight, node by node, adds up to the total.
entries_weigh-total :
    (w : FileNode → ℕ) (passes : FileEntry → Bool) (v : FileEntry → ℕ)
    → ((index : ℕ) (e : FileEntry)
        → IsPath e.path
        → w (new_file index e) ≡ (if ltb 0 e.size then (if passes e then v e else 0) else 0))
    → (index : ℕ) (es : List FileEntry) → All (λ e. IsPath e.path) es
    → entries_weigh w index es ≡ total passes v es
entries_weigh-total w passes v h index [] k = refl
entries_weigh-total w passes v h index (e ∷ es) k =
    omega (arith, h index e k.0, entries_weigh-total w passes v h (suc index) es k.1)

size_weight : Selections → FileNode → ℕ
size_weight m x = if is_file x then (if is_selected m x then x.size else 0) else 0

selected_size-weigh : (m : Selections) (f : Forest) → selected_size m f ≡ weigh (size_weight m) f
unfolding selected_size weigh size_weight
selected_size-weigh m empty = refl
selected_size-weigh m (node r x children rest) =
    omega (arith, selected_size-weigh m children, selected_size-weigh m rest)

-- The size that is shown is that of the files of the flat list that are selected, each counted once.
pub selected_size-total :
    (m : Selections) (es : List FileEntry)
    → All (λ e. IsPath e.path) es
    → selected_size m (build_file_tree es) ≡ total (is_chosen m) (λ e. e.size) es
unfolding size_weight is_selected new_file new_dir
selected_size-total m es h =
    selected_size-weigh m (build_file_tree es)
    ∙ build_file_tree-weigh (size_weight m) (λ name path. refl) es
    ∙ entries_weigh-total (size_weight m) (is_chosen m) (λ e. e.size)
        (λ index e k. rw (new_file-path index e k) refl) 0 es h

-- The paths that are sent for the selected files are those of the selected files of the flat list that
-- are not empty, each as often as it stands there; an empty file is never among them.
pub collect_selected-total :
    (m : Selections) (v : List Text → ℕ) (es : List FileEntry)
    → All (λ e. IsPath e.path) es
    → paths_total v (collect_selected m (build_file_tree es))
      ≡ total (is_chosen m) (λ e. v e.path) es
unfolding collect_selected is_selected new_file new_dir
collect_selected-total m v es h =
    let w = path_weight (is_selected m) v in
    collect-weigh (is_selected m) v (build_file_tree es)
    ∙ build_file_tree-weigh w (λ name path. refl) es
    ∙ entries_weigh-total w (is_chosen m) (λ e. v e.path)
        (λ index e k. rw (new_file-path index e k, split_path-join e.path k.1) refl) 0 es h
