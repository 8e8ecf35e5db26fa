-- ===== src/Files.antt =====
-- The files of the inspector (ui/desktop/src/renderer/components/inspector/FilesTab.tsx): the loading of the list with
-- its retries, and the change of a file's priority. The tree that a list is shown as is given. Text is the list of
-- its code units, and times are in milliseconds.
pub mod Loads
pub mod Priorities
mod Tests
use orc_torrent.Prelude.{
  ℕ, zero, suc, ◌+◌, ◌*◌, ◌^◌, Bool, true, false, not, ◌||◌, Option, none, some, List, [], ◌∷◌,
  ◌++◌, ◌==◌, if◌then◌else◌,
}
use orc_torrent.Prelude.Codes.{Text, codes}
use orc_torrent.Country.{same_text}
use orc_torrent.FileTree.Select.{split_path}

pub data FilePriority : Type 0 where
  skip normal high : FilePriority

-- what the daemon calls a priority, and what the list shows of it
unfoldable pub api_priority : FilePriority → Text
api_priority skip = codes "skip"
api_priority normal = codes "normal"
api_priority high = codes "download"

unfoldable pub shown_priority : Text → FilePriority
shown_priority s =
    if same_text s (codes "skip")
    then skip
    else if same_text s (codes "high") || same_text s (codes "download")
    then high
    else normal

-- `file-${index}` and `dir-${currentPath}`
pub data RowId : Type 0 where
  file : ℕ → RowId
  dir : Text → RowId

abbrev pub same_id : RowId → RowId → Bool
same_id (file i) (file j) = i == j
same_id (dir p) (dir q) = same_text p q
same_id _ _ = false

-- a node without its children
pub record Row : Type 0 where
  pub id : RowId
  pub path : Text
  pub size : ℕ
  pub priority : FilePriority

-- a list of nodes: the first one, its children, and the nodes after it
pub data Nodes : Type 0 where
  no_nodes : Nodes
  node : Row → Nodes → Nodes → Nodes

abbrev pub with_priority : FilePriority → Row → Row
with_priority p r = record r { priority = p }

abbrev pub or_below : Option Row → Option Row → Option Row
or_below none o = o
or_below (some r) o = some r

-- `findFileNode`
unfoldable pub find_file_node : RowId → Nodes → Option Row
find_file_node target no_nodes = none
find_file_node target (node r children rest) =
    let below = find_file_node target children in
    let beside = find_file_node target rest in
    if same_id r.id target then some r else or_below below beside

-- `updateNode`
unfoldable pub update_nodes : RowId → FilePriority → Nodes → Nodes
update_nodes target p no_nodes = no_nodes
update_nodes target p (node r children rest) =
    let below = update_nodes target p children in
    let beside = update_nodes target p rest in
    if same_id r.id target then node (with_priority p r) children beside else node r below beside

pub record Files : Type 0 where
  pub online : Bool
  pub nodes : Nodes
  pub loading : Bool
  pub has_error : Bool
  -- the requests sent, the newest first: a path and a priority
  pub sent : List (List Text × Text)
  -- calls of `invalidateTorrentCache`, `onUpdate` and `onError`
  pub invalidated : ℕ
  pub updates : ℕ
  pub errors : ℕ

abbrev pub report : Files → Files
report s = record s { errors = suc s.errors }

unfoldable pub change_path : RowId → FilePriority → List Text → Files → Files
unfolding update_nodes api_priority
change_path id p [] s = report s
change_path id p (part ∷ parts) s = record s {
  nodes = update_nodes id p s.nodes;
  sent = (part ∷ parts, api_priority p) ∷ s.sent;
}

abbrev pub change_found : RowId → FilePriority → Option Row → Files → Files
change_found id p none s = report s
change_found id p (some r) s = change_path id p (split_path r.path) s

-- `handlePriorityChange` up to its request
unfoldable pub handle_priority_change : RowId → FilePriority → Files → Files
unfolding find_file_node change_path
handle_priority_change id p s =
    if s.online then change_found id p (find_file_node id s.nodes) s else s

-- `handleRetry` up to its request, and what follows it: the tree of an answer, or none
unfoldable pub handle_retry : Files → Files
handle_retry s =
    if s.online
    then record s { has_error = false; loading = true; invalidated = suc s.invalidated }
    else record s { loading = false }

abbrev pub retry_then : Option Nodes → Files → Files
retry_then (some nodes) s = record s { nodes = nodes; loading = false }
retry_then none s = record s { has_error = true; loading = false; errors = suc s.errors }

-- what follows the request of a change: it was taken or not
unfoldable pub priority_then : Bool → Files → Files
unfolding handle_retry
priority_then true s = record s { invalidated = suc s.invalidated; updates = suc s.updates }
priority_then false s =
    handle_retry (record s { invalidated = suc s.invalidated; errors = suc s.errors })

-- how a call of `fetchTorrentContent` ends: with a tree, or with an error of the network or another
pub data Loaded : Type 0 where
  tree : Nodes → Loaded
  network_error other_error : Loaded

abbrev pub max_attempt : ℕ
max_attempt = 3

abbrev pub attempt_delay : ℕ → ℕ
attempt_delay attempt = 1000 * 2 ^ attempt

pub record Run : Type 0 where
  -- the calls of `fetchTorrentContent`, and the waits between them together
  pub fetches : ℕ
  pub waited : ℕ
  pub files : Files

abbrev pub shows_tree : Nodes → Files → Run
shows_tree nodes s = record {
  fetches = 1;
  waited = 0;
  files = record s { nodes = nodes; loading = false; has_error = false };
}

abbrev pub shows_error : Files → Run
shows_error s = record {
  fetches = 1;
  waited = 0;
  files = record s { has_error = true; loading = false; errors = suc s.errors };
}

-- the last attempt, and one that may be followed by another after a wait
abbrev pub last_answer : Loaded → Files → Run
last_answer (tree nodes) s = shows_tree nodes s
last_answer network_error s = shows_error s
last_answer other_error s = shows_error s

abbrev pub next_answer : Loaded → ℕ → Run → Files → Run
next_answer (tree nodes) wait later s = shows_tree nodes s
next_answer network_error wait later s = record {
  fetches = suc later.fetches;
  waited = wait + later.waited;
  files = later.files;
}
next_answer other_error wait later s = shows_error s

-- `loadFiles` where nothing cancels it: `left` is how many times more it may be tried, and the answers go by attempts.
unfoldable pub load_files : ℕ → ℕ → (ℕ → Loaded) → Files → Run
load_files zero attempt answers s = last_answer (answers attempt) s
load_files (suc left) attempt answers s =
    let later = load_files left (suc attempt) answers s in
    next_answer (answers attempt) (attempt_delay attempt) later s

-- the effect for an online torrent
unfoldable pub load : (ℕ → Loaded) → Files → Run
unfolding load_files
load answers s = load_files max_attempt 0 answers (record s { loading = true; has_error = false })
