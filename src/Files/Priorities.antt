-- ===== src/Files/Priorities.antt =====
-- The change of a file's priority (ui/desktop/src/renderer/components/inspector/FilesTab.tsx).
use orc_torrent.Prelude.{
  ◌≡◌, refl, ap, sym, ◌∙◌, true, Option, none, some, List, ◌∷◌, Bool-cases, inl, inr,
}
use orc_torrent.Prelude.Assoc.{list_eq, nat_eq, same_list}
use orc_torrent.Prelude.Codes.{Text}
use orc_torrent.FileTree.Select.{split_path}
use orc_torrent.Files.{
  FilePriority, skip, normal, high, api_priority, shown_priority, RowId, same_id, Row, Nodes,
  no_nodes, node, with_priority, or_below, find_file_node, update_nodes, Files,
  handle_priority_change, change_path,
}

-- What is sent for a priority is shown as that priority when it comes back.
pub shown_priority-api_priority : (p : FilePriority) → shown_priority (api_priority p) ≡ p
unfolding shown_priority api_priority list_eq same_list
shown_priority-api_priority skip = refl
shown_priority-api_priority normal = refl
shown_priority-api_priority high = refl

abbrev pub raised : FilePriority → Option Row → Option Row
raised p none = none
raised p (some r) = some (with_priority p r)

raised-or_below :
    (p : FilePriority) (a b : Option Row)
    → raised p (or_below a b) ≡ or_below (raised p a) (raised p b)
raised-or_below p none b = refl
raised-or_below p (some r) b = refl

-- The node that is found by an id after an update under this id is the one found before, with the new priority.
pub find_file_node-update_nodes :
    (id : RowId) (p : FilePriority) (nodes : Nodes)
    → find_file_node id (update_nodes id p nodes) ≡ raised p (find_file_node id nodes)
unfolding find_file_node update_nodes
find_file_node-update_nodes id p no_nodes = refl
find_file_node-update_nodes id p (node r children rest) = elim (Bool-cases (same_id r.id id)) [
  | inl h ↦ rw (h, h) refl
  | inr h ↦
      rw (h, h, find_file_node-update_nodes id p children, find_file_node-update_nodes id p rest)
        (sym (raised-or_below p (find_file_node id children) (find_file_node id rest)))
]

-- While online, a change of the priority of a file that is listed and has a path shows the file with this priority at
-- once, and sends its path with a priority that the list shows the same way.
pub handle_priority_change-sends :
    (id : RowId) (p : FilePriority) (r : Row) (part : Text) (parts : List Text) (s : Files)
    → s.online ≡ true
    → find_file_node id s.nodes ≡ some r
    → split_path r.path ≡ part ∷ parts
    → (let t = handle_priority_change id p s in
        (find_file_node id t.nodes ≡ some (with_priority p r))
        × (t.sent ≡ (part ∷ parts, api_priority p) ∷ s.sent)
        × (shown_priority (api_priority p) ≡ p))
unfolding handle_priority_change change_path
handle_priority_change-sends id p r part parts s o f e =
    rw (o, f, e)
      (
        find_file_node-update_nodes id p s.nodes ∙ ap (raised p) f,
        refl,
        shown_priority-api_priority p,
      )
