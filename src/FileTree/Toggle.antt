-- ===== src/FileTree/Toggle.antt =====
-- "Select all" and "deselect all" of components/FileSelectionDialog.tsx (ui/desktop/src/renderer).
use orc_torrent.Prelude.{◌≡◌, ◌⊎◌, inl, inr, refl, arith, Bool, true, false, some, [], Bool-cases}
use orc_torrent.Prelude.Assoc.{list_eq, nat_eq, lookup, insert, lookup-insert}
use orc_torrent.FileTree.{Text, Forest, empty, node}
use orc_torrent.FileTree.Select.{
  Selections, is_file, is_selected, collect, collect_all, collect_selected, toggle_all,
}

-- A file of the tree has the path.
abbrev HasFile : Text → Forest → Type 0
HasFile t empty = ⊥
HasFile t (node r x children rest) =
    ((is_file x ≡ true) × (x.path ≡ t)) ⊎ (HasFile t children ⊎ HasFile t rest)

module _ (b : Bool) (t : Text) where
  insert-kept : (u : Text) (m : Selections) → lookup t m ≡ some b → lookup t (insert u b m) ≡ some b
  insert-kept u m h = ground (arith, h, lookup-insert u t b m)

  toggle_all-kept :
      (f : Forest) (m : Selections) → lookup t m ≡ some b → lookup t (toggle_all b f m) ≡ some b
  unfolding toggle_all
  toggle_all-kept empty m h = h
  toggle_all-kept (node r x children rest) m h =
      toggle_all-kept rest _ (toggle_all-kept children _ (ground (arith, h, insert-kept x.path m)))

  toggle_all-HasFile :
      (f : Forest) (m : Selections) → HasFile t f → lookup t (toggle_all b f m) ≡ some b
  unfolding toggle_all
  toggle_all-HasFile empty m h = elim h [ ]
  toggle_all-HasFile (node r x children rest) m (inl h) = toggle_all-kept rest _ (
      toggle_all-kept children _ (
        ground
          (arith, h.0, h.1, lookup-insert x.path t b m, (list_eq ⦃e = nat_eq⦄).beq_iff x.path t)))
  toggle_all-HasFile (node r x children rest) m (inr (inl h)) =
      toggle_all-kept rest _ (toggle_all-HasFile children _ h)
  toggle_all-HasFile (node r x children rest) m (inr (inr h)) = toggle_all-HasFile rest _ h

-- what is collected where all the files of a tree are selected, and where none is
collect_selected-true :
    (m : Selections) (f : Forest)
    → ((t : Text) → HasFile t f → lookup t m ≡ some true)
    → collect_selected m f ≡ collect_all f
unfolding collect_selected collect_all collect is_selected
collect_selected-true m empty h = refl
collect_selected-true m (node r x children rest) h =
    let c = collect_selected-true m children (λ t k. h t (inr (inl k))) in
    let d = collect_selected-true m rest (λ t k. h t (inr (inr k))) in
    elim (Bool-cases (is_file x)) [
      | inl b ↦ let q = h x.path (inl (b, refl)) in ground (arith, b, q, c, d)
      | inr b ↦ ground (arith, b, c, d)
    ]

collect_selected-false :
    (m : Selections) (f : Forest)
    → ((t : Text) → HasFile t f → lookup t m ≡ some false)
    → collect_selected m f ≡ []
unfolding collect_selected collect is_selected
collect_selected-false m empty h = refl
collect_selected-false m (node r x children rest) h =
    let c = collect_selected-false m children (λ t k. h t (inr (inl k))) in
    let d = collect_selected-false m rest (λ t k. h t (inr (inr k))) in
    elim (Bool-cases (is_file x)) [
      | inl b ↦ let q = h x.path (inl (b, refl)) in ground (arith, b, q, c, d)
      | inr b ↦ ground (arith, b, c, d)
    ]

-- After "select all" every file of the tree is sent as selected, and after "deselect all" none is, what-
-- ever was selected before.
pub toggle_all-collect_selected :
    (f : Forest) (m : Selections)
    → (collect_selected (toggle_all true f m) f ≡ collect_all f)
      × (collect_selected (toggle_all false f m) f ≡ [])
toggle_all-collect_selected f m = (
  collect_selected-true (toggle_all true f m) f (λ t. toggle_all-HasFile true t f m),
  collect_selected-false (toggle_all false f m) f (λ t. toggle_all-HasFile false t f m),
)
