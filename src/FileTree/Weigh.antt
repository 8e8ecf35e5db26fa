-- ===== src/FileTree/Weigh.antt =====
-- buildFileTree of components/FileSelectionDialog.tsx (ui/desktop/src/renderer) against the flat list of
-- files: every file stands in the tree exactly once, and the directories add nothing.
use orc_torrent.Prelude.{
  ℕ, suc, ◌+◌, ◌≤◌, ◌<◌, ◌≡◌, ◌≢◌, ◌⊎◌, inl, inr, refl, sym, ap, ◌∙◌, arith, true, Option, none,
  some, Option-cases, List, [], ◌∷◌, ◌++◌, length, length-append, append_assoc, ltb,
}
use mathlib.Core.Path.{subst}
use Prim.Native.String.{String}
use mathlib.Core.Option.{some-injective}
use orc_torrent.Prelude.Assoc.{list_eq, nat_eq, lookup, insert, lookup-insert}
use orc_torrent.FileTree.{
  Text, slash, FileEntry, FileNode, empty, join, parents, Build, push_under, new_dir, extend,
  make_dirs, find_parent, new_file, add_entry, add_entries, build_file_tree,
}
use orc_torrent.FileTree.Paths.{join-parents}
use orc_torrent.FileTree.Links.{Has, weigh, Parent, push_under_lem}

-- the path that the loop over the directories ends with
target : Text → List Text → Text
unfolding extend
target path [] = path
target path (part ∷ parts) = target (extend (some path) part) parts

length-target : (path : Text) (parts : List Text) → length path ≤ length (target path parts)
unfolding target extend
length-target path [] = omega arith
length-target path (part ∷ parts) =
    omega (arith, length-target (extend (some path) part) parts, length-append path (slash ∷ part))

target-append :
    (a path : Text) (parts : List Text)
    → target (a ++ slash ∷ path) parts ≡ a ++ slash ∷ target path parts
unfolding target extend
target-append a path [] = refl
target-append a path (part ∷ parts) =
    ap (λ t. target t parts) (append_assoc a (slash ∷ path) (slash ∷ part))
    ∙ target-append a (path ++ slash ∷ part) parts

target-join : (part : Text) (parts : List Text) → target part parts ≡ join (part ∷ parts)
unfolding target join extend
target-join part [] = refl
target-join part (next ∷ parts) =
    target-append part next parts ∙ ap (λ t. part ++ slash ∷ t) (target-join next parts)

module _ (E : Text → ℕ → Type 0) where
  -- Each object of the map stands in the tree, but for those that `E` names.
  IsLinked : Build → Type 0
  IsLinked b = (t : Text) (q : ℕ) → lookup t b.node_map ≡ some q → E t q ⊎ Has q b.tree

  -- A new object under a path, pushed into the tree.
  IsLinked-push :
      (parent : Option ℕ) (t : Text) (x : FileNode) (b : Build)
      → Parent parent b.tree
      → IsLinked b
      → IsLinked (record {
        tree = push_under parent b.next x b.tree;
        node_map = insert t b.next b.node_map;
        next = suc b.next;
      })
  unfolding IsLinked
  IsLinked-push parent t x b h l u q e =
      let g = push_under_lem b.next x parent b.tree h in
      ground (
        arith,
        e,
        g.0 q,
        g.1,
        l u q,
        lookup-insert t u b.next b.node_map,
        (list_eq ⦃e = nat_eq⦄).beq_iff t u,
      )

  -- the path of the loop before its first part, too
  abbrev goal : Option Text → List Text → Text
  goal none [] = []
  goal none (part ∷ parts) = target part parts
  goal (some path) parts = target path parts

  Parent-Has :
      (parent : Option ℕ) (b : Build)
      → ((q : ℕ) → parent ≡ some q → Has q b.tree)
      → Parent parent b.tree
  Parent-Has none b s = tt
  Parent-Has (some q) b s = s q refl

  goal-extend :
      (path : Option Text) (part : Text) (parts : List Text)
      → ((t : Text) (q : ℕ) → E t q → length (goal path (part ∷ parts)) < length t)
      → (t : Text) (q : ℕ) → E t q
      → length (target (extend path part) parts) < length t
  unfolding target extend
  goal-extend none part parts short = short
  goal-extend (some path) part parts short = short

  found :
      (p : Text) (q : ℕ) (b : Build)
      → ((r : ℕ) → ¬ E p r)
      → IsLinked b
      → lookup p b.node_map ≡ some q
      → Has q b.tree
  unfolding IsLinked
  found p q b other l e = elim (l p q e) [ inl x ↦ elim (other q x) [ ] | inr h ↦ h ]

  -- what the loop keeps and leaves
  record IsMade (w : FileNode → ℕ) (b : Build) (c : Build) (parent : Option ℕ) : Type 0 where
    links : IsLinked c
    stands : (q : ℕ) → parent ≡ some q → Has q c.tree
    weight : weigh w c.tree ≡ weigh w b.tree

  module _ (w : FileNode → ℕ) (light : (name path : Text) → w (new_dir name path) ≡ 0) where
    make_dirs-IsMade :
        (parts : List Text) (path : Option Text) (parent : Option ℕ) (b : Build)
        → ((t : Text) (q : ℕ) → E t q → length (goal path parts) < length t)
        → IsLinked b
        → ((q : ℕ) → parent ≡ some q → Has q b.tree)
        → IsMade w b (make_dirs parts path parent b).0 (make_dirs parts path parent b).1
    unfolding make_dirs
    make_dirs-IsMade [] path parent b short l s = record { links = l; stands = s; weight = refl }
    make_dirs-IsMade (part ∷ parts) path parent b short l s =
        let p = extend path part in
        let shorter : (t : Text) (q : ℕ) → E t q → length (target p parts) < length t =
          goal-extend path part parts short in
        elim (Option-cases (lookup p b.node_map)) [
          | inr (q, e) ↦
              rw (e, make_dirs)
                (make_dirs-IsMade parts (some p) (some q) b shorter l (λ r f.
                  subst (λ i. Has i b.tree) (some-injective q r f)
                    (found p q b (λ r x. omega (arith, shorter p r x, length-target p parts)) l e)))
          | inl e ↦
              let x = new_dir part p in
              let g = push_under_lem b.next x parent b.tree (Parent-Has parent b s) in
              let c : Build = record {
                tree = push_under parent b.next x b.tree;
                node_map = insert p b.next b.node_map;
                next = suc b.next;
              } in
              let m =
                make_dirs-IsMade parts (some p) (some b.next) c shorter
                  (IsLinked-push parent p x b (Parent-Has parent b s) l)
                  (λ r f. subst (λ i. Has i c.tree) (some-injective b.next r f) g.1) in
              rw (e, make_dirs)
                (record {
                  links = m.links;
                  stands = m.stands;
                  weight = m.weight ∙ omega (arith, g.2 w, light part p);
                })
        ]

    make_dirs-some :
        (parts : List Text) (path : Option Text) (q : ℕ) (b : Build)
        → (make_dirs parts path (some q) b).1 ≢ none
    unfolding make_dirs
    make_dirs-some [] path q b = ground arith
    make_dirs-some (part ∷ parts) path q b =
        elim (Option-cases (lookup (extend path part) b.node_map)) [
          | inr (r, e) ↦ rw (e, make_dirs) (make_dirs-some parts (some (extend path part)) r b)
          | inl e ↦ rw (e, make_dirs) (make_dirs-some parts (some (extend path part)) b.next _)
        ]

    make_dirs-some_first :
        (part : Text) (parts : List Text) (path : Option Text) (parent : Option ℕ) (b : Build)
        → (make_dirs (part ∷ parts) path parent b).1 ≢ none
    unfolding make_dirs
    make_dirs-some_first part parts path parent b =
        elim (Option-cases (lookup (extend path part) b.node_map)) [
          | inr (r, e) ↦ rw (e, make_dirs) (make_dirs-some parts (some (extend path part)) r b)
          | inl e ↦ rw (e, make_dirs) (make_dirs-some parts (some (extend path part)) b.next _)
        ]

    find_parent-IsMade :
        (a : Text) (d : Text) (parts : List Text) (b : Build)
        → ((t : Text) (q : ℕ) → E t q → t ≡ join (a ∷ d ∷ parts))
        → IsLinked b
        → IsMade w b (find_parent (a ∷ d ∷ parts) b).0 (find_parent (a ∷ d ∷ parts) b).1
          × ((find_parent (a ∷ d ∷ parts) b).1 ≢ none)
    unfolding find_parent parents
    find_parent-IsMade a d parts b x l =
        let ps = parents (d ∷ parts) in
        let t = join (a ∷ ps) in
        let less = join-parents a d parts in
        elim (Option-cases (lookup t b.node_map)) [
          | inr (q, e) ↦
              let h = found t q b (λ r y. omega (arith, less, ap length (x t r y))) l e in
              rw (e, find_parent)
                (
                  record {
                    links = l;
                    stands = λ r f. subst (λ i. Has i b.tree) (some-injective q r f) h;
                    weight = refl;
                  },
                  λ f. ground (arith, f),
                )
          | inl e ↦
              rw (e, find_parent)
                (
                  make_dirs-IsMade (a ∷ ps) none none b
                      (λ u q y.
                        omega (arith, less, ap length (x u q y), ap length (target-join a ps)))
                      l (λ q f. ground (arith, f)),
                  make_dirs-some_first a ps none none b,
                )
        ]

-- what the files of a list weigh together
abbrev pub entries_weigh : (FileNode → ℕ) → ℕ → List FileEntry → ℕ
entries_weigh w index [] = 0
entries_weigh w index (e ∷ es) = w (new_file index e) + entries_weigh w (suc index) es

module _ (w : FileNode → ℕ) (light : (name path : Text) → w (new_dir name path) ≡ 0) where
  abbrev None : Text → ℕ → Type 0
  None t q = ⊥

  -- An entry's own object waits for its directory.
  abbrev Waits : Text → ℕ → Text → ℕ → Type 0
  Waits full r t q = (t ≡ full) × (q ≡ r)

  waiting-IsLinked :
      (full : Text) (b : Build)
      → IsLinked None b
      → IsLinked
          (Waits full b.next)
          (record b { node_map = insert full b.next b.node_map; next = suc b.next })
  unfolding IsLinked
  waiting-IsLinked full b l t q e = ground (
    arith,
    e,
    l t q,
    lookup-insert full t b.next b.node_map,
    (list_eq ⦃e = nat_eq⦄).beq_iff full t,
  )

  -- what an entry does to the objects that a build holds
  abbrev Adds : ℕ → FileEntry → Build → Type 0
  Adds index e b =
      IsLinked None (add_entry index e b)
      × (weigh w (add_entry index e b).tree ≡ weigh w b.tree + w (new_file index e))

  add_deep :
      (index : ℕ) (a d : Text) (parts : List Text) (size : ℕ) (priority : String) (b : Build)
      → IsLinked None b
      → Adds index (record { path = a ∷ d ∷ parts; size = size; priority = priority }) b
  unfolding add_entry IsLinked
  add_deep index a d parts size priority b l =
      let e : FileEntry = record { path = a ∷ d ∷ parts; size = size; priority = priority } in
      let r = b.next in
      let full = join e.path in
      let x = new_file index e in
      let c : Build = record b { node_map = insert full r b.node_map; next = suc r } in
      let m =
        find_parent-IsMade (Waits full r) w light a d parts c (λ t q y. y.0)
          (waiting-IsLinked full b l) in
      let more : ltb 1 (length e.path) ≡ true = ground arith in
      elim (Option-cases (find_parent e.path c).1) [
        | inl f ↦ elim (m.1 f) [ ]
        | inr (p, f) ↦
            let g = push_under_lem r x (some p) (find_parent e.path c).0.tree (m.0.stands p f) in
            rw (more, f, add_entry)
              (
                λ t q u. elim (m.0.links t q u) [
                  | inl y ↦ inr (
                      subst (λ i. Has i (push_under (some p) r x (find_parent e.path c).0.tree))
                        (sym y.1) g.1)
                  | inr h ↦ inr (g.0 q h)
                ],
                omega (arith, g.2 w, m.0.weight),
              )
      ]

  add_entry-Adds :
      (index : ℕ) (path : List Text) (size : ℕ) (priority : String) (b : Build)
      → IsLinked None b
      → Adds index (record { path = path; size = size; priority = priority }) b
  unfolding add_entry
  add_entry-Adds index [] size priority b l =
      let x = new_file index (record { path = []; size = size; priority = priority }) in
      (IsLinked-push None none [] x b tt l, (push_under_lem b.next x none b.tree tt).2 w)
  add_entry-Adds index (a ∷ []) size priority b l =
      let x = new_file index (record { path = a ∷ []; size = size; priority = priority }) in
      (IsLinked-push None none a x b tt l, (push_under_lem b.next x none b.tree tt).2 w)
  add_entry-Adds index (a ∷ d ∷ parts) size priority b l =
      add_deep index a d parts size priority b l

  add_entries-weigh :
      (index : ℕ) (es : List FileEntry) (b : Build)
      → IsLinked None b
      → weigh w (add_entries index es b).tree ≡ weigh w b.tree + entries_weigh w index es
  unfolding add_entries
  add_entries-weigh index [] b l = omega arith
  add_entries-weigh index (e ∷ es) b l =
      let a = add_entry-Adds index e.path e.size e.priority b l in
      omega (arith, a.1, add_entries-weigh (suc index) es (add_entry index e b) a.0)

  -- Every file of the flat list stands in the tree exactly once, whatever the paths: for each weight of
  -- nodes that gives directories nothing, the tree weighs what the files weigh.
  pub build_file_tree-weigh :
      (es : List FileEntry) → weigh w (build_file_tree es) ≡ entries_weigh w 0 es
  unfolding build_file_tree weigh lookup IsLinked
  build_file_tree-weigh es =
      let b : Build = record { tree = empty; node_map = []; next = 0 } in
      omega (arith, add_entries-weigh 0 es b (λ t q e. ground (arith, e)))
