-- ===== src/FileTree/Confirm.antt =====
-- handleConfirm of components/FileSelectionDialog.tsx (ui/desktop/src/renderer): every file of the tree
-- is set to "skip", then the selected ones to "download". The daemon's priorities are a map from paths;
-- whether a request succeeds is an argument, and one that fails changes nothing.
use orc_torrent.Prelude.{
  ℕ, suc, ◌≡◌, ◌≢◌, ◌⊎◌, inl, inr, refl, arith, Bool, true, false, not, ◌&&◌, ◌||◌, ◌↔◌, ◌<◌, some,
  List, [], ◌∷◌, ◌++◌, length, ltb, ◌==◌, if◌then◌else◌, Bool-cases, Option-cases,
}
use mathlib.Core.Path.{subst}
use orc_torrent.Prelude.Assoc.{list_eq, nat_eq, lookup, insert, lookup-insert}
use orc_torrent.FileTree.{Text, FileNode, Forest, empty, node}
use orc_torrent.FileTree.Select.{
  Selections, collect, is_selected, split_path, collect_all, collect_selected,
}

pub data Priority : Type 0 where
  skip download : Priority

abbrev pub Priorities : Type 0
Priorities = List (List Text × Priority)

-- the requests of one phase, with the number that succeed
unfoldable pub set_all :
    (List Text → Bool) → Priority → List (List Text) → Priorities → Priorities × ℕ
set_all ok p [] s = (s, 0)
set_all ok p (path ∷ paths) s =
    let (t, n) = set_all ok p paths (if ok path then insert path p s else s) in
    (t, if ok path then suc n else n)

pub record Dialog : Type 0 where
  pub has_torrent : Bool
  pub busy : Bool
  pub files : Forest
  pub selections : Selections

pub data Ending : Type 0 where
  ignored cancelled failed : Ending
  confirmed : List (List Text) → Ending

-- What `handleConfirm` ends with, and the priorities it leaves; `proceed` is the answer to the question
-- that is asked where there are no files.
unfoldable pub confirm :
    (List Text → Bool) → (List Text → Bool) → Bool → Dialog → Priorities → Ending × Priorities
unfolding set_all
confirm skip_ok download_ok proceed d s =
    let chosen = collect_selected d.selections d.files in
    let (t, m) = set_all skip_ok skip (collect_all d.files) s in
    let (u, n) = set_all download_ok download chosen t in
    if not d.has_torrent || d.busy then (ignored, s) else elim d.files [
      | empty ↦ if proceed then (confirmed chosen, s) else (cancelled, s)
      | node r x children rest ↦
          if n == 0 && ltb 0 (length chosen) then (failed, u) else (confirmed chosen, u)
    ]

-- The path stands in the list.
abbrev pub Among : List Text → List (List Text) → Type 0
Among path [] = ⊥
Among path (p ∷ ps) = (p ≡ path) ⊎ Among path ps

module _ (ok : List Text → Bool) (p : Priority) (path : List Text) where
  -- A phase sets the paths whose requests succeed, and no other.
  set_all-lookup :
      (paths : List (List Text)) (s : Priorities)
      → (Among path paths × (ok path ≡ true) × (lookup path (set_all ok p paths s).0 ≡ some p))
        ⊎ ((Among path paths → ok path ≡ false)
            × (lookup path (set_all ok p paths s).0 ≡ lookup path s))
  unfolding set_all
  set_all-lookup [] s = inr (λ h. elim h [ ], refl)
  set_all-lookup (q ∷ paths) s =
      let key = (list_eq ⦃e = list_eq ⦃e = nat_eq⦄⦄).beq_iff q path in
      elim (Bool-cases (ok q)) [
        | inl b ↦
            let k = lookup-insert q path p s in
            let same : q ≡ path → ok path ≡ true = λ e. subst (λ r. ok r ≡ true) e b in
            rw (b, set_all) (ground (arith, b, same, k, key, set_all-lookup paths (insert q p s)))
        | inr b ↦
            let same : q ≡ path → ok path ≡ false = λ e. subst (λ r. ok r ≡ false) e b in
            rw (b, set_all) (ground (arith, b, same, set_all-lookup paths s))
      ]

-- every request succeeds
abbrev pub all_ok : List Text → Bool
all_ok path = true

set_all-count :
    (p : Priority) (paths : List (List Text)) (s : Priorities)
    → (set_all all_ok p paths s).1 ≡ length paths
unfolding set_all
set_all-count p [] s = refl
set_all-count p (q ∷ paths) s = omega (arith, set_all-count p paths (insert q p s))

-- the priorities behind both phases
phases : Dialog → Priorities → Priorities
phases d s =
    (set_all all_ok download (collect_selected d.selections d.files)
      (set_all all_ok skip (collect_all d.files) s).0).0

confirm-at :
    (proceed has busy : Bool) (files : Forest) (m : Selections) (s : Priorities)
    → has ≡ true
    → busy ≡ false
    → files ≢ empty
    → let d : Dialog = record { has_torrent = has; busy = busy; files = files; selections = m } in
      confirm all_ok all_ok proceed d s ≡ (confirmed (collect_selected m files), phases d s)
unfolding confirm phases
confirm-at proceed false busy files m s t b f = cc
confirm-at proceed true true files m s t b f = cc
confirm-at proceed true false empty m s t b f = elim (f refl) [ ]
confirm-at proceed true false (node r x children rest) m s t b f =
    let files = node r x children rest in
    let chosen = collect_selected m files in
    let n = set_all-count download chosen (set_all all_ok skip (collect_all files) s).0 in
    ground (arith, n)

-- A file that has a size and passes a test stands in the tree at the path.
abbrev pub At : (FileNode → Type 0) → List Text → Forest → Type 0
At P path empty = ⊥
At P path (node r x children rest) =
    ((0 < x.size) × P x × (split_path x.path ≡ path)) ⊎ (At P path children ⊎ At P path rest)

abbrev pub IsAny : FileNode → Type 0
IsAny x = Unit

-- selected, as every file is by default
abbrev pub IsChosen : Selections → FileNode → Type 0
IsChosen m x = lookup x.path m ≢ some false

Among-append :
    (path : List Text) (ps qs : List (List Text))
    → Among path (ps ++ qs) ↔ (Among path ps ⊎ Among path qs)
Among-append path [] qs = ground arith
Among-append path (p ∷ ps) qs = ground (arith, Among-append path ps qs)

module _ (passes : FileNode → Bool) (P : FileNode → Type 0)
    (agree : (x : FileNode) → (passes x ≡ true) ↔ P x) (path : List Text) where
  collect-At : (f : Forest) → Among path (collect passes f) ↔ At P path f
  unfolding collect
  collect-At empty = ground arith
  collect-At (node r x children rest) = ground (
    arith,
    agree x,
    Bool-cases (passes x),
    Among-append path (collect passes children) (collect passes rest),
    collect-At children,
    collect-At rest,
  )

is_selected_iff : (m : Selections) (x : FileNode) → (is_selected m x ≡ true) ↔ IsChosen m x
unfolding is_selected
is_selected_iff m x = elim (Option-cases (lookup x.path m)) [
  | inl e ↦ rw (e, is_selected) (ground arith)
  | inr (b, e) ↦ rw (e, is_selected) (ground (arith, Bool-cases b))
]

collect_selected-At :
    (m : Selections) (path : List Text) (f : Forest)
    → Among path (collect_selected m f) ↔ At (IsChosen m) path f
unfolding collect_selected
collect_selected-At m path f = collect-At (is_selected m) (IsChosen m) (is_selected_iff m) path f

collect_all-At : (path : List Text) (f : Forest) → Among path (collect_all f) ↔ At IsAny path f
unfolding collect_all
collect_all-At path f = collect-At (λ x. true) IsAny (λ x. ground arith) path f

-- The dialog is confirmed with files, and every request succeeds; a file with no size counts as none. Then
-- the paths that are handed on are those of the files that are selected, as each is by default, such a path
-- is downloaded, the path of any other file of the tree is skipped, and every other path has the priority
-- that it had.
pub confirm-lookup :
    (proceed : Bool) (d : Dialog) (s : Priorities) (path : List Text)
    → d.has_torrent ≡ true
    → d.busy ≡ false
    → d.files ≢ empty
    → (let t = (confirm all_ok all_ok proceed d s).1 in
        (c : List (List Text)) × ((confirm all_ok all_ok proceed d s).0 ≡ confirmed c)
        × (Among path c ↔ At (IsChosen d.selections) path d.files)
        × ((At (IsChosen d.selections) path d.files × (lookup path t ≡ some download))
            ⊎ ((¬ At (IsChosen d.selections) path d.files)
                × ((At IsAny path d.files × (lookup path t ≡ some skip))
                    ⊎ ((¬ At IsAny path d.files) × (lookup path t ≡ lookup path s))))))
unfolding phases
confirm-lookup proceed d s path t b f =
    let c = collect_selected d.selections d.files in
    let t1 = (set_all all_ok skip (collect_all d.files) s).0 in
    let chosen = collect_selected-At d.selections path d.files in
    rw (confirm-at proceed d.has_torrent d.busy d.files d.selections s t b f) (
      c,
      refl,
      chosen,
      ground (
        arith,
        chosen,
        collect_all-At path d.files,
        set_all-lookup all_ok skip path (collect_all d.files) s,
        set_all-lookup all_ok download path c t1,
      ),
    )
