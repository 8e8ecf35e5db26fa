-- ===== src/Files/Loads.antt =====
-- The loading of the files' list (ui/desktop/src/renderer/components/inspector/FilesTab.tsx).
use orc_torrent.Prelude.{ℕ, zero, suc, ◌+◌, ◌≤◌, ◌≡◌, ◌⊎◌, refl, ap, arith, true, false, inl, inr}
use mathlib.Core.Path.{subst}
use orc_torrent.Files.{
  Nodes, Files, Loaded, tree, network_error, other_error, attempt_delay, Run, shows_tree,
  shows_error, last_answer, next_answer, load_files, load,
}

plus_zero : (n : ℕ) → n ≡ n + 0
plus_zero n = omega arith

plus_suc : (m n : ℕ) → suc m + n ≡ m + suc n
plus_suc m n = omega arith

-- the answers before an attempt, from an earlier one on
abbrev pub AllNetwork : ℕ → ℕ → (ℕ → Loaded) → Type 0
AllNetwork zero attempt answers = Unit
AllNetwork (suc n) attempt answers =
    (answers attempt ≡ network_error) × AllNetwork n (suc attempt) answers

-- an error that ends a load: another than one of the network, or the last attempt's
abbrev pub IsFinal : ℕ → ℕ → (ℕ → Loaded) → ℕ → Type 0
IsFinal left attempt answers n =
    (answers (attempt + n) ≡ other_error) ⊎ ((answers (attempt + n) ≡ network_error) × (n ≡ left))

-- How a load ends: with the tree of the first answer that is no error of the network, or with an error.
abbrev pub Ends : ℕ → ℕ → (ℕ → Loaded) → Files → Run → Type 0
Ends left attempt answers s r =
    (r.files.loading ≡ false)
    × (((n : ℕ) × (nodes : Nodes) × (r.fetches ≡ suc n)
          × AllNetwork n attempt answers
          × (answers (attempt + n) ≡ tree nodes)
          × (r.files.nodes ≡ nodes)
          × (r.files.has_error ≡ false)
          × (r.files.errors ≡ s.errors))
        ⊎ ((n : ℕ) × (r.fetches ≡ suc n)
            × AllNetwork n attempt answers
            × IsFinal left attempt answers n
            × (r.files.nodes ≡ s.nodes)
            × (r.files.has_error ≡ true)
            × (r.files.errors ≡ suc s.errors)))

-- the waits that may be left
abbrev pub most_wait : ℕ → ℕ → ℕ
most_wait zero attempt = 0
most_wait (suc left) attempt = attempt_delay attempt + most_wait left (suc attempt)

next-fetches :
    (x : Loaded) (wait : ℕ) (later : Run) (s : Files) (most longest : ℕ)
    → (later.fetches ≤ most) × (later.waited ≤ longest)
    → ((next_answer x wait later s).fetches ≤ suc most)
      × ((next_answer x wait later s).waited ≤ wait + longest)
next-fetches (tree nodes) wait later s most longest h = (omega arith, omega arith)
next-fetches network_error wait later s most longest h = (omega (arith, h.0), omega (arith, h.1))
next-fetches other_error wait later s most longest h = (omega arith, omega arith)

last-fetches :
    (x : Loaded) (s : Files) → ((last_answer x s).fetches ≤ 1) × ((last_answer x s).waited ≤ 0)
last-fetches (tree nodes) s = (omega arith, omega arith)
last-fetches network_error s = (omega arith, omega arith)
last-fetches other_error s = (omega arith, omega arith)

load_files-fetches :
    (left attempt : ℕ) (answers : ℕ → Loaded) (s : Files)
    → ((load_files left attempt answers s).fetches ≤ suc left)
      × ((load_files left attempt answers s).waited ≤ most_wait left attempt)
unfolding load_files
load_files-fetches zero attempt answers s = last-fetches (answers attempt) s
load_files-fetches (suc left) attempt answers s =
    next-fetches (answers attempt) (attempt_delay attempt) (load_files left (suc attempt) answers s)
      s (suc left) (most_wait left (suc attempt)) (load_files-fetches left (suc attempt) answers s)

-- The answers from an attempt on, where they are counted from the next one.
here : (answers : ℕ → Loaded) (x : Loaded) (k : ℕ) → answers k ≡ x → answers (k + 0) ≡ x
here answers x k e = subst (λ n. answers n ≡ x) (plus_zero k) e

shifted :
    (answers : ℕ → Loaded) (x : Loaded) (k n : ℕ)
    → answers (suc k + n) ≡ x
    → answers (k + suc n) ≡ x
shifted answers x k n e = subst (λ m. answers m ≡ x) (plus_suc k n) e

module _ (answers : ℕ → Loaded) (s : Files) where
  tree-Ends :
      (left attempt : ℕ) (nodes : Nodes)
      → answers attempt ≡ tree nodes
      → Ends left attempt answers s (shows_tree nodes s)
  tree-Ends left attempt nodes e =
      (refl, inl (0, nodes, refl, tt, here answers (tree nodes) attempt e, refl, refl, refl))

  error-Ends :
      (left attempt : ℕ)
      → IsFinal left attempt answers 0
      → Ends left attempt answers s (shows_error s)
  error-Ends left attempt f = (refl, inr (0, refl, tt, f, refl, refl, refl))

  last-Ends :
      (attempt : ℕ) (x : Loaded) → answers attempt ≡ x → Ends 0 attempt answers s (last_answer x s)
  last-Ends attempt (tree nodes) e = tree-Ends 0 attempt nodes e
  last-Ends attempt network_error e =
      error-Ends 0 attempt (inr (here answers network_error attempt e, refl))
  last-Ends attempt other_error e = error-Ends 0 attempt (inl (here answers other_error attempt e))

  shifted-IsFinal :
      (left attempt n : ℕ)
      → IsFinal left (suc attempt) answers n
      → IsFinal (suc left) attempt answers (suc n)
  shifted-IsFinal left attempt n (inl e) = inl (shifted answers other_error attempt n e)
  shifted-IsFinal left attempt n (inr (e, l)) =
      inr (shifted answers network_error attempt n e, ap suc l)

  later-Ends :
      (left attempt wait : ℕ) (later : Run)
      → answers attempt ≡ network_error
      → Ends left (suc attempt) answers s later
      → Ends (suc left) attempt answers s (next_answer network_error wait later s)
  later-Ends left attempt wait later e (l, inr (n, f, a, i, g, h, k)) =
      (l, inr (suc n, ap suc f, (e, a), shifted-IsFinal left attempt n i, g, h, k))
  later-Ends left attempt wait later e (l, inl (n, nodes, f, a, t, g, h, k)) =
      (l, inl (suc n, nodes, ap suc f, (e, a), shifted answers (tree nodes) attempt n t, g, h, k))

  next-Ends :
      (left attempt wait : ℕ) (later : Run) (x : Loaded)
      → answers attempt ≡ x
      → Ends left (suc attempt) answers s later
      → Ends (suc left) attempt answers s (next_answer x wait later s)
  next-Ends left attempt wait later (tree nodes) e h = tree-Ends (suc left) attempt nodes e
  next-Ends left attempt wait later network_error e h = later-Ends left attempt wait later e h
  next-Ends left attempt wait later other_error e h =
      error-Ends (suc left) attempt (inl (here answers other_error attempt e))

  load_files-Ends :
      (left attempt : ℕ) → Ends left attempt answers s (load_files left attempt answers s)
  unfolding load_files
  load_files-Ends zero attempt = last-Ends attempt (answers attempt) refl
  load_files-Ends (suc left) attempt =
      next-Ends left attempt (attempt_delay attempt) (load_files left (suc attempt) answers s)
        (answers attempt) refl (load_files-Ends left (suc attempt))

-- A load that nothing cancels calls `fetchTorrentContent` at most four times, with at most seven seconds of waits of
-- its own between these calls, each of which retries and waits by itself, and then loads no more: it shows the tree
-- of the first answer, with files or without, where only errors of the network came before it, or an error over the
-- tree that was there, reported once, where the first other answer or the fourth is an error.
pub load-Ends :
    (answers : ℕ → Loaded) (s : Files)
    → (let r = load answers s in (r.fetches ≤ 4) × (r.waited ≤ 7000) × Ends 3 0 answers s r)
unfolding load
load-Ends answers s =
    let t = record s { loading = true; has_error = false } in
    let b = load_files-fetches 3 0 answers t in (b.0, b.1, load_files-Ends answers t 3 0)
