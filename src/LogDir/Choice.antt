-- ===== src/LogDir/Choice.antt =====
-- Which directory the daemon's log goes to (ui/desktop/src/main/main.ts).
use orc_torrent.Prelude.{
  ◌≡◌, ◌⊎◌, ◌↔◌, refl, ap, arith, Bool, true, false, Option, none, some, List, [], ◌∷◌, ◌++◌, All,
  inl, inr,
}
use orc_torrent.Prelude.Codes.{Text, codes}
use orc_torrent.LogDir.{
  Disk, Code, Problem, then_access, check_directory_permissions, first_writable, LogPath, Places,
  candidates, log_path_in, find_writable_log_directory,
}

-- a directory that is there or can be made, can be accessed, and takes a file
abbrev pub IsWritable : Disk → Text → Type 0
IsWritable d p =
    ((d.exists p ≡ true) ⊎ (d.make p ≡ none)) × (d.access p ≡ none) × (d.write_test p ≡ none)

then_access-none : (a w : Option Code) → (then_access a w ≡ none) ↔ ((a ≡ none) × (w ≡ none))
then_access-none a w = ground arith

check_directory_permissions-IsWritable :
    (d : Disk) (p : Text) → (check_directory_permissions d p ≡ none) ↔ IsWritable d p
unfolding check_directory_permissions
check_directory_permissions-IsWritable d p = ground arith

-- The place of the log: in the first candidate that is writable, or in none where no candidate is.
abbrev pub Chosen : Disk → Places → List Text → LogPath → Type 0
Chosen d w dirs r =
    ((before : List Text) × (p : Text) × (after : List Text) × (dirs ≡ before ++ (p ∷ after))
      × All (λ q. ¬ IsWritable d q) before
      × IsWritable d p
      × (r ≡ record { path = w.join p (codes "daemon.log"); unverified = false }))
    ⊎ (All (λ q. ¬ IsWritable d q) dirs
        × (r ≡ record { path = w.join w.temp (codes "orc-daemon.log"); unverified = true }))

refused : (o : Option Problem) (e : Problem) → o ≡ some e → o ≡ none → ⊥
refused o e h k = ground (arith, h, k)

module _ (d : Disk) (w : Places) where
  skip-Chosen :
      (p : Text) (dirs : List Text) (r : LogPath)
      → ¬ IsWritable d p
      → Chosen d w dirs r
      → Chosen d w (p ∷ dirs) r
  skip-Chosen p dirs r h (inr (a, e)) = inr ((h, a), e)
  skip-Chosen p dirs r h (inl (before, q, after, split, a, i, e)) =
      inl (p ∷ before, q, after, ap (λ l. p ∷ l) split, (h, a), i, e)

  found-Chosen :
      (p : Text) (dirs : List Text) (o : Option Problem) (rest : Option Text)
      → check_directory_permissions d p ≡ o
      → Chosen d w dirs (log_path_in w rest)
      → Chosen d w (p ∷ dirs) (log_path_in w (elim o [ none ↦ some p | some e ↦ rest ]))
  found-Chosen p dirs none rest h c =
      inl ([], p, dirs, refl, tt, (check_directory_permissions-IsWritable d p).0 h, refl)
  found-Chosen p dirs (some e) rest h c =
      skip-Chosen p dirs (log_path_in w rest)
        (λ i.
          refused (check_directory_permissions d p) e h
            ((check_directory_permissions-IsWritable d p).1 i))
        c

  first_writable-Chosen :
      (dirs : List Text) → Chosen d w dirs (log_path_in w (first_writable d dirs))
  unfolding first_writable
  first_writable-Chosen [] = inr (tt, refl)
  first_writable-Chosen (p ∷ dirs) =
      found-Chosen p dirs (check_directory_permissions d p) (first_writable d dirs) refl
        (first_writable-Chosen dirs)

  -- There always is a place for the log: in the first candidate that is there or can be made, can be accessed and takes
  -- a file, and where no candidate is like that, in the directory for temporary files, marked as not verified.
  pub find_writable_log_directory-Chosen :
      (is_dev : Bool) → Chosen d w (candidates is_dev w) (find_writable_log_directory d is_dev w)
  unfolding find_writable_log_directory
  find_writable_log_directory-Chosen is_dev = first_writable-Chosen (candidates is_dev w)
