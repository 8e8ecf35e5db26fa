-- ===== src/Adding/Posted.antt =====
-- Which torrent files are uploaded (components/AddTorrent.tsx of ui/desktop/src/renderer).
use orc_torrent.Prelude.{
  ℕ, ◌≡◌, ◌⊎◌, inl, inr, refl, arith, Bool-cases, Option-cases, Bool, true, false, not, ◌&&◌, ◌||◌,
  Option, none, some, List, [], ◌∷◌, ltb, if◌then◌else◌,
}
use mathlib.Core.Path.{subst}
use orc_torrent.Prelude.Assoc.{list_eq, nat_eq}
use orc_torrent.Prelude.Codes.{ends_with, Text, codes}
use orc_torrent.InfoHash.{info_hash_from_torrent_bytes}
use orc_torrent.Adding.{
  Reading, got, failed, Torrent, Outcome, existing, File, Answers, max_file_size, same_hash,
  find_existing, is_duplicate, shown_error, recover, search_again, upload, after_read, check_hash,
  handle_file_change, after_post,
}
use orc_torrent.Adding.Encoded.{binary_string-all}

-- the hash of what was read
abbrev pub hash_of_read : (List ℕ → List ℕ) → Reading (List ℕ) → Option Text
hash_of_read sha1 (failed m) = none
hash_of_read sha1 (got bytes) = info_hash_from_torrent_bytes sha1 bytes

module _ (lower : Text → Text) where
  -- Does a torrent of the list have the hash?
  abbrev pub lists_hash : Option Text → List Torrent → Bool
  lists_hash none items = false
  lists_hash (some h) [] = false
  lists_hash (some h) (t ∷ items) = same_hash lower h t.info_hash_hex || lists_hash (some h) items

  -- Does a torrent of the list have the id and the hash?
  abbrev pub is_entry : Text → Option Text → Reading (List Torrent) → Bool
  is_entry id none r = false
  is_entry id (some h) (failed m) = false
  is_entry id (some h) (got []) = false
  is_entry id (some h) (got (t ∷ items)) =
      (list_eq ⦃e = nat_eq⦄).beq t.id id && same_hash lower h t.info_hash_hex
      || is_entry id (some h) (got items)

  find_existing-some :
      (h id : Text) (items : List Torrent)
      → find_existing lower h items ≡ some id
      → (lists_hash (some h) items ≡ true) × (is_entry id (some h) (got items) ≡ true)
  unfolding find_existing
  find_existing-some h id [] e = cc
  find_existing-some h id (t ∷ items) e =
      ground (arith, e, (list_eq ⦃e = nat_eq⦄).beq_iff t.id id, find_existing-some h id items)

  module _ (btoa : List ℕ → Text) where
    -- what names a torrent of one of the two lists
    abbrev pub FromList : Option Text → Answers → Outcome → Type 0
    FromList hash d (existing id) =
        (is_entry id hash d.list ≡ true) ⊎ (is_entry id hash d.list_again ≡ true)
    FromList hash d _ = Unit

    shown_error-FromList :
        (hash : Option Text) (m : Text) (d : Answers) → FromList hash d (shown_error lower m)
    unfolding shown_error
    shown_error-FromList hash m d = ground arith

    search_again-FromList :
        (h m : Text) (d : Answers) (r : Reading (List Torrent))
        → d.list_again ≡ r
        → FromList (some h) d (search_again lower h m r)
    search_again-FromList h m d (failed n) e = shown_error-FromList (some h) m d
    search_again-FromList h m d (got items) e = elim (Option-cases (find_existing lower h items)) [
      | inl p ↦ rw p (shown_error-FromList (some h) m d)
      | inr (id, p) ↦ rw p (inr (rw e (find_existing-some h id items p).1))
    ]

    recover-FromList :
        (hash : Option Text) (m : Text) (d : Answers) → FromList hash d (recover lower hash m d)
    unfolding recover
    recover-FromList none m d = shown_error-FromList none m d
    recover-FromList (some h) m d = elim (Bool-cases (is_duplicate lower m)) [
      | inl e ↦ rw e (search_again-FromList h m d d.list_again refl)
      | inr e ↦ rw e (shown_error-FromList (some h) m d)
    ]

    after_post-FromList :
        (hash : Option Text) (d : Answers) (r : Reading (Option Text))
        → FromList hash d (after_post lower hash d r)
    after_post-FromList hash d (failed m) = recover-FromList hash m d
    after_post-FromList hash d (got none) = tt
    after_post-FromList hash d (got (some [])) = tt
    after_post-FromList hash d (got (some (c ∷ id))) = tt

    upload-FromList :
        (hash : Option Text) (d : Answers) (r : Reading (List ℕ))
        → FromList hash d (upload lower btoa hash d r).0
    upload-FromList hash d (failed m) = recover-FromList hash m d
    upload-FromList hash d (got bytes) =
        rw (binary_string-all bytes, upload) (after_post-FromList hash d d.post)

    -- over the two forms of the first answer
    listed-FromList :
        (h : Text) (d : Answers) (f : File) (r : Reading (List Torrent))
        → (let e = record d { list = r } in
            FromList (some h) e (check_hash lower btoa (some h) e f).0)
    unfolding check_hash
    listed-FromList h d f (failed m) = recover-FromList (some h) m (record d { list = failed m })
    listed-FromList h d f (got items) = elim (Option-cases (find_existing lower h items)) [
      | inl p ↦ rw p (upload-FromList (some h) (record d { list = got items }) f.read_again)
      | inr (id, p) ↦ rw p (inl (find_existing-some h id items p).1)
    ]

    check_hash-FromList :
        (hash : Option Text) (d : Answers) (f : File)
        → FromList hash d (check_hash lower btoa hash d f).0
    unfolding check_hash
    check_hash-FromList none d f = upload-FromList none d f.read_again
    check_hash-FromList (some h) d f = listed-FromList h d f d.list

    unless-FromList :
        (hash : Option Text) (d : Answers) (b : Bool) (x y : Outcome × Option Text)
        → FromList hash d x.0
        → FromList hash d y.0
        → FromList hash d (if b then x else y).0
    unless-FromList hash d true x y h k = h
    unless-FromList hash d false x y h k = k

    opened-FromList :
        (sha1 : List ℕ → List ℕ) (d : Answers) (f : File) (r : Reading (List ℕ))
        → FromList (hash_of_read sha1 r) d (after_read lower btoa sha1 d f r).0
    opened-FromList sha1 d f (failed m) = recover-FromList none m d
    opened-FromList sha1 d f (got bytes) =
        check_hash-FromList (info_hash_from_torrent_bytes sha1 bytes) d f

    handle_file_change-FromList :
        (sha1 : List ℕ → List ℕ) (loading : Bool) (d : Answers) (f : File)
        → FromList (hash_of_read sha1 f.read) d (handle_file_change lower btoa sha1 loading d f).0
    unfolding handle_file_change
    handle_file_change-FromList sha1 loading d f =
        let h = hash_of_read sha1 f.read in
        unless-FromList h d loading _ _ tt (
          unless-FromList h d (not (ends_with (codes ".torrent") f.name)) _ _ tt (
            unless-FromList h d (ltb max_file_size f.size) _ _ tt
              (opened-FromList sha1 d f f.read)))

    -- Whatever the answers are, a torrent that is shown as already added has the id that is shown and the
    -- hash of the file, letter case aside, in one of the two lists that the daemon gave.
    pub existing-is_entry :
        (sha1 : List ℕ → List ℕ) (loading : Bool) (d : Answers) (f : File) (id : Text)
        → (handle_file_change lower btoa sha1 loading d f).0 ≡ existing id
        → (is_entry id (hash_of_read sha1 f.read) d.list ≡ true)
          ⊎ (is_entry id (hash_of_read sha1 f.read) d.list_again ≡ true)
    existing-is_entry sha1 loading d f id e =
        subst (FromList (hash_of_read sha1 f.read) d) e
          (handle_file_change-FromList sha1 loading d f)
