-- ===== src/Adding.antt =====
-- Adding a torrent file in the client (ui/desktop/src/renderer): handleFileChange of
-- components/AddTorrent.tsx with fileToBase64 of utils/format.ts. Text is the list of its code units;
-- `toLowerCase`, `btoa` and SHA-1 are arguments, as are the answers of the daemon.
pub mod Encoded
pub mod Posted
mod Tests
use orc_torrent.Prelude.{
  ℕ, zero, suc, ◌+◌, ◌-◌, ◌*◌, Bool, true, false, not, ◌&&◌, ◌||◌, Option, none, some, List, [],
  ◌∷◌, ◌++◌, length, take, drop, ltb, if◌then◌else◌,
}
use orc_torrent.Prelude.Assoc.{list_eq, nat_eq}
use orc_torrent.Prelude.Codes.{Text, codes, includes, ends_with}
use orc_torrent.InfoHash.{info_hash_from_torrent_bytes}

abbrev pub chunk : ℕ
chunk = 0x8000

abbrev pub append_to : List ℕ → Option (List ℕ) → Option (List ℕ)
append_to xs none = none
append_to xs (some ys) = some (xs ++ ys)

-- The loop over the chunks, from a place on; `none` where the fuel does not last.
unfoldable pub binary_from : ℕ → ℕ → List ℕ → Option (List ℕ)
binary_from zero i bytes = if ltb i (length bytes) then none else some []
binary_from (suc f) i bytes =
    let rest = binary_from f (i + chunk) bytes in
    if ltb i (length bytes) then append_to (take chunk (drop i bytes)) rest else some []

unfoldable pub binary_string : List ℕ → Option (List ℕ)
unfolding binary_from
binary_string bytes = binary_from (length bytes) 0 bytes

-- an answer, or the message of what was thrown
pub data Reading (A : Type 0) : Type 0 where
  got : A → Reading A
  failed : Text → Reading A

pub record Torrent : Type 0 where
  pub id : Text
  pub info_hash_hex : Option Text

pub data Outcome : Type 0 where
  busy wrong_name too_large rejected upload_timed_out : Outcome
  existing added : Text → Outcome
  -- the message that is shown
  failure : Text → Outcome

pub record File : Type 0 where
  pub name : Text
  pub size : ℕ
  -- its two reads, for the hash and for the upload
  pub read : Reading (List ℕ)
  pub read_again : Reading (List ℕ)

-- the two answers to a request for the list, and the one to the upload
pub record Answers : Type 0 where
  pub list : Reading (List Torrent)
  pub post : Reading (Option Text)
  pub list_again : Reading (List Torrent)

abbrev pub max_file_size : ℕ
max_file_size = 7 * 1024 * 1024

module _ (lower : Text → Text) where
  abbrev pub same_hash : Text → Option Text → Bool
  same_hash h none = false
  same_hash h (some hex) = (list_eq ⦃e = nat_eq⦄).beq (lower hex) (lower h)

  -- the id of the first torrent with the hash
  unfoldable pub find_existing : Text → List Torrent → Option Text
  find_existing h [] = none
  find_existing h (t ∷ items) =
      let rest = find_existing h items in if same_hash h t.info_hash_hex then some t.id else rest

  -- does the message tell of a duplicate?
  unfoldable pub is_duplicate : Text → Bool
  is_duplicate m =
      includes (codes "already exists") (lower m)
      || includes (codes "file exists") (lower m)
      || includes (codes "duplicate") (lower m)

  abbrev pub found_or : Outcome → Option Text → Outcome
  found_or o none = o
  found_or o (some id) = existing id

  unfoldable pub shown_error : Text → Outcome
  shown_error m =
      if includes (codes "timed out") m || includes (codes "timeout") m
      then upload_timed_out
      else failure m

  abbrev pub search_again : Text → Text → Reading (List Torrent) → Outcome
  search_again h m (failed _) = shown_error m
  search_again h m (got items) = found_or (shown_error m) (find_existing h items)

  -- what is done with an error
  unfoldable pub recover : Option Text → Text → Answers → Outcome
  unfolding is_duplicate find_existing shown_error
  recover none m d = shown_error m
  recover (some h) m d = if is_duplicate m then search_again h m d.list_again else shown_error m

  -- `res?.id`: no id and an empty one are alike
  abbrev pub accept_id : Option Text → Outcome
  accept_id none = rejected
  accept_id (some []) = rejected
  accept_id (some (c ∷ id)) = added (c ∷ id)

  abbrev pub after_post : Option Text → Answers → Reading (Option Text) → Outcome
  after_post hash d (failed m) = recover hash m d
  after_post hash d (got id) = accept_id id

  -- The upload: its outcome, and the text that is posted. The fuel of the loop lasts, so its `none` does
  -- not occur.
  abbrev pub upload :
      (List ℕ → Text) → Option Text → Answers → Reading (List ℕ) → Outcome × Option Text
  upload btoa hash d (failed m) = (recover hash m d, none)
  upload btoa hash d (got bytes) = elim (binary_string bytes) [
    | none ↦ (rejected, none)
    | some binary ↦ (after_post hash d d.post, some (btoa binary))
  ]

  abbrev pub unless_existing : Option Text → Outcome × Option Text → Outcome × Option Text
  unless_existing none r = r
  unless_existing (some id) r = (existing id, none)

  -- The search for the hash, which is not the empty text, and the upload where it is not there.
  unfoldable pub check_hash : (List ℕ → Text) → Option Text → Answers → File → Outcome × Option Text
  unfolding recover binary_string
  check_hash btoa none d f = upload btoa none d f.read_again
  check_hash btoa (some h) d f = elim d.list [
    | failed m ↦ (recover (some h) m d, none)
    | got items ↦ unless_existing (find_existing h items) (upload btoa (some h) d f.read_again)
  ]

  abbrev pub after_read :
      (List ℕ → Text)
      → (List ℕ → List ℕ)
      → Answers
      → File
      → Reading (List ℕ)
      → Outcome × Option Text
  after_read btoa sha1 d f (failed m) = (recover none m d, none)
  after_read btoa sha1 d f (got bytes) =
      check_hash btoa (info_hash_from_torrent_bytes sha1 bytes) d f

  unfoldable pub handle_file_change :
      (List ℕ → Text) → (List ℕ → List ℕ) → Bool → Answers → File → Outcome × Option Text
  unfolding check_hash ends_with
  handle_file_change btoa sha1 loading d f =
      if loading
      then (busy, none)
      else if not (ends_with (codes ".torrent") f.name)
      then (wrong_name, none)
      else if ltb max_file_size f.size
      then (too_large, none)
      else after_read btoa sha1 d f f.read
