-- ===== src/FileTree/Paths.antt =====
-- Paths of components/FileSelectionDialog.tsx (ui/desktop/src/renderer): `path.join("/")`, and the split
-- that the requests to the daemon are made with.
use orc_torrent.Prelude.{
  ◌<◌, ◌≡◌, ◌≢◌, refl, sym, ap, ◌∙◌, arith, false, List, [], ◌∷◌, ◌++◌, length, All, length-append,
  append-nil, append_assoc, ◌==◌,
}
use orc_torrent.FileTree.{Text, slash, join, parents}
use orc_torrent.FileTree.Select.{split_parts, split_path}

-- A part of a path is not empty and has no slash.
abbrev pub IsPart : Text → Type 0
IsPart part = (part ≢ []) × All (λ c. c ≢ slash) part

split_parts-run :
    (part run rest : Text)
    → All (λ c. c ≢ slash) run
    → split_parts part (run ++ rest) ≡ split_parts (part ++ run) rest
unfolding split_parts
split_parts-run part [] rest h = ap (λ p. split_parts p rest) (sym (append-nil part))
split_parts-run part (c ∷ run) rest h =
    let q : (c == slash) ≡ false = ground (arith, h.0) in
    rw q (
      split_parts-run (part ++ c ∷ []) run rest h.1
      ∙ ap (λ p. split_parts p rest) (append_assoc part (c ∷ []) run))

split_parts-last : (part : Text) → part ≢ [] → split_parts part [] ≡ part ∷ []
unfolding split_parts
split_parts-last [] h = ground (arith, h)
split_parts-last (c ∷ part) h = refl

split_parts-slash :
    (part rest : Text) → part ≢ [] → split_parts part (slash ∷ rest) ≡ part ∷ split_parts [] rest
unfolding split_parts
split_parts-slash [] rest h = ground (arith, h)
split_parts-slash (c ∷ part) rest h = refl

-- Splitting a path at its slashes gives back the parts that were joined, where none of them is empty or
-- has a slash.
pub split_path-join : (parts : List Text) → All IsPart parts → split_path (join parts) ≡ parts
unfolding split_path join
split_path-join [] h = refl
split_path-join (part ∷ []) h =
    ap (λ p. split_parts [] p) (sym (append-nil part))
    ∙ split_parts-run [] part [] h.0.1
    ∙ split_parts-last part h.0.0
split_path-join (part ∷ next ∷ parts) h =
    split_parts-run [] part (slash ∷ join (next ∷ parts)) h.0.1
    ∙ split_parts-slash part (join (next ∷ parts)) h.0.0
    ∙ ap (λ l. part ∷ l) (split_path-join (next ∷ parts) h.1)

-- A path is longer than what its file's directory is called.
pub join-parents :
    (a b : Text) (parts : List Text)
    → length (join (parents (a ∷ b ∷ parts))) < length (join (a ∷ b ∷ parts))
unfolding join parents
join-parents a b [] = omega (arith, length-append a (slash ∷ b))
join-parents a b (c ∷ parts) =
    let t = join (b ∷ parents (c ∷ parts)) in
    let u = join (b ∷ c ∷ parts) in
    omega (arith, join-parents b c parts, length-append a (slash ∷ t), length-append a (slash ∷ u))
