-- ===== src/InfoHash/Walk.antt =====
-- The loop of infoHashFromTorrentBytes as a whole: the fuel always suffices, and a turn at a time
-- is a run of the walk.
use orc_torrent.Prelude.{
  ℕ, zero, suc, ◌+◌, ◌-◌, ◌*◌, ◌≤◌, ◌<◌, ◌≡◌, ◌≢◌, refl, some, List, [], ◌∷◌, arith, length,
  Option-cases, inl, inr,
}
use orc_torrent.InfoHash.{
  Scan, Turn, go_on, stop, dict_end, unclosed, out_of_fuel, digit_run, after_colon, bracket,
  string_head, turn, scan, walk,
}

length-digit_run : (len n : ℕ) (bs : List ℕ) → length (digit_run len n bs).2 ≤ length bs
unfolding digit_run
length-digit_run len n [] = omega arith
length-digit_run len n (b ∷ bs) =
    ground (arith, length-digit_run (len * 10 + (b - b'0')) (n + 1) bs)

length-after_colon : (bs after : List ℕ) → after_colon bs ≡ some after → length after < length bs
unfolding after_colon
length-after_colon [] after h = cc
length-after_colon (b ∷ bs) after h = ground arith

-- the bytes that a turn leaves for the next one
abbrev left : Turn → ℕ
left (go_on s j rest) = length rest
left (stop e) = 0

left-bracket : (s : Scan) (i b : ℕ) (bs : List ℕ) → left (bracket s i b bs) ≤ length bs
unfolding bracket
left-bracket s i b bs = ground arith

left-string_head : (s : Scan) (i b : ℕ) (bs : List ℕ) → left (string_head s i b bs) ≤ length bs
unfolding string_head
left-string_head s i b bs = elim (Option-cases (after_colon (digit_run 0 0 (b ∷ bs)).2)) [
  | inl e ↦ rw (e, string_head) (left-bracket s i b bs)
  | inr (after, e) ↦
      rw (e, string_head)
        (omega (arith, length-after_colon _ after e, length-digit_run 0 0 (b ∷ bs)))
]

left-turn : (s : Scan) (i b : ℕ) (bs : List ℕ) → left (turn s i b bs) ≤ length bs
unfolding turn
left-turn s i b bs = ground (arith, left-string_head s i b bs, left-bracket s i b bs)

-- Beyond the number of bytes left, more fuel makes no difference.
scan_fuel :
    (f g : ℕ) (s : Scan) (i : ℕ) (bs : List ℕ)
    → length bs < f
    → length bs < g
    → scan f s i bs ≡ scan g s i bs
unfolding scan
scan_fuel zero g s i bs h k = absurd (omega arith)
scan_fuel (suc f) zero s i bs h k = absurd (omega arith)
scan_fuel (suc f) (suc g) s i [] h k = refl
scan_fuel (suc f) (suc g) s i (b ∷ bs) h k =
    (elim (turn s i b bs)
        as (λ t.
          left t ≤ length bs
          → elim t [ go_on s' j rest ↦ scan f s' j rest | stop e ↦ dict_end e ]
            ≡ elim t [ go_on s' j rest ↦ scan g s' j rest | stop e ↦ dict_end e ]) [
              | go_on s' j rest ↦ λ l. scan_fuel f g s' j rest (omega arith) (omega arith)
              | stop e ↦ λ l. refl
            ])
      (left-turn s i b bs)

-- The walk always ends with an answer.
scan-ne-out_of_fuel :
    (f : ℕ) (s : Scan) (i : ℕ) (bs : List ℕ) → length bs < f → scan f s i bs ≢ out_of_fuel
unfolding scan
scan-ne-out_of_fuel zero s i bs h = absurd (omega arith)
scan-ne-out_of_fuel (suc f) s i [] h = cc
scan-ne-out_of_fuel (suc f) s i (b ∷ bs) h =
    (elim (turn s i b bs)
        as (λ t.
          left t ≤ length bs
          → elim t [ go_on s' j rest ↦ scan f s' j rest | stop e ↦ dict_end e ] ≢ out_of_fuel) [
            | go_on s' j rest ↦ λ l. scan-ne-out_of_fuel f s' j rest (omega arith)
            | stop e ↦ λ l. cc
          ])
      (left-turn s i b bs)

-- Whatever the bytes, the fuel of `walk` suffices.
pub walk-ne-out_of_fuel : (s : Scan) (i : ℕ) (bs : List ℕ) → walk s i bs ≢ out_of_fuel
unfolding walk
walk-ne-out_of_fuel s i bs = scan-ne-out_of_fuel (suc (length bs)) s i bs (omega arith)

pub walk-nil : (s : Scan) (i : ℕ) → walk s i [] ≡ unclosed
unfolding walk scan
walk-nil s i = refl

-- a turn that goes on is a step of the walk
pub walk-go_on :
    (s : Scan) (i b : ℕ) (bs : List ℕ) (s' : Scan) (j : ℕ) (rest : List ℕ)
    → turn s i b bs ≡ go_on s' j rest
    → walk s i (b ∷ bs) ≡ walk s' j rest
unfolding walk
walk-go_on s i b bs s' j rest e =
    let fits : length rest ≤ length bs = rw e at (left-turn s i b bs) in
    unfold scan in
    rw (e, scan)
      (scan_fuel (suc (length bs)) (suc (length rest)) s' j rest (omega arith) (omega arith))

pub walk-stop :
    (s : Scan) (i b : ℕ) (bs : List ℕ) (e : ℕ)
    → turn s i b bs ≡ stop e
    → walk s i (b ∷ bs) ≡ dict_end e
unfolding walk scan
walk-stop s i b bs e h = rw (h, scan)
