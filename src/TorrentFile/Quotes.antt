-- ===== src/TorrentFile/Quotes.antt =====
-- Quoted paths of torrent files (ui/desktop/src/main/main.ts): the test for the ending comes before the quotes
-- are taken off.
use orc_torrent.Prelude.{ℕ, ◌≡◌, ◌≢◌, refl, arith, Bool, false, Option, [], ◌∷◌, ◌++◌, ==_iff, All}
use orc_torrent.Prelude.Assoc.{list_eq, nat_eq, same_list}
use orc_torrent.Prelude.Codes.{Text, codes, ends_with}
use orc_torrent.TorrentFile.{Found, Desk, handle_torrent_file}

same_list-last :
    (q : ℕ) (p xs : Text) → All (λ c. c ≢ q) p → same_list ⦃e = nat_eq⦄ p (xs ++ (q ∷ [])) ≡ false
unfolding same_list
same_list-last q [] [] h = refl
same_list-last q [] (x ∷ xs) h = refl
same_list-last q (c ∷ []) [] h = ground (arith, h.0, ==_iff c q)
same_list-last q (c ∷ d ∷ p) [] h = ground (arith, h.0, ==_iff c q)
same_list-last q (c ∷ p) (x ∷ xs) h = ground (arith, same_list-last q p xs h.1)

ends_with-last :
    (q c : ℕ) (p xs : Text) → All (λ d. d ≢ q) (c ∷ p) → ends_with (c ∷ p) (xs ++ (q ∷ [])) ≡ false
unfolding ends_with list_eq same_list
ends_with-last q c p [] h = ground (arith, same_list-last q (c ∷ p) [] h)
ends_with-last q c p (x ∷ xs) h =
    ground (arith, same_list-last q (c ∷ p) (x ∷ xs) h, ends_with-last q c p xs h)

-- A path that ends with a quote, as a path in quotes does, is not opened: the ending is looked for before the
-- quotes are taken off. Lower case is taken to leave the quote at the end.
pub quoted_path_ignored :
    (lower : Text → Text) (sep : ℕ) (resolve : Text → Option Text) (found : Text → Found)
    (works : Bool) (path : Text) (s : Desk)
    → lower (path ++ (0x22 ∷ [])) ≡ lower path ++ (0x22 ∷ [])
    → handle_torrent_file lower sep resolve found works (path ++ (0x22 ∷ [])) s ≡ s
unfolding handle_torrent_file
quoted_path_ignored lower sep resolve found works path s h =
    let differ : All (λ c. c ≢ 0x22) (codes ".torrent") = ground arith in
    rw (h, ends_with-last 0x22 b'.' (codes "torrent") (lower path) differ) refl
