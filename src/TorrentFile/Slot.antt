-- ===== src/TorrentFile/Slot.antt =====
-- The slot and the interval of the torrent files (ui/desktop/src/main/main.ts): what is sent twice, and what
-- is lost.
use orc_torrent.Prelude.{
  ℕ, suc, ◌+◌, ◌<◌, arith, ◌≡◌, refl, ap, ◌∙◌, Bool, true, false, ◌&&◌, Bool-cases, Option, none,
  some, map, length, List, [], ◌∷◌, ◌++◌, append_assoc,
}
use orc_torrent.Prelude.Codes.{Text, codes, ends_with}
use orc_torrent.LinkQueue.{alive, is_alive}
use orc_torrent.TorrentFile.{
  Found, content, Data, Desk, can_send, deliver, retry, retry_any, normalize_torrent_file_path,
  handle_torrent_file, Event, opens_file, ticks, ready_to_show, window_becomes, step, run,
}

module _ (lower : Text → Text) (sep : ℕ) (resolve : Text → Option Text) (found : Text → Found) where
  abbrev pub runs : List Event → Desk → Desk
  runs = run lower sep resolve found

  -- A torrent file that can be read and is opened before the window shows a page.
  abbrev pub Opens : Text → Data → Type 0
  Opens path d =
      (ends_with (codes ".torrent") (lower path) ≡ true)
      × (found (normalize_torrent_file_path sep resolve path) ≡ content d.base64 d.file_name)

  handle-content :
      (works : Bool) (path : Text) (d : Data) (s : Desk)
      → Opens path d
      → handle_torrent_file lower sep resolve found works path s ≡ deliver works d s
  unfolding handle_torrent_file
  handle-content works path d s h = rw h.0 (rw h.1 refl)

  -- the state that keeps a file
  abbrev pub keeps : Data → Desk → Desk
  keeps d s = record s { pending = some d; interval = some (record { file = d; retry_count = 0 }) }

  pub handle-keeps :
      (works : Bool) (path : Text) (d : Data) (s : Desk)
      → Opens path d
      → can_send works s ≡ false
      → handle_torrent_file lower sep resolve found works path s ≡ keeps d s
  unfolding deliver
  handle-keeps works path d s h n = handle-content works path d s h ∙ rw n refl

  -- the state that keeps a file after some ticks
  abbrev pub waits : Data → ℕ → Desk → Desk
  waits d n s = record s {
    pending = some d;
    interval = some (record { file = d; retry_count = n });
  }

  early_can_send :
      (works : Bool) (s : Desk) → (is_alive s.window && s.loaded) ≡ false → can_send works s ≡ false
  early_can_send works s h = ground (arith, h, Bool-cases (is_alive s.window), Bool-cases s.loaded)

  -- what follows an opening, where the state behind it is known
  opened :
      (works : Bool) (path : Text) (es : List Event) {t u : Desk} {sent : List Data} (s : Desk)
      → handle_torrent_file lower sep resolve found works path s ≡ t
      → runs es t ≡ u
      → u.sent ≡ sent
      → (runs (opens_file works path ∷ es) s).sent ≡ sent
  unfolding run step
  opened works path es s e f g = ap (λ t. (runs es t).sent) e ∙ (ap (λ t. t.sent) f ∙ g)

  -- An early tick only counts, while there are fewer than ten.
  early_tick :
      (d : Data) (n : ℕ) (b : Bool) (s : Desk)
      → (is_alive s.window && s.loaded) ≡ false
      → suc n < 10
      → retry b (record { file = d; retry_count = n }) (waits d n s) ≡ waits d (suc n) s
  unfolding retry
  early_tick d n b s h k = ground (arith, h, k, Bool-cases (is_alive s.window), Bool-cases s.loaded)

  early_ticks :
      (d : Data) (n : ℕ) (early : List Bool) (rest : List Event) (s : Desk)
      → (is_alive s.window && s.loaded) ≡ false
      → n + length early < 10
      → (m : ℕ) × (runs (map ticks early ++ rest) (waits d n s) ≡ runs rest (waits d m s))
  unfolding run step
  early_ticks d n [] rest s h k = (n, refl)
  early_ticks d n (b ∷ early) rest s h k =
      let (m, e) = early_ticks d (suc n) early rest s h (omega (arith, k)) in
      (m, ap (runs (map ticks early ++ rest)) (early_tick d n b s h (omega (arith, k))) ∙ e)

  -- Ticks do nothing where no interval runs.
  idle_ticks : (later : List Bool) (s : Desk) → s.interval ≡ none → runs (map ticks later) s ≡ s
  unfolding run step
  idle_ticks [] s h = refl
  idle_ticks (b ∷ later) s h =
      ap (λ o. runs (map ticks later) (retry_any b o s)) h ∙ idle_ticks later s h

  -- the window's page is there, and the file has been sent by the one and by the other
  shown_then_ticked :
      (d : Data) (m : ℕ) (later : List Bool) (s : Desk)
      → (runs
          (window_becomes alive true ∷ ready_to_show true ∷ ticks true ∷ map ticks later)
          (waits d m s)).sent
        ≡ s.sent ++ (d ∷ d ∷ [])
  unfolding run step retry
  shown_then_ticked d m later s =
      ap (λ t. t.sent) (idle_ticks later _ refl) ∙ append_assoc s.sent (d ∷ []) (d ∷ [])

  ticked_then_shown :
      (d : Data) (m : ℕ) (later : List Bool) (s : Desk)
      → (runs
          (window_becomes alive true ∷ ticks true ∷ ready_to_show true ∷ map ticks later)
          (waits d m s)).sent
        ≡ s.sent ++ (d ∷ [])
  unfolding run step retry
  ticked_then_shown d m later s = ap (λ t. t.sent) (idle_ticks later _ refl)

  -- A torrent file that can be read is opened before the window shows a page, the retry interval ticks fewer
  -- than ten times before the page is there, and then sending works. Where the window is ready to show before
  -- the next tick, the file is sent twice, by the one and by the other; where the tick comes first, it is sent
  -- once. No later tick sends it again.
  pub early_file_sent_twice :
      (path : Text) (d : Data) (works : Bool) (early later : List Bool) (s : Desk)
      → Opens path d
      → (is_alive s.window && s.loaded) ≡ false
      → length early < 10
      → ((runs
            (opens_file works path
              ∷ (map ticks early
                  ++ (window_becomes alive true
                      ∷ ready_to_show true
                      ∷ ticks true
                      ∷ map ticks later)))
            s).sent
          ≡ s.sent ++ (d ∷ d ∷ []))
        × ((runs
              (opens_file works path
                ∷ (map ticks early
                    ++ (window_becomes alive true
                        ∷ ticks true
                        ∷ ready_to_show true
                        ∷ map ticks later)))
              s).sent
            ≡ s.sent ++ (d ∷ []))
  early_file_sent_twice path d works early later s h n k =
      let kept = handle-keeps works path d s h (early_can_send works s n) in
      let shown = ready_to_show true ∷ ticks true ∷ map ticks later in
      let ticked = ticks true ∷ ready_to_show true ∷ map ticks later in
      let (i, e) =
        early_ticks d 0 early (window_becomes alive true ∷ shown) s n (omega (arith, k)) in
      let (j, f) =
        early_ticks d 0 early (window_becomes alive true ∷ ticked) s n (omega (arith, k)) in
      (
        opened works path (map ticks early ++ (window_becomes alive true ∷ shown)) s kept e
            (shown_then_ticked d i later s),
        opened works path (map ticks early ++ (window_becomes alive true ∷ ticked)) s kept f
            (ticked_then_shown d j later s),
      )
