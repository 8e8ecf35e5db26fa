-- ===== src/TorrentFile/Lost.antt =====
-- The torrent files that are lost (ui/desktop/src/main/main.ts): the slot and the interval hold the last one.
use orc_torrent.Prelude.{
  ℕ, suc, ◌≡◌, ◌&&◌, refl, ap, ◌∙◌, Bool, false, Option, none, some, List, [], ◌∷◌, ◌++◌,
  append_assoc, append-nil, leb, All, All-append, if-cases,
}
use mathlib.Core.Path.{subst, sym}
use orc_torrent.Prelude.Codes.{Text}
use orc_torrent.LinkQueue.{is_alive}
use orc_torrent.TorrentFile.{
  Found, Data, Retry, Desk, max_file_retries, can_send, retry, retry_any, send_pending_file, Event,
  opens_file, ticks, ready_to_show, window_becomes, quits, step, run,
}
use orc_torrent.TorrentFile.Slot.{Opens, handle-keeps, keeps}

-- The slot and the interval hold one file at most.
abbrev Holds : Data → Option Data → Type 0
Holds d none = Unit
Holds d (some x) = x ≡ d

abbrev Retries : Data → Option Retry → Type 0
Retries d none = Unit
Retries d (some r) = r.file ≡ d

record Only (d : Data) (base : List Data) (s : Desk) : Type 0 where
  slot : Holds d s.pending
  timer : Retries d s.interval
  more : List Data
  grows : s.sent ≡ base ++ more
  same : All (λ x. x ≡ d) more

abbrev pub OpensNothing : Event → Type 0
OpensNothing (opens_file works path) = ⊥
OpensNothing _ = Unit

sends-Only :
    (d x : Data) (base : List Data) (s : Desk) (pending : Option Data) (interval : Option Retry)
    → x ≡ d
    → Holds d pending
    → Retries d interval
    → Only d base s
    → Only d base (record s { sent = s.sent ++ (x ∷ []); pending = pending; interval = interval })
sends-Only d x base s pending interval e p r h = record {
  slot = p;
  timer = r;
  more = h.more ++ (x ∷ []);
  grows = ap (λ l. l ++ (x ∷ [])) h.grows ∙ append_assoc base h.more (x ∷ []);
  same = All-append (λ y. y ≡ d) h.more (x ∷ []) h.same (e, tt);
}

abbrev rests : Option Data → Option Retry → ℕ → Desk → Desk
rests pending interval errors s = record s {
  pending = pending;
  interval = interval;
  errors = errors;
}

rests-Only :
    (d : Data) (base : List Data) (s : Desk) (interval : Option Retry) (errors : ℕ)
    → Retries d interval
    → Only d base s
    → Only d base (rests s.pending interval errors s)
rests-Only d base s interval errors r h = record {
  slot = h.slot;
  timer = r;
  more = h.more;
  grows = h.grows;
  same = h.same;
}

retry-Only :
    (d : Data) (works : Bool) (r : Retry) (base : List Data) (s : Desk)
    → r.file ≡ d
    → Only d base s
    → Only d base (retry works r s)
unfolding retry
retry-Only d works r base s e h =
    let P : Desk → Type 0 = Only d base in
    if-cases P (can_send works s) _ _ (sends-Only d r.file base s none none e tt tt h) (
      if-cases P (leb max_file_retries (suc r.retry_count)) _ _
        (if-cases P (is_alive s.window) _ _ (rests-Only d base s none (suc s.errors) tt h)
          (rests-Only d base s none s.errors tt h))
        (rests-Only d base s (some (record r { retry_count = suc r.retry_count })) s.errors e h))

retry_any-Only :
    (d : Data) (works : Bool) (o : Option Retry) (base : List Data) (s : Desk)
    → Retries d o
    → Only d base s
    → Only d base (retry_any works o s)
retry_any-Only d works none base s r h = h
retry_any-Only d works (some x) base s r h = retry-Only d works x base s r h

pending-Only :
    (d : Data) (works : Bool) (o : Option Data) (base : List Data) (s : Desk)
    → Holds d o
    → Only d base s
    → Only d base (send_pending_file works o s)
pending-Only d works none base s p h = h
pending-Only d works (some x) base s p h =
    if-cases (Only d base) (is_alive s.window && works) _ _
      (sends-Only d x base s none s.interval p tt h.timer h) h

module _ (lower : Text → Text) (sep : ℕ) (resolve : Text → Option Text) (found : Text → Found) where
  step-Only :
      (d : Data) (base : List Data) (e : Event) (s : Desk)
      → OpensNothing e
      → Only d base s
      → Only d base (step lower sep resolve found e s)
  unfolding step
  step-Only d base (opens_file works path) s n h = absurd n
  step-Only d base (ticks works) s n h = retry_any-Only d works s.interval base s h.timer h
  step-Only d base (ready_to_show works) s n h = pending-Only d works s.pending base s h.slot h
  step-Only d base (window_becomes window loaded) s n h = record {
    slot = h.slot;
    timer = h.timer;
    more = h.more;
    grows = h.grows;
    same = h.same;
  }
  step-Only d base quits s n h = rests-Only d base s none s.errors tt h

  run-Only :
      (d : Data) (base : List Data) (es : List Event) (s : Desk)
      → All OpensNothing es
      → Only d base s
      → Only d base (run lower sep resolve found es s)
  unfolding run
  run-Only d base [] s n h = h
  run-Only d base (e ∷ es) s n h =
      run-Only d base es (step lower sep resolve found e s) n.1 (step-Only d base e s n.0 h)

  -- Where a torrent file that can be read is opened before the window shows a page, whatever was kept, and
  -- nothing is opened afterwards, only that file is sent from then on: a file that was kept before is
  -- lost.
  pub last_file_only :
      (path : Text) (d : Data) (works : Bool) (es : List Event) (s : Desk)
      → Opens lower sep resolve found path d
      → can_send works s ≡ false
      → All OpensNothing es
      → (more : List Data) × ((run lower sep resolve found (opens_file works path ∷ es) s).sent
          ≡ s.sent ++ more)
        × All (λ x. x ≡ d) more
  unfolding run step
  last_file_only path d works es s h n q =
      let k : Only d s.sent (keeps lower sep resolve found d s) = record {
        slot = refl;
        timer = refl;
        more = [];
        grows = sym (append-nil s.sent);
        same = tt;
      } in
      let e = handle-keeps lower sep resolve found works path d s h n in
      let r =
        subst (λ t. Only d s.sent (run lower sep resolve found es t)) (sym e)
          (run-Only d s.sent es (keeps lower sep resolve found d s) q k) in
      (r.more, r.grows, r.same)
