-- ===== src/Peers/Requests.antt =====
-- The requests of the inspector's peers (fetchPeers and its two effects, in
-- ui/desktop/src/renderer/components/inspector/PeersTab.tsx). The tab stays when another torrent is selected, and
-- a request is not cancelled. Requests go by numbers.
use orc_torrent.Prelude.{
  ℕ, suc, ◌≡◌, refl, ap, ◌∙◌, arith, Bool, true, false, not, ◌==◌, ◌&&◌, Option, none, some, List,
  [], ◌∷◌, ◌++◌, ltb, leb, if◌then◌else◌,
}
use Prim.Native.String.{String}
use orc_torrent.Prelude.Assoc.{nat_eq, lookup, delete, lookup-delete}
use orc_torrent.Peers.{Peer}

pub record Tab : Type 0 where
  pub torrent : String
  pub online : Bool
  pub peers : List Peer
  pub loading : Bool
  -- what was asked, with the torrent that it was asked for
  pub requests : List (ℕ × String)
  pub next : ℕ
  -- calls of `onError`
  pub errors : ℕ

-- how a request settles: with `data.peers`, or with an error that may have a status
pub data Settlement : Type 0 where
  answers : Option (List Peer) → Settlement
  fails : Option ℕ → Settlement

pub data Event : Type 0 where
  selects : String → Event
  goes_online : Bool → Event
  ticks : Event
  settles : ℕ → Settlement → Event

unfoldable pub fetch_peers : Tab → Tab
fetch_peers s =
    if s.online
    then record s {
      loading = true;
      requests = s.requests ++ ((s.next, s.torrent) ∷ []);
      next = suc s.next;
    }
    else s

-- `isPersistentError`
abbrev pub is_persistent : Option ℕ → Bool
is_persistent none = false
is_persistent (some status) = leb 400 status && ltb status 500

abbrev pub or_none : Option (List Peer) → List Peer
or_none none = []
or_none (some peers) = peers

-- what follows the request, `finally` included
abbrev pub fetch_then : Settlement → Tab → Tab
fetch_then (answers data_peers) s = record s { peers = or_none data_peers; loading = false }
fetch_then (fails status) s =
    if is_persistent status
    then record s { peers = []; loading = false; errors = suc s.errors }
    else record s { loading = false }

abbrev pub settle_asked : Option String → ℕ → Settlement → Tab → Tab
settle_asked none n a s = s
settle_asked (some id) n a s = fetch_then a (record s { requests = delete n s.requests })

-- The effects run anew where the torrent or the connection changes; an interval ticks while online.
unfoldable pub step : Event → Tab → Tab
unfolding fetch_peers
step (selects id) s = fetch_peers (record s { torrent = id })
step (goes_online b) s = fetch_peers (record s { online = b })
step ticks s = fetch_peers s
step (settles n a) s = settle_asked (lookup n s.requests) n a s

unfoldable pub run : List Event → Tab → Tab
unfolding step
run [] s = s
run (e ∷ es) s = run es (step e s)

-- Nothing is selected, and the request with the number does not settle; others may.
abbrev pub is_quiet : ℕ → Event → Bool
is_quiet n (selects id) = false
is_quiet n (settles m a) = not (m == n)
is_quiet n _ = true

abbrev pub are_quiet : ℕ → List Event → Bool
are_quiet n [] = true
are_quiet n (e ∷ es) = is_quiet n e && are_quiet n es

fetch_then-requests : (a : Settlement) (s : Tab) → (fetch_then a s).requests ≡ s.requests
fetch_then-requests (answers peers) s = refl
fetch_then-requests (fails status) s = ground arith

fetch_then-torrent : (a : Settlement) (s : Tab) → (fetch_then a s).torrent ≡ s.torrent
fetch_then-torrent (answers peers) s = refl
fetch_then-torrent (fails status) s = ground arith

settle_asked-torrent :
    (o : Option String) (m : ℕ) (a : Settlement) (s : Tab)
    → (settle_asked o m a s).torrent ≡ s.torrent
settle_asked-torrent none m a s = refl
settle_asked-torrent (some id) m a s =
    fetch_then-torrent a (record s { requests = delete m s.requests })

module _ (n : ℕ) (id : String) where
  lookup-append : (l m : List (ℕ × String)) → lookup n l ≡ some id → lookup n (l ++ m) ≡ some id
  unfolding lookup
  lookup-append [] m h = ground (arith, h)
  lookup-append ((k, j) ∷ l) m h = ground (arith, h, lookup-append l m)

  fetch_peers-lookup :
      (s : Tab) → lookup n s.requests ≡ some id → lookup n (fetch_peers s).requests ≡ some id
  unfolding fetch_peers
  fetch_peers-lookup s h = ground (arith, h, lookup-append s.requests ((s.next, s.torrent) ∷ []) h)

  settle_asked-lookup :
      (o : Option String) (m : ℕ) (a : Settlement) (s : Tab)
      → (m == n) ≡ false
      → lookup n s.requests ≡ some id
      → lookup n (settle_asked o m a s).requests ≡ some id
  settle_asked-lookup none m a s q h = h
  settle_asked-lookup (some j) m a s q h =
      ap (lookup n) (fetch_then-requests a (record s { requests = delete m s.requests }))
      ∙ ground (arith, q, h, lookup-delete m n s.requests)

  step-lookup :
      (e : Event) (s : Tab)
      → is_quiet n e ≡ true
      → lookup n s.requests ≡ some id
      → lookup n (step e s).requests ≡ some id
  unfolding step
  step-lookup (selects j) s q h = ground (arith, q)
  step-lookup (goes_online b) s q h = fetch_peers-lookup (record s { online = b }) h
  step-lookup ticks s q h = fetch_peers-lookup s h
  step-lookup (settles m a) s q h =
      settle_asked-lookup (lookup m s.requests) m a s (ground (arith, q)) h

  -- A request stays until it settles.
  pub quiet-lookup :
      (es : List Event) (s : Tab)
      → are_quiet n es ≡ true
      → lookup n s.requests ≡ some id
      → lookup n (run es s).requests ≡ some id
  unfolding run
  quiet-lookup [] s q h = h
  quiet-lookup (e ∷ es) s q h =
      quiet-lookup es (step e s) (ground (arith, q)) (step-lookup e s (ground (arith, q)) h)

fetch_peers-torrent : (s : Tab) → (fetch_peers s).torrent ≡ s.torrent
unfolding fetch_peers
fetch_peers-torrent s = ground arith

step-torrent : (n : ℕ) (e : Event) (s : Tab) → is_quiet n e ≡ true → (step e s).torrent ≡ s.torrent
unfolding step
step-torrent n (selects id) s q = ground (arith, q)
step-torrent n (goes_online b) s q = fetch_peers-torrent (record s { online = b })
step-torrent n ticks s q = fetch_peers-torrent s
step-torrent n (settles m a) s q = settle_asked-torrent (lookup m s.requests) m a s

quiet-torrent :
    (n : ℕ) (es : List Event) (s : Tab) → are_quiet n es ≡ true → (run es s).torrent ≡ s.torrent
unfolding run
quiet-torrent n [] s q = refl
quiet-torrent n (e ∷ es) s q =
    quiet-torrent n es (step e s) (ground (arith, q)) ∙ step-torrent n e s (ground (arith, q))

-- Where a request for one torrent runs and another torrent is selected, the answer to that request, whenever it
-- comes before the next selection and whatever other requests settle before it, is shown under the other torrent.
pub late_answer_shown :
    (n : ℕ) (id other : String) (es : List Event) (peers : List Peer) (s : Tab)
    → lookup n s.requests ≡ some id
    → are_quiet n es ≡ true
    → (let t = run es (step (selects other) s) in
        let u = step (settles n (answers (some peers))) t in
        (u.torrent ≡ other) × (u.peers ≡ peers))
unfolding step
late_answer_shown n id other es peers s h q =
    let chosen = record s { torrent = other } in
    rw (quiet-lookup n id es (fetch_peers chosen) q (fetch_peers-lookup n id chosen h))
      (quiet-torrent n es (fetch_peers chosen) q ∙ fetch_peers-torrent chosen, refl)
