-- ===== src/LinkQueue/Delivery.antt =====
-- Where the magnet links that the main process takes end up (ui/desktop/src/main/main.ts).
use orc_torrent.Prelude.{
  ℕ, suc, ◌+◌, ◌≤◌, ◌≡◌, refl, arith, Bool, true, Option, none, some, List, [], ◌∷◌, ◌++◌, All,
  take, inl, inr, ap, Bool-cases, if◌then◌else◌,
}
use orc_torrent.Prelude.Assoc.{list_eq, nat_eq}
use orc_torrent.Prelude.Codes.{Text, codes, is_space, starts_with, trim}
use orc_torrent.LinkQueue.Trimmed.{trim-trim, starts_with-trim_end, starts_with-trim_start}
use orc_torrent.LinkQueue.{
  alive, Main, magnet_prefix, handle_magnet_link, extract_magnet_from_argv, send_each, send_pending,
  handle_first, Event, starts_with_argv, opens_url, ready_to_show, window_becomes, step, run,
}

-- how often a link stands in a list
abbrev pub count : Text → List Text → ℕ
count x [] = 0
count x (y ∷ ys) = (if (list_eq ⦃e = nat_eq⦄).beq y x then 1 else 0) + count x ys

count-append : (x : Text) (ys zs : List Text) → count x (ys ++ zs) ≡ count x ys + count x zs
count-append x [] zs = omega arith
count-append x (y ∷ ys) zs = omega (arith, count-append x ys zs)

abbrev some_link : Option Text → List Text
some_link none = []
some_link (some url) = url ∷ []

-- the arguments that are links, trimmed
abbrev pub links_of : List Text → List Text
links_of [] = []
links_of (a ∷ argv) =
    let rest = links_of argv in if starts_with magnet_prefix (trim a) then trim a ∷ rest else rest

-- the link that is taken from a command line is the first one on it
extract-first :
    (argv : List Text) → some_link (extract_magnet_from_argv argv) ≡ take 1 (links_of argv)
unfolding extract_magnet_from_argv
extract-first [] = refl
extract-first (a ∷ argv) = ground (arith, extract-first argv)

-- the links that an event gives, trimmed: the first of a command line, or that of a URL
abbrev pub given : Event → List Text
given (starts_with_argv works argv) = take 1 (links_of argv)
given (opens_url works url) = if starts_with magnet_prefix url then trim url ∷ [] else []
given _ = []

-- What one of the two places of a link gets, the other does not.
handle_magnet_link-count :
    (x : Text) (works : Bool) (url : Text) (s : Main)
    → starts_with magnet_prefix (trim url) ≡ true
    → count x (handle_magnet_link works url s).sent
        + count x (handle_magnet_link works url s).pending
      ≡ count x (trim url ∷ []) + count x s.sent + count x s.pending
unfolding handle_magnet_link
handle_magnet_link-count x works url s h =
    ground
      (arith, h, count-append x s.sent (trim url ∷ []), count-append x s.pending (trim url ∷ []))

send_each-count :
    (x : Text) (works : ℕ → Bool) (i : ℕ) (links : List Text)
    → count x links
      ≤ count x (send_each works i links).0
        + (if (send_each works i links).1 then 0 else count x links)
unfolding send_each
send_each-count x works i [] = omega arith
send_each-count x works i (y ∷ links) = ground (arith, send_each-count x works (suc i) links)

send_each-all :
    (works : ℕ → Bool) (i : ℕ) (links : List Text)
    → (send_each works i links).1 ≡ true
    → (send_each works i links).0 ≡ links
unfolding send_each
send_each-all works i [] h = refl
send_each-all works i (y ∷ links) h = ground (arith, h, send_each-all works (suc i) links)

-- the copies of a link that were sent or are kept
abbrev held : Text → Main → ℕ
held x s = count x s.sent + count x s.pending

send_pending-held :
    (x : Text) (contents : Bool) (works : ℕ → Bool) (s : Main)
    → held x s ≤ held x (send_pending contents works s)
unfolding send_pending
send_pending-held x contents works s =
    let out = (send_each works 0 s.pending).0 in
    ground (arith, send_each-count x works 0 s.pending, count-append x s.sent out)

-- what was taken from the command line is trimmed, and trimming it again changes nothing
extract-starts :
    (url : Text) (argv : List Text)
    → extract_magnet_from_argv argv ≡ some url
    → (starts_with magnet_prefix (trim url) ≡ true) × (trim url ≡ url)
unfolding extract_magnet_from_argv
extract-starts url [] h = cc
extract-starts url (a ∷ argv) h = ground (arith, h, trim-trim a, extract-starts url argv)

magnet_prefix-trim :
    (url : Text)
    → starts_with magnet_prefix url ≡ true
    → starts_with magnet_prefix (trim url) ≡ true
unfolding trim is_space
magnet_prefix-trim url h = rw (starts_with-trim_start b'm' (codes "agnet:?") url refl h) (
    starts_with-trim_end magnet_prefix url
      (refl, (refl, (refl, (refl, (refl, (refl, (refl, (refl, tt)))))))) h)

first-held :
    (x : Text) (works : Bool) (o : Option Text) (s : Main)
    → ((url : Text)
        → o ≡ some url
        → (starts_with magnet_prefix (trim url) ≡ true) × (trim url ≡ url))
    → held x s + count x (some_link o) ≡ held x (handle_first works o s)
first-held x works none s h = omega arith
first-held x works (some url) s h =
    let (a, b) = h url refl in
    omega (arith, handle_magnet_link-count x works url s a, ap (λ t. count x (t ∷ [])) b)

opened-held :
    (x : Text) (works : Bool) (url : Text) (s : Main)
    → held x s + count x (given (opens_url works url)) ≡ held x (step (opens_url works url) s)
unfolding step
opened-held x works url s = elim (Bool-cases (starts_with magnet_prefix url)) [
  | inl e ↦ rw e (omega (arith, handle_magnet_link-count x works url s (magnet_prefix-trim url e)))
  | inr e ↦ rw e (omega arith)
]

started-held :
    (x : Text) (works : Bool) (argv : List Text) (s : Main)
    → held x s + count x (given (starts_with_argv works argv))
      ≡ held x (step (starts_with_argv works argv) s)
unfolding step
started-held x works argv s = omega (
  arith,
  ap (count x) (extract-first argv),
  first-held x works (extract_magnet_from_argv argv) s (λ url. extract-starts url argv),
)

step-held : (x : Text) (e : Event) (s : Main) → held x s + count x (given e) ≤ held x (step e s)
unfolding step
step-held x (starts_with_argv works argv) s = omega (arith, started-held x works argv s)
step-held x (opens_url works url) s = omega (arith, opened-held x works url s)
step-held x (ready_to_show contents works) s = omega (arith, send_pending-held x contents works s)
step-held x (window_becomes window) s = omega arith

abbrev pub all_given : List Event → List Text
all_given [] = []
all_given (e ∷ es) = given e ++ all_given es

-- Over every sequence of events, whatever calls of `send` fail and whatever becomes of the window, each
-- link has been sent or is kept at least as often as it was given or had been before. A command line gives the first
-- of its arguments that are magnet links, and open-url gives its URL where that is one.
pub links_kept :
    (x : Text) (es : List Event) (s : Main)
    → count x s.sent + count x s.pending + count x (all_given es)
      ≤ count x (run es s).sent + count x (run es s).pending
unfolding run
links_kept x [] s = omega arith
links_kept x (e ∷ es) s =
    omega
      (arith, step-held x e s, links_kept x es (step e s), count-append x (given e) (all_given es))

-- No call of `send` fails.
abbrev pub SendsWork : Event → Type 0
SendsWork (starts_with_argv works argv) = works ≡ true
SendsWork (opens_url works url) = works ≡ true
SendsWork (ready_to_show contents works) = (i : ℕ) → works i ≡ true
SendsWork (window_becomes window) = Unit

send_each-SendsWork :
    (works : ℕ → Bool) (i : ℕ) (links : List Text)
    → ((j : ℕ) → works j ≡ true)
    → send_each works i links ≡ (links, true)
unfolding send_each
send_each-SendsWork works i [] h = refl
send_each-SendsWork works i (y ∷ links) h = rw (h i, send_each-SendsWork works (suc i) links h) refl

send_pending-SendsWork :
    (x : Text) (contents : Bool) (works : ℕ → Bool) (s : Main)
    → ((j : ℕ) → works j ≡ true)
    → held x s ≡ held x (send_pending contents works s)
unfolding send_pending
send_pending-SendsWork x contents works s h =
    rw (send_each-SendsWork works 0 s.pending h) (ground (arith, count-append x s.sent s.pending))

step-SendsWork :
    (x : Text) (e : Event) (s : Main)
    → SendsWork e
    → held x s + count x (given e) ≡ held x (step e s)
unfolding step
step-SendsWork x (starts_with_argv works argv) s h = omega (arith, started-held x works argv s)
step-SendsWork x (opens_url works url) s h = omega (arith, opened-held x works url s)
step-SendsWork x (ready_to_show contents works) s h =
    omega (arith, send_pending-SendsWork x contents works s h)
step-SendsWork x (window_becomes window) s h = omega arith

run-SendsWork :
    (x : Text) (es : List Event) (s : Main)
    → All SendsWork es
    → held x s + count x (all_given es) ≡ held x (run es s)
unfolding run
run-SendsWork x [] s h = omega arith
run-SendsWork x (e ∷ es) s h = omega (
  arith,
  step-SendsWork x e s h.0,
  run-SendsWork x es (step e s) h.1,
  count-append x (given e) (all_given es),
)

-- the window opens, and shows with its contents there
abbrev pub shows : (ℕ → Bool) → List Event
shows works = window_becomes alive ∷ ready_to_show true works ∷ []

shows-sent :
    (x : Text) (works : ℕ → Bool) (s : Main)
    → ((j : ℕ) → works j ≡ true)
    → count x (run (shows works) s).sent ≡ held x s
unfolding run step send_pending
shows-sent x works s h =
    rw (send_each-SendsWork works 0 s.pending h) (omega (arith, count-append x s.sent s.pending))

-- After every sequence of events in which no call of `send` fails, once the window shows with its
-- contents there and its calls of `send` work too, each link has been sent exactly as often as it was
-- given or had been sent or kept before. A command line gives its first magnet link only.
pub links_arrive :
    (x : Text) (es : List Event) (works : ℕ → Bool) (s : Main)
    → All SendsWork es
    → ((j : ℕ) → works j ≡ true)
    → count x (run (shows works) (run es s)).sent
      ≡ count x s.sent + count x s.pending + count x (all_given es)
links_arrive x es works s h k =
    omega (arith, shows-sent x works (run es s) k, run-SendsWork x es s h)
