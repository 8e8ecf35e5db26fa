-- ===== src/Fetcher/Loops.antt =====
-- The retry loops of ui/desktop/src/renderer/utils/torrentFetcher.ts: how many requests they make, how
-- long they sleep, and how they end.
use orc_torrent.Prelude.{
  ℕ, zero, suc, ◌+◌, ◌-◌, ◌*◌, ◌^◌, ◌≤◌, ◌<◌, ◌≡◌, refl, ap, ◌∙◌, arith, Bool, true, false, ◌⊎◌,
  inl, inr, Bool-cases, none, ◌==◌, if◌then◌else◌,
}
use mathlib.Core.Path.{subst}
use orc_torrent.Fetcher.{
  Options, Error, Reply, value, error, Ended, is_client_error, is_final, retry_loop, backoff,
  fetch_torrents, fetch_torrent_status, fetch_row_snapshot, fetch_torrent_content,
}

module _ {A : Type 0} (stops : Error → Bool) where
  -- an error after which the loop goes on
  abbrev pub goes_on : Reply A → Bool
  goes_on (value a) = false
  goes_on (error e) = if stops e then false else true

-- the sleeps of so many attempts from one on
sleep_sum : (ℕ → ℕ) → ℕ → ℕ → ℕ
sleep_sum delay zero i = 0
sleep_sum delay (suc n) i = delay i + sleep_sum delay n (suc i)

-- sleeps that double add up to the next one
sleep_sum-doubling :
    (d k i m : ℕ) → m ≡ k + i → sleep_sum (λ j. d * 2 ^ j) k i + d * 2 ^ i ≡ d * 2 ^ m
unfolding sleep_sum
sleep_sum-doubling d zero i m q = let p : i ≡ m = omega arith in rw p (omega arith)
sleep_sum-doubling d (suc k) i m q =
    let r = sleep_sum-doubling d k (suc i) m (omega arith) in grind (arith, r)

abbrev ended : {A : Type 0} → (ℕ → Reply A) → ℕ → ℕ → Ended A
ended request m x = record { reply = request m; attempts = suc m; slept = x }

module _ {A : Type 0} (stops : Error → Bool) (delay : ℕ → ℕ) (request : ℕ → Reply A) where
  loop-goes_on :
      (n i slept : ℕ)
      → goes_on stops (request i) ≡ true
      → retry_loop stops delay request (suc n) i slept
        ≡ retry_loop stops delay request n (suc i) (slept + delay i)
  unfolding retry_loop
  loop-goes_on n i slept h = ground arith

  -- The attempts before number `m` fail and go on, and number `m` does not, or is the last.
  loop-ends :
      (k n i m slept : ℕ)
      → k ≤ n
      → m ≡ k + i
      → ((j : ℕ) → i ≤ j → j < m → goes_on stops (request j) ≡ true)
      → (k ≡ n) ⊎ (goes_on stops (request m) ≡ false)
      → retry_loop stops delay request n i slept
        ≡ record { reply = request m; attempts = suc m; slept = slept + sleep_sum delay k i }
  unfolding retry_loop sleep_sum
  loop-ends zero zero i m slept l q h e = let p : i ≡ m = omega arith in rw p (ground arith)
  loop-ends zero (suc n) i m slept l q h (inl e) = ground arith
  loop-ends zero (suc n) i m slept l q h (inr e) =
      let p : i ≡ m = omega arith in rw p (ground (arith, e))
  loop-ends (suc k) zero i m slept l q h e = ground arith
  loop-ends (suc k) (suc n) i m slept l q h e =
      loop-goes_on n i slept (h i (omega arith) (omega arith))
      ∙ loop-ends k n (suc i) m (slept + delay i) (omega arith) (omega arith)
          (λ j u v. h j (omega arith) v) (elim e [ inl x ↦ inl (omega arith) | inr x ↦ inr x ])
      ∙ ap (λ x. ended request m x) (omega arith)

-- the first number up to `n` that fails a test, or `n`
first_stop :
    (f : ℕ → Bool) (n : ℕ)
    → (m : ℕ) × (m ≤ n) × ((j : ℕ) → j < m → f j ≡ true) × ((m ≡ n) ⊎ (f m ≡ false))
first_stop f zero = (0, omega arith, λ j h. ground arith, inl refl)
first_stop f (suc n) =
    let (m, l, h, e) = first_stop f n in
    elim (Bool-cases (f m)) [
      | inr b ↦ (m, omega arith, h, inr b)
      | inl b ↦ elim e [
        | inr x ↦ (m, omega arith, h, inr x)
        | inl x ↦ (
          suc n,
          omega arith,
          λ j k. elim (Bool-cases (j == m)) [
            | inl y ↦ subst (λ z. f z ≡ true) (ground arith) b
            | inr y ↦ h j (ground arith)
          ],
          inl refl,
        )
      ]
    ]

final_stops :
    {A : Type 0} (x : Reply A) (t : Error)
    → t.timed_out ≡ true
    → x ≡ error t
    → goes_on is_final x ≡ false
unfolding is_final
final_stops x t u e = rw e (ground arith)

snapshot_goes_on :
    {A : Type 0} (x : Reply A) (t : Error)
    → t.status ≡ none
    → x ≡ error t
    → goes_on is_client_error x ≡ true
unfolding is_client_error
snapshot_goes_on x t u e = rw e (ground arith)

module _ {A : Type 0} (o : Options) (request : ℕ → Reply A) where
  -- The list is asked for until a request succeeds, its error is final, or the retries are used up; the
  -- sleeps between the requests add up to `retryDelay * (2 ^ m - 1)` for `m` retries.
  pub fetch_torrents-ends :
      (m : ℕ) × (m ≤ o.retries)
      × ((j : ℕ) → j < m → goes_on is_final (request j) ≡ true)
      × ((m ≡ o.retries) ⊎ (goes_on is_final (request m) ≡ false))
      × (fetch_torrents o request ≡ record {
        reply = request m;
        attempts = suc m;
        slept = o.retry_delay * 2 ^ m - o.retry_delay;
      })
  unfolding fetch_torrents backoff
  fetch_torrents-ends =
      let (m, l, h, e) = first_stop (λ j. goes_on is_final (request j)) o.retries in
      let r = sleep_sum-doubling o.retry_delay m 0 m (omega arith) in
      (
        m,
        l,
        h,
        e,
        loop-ends is_final (backoff o request) request m o.retries 0 m 0 l (omega arith)
              (λ j u v. h j v) e
            ∙ ap (λ x. ended request m x) (omega (arith, r)),
      )

  sleep_sum-suc : (f : ℕ → ℕ) (k i : ℕ) → sleep_sum (λ j. f (suc j)) k i ≡ sleep_sum f k (suc i)
  unfolding sleep_sum
  sleep_sum-suc f zero i = refl
  sleep_sum-suc f (suc k) i = ap (λ x. f (suc i) + x) (sleep_sum-suc f k (suc i))

  -- The file list is asked for in the same way, but each sleep is twice as long: the sum for `m` retries
  -- is `retryDelay * (2 ^ (m + 1) - 2)`.
  pub fetch_torrent_content-ends :
      (m : ℕ) × (m ≤ o.retries)
      × ((j : ℕ) → j < m → goes_on is_final (request j) ≡ true)
      × ((m ≡ o.retries) ⊎ (goes_on is_final (request m) ≡ false))
      × (fetch_torrent_content o request ≡ record {
        reply = request m;
        attempts = suc m;
        slept = o.retry_delay * 2 ^ suc m - o.retry_delay * 2;
      })
  unfolding fetch_torrent_content backoff
  fetch_torrent_content-ends =
      let (m, l, h, e) = first_stop (λ j. goes_on is_final (request j)) o.retries in
      let f : ℕ → ℕ = λ j. backoff o request (suc j) in
      let r = sleep_sum-doubling o.retry_delay m 1 (suc m) (omega arith) in
      let t = sleep_sum-suc (backoff o request) m 0 in
      (
        m,
        l,
        h,
        e,
        loop-ends is_final f request m o.retries 0 m 0 l (omega arith) (λ j u v. h j v) e
            ∙ ap (λ x. ended request m x) (grind (arith, r, t)),
      )

  -- Where every request times out, the loops for the list, a status and a file list make one request and
  -- do not sleep, but the loop for row snapshots uses up all its retries.
  pub snapshot_retries_timeouts :
      (t : Error)
      → t.timed_out ≡ true
      → t.status ≡ none
      → ((j : ℕ) → request j ≡ error t)
      → ((fetch_torrents o request).attempts ≡ 1)
        × ((fetch_torrent_status o request).attempts ≡ 1)
        × ((fetch_torrent_content o request).attempts ≡ 1)
        × ((fetch_row_snapshot o request).attempts ≡ suc o.retries)
  unfolding fetch_torrents fetch_torrent_status fetch_torrent_content fetch_row_snapshot
  snapshot_retries_timeouts t u v h =
      let stop = final_stops (request 0) t u (h 0) in
      (
        ap (λ x. x.attempts)
            (loop-ends is_final (backoff o request) request 0 o.retries 0 0 0 (omega arith)
              (omega arith) (λ j p q. ground arith) (inr stop)),
        ap (λ x. x.attempts)
            (loop-ends is_final (backoff o request) request 0 o.retries 0 0 0 (omega arith)
              (omega arith) (λ j p q. ground arith) (inr stop)),
        ap (λ x. x.attempts)
            (loop-ends is_final (λ i. backoff o request (suc i)) request 0 o.retries 0 0 0
              (omega arith) (omega arith) (λ j p q. ground arith) (inr stop)),
        ap (λ x. x.attempts)
            (loop-ends is_client_error (backoff o request) request o.retries o.retries 0 o.retries 0
              (omega arith) (omega arith) (λ j p q. snapshot_goes_on (request j) t v (h j))
              (inl refl)),
      )
