-- ===== src/Api/Retry.antt =====
-- fetchWithRetry of ui/desktop/src/renderer/utils/api.ts: how often it fetches, and how it ends.
use orc_torrent.Prelude.{
  ℕ, zero, suc, ◌+◌, ◌≤◌, ◌<◌, ◌≡◌, ◌≢◌, ◌⊎◌, inl, inr, refl, ap, sym, ◌∙◌, Bool-cases,
  Option-cases, arith, Bool, true, false, none, some, ◌==◌, if◌then◌else◌,
}
use mathlib.Core.Path.{subst}
use orc_torrent.Api.{
  Connection, connected, disconnected, Thrown, abort_error, fetch_error, other_error, status_error,
  Attempt, responds, throws, response, Ended, is_abort, is_retryable_error, connect, on_error,
  give_up, fetch_with_retry,
}

Attempt-cases :
    {R : Type 0} (x : Attempt R)
    → ((r : R) × (x ≡ responds r)) ⊎ ((t : Thrown) × ((a : Bool) × (x ≡ throws t a)))
Attempt-cases (responds r) = inl (r, refl)
Attempt-cases (throws t a) = inr (t, (a, refl))

-- an error after which a request with retries left tries again
abbrev pub is_retried : {R : Type 0} → Attempt R → Bool
is_retried (responds r) = false
is_retried (throws t was_aborted) = if is_abort t then was_aborted else is_retryable_error t

on_error-last : (t : Thrown) (a : Bool) (c : Connection) → (on_error 0 t a c).0 ≢ none
unfolding on_error give_up is_abort
on_error-last abort_error a c = ground arith
on_error-last fetch_error a c = ground arith
on_error-last other_error a c = ground arith
on_error-last (status_error n) a c = ground arith

responds-retried : {R : Type 0} (r : R) → is_retried (responds r) ≡ true → ⊥
responds-retried r h = cc

abbrev ended : {R : Type 0} → ℕ → R → Ended R
ended m r = record { outcome = response r; fetches = suc m; connection = connected }

on_error-retried :
    (n : ℕ) (t : Thrown) (a : Bool) (c : Connection)
    → (if is_abort t then a else is_retryable_error t) ≡ true
    → (on_error (suc n) t a c).0 ≡ none
unfolding on_error is_abort is_retryable_error
on_error-retried n abort_error a c h = ground arith
on_error-retried n fetch_error a c h = ground arith
on_error-retried n other_error a c h = ground arith
on_error-retried n (status_error none) a c h = ground arith
on_error-retried n (status_error (some k)) a c h = ground arith

-- An error that is not retried, or has no retries left, ends in disconnection when there are none.
on_error-final :
    (t : Thrown) (a : Bool) (c : Connection)
    → (if is_abort t then a else is_retryable_error t) ≡ true
    → (on_error 0 t a c).1 ≡ disconnected
unfolding on_error give_up is_abort is_retryable_error
on_error-final abort_error a c h = ground arith
on_error-final fetch_error a c h = ground arith
on_error-final other_error a c h = ground arith
on_error-final (status_error k) a c h = ground arith

module _ {R : Type 0} (fetch : ℕ → Attempt R) (others : ℕ → Connection → Connection) where
  -- A request with `n` retries left at attempt `i` makes that attempt, and at most `n` more.
  pub fetches-bounds :
      (n i : ℕ) (c : Connection)
      → (suc i ≤ (fetch_with_retry fetch others n i c).fetches)
        × ((fetch_with_retry fetch others n i c).fetches ≤ suc n + i)
  unfolding fetch_with_retry
  fetches-bounds zero i c = ground arith
  fetches-bounds (suc n) i c = elim (Attempt-cases (fetch i)) [
    | inl (r, e) ↦ rw (e, fetch_with_retry) (omega arith)
    | inr (t, (a, e)) ↦ elim (Option-cases (on_error (suc n) t a (others i (connect c))).0) [
      | inl q ↦
          rw (e, fetch_with_retry, q)
            (let r =
                fetches-bounds n (suc i)
                  (others i (on_error (suc n) t a (others i (connect c))).1) in
              (omega (arith, r.0), omega (arith, r.1)))
      | inr (f, q) ↦ rw (e, fetch_with_retry, q) (omega arith, omega arith)
    ]
  ]

  -- one attempt whose error is retried
  retried-step :
      (n i : ℕ) (c : Connection)
      → is_retried (fetch i) ≡ true
      → (d : Connection) × (fetch_with_retry fetch others (suc n) i c
          ≡ fetch_with_retry fetch others n (suc i) d)
  unfolding fetch_with_retry
  retried-step n i c h = elim (Attempt-cases (fetch i)) [
    | inl (r, e) ↦ elim (responds-retried r (subst (λ x. is_retried x ≡ true) e h)) [ ]
    | inr (t, (a, e)) ↦
        let q =
          on_error-retried n t a (others i (connect c)) (subst (λ x. is_retried x ≡ true) e h) in
        (others i (on_error (suc n) t a (others i (connect c))).1, rw (e, fetch_with_retry, q) refl)
  ]

  got :
      (i m n : ℕ) (c : Connection) (r : R)
      → i ≡ m
      → fetch m ≡ responds r
      → fetch_with_retry fetch others n i c
        ≡ record { outcome = response r; fetches = suc m; connection = connected }
  unfolding fetch_with_retry
  got i m zero c r q e =
      rw (subst (λ x. fetch x ≡ responds r) (sym q) e, fetch_with_retry) (ap (λ x. ended x r) q)
  got i m (suc n) c r q e =
      rw (subst (λ x. fetch x ≡ responds r) (sym q) e, fetch_with_retry) (ap (λ x. ended x r) q)

  last-fails :
      (i : ℕ) (c : Connection)
      → is_retried (fetch i) ≡ true
      → ((fetch_with_retry fetch others 0 i c).fetches ≡ suc i)
        × ((fetch_with_retry fetch others 0 i c).connection ≡ disconnected)
        × ((r : R) → (fetch_with_retry fetch others 0 i c).outcome ≢ response r)
  unfolding fetch_with_retry
  last-fails i c h = elim (Attempt-cases (fetch i)) [
    | inl (r, e) ↦ elim (responds-retried r (subst (λ x. is_retried x ≡ true) e h)) [ ]
    | inr (t, (a, e)) ↦
        let d = others i (connect c) in
        let q = on_error-final t a d (subst (λ x. is_retried x ≡ true) e h) in
        elim (Option-cases (on_error 0 t a d).0) [
          | inl u ↦ rw (e, fetch_with_retry, u) (refl, q, λ r v. ground arith)
          | inr (f, u) ↦ rw (e, fetch_with_retry, u) (refl, q, λ r v. ground arith)
        ]
  ]

  -- The attempts before number `m` fail with errors that are retried, the retries left reach it, and
  -- it gets a response, of whatever status: then this is the outcome, no further attempt is made, and
  -- the connection is marked as there.
  pub fetch_with_retry-recovers :
      (m n i : ℕ) (c : Connection) (r : R)
      → i ≤ m
      → m ≤ n + i
      → ((j : ℕ) → i ≤ j → j < m → is_retried (fetch j) ≡ true)
      → fetch m ≡ responds r
      → fetch_with_retry fetch others n i c
        ≡ record { outcome = response r; fetches = suc m; connection = connected }
  unfolding fetch_with_retry
  fetch_with_retry-recovers m zero i c r l k h e = got i m zero c r (omega arith) e
  fetch_with_retry-recovers m (suc n) i c r l k h e = elim (Bool-cases (i == m)) [
    | inl b ↦ got i m (suc n) c r (ground arith) e
    | inr b ↦
        let (d, step) = retried-step n i c (h i (omega arith) (ground arith)) in
        step
        ∙ fetch_with_retry-recovers m n (suc i) d r (ground arith) (omega arith)
            (λ j u v. h j (omega arith) v) e
  ]

  -- Where every attempt that the retries allow fails with an error that is retried, all of them are
  -- made, the request fails, and the connection is marked as gone.
  pub fetch_with_retry-gives_up :
      (n i : ℕ) (c : Connection)
      → ((j : ℕ) → i ≤ j → j ≤ n + i → is_retried (fetch j) ≡ true)
      → ((fetch_with_retry fetch others n i c).fetches ≡ suc (n + i))
        × ((fetch_with_retry fetch others n i c).connection ≡ disconnected)
        × ((r : R) → (fetch_with_retry fetch others n i c).outcome ≢ response r)
  unfolding fetch_with_retry
  fetch_with_retry-gives_up zero i c h =
      let r = last-fails i c (h i (omega arith) (omega arith)) in (omega (arith, r.0), r.1, r.2)
  fetch_with_retry-gives_up (suc n) i c h =
      let (d, step) = retried-step n i c (h i (omega arith) (omega arith)) in
      let r = fetch_with_retry-gives_up n (suc i) d (λ j u v. h j (omega arith) (omega arith)) in
      rw step (omega (arith, r.0), r.1, r.2)
