-- ===== src/Cache/Size.antt =====
-- The bound on the two caches of TorrentCache, and what eviction takes.
use orc_torrent.Prelude.{
  ℕ, suc, ◌≤◌, ◌<◌, ◌≡◌, refl, sym, true, false, none, some, [], ◌∷◌, length, arith, ltb, leb,
  leb→le, ap, if◌then◌else◌, Bool-cases, inl, inr,
}
use Prim.Native.String.{String}
use mathlib.Core.Path.{subst}
use text.Mathlib.TextEquality.{eq_iff}
use orc_torrent.Prelude.Assoc.{
  string_eq, lookup, insert, delete, length-insert, length-delete, length-delete_hit, lookup-insert,
  lookup-delete, Unique, insert-Unique, delete-Unique,
}
use orc_torrent.Cache.{
  Entry, Entries, max_cache_size, get_cached, oldest_from, oldest, evict, set_cached,
}

module _ {A : Type 0} where
  -- Eviction takes an entry that is there, and that no other is older than.
  abbrev pub IsOldest : String → Entries A → Type 0
  IsOldest k m =
      (e : Entry A) × (lookup k m ≡ some e)
      × ((j : String) (e' : Entry A) → lookup j m ≡ some e' → e.timestamp ≤ e'.timestamp)

  oldest_from-older :
      (k : String) (t : ℕ) (j : String) (e : Entry A) (m : Entries A)
      → ltb e.timestamp t ≡ true
      → oldest_from k t ((j, e) ∷ m) ≡ oldest_from j e.timestamp m
  unfolding oldest_from
  oldest_from-older k t j e m h = rw h

  oldest_from-newer :
      (k : String) (t : ℕ) (j : String) (e : Entry A) (m : Entries A)
      → ltb e.timestamp t ≡ false
      → oldest_from k t ((j, e) ∷ m) ≡ oldest_from k t m
  unfolding oldest_from
  oldest_from-newer k t j e m h = rw h

  IsOldest-older :
      (k : String) (e : Entry A) (j : String) (e₁ : Entry A) (m : Entries A) (x : String)
      → lookup k ((j, e₁) ∷ m) ≡ none
      → e₁.timestamp ≤ e.timestamp
      → IsOldest x ((j, e₁) ∷ m)
      → IsOldest x ((k, e) ∷ (j, e₁) ∷ m)
  unfolding lookup
  IsOldest-older k e j e₁ m x f h (e', p, least) =
      (e', ground (arith, eq_iff k x), λ i e₂ q. ground (arith, least i e₂, least j e₁, eq_iff j j))

  IsOldest-newer :
      (k : String) (e : Entry A) (j : String) (e₁ : Entry A) (m : Entries A) (x : String)
      → lookup j m ≡ none
      → e.timestamp ≤ e₁.timestamp
      → IsOldest x ((k, e) ∷ m)
      → IsOldest x ((k, e) ∷ (j, e₁) ∷ m)
  unfolding lookup
  IsOldest-newer k e j e₁ m x f h (e', p, least) = (
    e',
    ground (arith, eq_iff k x, eq_iff j x),
    λ i e₂ q. ground (arith, least i e₂, least k e, eq_iff k k),
  )

  oldest_from-IsOldest :
      (k : String) (e : Entry A) (m : Entries A)
      → lookup k m ≡ none
      → Unique m
      → IsOldest (oldest_from k e.timestamp m) ((k, e) ∷ m)
  unfolding oldest_from lookup
  oldest_from-IsOldest k e [] f u = (e, ground (arith, eq_iff k k), λ j e' p. ground arith)
  oldest_from-IsOldest k e ((j, e₁) ∷ m) f u = elim (Bool-cases (ltb e₁.timestamp e.timestamp)) [
    | inl older ↦
        subst (λ x. IsOldest x ((k, e) ∷ (j, e₁) ∷ m))
          (sym (oldest_from-older k e.timestamp j e₁ m older))
          (IsOldest-older k e j e₁ m _ f (ground arith) (oldest_from-IsOldest j e₁ m u.0 u.1))
    | inr newer ↦
        subst (λ x. IsOldest x ((k, e) ∷ (j, e₁) ∷ m))
          (sym (oldest_from-newer k e.timestamp j e₁ m newer))
          (IsOldest-newer k e j e₁ m _ u.0 (ground arith)
            (oldest_from-IsOldest k e m (ground (arith, eq_iff j k)) u.1))
  ]

  pub oldest-IsOldest : (k : String) (m : Entries A) → Unique m → oldest m ≡ some k → IsOldest k m
  unfolding oldest
  oldest-IsOldest k [] u h = cc
  oldest-IsOldest k ((j, e) ∷ m) u h =
      subst (λ x. IsOldest x ((j, e) ∷ m)) (cc) (oldest_from-IsOldest j e m u.0 u.1)

  pub oldest_total : (m : Entries A) → 0 < length m → (k : String) × (oldest m ≡ some k)
  unfolding oldest
  oldest_total [] h = absurd (omega arith)
  oldest_total ((j, e) ∷ m) h = (oldest_from j e.timestamp m, refl)

  get_cached_size :
      (now ttl : ℕ) (k : String) (m : Entries A) → length (get_cached now ttl k m).1 ≤ length m
  unfolding get_cached
  get_cached_size now ttl k m = ground (arith, length-delete k m)

-- What `setCached` leaves in a cache that is not full, and in a full one.
module _ {A : Type 0} (now : ℕ) (k : String) (a : A) (m : Entries A) where
  abbrev written : Entry A
  written = record { payload = a; timestamp = now }

  pub set_cached-room :
      (j : String)
      → length m < max_cache_size
      → lookup j (set_cached now k a m)
        ≡ (if string_eq.beq k j then some (record { payload = a; timestamp = now }) else lookup j m)
  unfolding set_cached
  set_cached-room j h = ground (arith, lookup-insert k j written m)

  -- A full cache first loses one entry, than which none is older; all other entries stay.
  pub set_cached-full :
      Unique m
      → max_cache_size ≤ length m
      → (victim : String) × IsOldest victim m
        × ((j : String)
            → lookup j (set_cached now k a m) ≡ (
                if string_eq.beq k j
                then some (record { payload = a; timestamp = now })
                else if string_eq.beq victim j
                then none
                else lookup j m))
        × (suc (length (delete victim m)) ≤ length m)
        × (set_cached now k a m
            ≡ insert k (record { payload = a; timestamp = now }) (delete victim m))
  unfolding set_cached evict
  set_cached-full u h =
      let (victim, o) = oldest_total m (omega arith) in
      let old = oldest-IsOldest victim m u o in
      (
        victim,
        old,
        λ j.
            ground
              (arith, o, lookup-insert k j written (delete victim m), lookup-delete victim j m),
        length-delete_hit victim old.0 m old.1,
        ground (arith, o),
      )

  pub set_cached-Unique : Unique m → Unique (set_cached now k a m)
  unfolding set_cached evict
  set_cached-Unique u = elim (Bool-cases (leb max_cache_size (length m))) [
    | inl full ↦
        let (victim, _, _, _, same) = set_cached-full u (leb→le _ _ full) in
        subst Unique (sym same)
          (insert-Unique k written (delete victim m) (delete-Unique victim m u))
    | inr room ↦ rw room (insert-Unique k written m u)
  ]

  pub length-set_cached :
      Unique m → length m ≤ max_cache_size → length (set_cached now k a m) ≤ max_cache_size
  unfolding set_cached
  length-set_cached u h = elim (Bool-cases (leb max_cache_size (length m))) [
    | inl full ↦
        let (victim, _, _, fits, same) = set_cached-full u (leb→le _ _ full) in
        omega (arith, ap length same, length-insert k written (delete victim m))
    | inr room ↦ rw room (ground (arith, length-insert k written m))
  ]

  -- Keys that are absent stay so, but for the one that is written.
  pub set_cached-none :
      (j : String)
      → Unique m
      → lookup j m ≡ none
      → string_eq.beq k j ≡ false
      → lookup j (set_cached now k a m) ≡ none
  set_cached-none j u absent other = elim (Bool-cases (leb max_cache_size (length m))) [
    | inl full ↦
        let (victim, _, look, _, _) = set_cached-full u (leb→le _ _ full) in ground (arith, look j)
    | inr room ↦ ground (arith, set_cached-room j (ground arith))
  ]

  -- The key that is written reads back.
  pub lookup-set_cached_self : Unique m → lookup k (set_cached now k a m) ≡ some written
  unfolding set_cached
  lookup-set_cached_self u =
      ground (arith, lookup-insert k k written m, lookup-insert k k written (evict m), eq_iff k k)

  -- Writing into a full cache first takes out the entry that `oldest` names: no entry is older
  -- than it, and every other one stays.
  pub set_cached-evicts :
      (victim j : String) (other : Entry A)
      → Unique m
      → max_cache_size ≤ length m
      → oldest m ≡ some victim
      → lookup j m ≡ some other
      → (gone : Entry A) × (lookup victim m ≡ some gone)
        × (gone.timestamp ≤ other.timestamp)
        × (lookup j (set_cached now k a m) ≡ (
            if string_eq.beq k j
            then some (record { payload = a; timestamp = now })
            else if string_eq.beq victim j
            then none
            else some other))
  unfolding set_cached evict
  set_cached-evicts victim j other u h o p =
      let (gone, there, least) = oldest-IsOldest victim m u o in
      (
        gone,
        there,
        least j other p,
        ground (arith, o, p, lookup-insert k j written (delete victim m), lookup-delete victim j m),
      )
