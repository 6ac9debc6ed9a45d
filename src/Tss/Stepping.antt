-- ===== src/Tss/Stepping.antt =====
-- The steps of the threads that share a pool (src/redis_tss.cpp), in any order. A step is a critical section or
-- an access to the thread's own pointer.
use librediscxx.Base.{
  ℕ, ◌≡◌, refl, ap, List, [], ◌∷◌, ◌++◌, none, some, Bytes, length, arith, Bool, true, subst,
}
use librediscxx.ThreadSpecific.{Storage}
use librediscxx.Tss.{Tss, Client, get_free_redis, new_client, put_free_redis, popped}
use librediscxx.Tss.Owned.{
  Parts, slot, set_slot, Owned, take-Owned, make-Owned, keep-Owned, let_go-Owned, exit-Owned,
  give_back-Owned,
}

module _ (boost : Storage) (split : Bytes → List Bytes) where
  open boost use {Slots, get_tss_data, set_tss_data, get-set_self, get-set_ne, set-cleanup}

  -- What running code may do next: a critical section of the pool, `new`, or an access of a thread to
  -- its own pointer.
  pub data Step (m : Tss Slots) (held : List ℕ) (m' : Tss Slots) (held' : List ℕ) : Type 0 where
    take :
        (p : ℕ)
        → get_free_redis boost split m ≡ (some p, m')
        → held' ≡ p ∷ held
        → Step m held m' held'
    make :
        (c : Client)
        → new_client boost split m.type m ≡ some c
        → m' ≡ record m { made = m.made ++ (c ∷ []) }
        → held' ≡ length m.made ∷ held
        → Step m held m' held'
    keep :
        (t p : ℕ)
        → Parts p held held'
        → slot boost split m t ≡ none
        → m' ≡ set_slot boost split m t (some p) true
        → Step m held m' held'
    let_go :
        (t p : ℕ) (cleanup : Bool)
        → slot boost split m t ≡ some p
        → m' ≡ set_slot boost split m t none cleanup
        → held' ≡ p ∷ held
        → Step m held m' held'
    give_back :
        (p : ℕ)
        → Parts p held held'
        → m' ≡ put_free_redis boost split (some p) m
        → Step m held m' held'
    exit :
        (t : ℕ) (cleanup : Bool)
        → slot boost split m t ≡ none
        → m' ≡ set_slot boost split m t none cleanup
        → held' ≡ held
        → Step m held m' held'

  pub data Steps (m : Tss Slots) (held : List ℕ) : Tss Slots → List ℕ → Type 0 where
    no_step : Steps m held m held
    after :
        {m' m'' : Tss Slots} {held' held'' : List ℕ}
        → Steps m held m' held'
        → Step m' held' m'' held''
        → Steps m held m'' held''

  taken-Owned :
      (m m' : Tss Slots) (held : List ℕ) (free : List ℕ) (p : ℕ)
      → m.free_redis ≡ free
      → get_free_redis boost split m ≡ (some p, m')
      → Owned boost split m held
      → Owned boost split m' (p ∷ held)
  unfolding get_free_redis popped
  taken-Owned m m' held [] p e taken o = ground arith
  taken-Owned m m' held (q ∷ free) p e taken o =
      let same : popped boost split (q ∷ free) m ≡ (some p, m') =
        subst (λ l. popped boost split l m ≡ (some p, m')) e taken in
      let same_p : q ≡ p = cc (ap (λ x. x.0) same) in
      subst (λ x. Owned boost split x (p ∷ held)) (ap (λ x. x.1) same)
        (subst (λ x. Owned boost split (record m { free_redis = free }) (x ∷ held)) same_p
          (take-Owned boost split m held free q e o))

  Step-Owned :
      {m m' : Tss Slots} {held held' : List ℕ}
      → Step m held m' held'
      → Owned boost split m held
      → Owned boost split m' held'
  Step-Owned {m} {m'} {held} (take p e h) o = rw h (taken-Owned m m' held m.free_redis p refl e o)
  Step-Owned {m} {m'} {held} (make c n e h) o = rw (e, h) (make-Owned boost split m held c o)
  Step-Owned {m} {m'} {held} {held'} (keep t p parts free e) o =
      rw e (keep-Owned boost split m held held' t p parts free o)
  Step-Owned {m} {m'} {held} (let_go t p cleanup own e h) o =
      rw (e, h) (let_go-Owned boost split m held t p cleanup own o)
  Step-Owned {m} {m'} {held} {held'} (give_back p parts e) o =
      rw e (give_back-Owned boost split m held held' p parts o)
  Step-Owned {m} {m'} {held} (exit t cleanup free e h) o =
      rw (e, h) (exit-Owned boost split m held t cleanup free o)

  -- After every order of the steps of any threads: the vector of free clients is within its bound, each client that
  -- was made is in exactly one place (free, in the hands of running code, deleted, or some thread's own), no client
  -- is in a place before it is made, and no two threads have the same client. It holds after when it held before.
  pub Steps-Owned :
      {m : Tss Slots} {held : List ℕ} {m' : Tss Slots} {held' : List ℕ}
      → Owned boost split m held
      → Steps m held m' held'
      → Owned boost split m' held'
  Steps-Owned o no_step = o
  Steps-Owned o (after steps step) = Step-Owned step (Steps-Owned o steps)
