-- ===== src/Tss/Calling.antt =====
-- `get`, `put` and the end of a thread (src/redis_tss.cpp), as calls of a program that keeps to one of
-- the usages that src/redis_tss.h lists.
use librediscxx.Base.{
  ℕ, ◌≡◌, refl, ap, sym, ◌∙◌, subst, List, [], ◌∷◌, Option, none, some, Bytes, inl, inr,
  Option-cases, ==_refl, if◌then◌else◌, true, false,
}
use librediscxx.ThreadSpecific
use librediscxx.ThreadSpecific.{Storage, same_pointer}
use librediscxx.Tss.{
  Tss, TssFlag, thread_specific, not_thread_specific, Client, get_free_redis, new_client,
  put_free_redis, popped, or_create, added, get_free_or_create_redis, cleaned, kept, get_specific,
  get, released, put, thread_exit,
}
use librediscxx.Tss.Stepping
use librediscxx.Tss.Owned.{Parts, slot, set_slot}
use librediscxx.Tss.Stepping.{Step, Steps, no_step, after}

module _ (boost : Storage) (split : Bytes → List Bytes) where
  open boost use {Slots, get_tss_data, set_tss_data, get-set_self, set-cleanup}

  -- A client for the caller, or an exception that changes nothing; no thread's pointer changes.
  abbrev pub Fetched : Option ℕ × Tss Slots → Tss Slots → List ℕ → Type 0
  Fetched (some p, m') m held = Steps boost split m held m' (p ∷ held) × (m'.client ≡ m.client)
  Fetched (none, m') m held = m' ≡ m

  added-Fetched :
      (o : Option Client) (m : Tss Slots) (held : List ℕ)
      → new_client boost split m.type m ≡ o
      → Fetched (added boost split o m) m held
  unfolding added
  added-Fetched none m held e = refl
  added-Fetched (some c) m held e = (after no_step (Stepping.make c e refl refl), refl)

  or_create-Fetched :
      (free : List ℕ) (m : Tss Slots) (held : List ℕ)
      → m.free_redis ≡ free
      → Fetched (or_create boost split (popped boost split free m)) m held
  unfolding or_create popped get_free_redis
  or_create-Fetched [] m held e = added-Fetched (new_client boost split m.type m) m held refl
  or_create-Fetched (p ∷ free) m held e =
      (after no_step (Stepping.take p (ap (λ l. popped boost split l m) e) refl), refl)

  fetch-Fetched :
      (m : Tss Slots) (held : List ℕ) → Fetched (get_free_or_create_redis boost split m) m held
  unfolding get_free_or_create_redis get_free_redis
  fetch-Fetched m held = or_create-Fetched m.free_redis m held refl

  -- The thread's own pointer is the result.
  abbrev pub Mine : Option ℕ × Tss Slots → ℕ → Tss Slots → List ℕ → Type 0
  Mine (some p, m') t m held = Steps boost split m held m' held × (slot boost split m' t ≡ some p)
  Mine (none, m') t m held = m' ≡ m

  cleaned-none :
      (m : Tss Slots) (t : ℕ) (p : Option ℕ)
      → slot boost split m t ≡ none
      → cleaned boost split (set_tss_data m.client t p true) m ≡ set_slot boost split m t p true
  unfolding cleaned put_free_redis
  cleaned-none m t p e =
      subst
        (λ o.
          put_free_redis boost split o (set_slot boost split m t p true)
          ≡ set_slot boost split m t p true)
        (sym (set-cleanup m.client t p true ∙ e)) refl

  pub cleaned-some :
      (m : Tss Slots) (t p : ℕ)
      → slot boost split m t ≡ some p
      → cleaned boost split (set_tss_data m.client t none true) m
        ≡ put_free_redis boost split (some p) (set_slot boost split m t none true)
  unfolding cleaned
  cleaned-some m t p e =
      ap (λ o. put_free_redis boost split o (set_slot boost split m t none true))
        (set-cleanup m.client t none true ∙ e)

  cleaned-reset :
      (m : Tss Slots) (t p : ℕ)
      → slot boost split m t ≡ none
      → cleaned boost split (ThreadSpecific.reset boost t (some p) m.client) m
        ≡ set_slot boost split m t (some p) true
  unfolding ThreadSpecific.reset
  cleaned-reset m t p e = rw e (cleaned-none m t (some p) e)

  kept-Mine :
      (q : Option ℕ × Tss Slots) (t : ℕ) (m : Tss Slots) (held : List ℕ)
      → slot boost split m t ≡ none
      → Fetched q m held
      → Mine (kept boost split t q) t m held
  unfolding kept
  kept-Mine (none, m') t m held e same = same
  kept-Mine (some p, m') t m held e (steps, same) =
      let free : slot boost split m' t ≡ none = ap (λ s. get_tss_data s t) same ∙ e in
      rw (cleaned-reset m' t p free) (
        after steps (Stepping.keep t p (λ r. refl) free refl),
        get-set_self m'.client t (some p) true,
      )

  get_specific-Mine :
      (o : Option ℕ) (t : ℕ) (m : Tss Slots) (held : List ℕ)
      → slot boost split m t ≡ o
      → Mine (get_specific boost split t o m) t m held
  unfolding get_specific
  get_specific-Mine none t m held e =
      kept-Mine (get_free_or_create_redis boost split m) t m held e (fetch-Fetched m held)
  get_specific-Mine (some p) t m held e = (no_step, e)

  -- What `get` gives: a client that is the thread's own, or one in the hands of the caller.
  abbrev pub Gets : TssFlag → Option ℕ × Tss Slots → ℕ → Tss Slots → List ℕ → Type 0
  Gets thread_specific q t m held = Mine q t m held
  Gets not_thread_specific q t m held = Fetched q m held

  pub get-Gets :
      (flag : TssFlag) (t : ℕ) (m : Tss Slots) (held : List ℕ)
      → Gets flag (get boost split flag t m) t m held
  unfolding get
  get-Gets thread_specific t m held = get_specific-Mine (slot boost split m t) t m held refl
  get-Gets not_thread_specific t m held = fetch-Fetched m held

  pub thread_exit-Steps :
      (t : ℕ) (m : Tss Slots) (held : List ℕ)
      → Steps boost split m held (thread_exit boost split t m) held
  unfolding thread_exit ThreadSpecific.finish
  thread_exit-Steps t m held = elim (Option-cases (slot boost split m t)) [
    | inl e ↦ rw (cleaned-none m t none e) (after no_step (Stepping.exit t true e refl refl))
    | inr (p, e) ↦ rw (cleaned-some m t p e) (
        after (after no_step (Stepping.let_go t p true e refl refl))
          (Stepping.give_back p (λ r. refl) refl))
  ]

  released_lem :
      (t p : ℕ) (m : Tss Slots)
      → slot boost split m t ≡ some p
      → (if same_pointer (ThreadSpecific.get boost t m.client) (some p)
          then released boost split t m
          else m)
        ≡ set_slot boost split m t none false
  unfolding released ThreadSpecific.get
  released_lem t p m e = rw (e, ==_refl p) refl

  pub put-Steps_specific :
      (t p : ℕ) (m : Tss Slots) (held : List ℕ)
      → slot boost split m t ≡ some p
      → Steps boost split m held (put boost split (some p) thread_specific t m) held
  unfolding put
  put-Steps_specific t p m held e =
      subst (λ x. Steps boost split m held (put_free_redis boost split (some p) x) held)
        (sym (released_lem t p m e))
        (after (after no_step (Stepping.let_go t p false e refl refl))
          (Stepping.give_back p (λ r. refl) refl))

  pub put-Steps :
      (t p : ℕ) (m : Tss Slots) (held held' : List ℕ)
      → Parts p held held'
      → Steps boost split m held (put boost split (some p) not_thread_specific t m) held'
  unfolding put
  put-Steps t p m held held' parts = after no_step (Stepping.give_back p parts refl)
