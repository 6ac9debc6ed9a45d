-- ===== src/ThreadSpecific.antt =====
-- `thread_specific_ptr` of src/tss.h, over boost's storage of a pointer for each thread. A pointer that
-- is not NULL is the address of a client.
use librediscxx.Base.{ℕ, ◌==◌, ◌≡◌, ◌≢◌, Bool, true, false, Option, none, some, if◌then◌else◌}

-- What boost documents of `get_tss_data` and `set_tss_data` at one key. A call that sets also hands back
-- the pointer that was there, if its cleanup function is to be called.
pub record Storage : Type 1 where
  pub Slots : Type 0
  pub empty : Slots
  pub get_tss_data : Slots → ℕ → Option ℕ
  pub set_tss_data : Slots → ℕ → Option ℕ → Bool → Slots × Option ℕ
  pub get-empty : (t : ℕ) → get_tss_data empty t ≡ none
  pub get-set_self :
      (s : Slots) (t : ℕ) (p : Option ℕ) (cleanup : Bool)
      → get_tss_data (set_tss_data s t p cleanup).0 t ≡ p
  pub get-set_ne :
      (s : Slots) (t u : ℕ) (p : Option ℕ) (cleanup : Bool)
      → t ≢ u
      → get_tss_data (set_tss_data s t p cleanup).0 u ≡ get_tss_data s u
  pub set-cleanup :
      (s : Slots) (t : ℕ) (p : Option ℕ) (cleanup : Bool)
      → (set_tss_data s t p cleanup).1 ≡ (if cleanup then get_tss_data s t else none)

abbrev pub same_pointer : Option ℕ → Option ℕ → Bool
same_pointer none none = true
same_pointer (some p) (some q) = p == q
same_pointer _ _ = false

module _ (boost : Storage) where
  open boost use {Slots, get_tss_data, set_tss_data}

  unfoldable pub get : ℕ → Slots → Option ℕ
  get t s = get_tss_data s t

  -- The pointer stays with the caller: no cleanup function is called.
  unfoldable pub release : ℕ → Slots → Option ℕ × Slots
  unfolding get
  release t s = (get t s, (set_tss_data s t none false).0)

  -- The second part is the pointer that the cleanup function is called with.
  unfoldable pub reset : ℕ → Option ℕ → Slots → Slots × Option ℕ
  unfolding get
  reset t p s = if same_pointer (get t s) p then (s, none) else set_tss_data s t p true

  -- The end of a thread, and the destructor, which the thread that destroys the object runs.
  unfoldable pub finish : ℕ → Slots → Slots × Option ℕ
  finish t s = set_tss_data s t none true
