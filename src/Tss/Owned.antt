-- ===== src/Tss/Owned.antt =====
-- Who owns each client of the pool (src/redis_tss.cpp), and that each change of the pool keeps it so.
use librediscxx.Base.{
  count, ℕ, ◌+◌, ◌≤◌, ◌<◌, ◌==◌, ◌≡◌, ◌⊎◌, inl, inr, List, [], ◌∷◌, ◌++◌, Option, none, some, Bytes,
  length, if◌then◌else◌, arith, Bool, true, ltb, le_or_lt, Bool-cases, ==_iff, subst, ◌∙◌,
  length-append,
}
use librediscxx.ThreadSpecific.{Storage}
use librediscxx.Tss.{Tss, Client, put_free_redis}

-- One list is a pointer and the other, in some order.
abbrev pub Parts : ℕ → List ℕ → List ℕ → Type 0
Parts p h h' = (r : ℕ) → count r h ≡ (if p == r then 1 else 0) + count r h'

module _ (boost : Storage) (split : Bytes → List Bytes) where
  open boost use {Slots, get_tss_data, set_tss_data, get-set_self, get-set_ne, set-cleanup}

  abbrev pub slot : Tss Slots → ℕ → Option ℕ
  slot m t = get_tss_data m.client t

  -- A change of one thread's pointer.
  abbrev pub set_slot : Tss Slots → ℕ → Option ℕ → Bool → Tss Slots
  set_slot m t p cleanup = record m { client = (set_tss_data m.client t p cleanup).0 }

  -- The list `held` has the pointers in the hands of running code, that no thread's own pointer is.
  abbrev pub places : Tss Slots → List ℕ → ℕ → ℕ
  places m held r = count r m.free_redis + count r held + count r m.deleted

  pub record Owned (m : Tss Slots) (held : List ℕ) : Type 0 where
    pub bounded : length m.free_redis ≤ m.pool_size
    pub once : (r : ℕ) → places m held r ≤ 1
    pub apart : (t r : ℕ) → slot m t ≡ some r → places m held r ≡ 0
    pub alone : (t u r : ℕ) → slot m t ≡ some r → slot m u ≡ some r → t ≡ u
    pub fresh : (r : ℕ) → length m.made ≤ r → places m held r ≡ 0
    pub fresh_slot : (t r : ℕ) → slot m t ≡ some r → r < length m.made
    pub owner :
        (r : ℕ) → r < length m.made → (places m held r ≡ 1) ⊎ ((t : ℕ) × (slot m t ≡ some r))

  pub take-Owned :
      (m : Tss Slots) (held : List ℕ) (free : List ℕ) (p : ℕ)
      → m.free_redis ≡ p ∷ free
      → Owned m held
      → Owned (record m { free_redis = free }) (p ∷ held)
  take-Owned m held free p e o = record {
    bounded = ground (arith, o.bounded);
    once = λ r. ground (arith, o.once r);
    apart = λ t r h. ground (arith, o.apart t r h);
    alone = o.alone;
    fresh = λ r h. ground (arith, o.fresh r h);
    fresh_slot = o.fresh_slot;
    owner = λ r h. ground (arith, o.owner r h);
  }

  pub make-Owned :
      (m : Tss Slots) (held : List ℕ) (c : Client)
      → Owned m held
      → Owned (record m { made = m.made ++ (c ∷ []) }) (length m.made ∷ held)
  make-Owned m held c o =
      let e : length (m.made ++ (c ∷ [])) ≡ length m.made + 1 = length-append m.made (c ∷ []) in
      record {
        bounded = o.bounded;
        once = λ r. ground (arith, o.once r, o.fresh r);
        apart = λ t r h. ground (arith, o.apart t r h, o.fresh_slot t r h);
        alone = o.alone;
        fresh = λ r h. ground (arith, o.fresh r);
        fresh_slot = λ t r h. ground (arith, o.fresh_slot t r h);
        owner = λ r h. elim (le_or_lt (length m.made) r) [
          | inl old ↦ inl (ground (arith, o.fresh r old))
          | inr new ↦ elim (o.owner r new) [ inl here ↦ inl (ground arith) | inr there ↦ inr there ]
        ];
      }

  slot-set_slot :
      (m : Tss Slots) (t u : ℕ) (p : Option ℕ) (cleanup : Bool)
      → slot (set_slot m t p cleanup) u ≡ (if t == u then p else slot m u)
  slot-set_slot m t u p cleanup = elim (Bool-cases (t == u)) [
    | inl e ↦ rw e (
        subst (λ v. slot (set_slot m t p cleanup) v ≡ p) ((==_iff t u).0 e)
          (get-set_self m.client t p cleanup))
    | inr ne ↦ rw ne (get-set_ne m.client t u p cleanup (ground arith))
  ]

  pub keep-Owned :
      (m : Tss Slots) (held held' : List ℕ) (t p : ℕ)
      → Parts p held held'
      → slot m t ≡ none
      → Owned m held
      → Owned (set_slot m t (some p) true) held'
  keep-Owned m held held' t p parts e o = record {
    bounded = o.bounded;
    once = λ r. ground (arith, o.once r, parts r);
    apart =
        λ u r h. ground (arith, slot-set_slot m t u (some p) true, o.apart u r, o.once r, parts r);
    alone = λ u v r h k. ground (
      arith,
      slot-set_slot m t u (some p) true,
      slot-set_slot m t v (some p) true,
      o.alone u v r,
      o.apart u r,
      o.apart v r,
      parts r,
    );
    fresh = λ r h. ground (arith, o.fresh r h, parts r);
    fresh_slot = λ u r h.
        ground (arith, slot-set_slot m t u (some p) true, o.fresh_slot u r, parts r, o.fresh r);
    owner = λ r h. elim (o.owner r h) [
      | inl here ↦ elim (Bool-cases (p == r)) [
        | inl same ↦ inr (t, slot-set_slot m t t (some p) true ∙ ground arith)
        | inr other ↦ inl (ground (arith, parts r))
      ]
      | inr (u, there) ↦ inr (u, ground (arith, slot-set_slot m t u (some p) true))
    ];
  }

  pub let_go-Owned :
      (m : Tss Slots) (held : List ℕ) (t p : ℕ) (cleanup : Bool)
      → slot m t ≡ some p
      → Owned m held
      → Owned (set_slot m t none cleanup) (p ∷ held)
  let_go-Owned m held t p cleanup e o = record {
    bounded = o.bounded;
    once = λ r. ground (arith, o.once r, o.apart t r);
    apart = λ u r h. ground (arith, slot-set_slot m t u none cleanup, o.apart u r, o.alone t u r);
    alone = λ u v r h k.
        ground (
          arith,
          slot-set_slot m t u none cleanup,
          slot-set_slot m t v none cleanup,
          o.alone u v r,
        );
    fresh = λ r h. ground (arith, o.fresh r h, o.fresh_slot t r);
    fresh_slot = λ u r h. ground (arith, slot-set_slot m t u none cleanup, o.fresh_slot u r);
    owner = λ r h. elim (o.owner r h) [
      | inl here ↦ inl (ground (arith, o.apart t r, o.once r))
      | inr (u, there) ↦ elim (Bool-cases (t == u)) [
        | inl same ↦ inl (ground (arith, o.apart t r))
        | inr other ↦ inr (u, ground (arith, slot-set_slot m t u none cleanup))
      ]
    ];
  }

  pub exit-Owned :
      (m : Tss Slots) (held : List ℕ) (t : ℕ) (cleanup : Bool)
      → slot m t ≡ none
      → Owned m held
      → Owned (set_slot m t none cleanup) held
  exit-Owned m held t cleanup e o = record {
    bounded = o.bounded;
    once = o.once;
    apart = λ u r h. ground (arith, slot-set_slot m t u none cleanup, o.apart u r);
    alone = λ u v r h k.
        ground (
          arith,
          slot-set_slot m t u none cleanup,
          slot-set_slot m t v none cleanup,
          o.alone u v r,
        );
    fresh = o.fresh;
    fresh_slot = λ u r h. ground (arith, slot-set_slot m t u none cleanup, o.fresh_slot u r);
    owner = λ r h. elim (o.owner r h) [
      | inl here ↦ inl here
      | inr (u, there) ↦ inr (u, ground (arith, slot-set_slot m t u none cleanup))
    ];
  }

  pub give_back-Owned :
      (m : Tss Slots) (held held' : List ℕ) (p : ℕ)
      → Parts p held held'
      → Owned m held
      → Owned (put_free_redis boost split (some p) m) held'
  unfolding put_free_redis
  give_back-Owned m held held' p parts o =
      elim (Bool-cases (ltb (length m.free_redis) m.pool_size)) [
        | inl room ↦ rw room (record {
          bounded = ground arith;
          once = λ r. ground (arith, o.once r, parts r);
          apart = λ t r h. ground (arith, o.apart t r h, parts r);
          alone = o.alone;
          fresh = λ r h. ground (arith, o.fresh r h, parts r);
          fresh_slot = o.fresh_slot;
          owner = λ r h. ground (arith, o.owner r h, parts r);
        })
        | inr full ↦ rw full (record {
          bounded = o.bounded;
          once = λ r. ground (arith, o.once r, parts r);
          apart = λ t r h. ground (arith, o.apart t r h, parts r);
          alone = o.alone;
          fresh = λ r h. ground (arith, o.fresh r h, parts r);
          fresh_slot = o.fresh_slot;
          owner = λ r h. ground (arith, o.owner r h, parts r);
        })
      ]
