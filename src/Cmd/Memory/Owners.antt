-- ===== src/Cmd/Memory/Owners.antt =====
-- Who owns an object of src/redis_cmd.h, and what each function of src/redis_cmd.cpp deletes.
use librediscxx.Base.{
  ℕ, suc, ◌+◌, ◌==◌, ltb, ◌≡◌, refl, ◌∙◌, [], ◌∷◌, ◌++◌, none, some, count, arith, if◌then◌else◌,
}
use librediscxx.Cmd.Memory.{
  Heap, Pointer, Bulks, Output, Outputs, none_type, status, error, integer, bulk, mbulks, smbulks,
  nil_smbulks, no_outputs, output, append_outputs, delete_bulks, delete_mbulks, freed,
  delete_outputs, delete, delete_at, bulks_of, all_moved, moved_from, pointer_of,
}
use librediscxx.Cmd.Memory.Program.{Locals}

-- How often the object `r` is owned.
abbrev pub at : ℕ → ℕ → ℕ
at a r = if a == r then 1 else 0

abbrev pub owned {ℓ} : {A : Type ℓ} → Pointer A → ℕ → ℕ
owned none r = 0
owned (some (a, x)) r = at a r

abbrev pub owned_bulks : Bulks → ℕ → ℕ
owned_bulks [] r = 0
owned_bulks (p ∷ mb) r = owned p r + owned_bulks mb r

abbrev pub owned_mbulks : Pointer Bulks → ℕ → ℕ
owned_mbulks none r = 0
owned_mbulks (some (a, mb)) r = at a r + owned_bulks mb r

unfoldable mutual
  pub owned_out : Output → ℕ → ℕ
  owned_out none_type r = 0
  owned_out (status p) r = owned p r
  owned_out (error p) r = owned p r
  owned_out (integer p) r = owned p r
  owned_out (bulk p) r = owned p r
  owned_out (mbulks p) r = owned_mbulks p r
  owned_out (smbulks a os) r = at a r + owned_outputs os r
  owned_out nil_smbulks r = 0

  pub owned_outputs : Outputs → ℕ → ℕ
  owned_outputs no_outputs r = 0
  owned_outputs (output a o os) r = at a r + owned_out o r + owned_outputs os r

unfoldable pub owned_locals : Locals → ℕ → ℕ
unfolding owned_out owned_outputs
owned_locals v r =
    owned_out v.out r
    + owned_out v.other r
    + owned_bulks v.mb r
    + owned_bulks v.more_mb r
    + owned_outputs v.smb r
    + owned_outputs v.more_smb r

abbrev pub born : Heap → ℕ → ℕ
born h r = if ltb r h.made then 1 else 0

-- Each object that was made is owned once or was deleted once, never both; none else is.
abbrev pub Accounted : Locals → Heap → Type 0
Accounted v h = (r : ℕ) → owned_locals v r + count r h.deleted ≡ born h r

pub born_suc : (n r : ℕ) → (if ltb r (suc n) then 1 else 0) ≡ at n r + (if ltb r n then 1 else 0)
born_suc n r = ground arith

-- The objects deleted from one heap to another.
abbrev pub Frees : (ℕ → ℕ) → Heap → Heap → Type 0
Frees k h h' = (h'.made ≡ h.made) × ((r : ℕ) → count r h'.deleted ≡ k r + count r h.deleted)

pub Frees-then :
    (k l : ℕ → ℕ) (h h' h'' : Heap) → Frees k h h' → Frees l h' h'' → Frees (λ r. k r + l r) h h''
Frees-then k l h h' h'' (m, f) (n, g) = (n ∙ m, λ r. omega (arith, f r, g r))

pub delete-Frees {ℓ} : {A : Type ℓ} (p : Pointer A) (h : Heap) → Frees (owned p) h (delete p h)
unfolding delete delete_at
delete-Frees none h = (refl, λ r. omega arith)
delete-Frees (some (a, x)) h = (refl, λ r. omega arith)

pub delete_bulks-Frees : (mb : Bulks) (h : Heap) → Frees (owned_bulks mb) h (delete_bulks mb h)
unfolding delete_bulks
delete_bulks-Frees [] h = (refl, λ r. omega arith)
delete_bulks-Frees (p ∷ mb) h =
    Frees-then (owned p) (owned_bulks mb) h _ _ (delete-Frees p h)
      (delete_bulks-Frees mb (delete p h))

pub delete_mbulks-Frees :
    (p : Pointer Bulks) (h : Heap) → Frees (owned_mbulks p) h (delete_mbulks p h)
unfolding delete_mbulks delete_at
delete_mbulks-Frees none h = (refl, λ r. omega arith)
delete_mbulks-Frees (some (a, mb)) h =
    let (made, gone) = delete_bulks-Frees mb h in (made, λ r. omega (arith, gone r))

mutual
  unfolding freed delete_outputs owned_out owned_outputs delete_at

  pub freed-Frees : (o : Output) (h : Heap) → Frees (owned_out o) h (freed o h)
  freed-Frees none_type h = (refl, λ r. omega arith)
  freed-Frees (status p) h = delete-Frees p h
  freed-Frees (error p) h = delete-Frees p h
  freed-Frees (integer p) h = delete-Frees p h
  freed-Frees (bulk p) h = delete-Frees p h
  freed-Frees (mbulks p) h = delete_mbulks-Frees p h
  freed-Frees (smbulks a os) h =
      let (made, gone) = delete_outputs-Frees os h in (made, λ r. omega (arith, gone r))
  freed-Frees nil_smbulks h = (refl, λ r. omega arith)

  pub delete_outputs-Frees :
      (os : Outputs) (h : Heap) → Frees (owned_outputs os) h (delete_outputs os h)
  delete_outputs-Frees no_outputs h = (refl, λ r. omega arith)
  delete_outputs-Frees (output a o os) h =
      let (made, gone) = freed-Frees o h in
      let (made', gone') = delete_outputs-Frees os (delete_at a (freed o h)) in
      (made' ∙ made, λ r. omega (arith, gone r, gone' r))

pub owned_bulks-append :
    (to from : Bulks) (r : ℕ) → owned_bulks (to ++ from) r ≡ owned_bulks to r + owned_bulks from r
owned_bulks-append [] from r = omega arith
owned_bulks-append (p ∷ to) from r = omega (arith, owned_bulks-append to from r)

pub owned_outputs-append :
    (to from : Outputs) (r : ℕ)
    → owned_outputs (append_outputs to from) r ≡ owned_outputs to r + owned_outputs from r
unfolding append_outputs owned_outputs
owned_outputs-append no_outputs from r = omega arith
owned_outputs-append (output a o to) from r = omega (arith, owned_outputs-append to from r)

pub moved_from_lem :
    (o : Output) (r : ℕ) → owned_out (moved_from o) r + owned (pointer_of o) r ≡ owned_out o r
unfolding moved_from pointer_of owned_out
moved_from_lem (bulk p) r = omega arith
moved_from_lem none_type r = omega arith
moved_from_lem (status p) r = omega arith
moved_from_lem (error p) r = omega arith
moved_from_lem (integer p) r = omega arith
moved_from_lem (mbulks p) r = omega arith
moved_from_lem (smbulks a os) r = omega arith
moved_from_lem nil_smbulks r = omega arith

pub all_moved_lem :
    (os : Outputs) (r : ℕ)
    → owned_outputs (all_moved os) r + owned_bulks (bulks_of os) r ≡ owned_outputs os r
unfolding all_moved bulks_of owned_outputs
all_moved_lem no_outputs r = omega arith
all_moved_lem (output a o os) r = omega (arith, moved_from_lem o r, all_moved_lem os r)
