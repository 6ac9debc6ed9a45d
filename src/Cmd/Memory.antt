-- ===== src/Cmd/Memory.antt =====
-- Who owns the memory of a reply: the pointers of `RedisOutput` and the functions on vectors of pointers
-- (src/redis_cmd.h and src/redis_cmd.cpp). A pointer stands with the object that it points to, and NULL
-- is `none`; an object is known by the number of objects made before it.
pub mod Program
pub mod Owners
pub mod Accounts
pub mod Values
pub mod Refining
use librediscxx.Base.{
  ℕ, suc, ℤ, Bool, true, false, List, [], ◌∷◌, Option, none, some, Bytes, ◌++◌, ◌&&◌, if◌then◌else◌,
}
use librediscxx.Message.{Message}

-- The number of objects made by `new`, and the objects given to `delete`.
pub record Heap : Type 0 where
  pub made : ℕ
  pub deleted : List ℕ

abbrev pub Pointer {ℓ} : Type ℓ → Type ℓ
Pointer A = Option (ℕ × A)

abbrev pub Bulks : Type 0
Bulks = List (Pointer Bytes)

mutual
  pub data Output : Type 0 where
    none_type : Output
    status : Pointer Bytes → Output
    error : Pointer Message → Output
    integer : Pointer ℤ → Output
    bulk : Pointer Bytes → Output
    mbulks : Pointer Bulks → Output
    smbulks : ℕ → Outputs → Output
    nil_smbulks : Output

  -- A vector of pointers to outputs, none of them NULL.
  pub data Outputs : Type 0 where
    no_outputs : Outputs
    output : ℕ → Output → Outputs → Outputs

unfoldable pub new {ℓ} : {A : Type ℓ} → A → Heap → (ℕ × A) × Heap
new x h = ((h.made, x), record h { made = suc h.made })

unfoldable pub delete_at : ℕ → Heap → Heap
delete_at a h = record h { deleted = a ∷ h.deleted }

unfoldable pub delete {ℓ} : {A : Type ℓ} → Pointer A → Heap → Heap
unfolding delete_at
delete none h = h
delete (some (a, x)) h = delete_at a h

-- The loop of `clear_mbulks`.
unfoldable pub delete_bulks : Bulks → Heap → Heap
unfolding delete
delete_bulks [] h = h
delete_bulks (p ∷ mb) h = delete_bulks mb (delete p h)

unfoldable pub clear_mbulks : Bulks → Heap → Bulks × Heap
unfolding delete_bulks
clear_mbulks mb h = ([], delete_bulks mb h)

unfoldable pub delete_mbulks : Pointer Bulks → Heap → Heap
unfolding delete_bulks delete_at
delete_mbulks none h = h
delete_mbulks (some (a, mb)) h = delete_at a (delete_bulks mb h)

unfoldable pub append_mbulks : Bulks → Bulks → Bulks × Bulks
append_mbulks to from = (to ++ from, [])

-- The strings that `convert` swaps out of a vector.
unfoldable pub strings : Bulks → List Bytes
strings [] = []
strings (none ∷ mb) = strings mb
strings (some (a, s) ∷ mb) = s ∷ strings mb

unfoldable pub convert : Bulks → Heap → List Bytes × Bulks × Heap
unfolding strings clear_mbulks
convert from h = let (from', h') = clear_mbulks from h in (strings from, from', h')

-- What the switch of `clear` deletes, and the loop of `clear_smbulks`, where `delete` runs the destructor
-- of each output, which is `clear`.
unfoldable mutual
  unfolding delete delete_mbulks delete_at

  pub freed : Output → Heap → Heap
  freed none_type h = h
  freed (status p) h = delete p h
  freed (error p) h = delete p h
  freed (integer p) h = delete p h
  freed (bulk p) h = delete p h
  freed (mbulks p) h = delete_mbulks p h
  freed (smbulks a os) h = delete_at a (delete_outputs os h)
  freed nil_smbulks h = h

  pub delete_outputs : Outputs → Heap → Heap
  delete_outputs no_outputs h = h
  delete_outputs (output a o os) h = delete_outputs os (delete_at a (freed o h))

unfoldable pub nulled : Output → Output
nulled none_type = none_type
nulled (status p) = status none
nulled (error p) = error none
nulled (integer p) = integer none
nulled (bulk p) = bulk none
nulled (mbulks p) = mbulks none
nulled (smbulks a os) = nil_smbulks
nulled nil_smbulks = nil_smbulks

unfoldable pub clear : Output → Heap → Output × Heap
unfolding nulled freed
clear o h = (nulled o, freed o h)

unfoldable pub clear_smbulks : Outputs → Heap → Outputs × Heap
unfolding delete_outputs
clear_smbulks os h = (no_outputs, delete_outputs os h)

unfoldable pub append_outputs : Outputs → Outputs → Outputs
append_outputs no_outputs from = from
append_outputs (output a o os) from = output a o (append_outputs os from)

unfoldable pub append_smbulks : Outputs → Outputs → Outputs × Outputs
unfolding append_outputs
append_smbulks to from = (append_outputs to from, no_outputs)

unfoldable pub is_bulk_type : Output → Bool
is_bulk_type (bulk p) = true
is_bulk_type _ = false

unfoldable pub convertible_2_mbulks : Outputs → Bool
unfolding is_bulk_type
convertible_2_mbulks no_outputs = true
convertible_2_mbulks (output a o os) = is_bulk_type o && convertible_2_mbulks os

-- One round of the second `convert`: the pointer moves and leaves NULL behind.
unfoldable pub pointer_of : Output → Pointer Bytes
pointer_of (bulk p) = p
pointer_of _ = none

unfoldable pub moved_from : Output → Output
moved_from (bulk p) = bulk none
moved_from o = o

unfoldable pub bulks_of : Outputs → Bulks
unfolding pointer_of
bulks_of no_outputs = []
bulks_of (output a o os) = pointer_of o ∷ bulks_of os

unfoldable pub all_moved : Outputs → Outputs
unfolding moved_from
all_moved no_outputs = no_outputs
all_moved (output a o os) = output a (moved_from o) (all_moved os)

-- `from` and `to` after the call.
unfoldable pub convert_smbulks : Outputs → Bulks → Heap → Bool × Outputs × Bulks × Heap
unfolding convertible_2_mbulks clear_mbulks clear_smbulks bulks_of all_moved
convert_smbulks from to h =
    let (to', h₁) = clear_mbulks to h in
    let (from', h₂) = clear_smbulks (all_moved from) h₁ in
    if convertible_2_mbulks from
    then (true, from', to' ++ bulks_of from, h₂)
    else (false, from, to, h)

-- The setters: each clears first.
unfoldable pub set_status : Bytes → Output → Heap → Output × Heap
unfolding clear new
set_status s o h = let (_, h') = clear o h in let (p, h'') = new s h' in (status (some p), h'')

unfoldable pub set_error : Message → Output → Heap → Output × Heap
unfolding clear new
set_error e o h = let (_, h') = clear o h in let (p, h'') = new e h' in (error (some p), h'')

unfoldable pub set_i : ℤ → Output → Heap → Output × Heap
unfolding clear new
set_i i o h = let (_, h') = clear o h in let (p, h'') = new i h' in (integer (some p), h'')

unfoldable pub set_bulk : Bytes → Output → Heap → Output × Heap
unfolding clear new
set_bulk b o h = let (_, h') = clear o h in let (p, h'') = new b h' in (bulk (some p), h'')

unfoldable pub set_nil_bulk : Output → Heap → Output × Heap
unfolding clear
set_nil_bulk o h = let (_, h') = clear o h in (bulk none, h')

-- The caller's vector is swapped with a new one.
unfoldable pub set_mbulks : Bulks → Output → Heap → Output × Bulks × Heap
unfolding clear new
set_mbulks mb o h =
    let (_, h') = clear o h in let (p, h'') = new mb h' in (mbulks (some p), [], h'')

unfoldable pub set_nil_mbulks : Output → Heap → Output × Heap
unfolding clear
set_nil_mbulks o h = let (_, h') = clear o h in (mbulks none, h')

unfoldable pub set_smbulks : Outputs → Output → Heap → Output × Outputs × Heap
unfolding clear new
set_smbulks os o h =
    let (_, h') = clear o h in let (p, h'') = new os h' in (smbulks p.0 os, no_outputs, h'')

unfoldable pub set_nil_smbulks : Output → Heap → Output × Heap
unfolding clear
set_nil_smbulks o h = let (_, h') = clear o h in (nil_smbulks, h')

-- `get_bulk` swaps the caller's string with the one that the pointer owns.
unfoldable pub get_bulk : Bytes → Output → Bool × Bytes × Output
get_bulk b (bulk (some (a, s))) = (true, s, bulk (some (a, b)))
get_bulk b o = (false, b, o)

-- The vector of a reply, swapped with an empty one.
unfoldable pub take_mbulks : Output → Bool × Bulks × Output
take_mbulks (mbulks (some (a, mb))) = (true, mb, mbulks (some (a, [])))
take_mbulks o = (false, [], o)

unfoldable pub get_mbulks : Bulks → Output → Heap → Bool × Bulks × Output × Heap
unfolding clear_mbulks take_mbulks
get_mbulks mb o h =
    let (_, h') = clear_mbulks mb h in let (ok, mb', o') = take_mbulks o in (ok, mb', o', h')

-- `get_mbulks` into strings; `before` is what the caller has.
unfoldable pub get_strings : List Bytes → Output → Heap → Bool × List Bytes × Output × Heap
unfolding convert
get_strings before (mbulks (some (a, mb))) h =
    let (ss, mb', h') = convert mb h in (true, ss, mbulks (some (a, mb')), h')
get_strings before o h = (false, before, o, h)

unfoldable pub take_smbulks : Output → Bool × Outputs × Output
take_smbulks (smbulks a os) = (true, os, smbulks a no_outputs)
take_smbulks o = (false, no_outputs, o)

unfoldable pub get_smbulks : Outputs → Output → Heap → Bool × Outputs × Output × Heap
unfolding clear_smbulks take_smbulks
get_smbulks os o h =
    let (_, h') = clear_smbulks os h in let (ok, os', o') = take_smbulks o in (ok, os', o', h')

unfoldable pub swap : Output → Output → Output × Output
swap o other = (other, o)

-- A vector of pointers to commands, none of them NULL: of a command only the output owns objects here.
unfoldable pub delete_commands_of : List (ℕ × Output) → Heap → Heap
unfolding freed delete_at
delete_commands_of [] h = h
delete_commands_of ((a, o) ∷ cs) h = delete_commands_of cs (delete_at a (freed o h))

unfoldable pub clear_commands : List (ℕ × Output) → Heap → List (ℕ × Output) × Heap
unfolding delete_commands_of
clear_commands cs h = ([], delete_commands_of cs h)

unfoldable pub delete_commands : Pointer (List (ℕ × Output)) → Heap → Heap
unfolding delete_commands_of delete_at
delete_commands none h = h
delete_commands (some (a, cs)) h = delete_at a (delete_commands_of cs h)

unfoldable pub delete_smbulks : Pointer Outputs → Heap → Heap
unfolding delete_outputs delete_at
delete_smbulks none h = h
delete_smbulks (some (a, os)) h = delete_at a (delete_outputs os h)

-- `~ClearGuard`, with the `clear` of its type.
unfoldable pub clear_guard_end {ℓ} :
    {A : Type ℓ} → (A → Heap → A × Heap) → Option A → Heap → Option A × Heap
clear_guard_end clear none h = (none, h)
clear_guard_end clear (some t) h = let (t', h') = clear t h in (some t', h')

-- `~DeleteGuard`, with the `_delete` of its type.
unfoldable pub delete_guard_end {ℓ} :
    {A : Type ℓ} → (Pointer A → Heap → Heap) → Pointer A → Heap → Heap
delete_guard_end _delete none h = h
delete_guard_end _delete (some p) h = _delete (some p) h
