-- ===== src/Cmd/Memory/Accounts.antt =====
-- Each object of src/redis_cmd.h that a program makes has one owner until it is deleted once.
use librediscxx.Base.{
  Bool-cases, inl, inr, ℕ, suc, ◌+◌, ltb, ◌≡◌, refl, List, [], ◌∷◌, Option, none, some, Bytes,
  count, arith, if◌then◌else◌,
}
use librediscxx.Cmd.Memory
use librediscxx.Cmd.Memory.{
  Heap, Pointer, Bulks, Output, Outputs, none_type, status, error, integer, bulk, mbulks, smbulks,
  nil_smbulks, no_outputs, output, append_outputs, delete_bulks, delete_mbulks, freed,
  delete_outputs, delete, delete_at, bulks_of, all_moved, moved_from, pointer_of,
  convertible_2_mbulks, take_mbulks, take_smbulks, nulled, strings, new,
}
use librediscxx.Cmd.Memory.Program.{Locals, Op, pushed_bulk, pushed_child, run, runs, start, finish}
use librediscxx.Cmd.Memory.Owners.{
  at, owned_bulks, owned_out, owned_outputs, owned_locals, born, Accounted, born_suc, Frees,
  delete_bulks-Frees, freed-Frees, delete_outputs-Frees, owned_bulks-append, owned_outputs-append,
  all_moved_lem,
}

-- An operation moves objects, makes new ones and deletes some: it loses none.
abbrev Conserves : Locals → Heap → Locals × Heap → Type 0
Conserves v h (v', h') =
    (r : ℕ)
    → owned_locals v' r + count r h'.deleted + born h r
      ≡ owned_locals v r + count r h.deleted + born h' r

-- `clear` and then `new`, as in each setter.
renewed :
    (o : Output) (h : Heap) (r : ℕ)
    → at (freed o h).made r + count r (freed o h).deleted + born h r
      ≡ owned_out o r + count r h.deleted + (if ltb r (suc (freed o h).made) then 1 else 0)
renewed o h r =
    let (made, gone) = freed-Frees o h in ground (arith, gone r, made, born_suc h.made r)

cleared :
    (o : Output) (h : Heap) (r : ℕ)
    → count r (freed o h).deleted + born h r
      ≡ owned_out o r + count r h.deleted + born (freed o h) r
cleared o h r = let (made, gone) = freed-Frees o h in ground (arith, gone r, made)

emptied :
    (mb : Bulks) (h : Heap) (r : ℕ)
    → count r (delete_bulks mb h).deleted + born h r
      ≡ owned_bulks mb r + count r h.deleted + born (delete_bulks mb h) r
emptied mb h r = let (made, gone) = delete_bulks-Frees mb h in ground (arith, gone r, made)

emptied_outputs :
    (os : Outputs) (h : Heap) (r : ℕ)
    → count r (delete_outputs os h).deleted + born h r
      ≡ owned_outputs os r + count r h.deleted + born (delete_outputs os h) r
emptied_outputs os h r =
    let (made, gone) = delete_outputs-Frees os h in ground (arith, gone r, made)

nulled_lem : (o : Output) (r : ℕ) → owned_out (nulled o) r ≡ 0
unfolding nulled owned_out
nulled_lem none_type r = refl
nulled_lem (status p) r = refl
nulled_lem (error p) r = refl
nulled_lem (integer p) r = refl
nulled_lem (bulk p) r = refl
nulled_lem (mbulks p) r = refl
nulled_lem (smbulks a os) r = refl
nulled_lem nil_smbulks r = refl

get_bulk_lem :
    (b : Bytes) (o : Output) (r : ℕ) → owned_out (Memory.get_bulk b o).2 r ≡ owned_out o r
unfolding Memory.get_bulk owned_out
get_bulk_lem b none_type r = refl
get_bulk_lem b (status p) r = refl
get_bulk_lem b (error p) r = refl
get_bulk_lem b (integer p) r = refl
get_bulk_lem b (bulk none) r = refl
get_bulk_lem b (bulk (some p)) r = refl
get_bulk_lem b (mbulks none) r = refl
get_bulk_lem b (mbulks (some p)) r = refl
get_bulk_lem b (smbulks a os) r = refl
get_bulk_lem b nil_smbulks r = refl

take_mbulks_lem :
    (o : Output) (r : ℕ)
    → owned_out (take_mbulks o).2 r + owned_bulks (take_mbulks o).1 r ≡ owned_out o r
unfolding take_mbulks owned_out
take_mbulks_lem none_type r = omega arith
take_mbulks_lem (status p) r = omega arith
take_mbulks_lem (error p) r = omega arith
take_mbulks_lem (integer p) r = omega arith
take_mbulks_lem (bulk none) r = omega arith
take_mbulks_lem (bulk (some p)) r = omega arith
take_mbulks_lem (mbulks none) r = omega arith
take_mbulks_lem (mbulks (some p)) r = omega arith
take_mbulks_lem (smbulks a os) r = omega arith
take_mbulks_lem nil_smbulks r = omega arith

take_smbulks_lem :
    (o : Output) (r : ℕ)
    → owned_out (take_smbulks o).2 r + owned_outputs (take_smbulks o).1 r ≡ owned_out o r
unfolding take_smbulks owned_out owned_outputs
take_smbulks_lem none_type r = omega arith
take_smbulks_lem (status p) r = omega arith
take_smbulks_lem (error p) r = omega arith
take_smbulks_lem (integer p) r = omega arith
take_smbulks_lem (bulk none) r = omega arith
take_smbulks_lem (bulk (some p)) r = omega arith
take_smbulks_lem (mbulks none) r = omega arith
take_smbulks_lem (mbulks (some p)) r = omega arith
take_smbulks_lem (smbulks a os) r = omega arith
take_smbulks_lem nil_smbulks r = omega arith

get_strings_lem :
    (ss : List Bytes) (o : Output) (h : Heap) (r : ℕ)
    → let (_, _, o', h') = Memory.get_strings ss o h in
      owned_out o' r + count r h'.deleted + born h r ≡ owned_out o r + count r h.deleted + born h' r
unfolding Memory.get_strings Memory.convert Memory.clear_mbulks owned_out
get_strings_lem ss none_type h r = refl
get_strings_lem ss (status p) h r = refl
get_strings_lem ss (error p) h r = refl
get_strings_lem ss (integer p) h r = refl
get_strings_lem ss (bulk none) h r = refl
get_strings_lem ss (bulk (some p)) h r = refl
get_strings_lem ss (mbulks none) h r = refl
get_strings_lem ss (mbulks (some (a, mb))) h r = omega (arith, emptied mb h r)
get_strings_lem ss (smbulks a os) h r = refl
get_strings_lem ss nil_smbulks h r = refl

pushed_bulk_lem :
    (b : Option Bytes) (mb : Bulks) (h : Heap) (r : ℕ)
    → let (mb', h') = pushed_bulk b mb h in
      owned_bulks mb' r + count r h'.deleted + born h r
      ≡ owned_bulks mb r + count r h.deleted + born h' r
unfolding pushed_bulk new
pushed_bulk_lem none mb h r = omega (arith, owned_bulks-append mb (none ∷ []) r)
pushed_bulk_lem (some s) mb h r =
    omega (arith, owned_bulks-append mb (some (h.made, s) ∷ []) r, born_suc h.made r)

pushed_child_lem :
    (o : Output) (os : Outputs) (h : Heap) (r : ℕ)
    → let (o', os', h') = pushed_child o os h in
      owned_out o' r + owned_outputs os' r + count r h'.deleted + born h r
      ≡ owned_out o r + owned_outputs os r + count r h.deleted + born h' r
unfolding pushed_child new Memory.swap owned_out owned_outputs
pushed_child_lem o os h r =
    omega (arith, owned_outputs-append os (output h.made o no_outputs) r, born_suc h.made r)

convert_smbulks_lem :
    (from : Outputs) (to : Bulks) (h : Heap) (r : ℕ)
    → let (_, from', to', h') = Memory.convert_smbulks from to h in
      owned_outputs from' r + owned_bulks to' r + count r h'.deleted + born h r
      ≡ owned_outputs from r + owned_bulks to r + count r h.deleted + born h' r
unfolding Memory.convert_smbulks Memory.clear_mbulks Memory.clear_smbulks owned_outputs
convert_smbulks_lem from to h r = elim (Bool-cases (convertible_2_mbulks from)) [
  | inl all ↦ rw all (
      omega (
        arith,
        emptied to h r,
        emptied_outputs (all_moved from) (delete_bulks to h) r,
        all_moved_lem from r,
        owned_bulks-append [] (bulks_of from) r,
      ))
  | inr other ↦ rw other refl
]

run-Conserves : (op : Op) (v : Locals) (h : Heap) → Conserves v h (run op v h)
unfolding run Memory.set_status Memory.set_error Memory.set_i Memory.set_bulk Memory.set_nil_bulk
    Memory.set_mbulks Memory.set_nil_mbulks Memory.set_smbulks Memory.set_nil_smbulks Memory.clear
    Memory.swap Memory.get_mbulks Memory.get_smbulks Memory.clear_mbulks Memory.clear_smbulks
    Memory.append_mbulks Memory.append_smbulks Memory.convert new owned_locals owned_out
    owned_outputs
run-Conserves (Op.set_status s) v h r = omega (arith, renewed v.out h r)
run-Conserves (Op.set_error e) v h r = omega (arith, renewed v.out h r)
run-Conserves (Op.set_i i) v h r = omega (arith, renewed v.out h r)
run-Conserves (Op.set_bulk b) v h r = omega (arith, renewed v.out h r)
run-Conserves Op.set_nil_bulk v h r = omega (arith, cleared v.out h r)
run-Conserves Op.set_mbulks v h r = omega (arith, renewed v.out h r)
run-Conserves Op.set_nil_mbulks v h r = omega (arith, cleared v.out h r)
run-Conserves Op.set_smbulks v h r = omega (arith, renewed v.out h r)
run-Conserves Op.set_nil_smbulks v h r = omega (arith, cleared v.out h r)
run-Conserves Op.clear v h r = omega (arith, cleared v.out h r, nulled_lem v.out r)
run-Conserves Op.swap v h r = omega arith
run-Conserves Op.get_bulk v h r = omega (arith, get_bulk_lem v.text v.out r)
run-Conserves Op.get_mbulks v h r = omega (arith, take_mbulks_lem v.out r, emptied v.mb h r)
run-Conserves Op.get_strings v h r = omega (arith, get_strings_lem v.texts v.out h r)
run-Conserves Op.get_smbulks v h r =
    omega (arith, take_smbulks_lem v.out r, emptied_outputs v.smb h r)
run-Conserves (Op.push_bulk b) v h r = omega (arith, pushed_bulk_lem b v.mb h r)
run-Conserves Op.push_child v h r = omega (arith, pushed_child_lem v.other v.smb h r)
run-Conserves Op.clear_mbulks v h r = omega (arith, emptied v.mb h r)
run-Conserves Op.clear_smbulks v h r = omega (arith, emptied_outputs v.smb h r)
run-Conserves Op.append_mbulks v h r = omega (arith, owned_bulks-append v.mb v.more_mb r)
run-Conserves Op.append_smbulks v h r = omega (arith, owned_outputs-append v.smb v.more_smb r)
run-Conserves Op.convert v h r = omega (arith, emptied v.mb h r)
run-Conserves Op.convert_smbulks v h r = omega (arith, convert_smbulks_lem v.smb v.mb h r)

runs-Conserves : (ops : List Op) (v : Locals) (h : Heap) → Conserves v h (runs ops v h)
unfolding runs
runs-Conserves [] v h r = refl
runs-Conserves (op ∷ ops) v h r =
    omega (arith, run-Conserves op v h r, runs-Conserves ops (run op v h).0 (run op v h).1 r)

finish-Frees : (v : Locals) (h : Heap) → Frees (owned_locals v) h (finish v h)
unfolding finish owned_locals Memory.clear_guard_end Memory.clear Memory.clear_mbulks
    Memory.clear_smbulks
finish-Frees v h =
    let h₁ = delete_outputs v.more_smb h in
    let h₂ = delete_outputs v.smb h₁ in
    let h₃ = delete_bulks v.more_mb h₂ in
    let h₄ = delete_bulks v.mb h₃ in
    let h₅ = freed v.other h₄ in
    let (m₁, g₁) = delete_outputs-Frees v.more_smb h in
    let (m₂, g₂) = delete_outputs-Frees v.smb h₁ in
    let (m₃, g₃) = delete_bulks-Frees v.more_mb h₂ in
    let (m₄, g₄) = delete_bulks-Frees v.mb h₃ in
    let (m₅, g₅) = freed-Frees v.other h₄ in
    let (m₆, g₆) = freed-Frees v.out h₅ in
    (omega arith, λ r. omega (arith, g₁ r, g₂ r, g₃ r, g₄ r, g₅ r, g₆ r))

-- While a function runs any calls of the setters, the getters, `clear`, `swap`, the conversions and the appends of
-- src/redis_cmd.h, and pushes new elements, every object that it made is owned by exactly one of its variables or was
-- deleted once, and not both, when this held at the start.
pub runs-Accounted :
    (ops : List Op) (v : Locals) (h : Heap)
    → Accounted v h
    → Accounted (runs ops v h).0 (runs ops v h).1
runs-Accounted ops v h accounted r = omega (arith, runs-Conserves ops v h r, accounted r)

-- A function that starts with empty variables and an empty heap, makes any of these calls, and ends with the
-- `ClearGuard` of each vector and the destructors of its outputs, has deleted each object that it made exactly once.
pub finish_lem :
    (ops : List Op) (r : ℕ)
    → let (v, h) = runs ops start (record { made = 0; deleted = [] }) in
      count r (finish v h).deleted ≡ (if ltb r h.made then 1 else 0)
unfolding start owned_locals owned_out owned_outputs
finish_lem ops r =
    let h₀ : Heap = record { made = 0; deleted = [] } in
    let (_, gone) = finish-Frees (runs ops start h₀).0 (runs ops start h₀).1 in
    omega (arith, runs-Accounted ops start h₀ (λ r'. ground arith) r, gone r)
