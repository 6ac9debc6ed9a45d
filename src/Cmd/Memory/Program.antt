-- ===== src/Cmd/Memory/Program.antt =====
-- Programs over the variables of a function that handles replies: the calls of src/redis_cmd.h and
-- src/redis_cmd.cpp, and the loops of src/redis_protocol.cpp that make the elements of a vector.
use librediscxx.Base.{ℤ, Bool, false, List, [], ◌∷◌, ◌++◌, Option, none, some, Bytes}
use librediscxx.Message.{Message}
use librediscxx.Cmd.Memory
use librediscxx.Cmd.Memory.{
  Heap, Bulks, Output, Outputs, none_type, no_outputs, output, new, append_outputs,
}

pub record Locals : Type 0 where
  pub out : Output
  pub other : Output
  pub mb : Bulks
  pub more_mb : Bulks
  pub smb : Outputs
  pub more_smb : Outputs
  pub text : Bytes
  pub texts : List Bytes
  pub ok : Bool

pub data Op : Type 0 where
  set_status : Bytes → Op
  set_error : Message → Op
  set_i : ℤ → Op
  set_bulk : Bytes → Op
  set_nil_bulk : Op
  set_mbulks : Op
  set_nil_mbulks : Op
  set_smbulks : Op
  set_nil_smbulks : Op
  clear : Op
  swap : Op
  get_bulk : Op
  get_mbulks : Op
  get_strings : Op
  get_smbulks : Op
  push_bulk : Option Bytes → Op
  push_child : Op
  clear_mbulks : Op
  clear_smbulks : Op
  append_mbulks : Op
  append_smbulks : Op
  convert : Op
  convert_smbulks : Op

abbrev pub with_out : Locals → Output × Heap → Locals × Heap
with_out v (o, h) = (record v { out = o }, h)

-- `mbulks->push_back(bulk)`, where the bulk is NULL or new.
unfoldable pub pushed_bulk : Option Bytes → Bulks → Heap → Bulks × Heap
unfolding new
pushed_bulk none mb h = (mb ++ (none ∷ []), h)
pushed_bulk (some s) mb h = let (p, h') = new s h in (mb ++ (some p ∷ []), h')

-- A new output that gets the value of another by `swap`, pushed back; a new output is of no type.
unfoldable pub pushed_child : Output → Outputs → Heap → Output × Outputs × Heap
unfolding new Memory.swap append_outputs
pushed_child o os h =
    let (p, h') = new none_type h in
    let (o', child) = Memory.swap o p.1 in (o', append_outputs os (output p.0 child no_outputs), h')

unfoldable pub run : Op → Locals → Heap → Locals × Heap
unfolding pushed_bulk pushed_child
run (set_status s) v h = with_out v (Memory.set_status s v.out h)
run (set_error e) v h = with_out v (Memory.set_error e v.out h)
run (set_i i) v h = with_out v (Memory.set_i i v.out h)
run (set_bulk b) v h = with_out v (Memory.set_bulk b v.out h)
run set_nil_bulk v h = with_out v (Memory.set_nil_bulk v.out h)
run set_mbulks v h =
    let (o, mb', h') = Memory.set_mbulks v.mb v.out h in (record v { out = o; mb = mb' }, h')
run set_nil_mbulks v h = with_out v (Memory.set_nil_mbulks v.out h)
run set_smbulks v h =
    let (o, smb', h') = Memory.set_smbulks v.smb v.out h in (record v { out = o; smb = smb' }, h')
run set_nil_smbulks v h = with_out v (Memory.set_nil_smbulks v.out h)
run clear v h = with_out v (Memory.clear v.out h)
run swap v h = let (o, o') = Memory.swap v.out v.other in (record v { out = o; other = o' }, h)
run get_bulk v h =
    let (got, s, o) = Memory.get_bulk v.text v.out in (record v { out = o; text = s; ok = got }, h)
run get_mbulks v h =
    let (got, mb', o, h') = Memory.get_mbulks v.mb v.out h in
    (record v { out = o; mb = mb'; ok = got }, h')
run get_strings v h =
    let (got, ss, o, h') = Memory.get_strings v.texts v.out h in
    (record v { out = o; texts = ss; ok = got }, h')
run get_smbulks v h =
    let (got, smb', o, h') = Memory.get_smbulks v.smb v.out h in
    (record v { out = o; smb = smb'; ok = got }, h')
run (push_bulk b) v h = let (mb', h') = pushed_bulk b v.mb h in (record v { mb = mb' }, h')
run push_child v h =
    let (o, smb', h') = pushed_child v.other v.smb h in (record v { other = o; smb = smb' }, h')
run clear_mbulks v h = let (mb', h') = Memory.clear_mbulks v.mb h in (record v { mb = mb' }, h')
run clear_smbulks v h =
    let (smb', h') = Memory.clear_smbulks v.smb h in (record v { smb = smb' }, h')
run append_mbulks v h =
    let (to, from) = Memory.append_mbulks v.mb v.more_mb in
    (record v { mb = to; more_mb = from }, h)
run append_smbulks v h =
    let (to, from) = Memory.append_smbulks v.smb v.more_smb in
    (record v { smb = to; more_smb = from }, h)
run convert v h =
    let (ss, from, h') = Memory.convert v.mb h in (record v { mb = from; texts = ss }, h')
run convert_smbulks v h =
    let (got, from, to, h') = Memory.convert_smbulks v.smb v.mb h in
    (record v { smb = from; mb = to; ok = got }, h')

unfoldable pub runs : List Op → Locals → Heap → Locals × Heap
unfolding run
runs [] v h = (v, h)
runs (op ∷ ops) v h = let (v', h') = run op v h in runs ops v' h'

-- The variables at the start of a function.
unfoldable pub start : Locals
start = record {
  out = none_type;
  other = none_type;
  mb = [];
  more_mb = [];
  smb = no_outputs;
  more_smb = no_outputs;
  text = [];
  texts = [];
  ok = false;
}

-- The end of the function: a `ClearGuard` for each vector, and the destructors of the outputs.
unfoldable pub finish : Locals → Heap → Heap
finish v h =
    let h₁ = (Memory.clear_guard_end Memory.clear_smbulks (some v.more_smb) h).1 in
    let h₂ = (Memory.clear_guard_end Memory.clear_smbulks (some v.smb) h₁).1 in
    let h₃ = (Memory.clear_guard_end Memory.clear_mbulks (some v.more_mb) h₂).1 in
    let h₄ = (Memory.clear_guard_end Memory.clear_mbulks (some v.mb) h₃).1 in
    let h₅ = (Memory.clear v.other h₄).1 in (Memory.clear v.out h₅).1
