-- ===== src/Cmd/Memory/Values.antt =====
-- The values of a program's variables (src/redis_cmd.h): what the pointers point to, as src/redis_cmd.h's
-- documented calls change it, without any owner or heap.
use librediscxx.Base.{Bool, true, false, List, [], ◌∷◌, ◌++◌, Option, none, some, Bytes, map}
use librediscxx.Cmd.Output
use librediscxx.Cmd.Output.{RedisOutput, MBulks, of_list, to_list}
use librediscxx.Cmd.Memory
use librediscxx.Cmd.Memory.{
  Heap, Pointer, Bulks, Outputs, none_type, status, error, integer, bulk, mbulks, smbulks,
  nil_smbulks, no_outputs, output, append_outputs, strings, nulled, take_mbulks, take_smbulks,
  bulks_of, pointer_of, convertible_2_mbulks, is_bulk_type, new,
}
use librediscxx.Cmd.Memory.Program.{Locals, Op}

-- What a pointer points to.
abbrev pub pointed {ℓ} : {A : Type ℓ} → Pointer A → Option A
pointed none = none
pointed (some (a, x)) = some x

abbrev pub mbulks_of : Bulks → MBulks
mbulks_of mb = map pointed mb

abbrev pub vector_of : Pointer Bulks → Option MBulks
vector_of none = none
vector_of (some (a, mb)) = some (mbulks_of mb)

unfoldable mutual
  unfolding of_list

  pub value : Memory.Output → RedisOutput
  value none_type = RedisOutput.none_type
  value (status p) = RedisOutput.status (pointed p)
  value (error p) = RedisOutput.error (pointed p)
  value (integer p) = RedisOutput.integer (pointed p)
  value (bulk p) = RedisOutput.bulk (pointed p)
  value (mbulks p) = RedisOutput.mbulks (vector_of p)
  value (smbulks a os) = RedisOutput.smbulks (of_list (values os))
  value nil_smbulks = RedisOutput.nil_smbulks

  pub values : Outputs → List RedisOutput
  values no_outputs = []
  values (output a o os) = value o ∷ values os

pub record View : Type 0 where
  pub out : RedisOutput
  pub other : RedisOutput
  pub mb : MBulks
  pub more_mb : MBulks
  pub smb : List RedisOutput
  pub more_smb : List RedisOutput
  pub text : Bytes
  pub texts : List Bytes
  pub ok : Bool

unfoldable pub view : Locals → View
unfolding value values
view v = record {
  out = value v.out;
  other = value v.other;
  mb = mbulks_of v.mb;
  more_mb = mbulks_of v.more_mb;
  smb = values v.smb;
  more_smb = values v.more_smb;
  text = v.text;
  texts = v.texts;
  ok = v.ok;
}

-- The getters: what they say and give, and what they leave.
unfoldable pub read_bulk : Bytes → RedisOutput → Bool × Bytes × RedisOutput
read_bulk b o = elim (Output.get_bulk o) [
  | none ↦ (false, b, o)
  | some s ↦ (true, s, Output.set_bulk b o)
]

unfoldable pub read_mbulks : RedisOutput → Bool × MBulks × RedisOutput
read_mbulks o = elim (Output.get_mbulks o) [
  | none ↦ (false, [], o)
  | some mb ↦ (true, mb, Output.set_mbulks [] o)
]

unfoldable pub read_strings : List Bytes → RedisOutput → Bool × List Bytes × RedisOutput
read_strings ss o = elim (Output.get_mbulks o) [
  | none ↦ (false, ss, o)
  | some mb ↦ (true, Output.convert mb, Output.set_mbulks [] o)
]

unfoldable pub read_smbulks : RedisOutput → Bool × List RedisOutput × RedisOutput
read_smbulks o = elim (Output.get_smbulks o) [
  | none ↦ (false, [], o)
  | some os ↦ (true, os, Output.set_smbulks [] o)
]

unfoldable pub converted : List RedisOutput → MBulks → Bool × List RedisOutput × MBulks
converted from to = elim (Output.convert_smbulks from) [
  | none ↦ (false, from, to)
  | some mb ↦ (true, [], mb)
]

-- What each call means for the values.
unfoldable pub meaning : Op → View → View
unfolding read_bulk read_mbulks read_strings read_smbulks converted
meaning (Op.set_status s) v = record v { out = Output.set_status s v.out }
meaning (Op.set_error e) v = record v { out = Output.set_error e v.out }
meaning (Op.set_i i) v = record v { out = Output.set_i i v.out }
meaning (Op.set_bulk b) v = record v { out = Output.set_bulk b v.out }
meaning Op.set_nil_bulk v = record v { out = Output.set_nil_bulk v.out }
meaning Op.set_mbulks v = record v { out = Output.set_mbulks v.mb v.out; mb = [] }
meaning Op.set_nil_mbulks v = record v { out = Output.set_nil_mbulks v.out }
meaning Op.set_smbulks v = record v { out = Output.set_smbulks v.smb v.out; smb = [] }
meaning Op.set_nil_smbulks v = record v { out = Output.set_nil_smbulks v.out }
meaning Op.clear v = record v { out = Output.clear v.out }
meaning Op.swap v = record v { out = v.other; other = v.out }
meaning Op.get_bulk v =
    let (got, s, o) = read_bulk v.text v.out in record v { out = o; text = s; ok = got }
meaning Op.get_mbulks v =
    let (got, mb', o) = read_mbulks v.out in record v { out = o; mb = mb'; ok = got }
meaning Op.get_strings v =
    let (got, ss, o) = read_strings v.texts v.out in record v { out = o; texts = ss; ok = got }
meaning Op.get_smbulks v =
    let (got, os, o) = read_smbulks v.out in record v { out = o; smb = os; ok = got }
meaning (Op.push_bulk b) v = record v { mb = v.mb ++ (b ∷ []) }
meaning Op.push_child v = record v { other = RedisOutput.none_type; smb = v.smb ++ (v.other ∷ []) }
meaning Op.clear_mbulks v = record v { mb = [] }
meaning Op.clear_smbulks v = record v { smb = [] }
meaning Op.append_mbulks v =
    let (to, from) = Output.append_mbulks v.mb v.more_mb in record v { mb = to; more_mb = from }
meaning Op.append_smbulks v = record v { smb = v.smb ++ v.more_smb; more_smb = [] }
meaning Op.convert v = record v { mb = []; texts = Output.convert v.mb }
meaning Op.convert_smbulks v =
    let (got, from, to) = converted v.smb v.mb in record v { smb = from; mb = to; ok = got }

unfoldable pub meanings : List Op → View → View
unfolding meaning
meanings [] v = v
meanings (op ∷ ops) v = meanings ops (meaning op v)
