-- ===== src/Cmd/Memory/Refining.antt =====
-- The calls of src/redis_cmd.h on pointers mean what they mean on values.
use librediscxx.Base.{
  ◌≡◌, refl, ap, sym, ◌∙◌, Bool, true, false, List, [], ◌∷◌, ◌++◌, Option, none, some, Bytes, map,
  if◌then◌else◌, Bool-cases, inl, inr,
}
use librediscxx.Cmd.Output
use librediscxx.Cmd.Output.{RedisOutput, MBulks, of_list, to_list}
use librediscxx.Cmd.Memory
use librediscxx.Cmd.Memory.{
  Heap, Pointer, Bulks, Outputs, none_type, status, error, integer, bulk, mbulks, smbulks,
  nil_smbulks, no_outputs, output, append_outputs, strings, nulled, take_mbulks, take_smbulks,
  bulks_of, pointer_of, convertible_2_mbulks, is_bulk_type, new,
}
use librediscxx.Cmd.Memory.Program.{Locals, Op, pushed_bulk, run, runs}
use librediscxx.Cmd.Memory.Values.{
  pointed, mbulks_of, value, values, view, read_bulk, read_mbulks, read_strings, read_smbulks,
  converted, meaning, meanings,
}

strings_lem : (mb : Bulks) → strings mb ≡ Output.convert (mbulks_of mb)
unfolding strings Output.convert
strings_lem [] = refl
strings_lem (none ∷ mb) = strings_lem mb
strings_lem (some (a, s) ∷ mb) = ap (λ ss. s ∷ ss) (strings_lem mb)

value-nulled : (o : Memory.Output) → value (nulled o) ≡ Output.clear (value o)
unfolding nulled value Output.clear
value-nulled none_type = refl
value-nulled (status p) = refl
value-nulled (error p) = refl
value-nulled (integer p) = refl
value-nulled (bulk none) = refl
value-nulled (bulk (some p)) = refl
value-nulled (mbulks none) = refl
value-nulled (mbulks (some p)) = refl
value-nulled (smbulks a os) = refl
value-nulled nil_smbulks = refl

to-of_list : (os : List RedisOutput) → to_list (of_list os) ≡ os
unfolding to_list of_list
to-of_list [] = refl
to-of_list (o ∷ os) = ap (λ l. o ∷ l) (to-of_list os)

get_bulk-value :
    (b : Bytes) (o : Memory.Output)
    → let (got, s, o') = Memory.get_bulk b o in (got, s, value o') ≡ read_bulk b (value o)
unfolding Memory.get_bulk value read_bulk Output.get_bulk Output.set_bulk
get_bulk-value b none_type = refl
get_bulk-value b (status p) = refl
get_bulk-value b (error p) = refl
get_bulk-value b (integer p) = refl
get_bulk-value b (bulk none) = refl
get_bulk-value b (bulk (some p)) = refl
get_bulk-value b (mbulks none) = refl
get_bulk-value b (mbulks (some p)) = refl
get_bulk-value b (smbulks a os) = refl
get_bulk-value b nil_smbulks = refl

take_mbulks-value :
    (o : Memory.Output)
    → let (got, mb, o') = take_mbulks o in (got, mbulks_of mb, value o') ≡ read_mbulks (value o)
unfolding take_mbulks value read_mbulks Output.get_mbulks Output.set_mbulks
take_mbulks-value none_type = refl
take_mbulks-value (status p) = refl
take_mbulks-value (error p) = refl
take_mbulks-value (integer p) = refl
take_mbulks-value (bulk none) = refl
take_mbulks-value (bulk (some p)) = refl
take_mbulks-value (mbulks none) = refl
take_mbulks-value (mbulks (some p)) = refl
take_mbulks-value (smbulks a os) = refl
take_mbulks-value nil_smbulks = refl

get_strings-value :
    (ss : List Bytes) (o : Memory.Output) (h : Heap)
    → let (got, ss', o', h') = Memory.get_strings ss o h in
      (got, ss', value o') ≡ read_strings ss (value o)
unfolding Memory.get_strings Memory.convert Memory.clear_mbulks value read_strings Output.get_mbulks
    Output.set_mbulks
get_strings-value ss none_type h = refl
get_strings-value ss (status p) h = refl
get_strings-value ss (error p) h = refl
get_strings-value ss (integer p) h = refl
get_strings-value ss (bulk none) h = refl
get_strings-value ss (bulk (some p)) h = refl
get_strings-value ss (mbulks none) h = refl
get_strings-value ss (mbulks (some (a, mb))) h =
    ap (λ l. (true, l, RedisOutput.mbulks (some []))) (strings_lem mb)
get_strings-value ss (smbulks a os) h = refl
get_strings-value ss nil_smbulks h = refl

take_smbulks-value :
    (o : Memory.Output)
    → let (got, os, o') = take_smbulks o in (got, values os, value o') ≡ read_smbulks (value o)
unfolding take_smbulks value values read_smbulks Output.get_smbulks Output.set_smbulks
take_smbulks-value none_type = refl
take_smbulks-value (status p) = refl
take_smbulks-value (error p) = refl
take_smbulks-value (integer p) = refl
take_smbulks-value (bulk none) = refl
take_smbulks-value (bulk (some p)) = refl
take_smbulks-value (mbulks none) = refl
take_smbulks-value (mbulks (some p)) = refl
take_smbulks-value (smbulks a os) =
    ap (λ l. (true, l, RedisOutput.smbulks (of_list []))) (sym (to-of_list (values os)))
take_smbulks-value nil_smbulks = refl

map-append {ℓ κ} :
    {A : Type ℓ} {B : Type κ} (f : A → B) (xs ys : List A) → map f (xs ++ ys) ≡ map f xs ++ map f ys
map-append f [] ys = refl
map-append f (x ∷ xs) ys = ap (λ l. f x ∷ l) (map-append f xs ys)

values-append : (to from : Outputs) → values (append_outputs to from) ≡ values to ++ values from
unfolding append_outputs value values
values-append no_outputs from = refl
values-append (output a o to) from = ap (λ l. value o ∷ l) (values-append to from)

pushed_bulk-value :
    (b : Option Bytes) (mb : Bulks) (h : Heap)
    → mbulks_of (pushed_bulk b mb h).0 ≡ mbulks_of mb ++ (b ∷ [])
unfolding pushed_bulk new
pushed_bulk-value none mb h = map-append pointed mb (none ∷ [])
pushed_bulk-value (some s) mb h = map-append pointed mb (some (h.made, s) ∷ [])

is_bulk_type-value : (o : Memory.Output) → is_bulk_type o ≡ Output.is_bulk_type (value o)
unfolding is_bulk_type value Output.is_bulk_type
is_bulk_type-value none_type = refl
is_bulk_type-value (status p) = refl
is_bulk_type-value (error p) = refl
is_bulk_type-value (integer p) = refl
is_bulk_type-value (bulk none) = refl
is_bulk_type-value (bulk (some p)) = refl
is_bulk_type-value (mbulks none) = refl
is_bulk_type-value (mbulks (some p)) = refl
is_bulk_type-value (smbulks a os) = refl
is_bulk_type-value nil_smbulks = refl

convertible_value :
    (os : Outputs) → convertible_2_mbulks os ≡ Output.convertible_2_mbulks (values os)
unfolding convertible_2_mbulks Output.convertible_2_mbulks value values
convertible_value no_outputs = refl
convertible_value (output a o os) = rw (is_bulk_type-value o, convertible_value os)

pointer_of-value : (o : Memory.Output) → pointed (pointer_of o) ≡ Output.bulk_of (value o)
unfolding pointer_of value Output.bulk_of
pointer_of-value none_type = refl
pointer_of-value (status p) = refl
pointer_of-value (error p) = refl
pointer_of-value (integer p) = refl
pointer_of-value (bulk none) = refl
pointer_of-value (bulk (some p)) = refl
pointer_of-value (mbulks none) = refl
pointer_of-value (mbulks (some p)) = refl
pointer_of-value (smbulks a os) = refl
pointer_of-value nil_smbulks = refl

bulks_of-value : (os : Outputs) → mbulks_of (bulks_of os) ≡ map Output.bulk_of (values os)
unfolding bulks_of value values
bulks_of-value no_outputs = refl
bulks_of-value (output a o os) = rw (pointer_of-value o, bulks_of-value os) refl

converted_if :
    (b : Bool) (from : List RedisOutput) (to : MBulks)
    → Output.convertible_2_mbulks from ≡ b
    → converted from to ≡ (if b then (true, [], map Output.bulk_of from) else (false, from, to))
unfolding converted Output.convert_smbulks
converted_if true from to e =
    ap
      (λ c. elim (if c then some (map Output.bulk_of from) else none) [
        | none ↦ (false, from, to)
        | some mb ↦ (true, [], mb)
      ])
      e
converted_if false from to e =
    ap
      (λ c. elim (if c then some (map Output.bulk_of from) else none) [
        | none ↦ (false, from, to)
        | some mb ↦ (true, [], mb)
      ])
      e

convert_smbulks-value :
    (from : Outputs) (to : Bulks) (h : Heap)
    → let (got, from', to', h') = Memory.convert_smbulks from to h in
      (got, values from', mbulks_of to') ≡ converted (values from) (mbulks_of to)
unfolding Memory.convert_smbulks Memory.clear_mbulks Memory.clear_smbulks value values
convert_smbulks-value from to h = elim (Bool-cases (convertible_2_mbulks from)) [
  | inl all ↦ rw all (
      ap (λ l. (true, [], l)) (bulks_of-value from)
      ∙ sym (converted_if true (values from) (mbulks_of to) (sym (convertible_value from) ∙ all)))
  | inr other ↦
      rw other (
        sym
          (converted_if false (values from) (mbulks_of to) (sym (convertible_value from) ∙ other)))
]

run-view : (op : Op) (v : Locals) (h : Heap) → view (run op v h).0 ≡ meaning op (view v)
unfolding run view meaning Memory.set_status Memory.set_error Memory.set_i Memory.set_bulk
    Memory.set_nil_bulk Memory.set_mbulks Memory.set_nil_mbulks Memory.set_smbulks
    Memory.set_nil_smbulks Memory.clear Memory.swap Memory.get_mbulks Memory.get_smbulks
    Memory.clear_mbulks Memory.clear_smbulks Memory.append_mbulks Memory.append_smbulks
    Memory.convert new value values Output.set_status Output.set_error Output.set_i Output.set_bulk
    Output.set_nil_bulk Output.set_mbulks Output.set_nil_mbulks Output.set_smbulks
    Output.set_nil_smbulks Output.append_mbulks
run-view (Op.set_status s) v h = refl
run-view (Op.set_error e) v h = refl
run-view (Op.set_i i) v h = refl
run-view (Op.set_bulk b) v h = refl
run-view Op.set_nil_bulk v h = refl
run-view Op.set_mbulks v h = refl
run-view Op.set_nil_mbulks v h = refl
run-view Op.set_smbulks v h = refl
run-view Op.set_nil_smbulks v h = refl
run-view Op.clear v h = ap (λ o. record (view v) { out = o }) (value-nulled v.out)
run-view Op.swap v h = refl
run-view Op.get_bulk v h =
    ap (λ q. record (view v) { out = q.2; text = q.1; ok = q.0 }) (get_bulk-value v.text v.out)
run-view Op.get_mbulks v h =
    ap (λ q. record (view v) { out = q.2; mb = q.1; ok = q.0 }) (take_mbulks-value v.out)
run-view Op.get_strings v h =
    ap (λ q. record (view v) { out = q.2; texts = q.1; ok = q.0 })
      (get_strings-value v.texts v.out h)
run-view Op.get_smbulks v h =
    ap (λ q. record (view v) { out = q.2; smb = q.1; ok = q.0 }) (take_smbulks-value v.out)
run-view (Op.push_bulk b) v h = ap (λ l. record (view v) { mb = l }) (pushed_bulk-value b v.mb h)
run-view Op.push_child v h =
    ap (λ l. record (view v) { other = RedisOutput.none_type; smb = l })
      (values-append v.smb (output h.made v.other no_outputs))
run-view Op.clear_mbulks v h = refl
run-view Op.clear_smbulks v h = refl
run-view Op.append_mbulks v h =
    ap (λ l. record (view v) { mb = l; more_mb = [] }) (map-append pointed v.mb v.more_mb)
run-view Op.append_smbulks v h =
    ap (λ l. record (view v) { smb = l; more_smb = [] }) (values-append v.smb v.more_smb)
run-view Op.convert v h = ap (λ l. record (view v) { mb = []; texts = l }) (strings_lem v.mb)
run-view Op.convert_smbulks v h =
    ap (λ q. record (view v) { smb = q.1; mb = q.2; ok = q.0 }) (convert_smbulks-value v.smb v.mb h)

-- For every program of these calls, the values of the variables after it are what the meanings of the calls on plain
-- values make of the values before it, whatever the heap.
pub runs-view :
    (ops : List Op) (v : Locals) (h : Heap) → view (runs ops v h).0 ≡ meanings ops (view v)
unfolding runs meanings
runs-view [] v h = refl
runs-view (op ∷ ops) v h =
    runs-view ops (run op v h).0 (run op v h).1 ∙ ap (meanings ops) (run-view op v h)
