-- ===== src/Tests/Memory.antt =====
-- The theorems on the memory of replies at concrete inputs.
use librediscxx.Base.{◌≡◌, pos, List, [], ◌∷◌, codes, count, ltb, if◌then◌else◌, arith}
use librediscxx.Cmd.Memory.{Heap}
use librediscxx.Cmd.Memory.Program.{Op, runs, start, finish}
use librediscxx.Cmd.Memory.Values.{view, meanings}
use librediscxx.Cmd.Memory.Accounts.{runs-Accounted, finish_lem}
use librediscxx.Cmd.Memory.Owners.{Accounted, owned_locals, owned_out, owned_outputs}
use librediscxx.Cmd.Memory.Refining.{runs-view}

abbrev heap : Heap
heap = record { made = 0; deleted = [] }

-- Two replies are collected, converted to a multi-bulk, set as a reply, and read.
abbrev calls : List Op
calls =
    Op.set_bulk (codes "a")
    ∷ Op.swap
    ∷ Op.push_child
    ∷ Op.set_nil_bulk
    ∷ Op.swap
    ∷ Op.push_child
    ∷ Op.convert_smbulks
    ∷ Op.set_mbulks
    ∷ Op.get_strings
    ∷ Op.set_i (pos 7)
    ∷ []

start-Accounted : Accounted start heap
unfolding start owned_locals owned_out owned_outputs
start-Accounted r = ground arith

runs-Accounted_example : Accounted (runs calls start heap).0 (runs calls start heap).1
runs-Accounted_example = runs-Accounted calls start heap start-Accounted

finish_lem_example :
    let (v, h) = runs calls start heap in
    count 1 (finish v h).deleted ≡ (if ltb 1 h.made then 1 else 0)
finish_lem_example = finish_lem calls 1

runs-view_example : view (runs calls start heap).0 ≡ meanings calls (view start)
runs-view_example = runs-view calls start heap
