-- ===== src/Cmd/Output.antt =====
-- `RedisOutput` and `RedisCommand` of src/redis_cmd.h: a typed reply whose pointer may be NULL.
use librediscxx.Base.{
  ℤ, Bool, true, false, List, [], ◌∷◌, Option, none, some, Bytes, codes, str_eq, ◌++◌, ◌&&◌, map,
  if◌then◌else◌,
}
use librediscxx.Message.{Message}
use librediscxx.Cmd.Command.{KCommand, KReplyType}
use librediscxx.Cmd.Input.{RedisInput, redis_input}

-- A reply within a multi-bulk reply is NULL if it is nil.
abbrev pub MBulks : Type 0
MBulks = List (Option Bytes)

-- `none` is a NULL pointer under the reply type; NULL `smbulks` is `nil_smbulks`.
mutual
  pub data RedisOutput : Type 0 where
    none_type : RedisOutput
    status : Option Bytes → RedisOutput
    error : Option Message → RedisOutput
    integer : Option ℤ → RedisOutput
    bulk : Option Bytes → RedisOutput
    mbulks : Option MBulks → RedisOutput
    smbulks : RedisOutputs → RedisOutput
    nil_smbulks : RedisOutput

  pub data RedisOutputs : Type 0 where
    no_outputs : RedisOutputs
    output : RedisOutput → RedisOutputs → RedisOutputs

unfoldable pub of_list : List RedisOutput → RedisOutputs
of_list [] = no_outputs
of_list (o ∷ os) = output o (of_list os)

unfoldable pub to_list : RedisOutputs → List RedisOutput
to_list no_outputs = []
to_list (output o os) = o ∷ to_list os

unfoldable pub reply_type : RedisOutput → KReplyType
reply_type none_type = KReplyType.none_type
reply_type (status _) = KReplyType.status
reply_type (error _) = KReplyType.error
reply_type (integer _) = KReplyType.integer
reply_type (bulk _) = KReplyType.bulk
reply_type (mbulks _) = KReplyType.multi_bulk
reply_type (smbulks _) = KReplyType.special_multi_bulk
reply_type nil_smbulks = KReplyType.special_multi_bulk

-- `clear` deletes what the pointer holds, and leaves the reply type.
unfoldable pub clear : RedisOutput → RedisOutput
clear none_type = none_type
clear (status _) = status none
clear (error _) = error none
clear (integer _) = integer none
clear (bulk _) = bulk none
clear (mbulks _) = mbulks none
clear (smbulks _) = nil_smbulks
clear nil_smbulks = nil_smbulks

-- The setters clear the old value, then set pointer and type.
unfoldable pub set_status : Bytes → RedisOutput → RedisOutput
set_status s o = status (some s)

unfoldable pub set_error : Message → RedisOutput → RedisOutput
set_error e o = error (some e)

unfoldable pub set_i : ℤ → RedisOutput → RedisOutput
set_i i o = integer (some i)

unfoldable pub set_bulk : Bytes → RedisOutput → RedisOutput
set_bulk b o = bulk (some b)

unfoldable pub set_nil_bulk : RedisOutput → RedisOutput
set_nil_bulk o = bulk none

unfoldable pub set_mbulks : MBulks → RedisOutput → RedisOutput
set_mbulks mb o = mbulks (some mb)

unfoldable pub set_nil_mbulks : RedisOutput → RedisOutput
set_nil_mbulks o = mbulks none

unfoldable pub set_smbulks : List RedisOutput → RedisOutput → RedisOutput
unfolding of_list
set_smbulks smb o = smbulks (of_list smb)

unfoldable pub set_nil_smbulks : RedisOutput → RedisOutput
set_nil_smbulks o = nil_smbulks

unfoldable pub is_status : RedisOutput → Bool
is_status (status (some s)) = true
is_status _ = false

unfoldable pub is_status_ok : RedisOutput → Bool
is_status_ok (status (some s)) = str_eq s (codes "OK")
is_status_ok _ = false

unfoldable pub is_status_pong : RedisOutput → Bool
is_status_pong (status (some s)) = str_eq s (codes "PONG")
is_status_pong _ = false

unfoldable pub is_nil_bulk : RedisOutput → Bool
is_nil_bulk (bulk none) = true
is_nil_bulk _ = false

unfoldable pub is_nil_mbulks : RedisOutput → Bool
is_nil_mbulks (mbulks none) = true
is_nil_mbulks _ = false

unfoldable pub is_nil_smbulks : RedisOutput → Bool
is_nil_smbulks nil_smbulks = true
is_nil_smbulks _ = false

-- The getters: `none` where they return false.
unfoldable pub get_status : RedisOutput → Option Bytes
get_status (status s) = s
get_status _ = none

unfoldable pub get_i : RedisOutput → Option ℤ
get_i (integer i) = i
get_i _ = none

unfoldable pub get_bulk : RedisOutput → Option Bytes
get_bulk (bulk b) = b
get_bulk _ = none

unfoldable pub get_mbulks : RedisOutput → Option MBulks
get_mbulks (mbulks mb) = mb
get_mbulks _ = none

unfoldable pub get_smbulks : RedisOutput → Option (List RedisOutput)
unfolding to_list
get_smbulks (smbulks os) = some (to_list os)
get_smbulks _ = none

-- `convert(mbulk_t *, string_vector_t *)`: the strings that are not nil.
unfoldable pub convert : MBulks → List Bytes
convert [] = []
convert (none ∷ mb) = convert mb
convert (some s ∷ mb) = s ∷ convert mb

-- `append_mbulks`: the second vector is left empty.
unfoldable pub append_mbulks : MBulks → MBulks → MBulks × MBulks
append_mbulks to from = (to ++ from, [])

unfoldable pub is_bulk_type : RedisOutput → Bool
is_bulk_type (bulk _) = true
is_bulk_type _ = false

unfoldable pub convertible_2_mbulks : List RedisOutput → Bool
unfolding is_bulk_type
convertible_2_mbulks [] = true
convertible_2_mbulks (o ∷ os) = is_bulk_type o && convertible_2_mbulks os

unfoldable pub bulk_of : RedisOutput → Option Bytes
bulk_of (bulk b) = b
bulk_of _ = none

-- `convert(smbulk_t *, mbulk_t *)`.
unfoldable pub convert_smbulks : List RedisOutput → Option MBulks
unfolding convertible_2_mbulks bulk_of
convert_smbulks os = if convertible_2_mbulks os then some (map bulk_of os) else none

pub record RedisCommand : Type 0 where
  pub inp : RedisInput
  pub out : RedisOutput

-- `RedisCommand(kCommand cmd)`.
unfoldable pub redis_command : KCommand → RedisCommand
redis_command c = record { inp = redis_input c; out = none_type }
