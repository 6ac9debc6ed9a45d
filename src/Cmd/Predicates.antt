-- ===== src/Cmd/Predicates.antt =====
-- The remaining questions and getters of `RedisOutput` (src/redis_cmd.h).
use librediscxx.Base.{Bool, true, false, [], Option, none, some}
use librediscxx.Message.{Message}
use librediscxx.Cmd.Output.{RedisOutput, error, integer, bulk, mbulks, smbulks, no_outputs}

unfoldable pub is_error : RedisOutput → Bool
is_error (error (some e)) = true
is_error _ = false

unfoldable pub is_i : RedisOutput → Bool
is_i (integer (some i)) = true
is_i _ = false

unfoldable pub is_bulk : RedisOutput → Bool
is_bulk (bulk (some b)) = true
is_bulk _ = false

unfoldable pub is_mbulks : RedisOutput → Bool
is_mbulks (mbulks (some mb)) = true
is_mbulks _ = false

unfoldable pub is_empty_mbulks : RedisOutput → Bool
is_empty_mbulks (mbulks (some [])) = true
is_empty_mbulks _ = false

unfoldable pub is_smbulks : RedisOutput → Bool
is_smbulks (smbulks os) = true
is_smbulks _ = false

unfoldable pub is_empty_smbulks : RedisOutput → Bool
is_empty_smbulks (smbulks no_outputs) = true
is_empty_smbulks _ = false

unfoldable pub get_error : RedisOutput → Option Message
get_error (error e) = e
get_error _ = none
