-- ===== src/Redis2/Keys.antt =====
-- The operations of `Redis2` on keys (src/redis.cpp).
use librediscxx.Base.{ℤ, List, [], ◌∷◌, Option, none, some, Bytes}
use librediscxx.Os.World.{World}
use librediscxx.Cmd.Command.{KCommand}
use librediscxx.Cmd.Output.{MBulks, get_status, get_i, get_mbulks}
use librediscxx.Protocol.Decimal.{show_int}
use librediscxx.Redis2.State.{Redis2, Call, query, status_ok, bulk_or_nil}

unfoldable pub del : Bytes → Redis2 → World → Call ℤ
unfolding query get_i
del key = query get_i KCommand.del (key ∷ [])

unfoldable pub del_keys : List Bytes → Redis2 → World → Call ℤ
unfolding query get_i
del_keys keys = query get_i KCommand.del keys

unfoldable pub dump : Bytes → Redis2 → World → Call (Option Bytes)
unfolding query bulk_or_nil
dump key = query bulk_or_nil KCommand.dump (key ∷ [])

unfoldable pub exists : Bytes → Redis2 → World → Call ℤ
unfolding query get_i
exists key = query get_i KCommand.exists (key ∷ [])

unfoldable pub expire : Bytes → ℤ → Redis2 → World → Call ℤ
unfolding query get_i show_int
expire key seconds = query get_i KCommand.expire (key ∷ show_int seconds ∷ [])

unfoldable pub expireat : Bytes → ℤ → Redis2 → World → Call ℤ
unfolding query get_i show_int
expireat key abs_seconds = query get_i KCommand.expireat (key ∷ show_int abs_seconds ∷ [])

unfoldable pub keys : Bytes → Redis2 → World → Call MBulks
unfolding query get_mbulks
keys pattern = query get_mbulks KCommand.keys (pattern ∷ [])

unfoldable pub move : Bytes → ℤ → Redis2 → World → Call ℤ
unfolding query get_i show_int
move key db = query get_i KCommand.move (key ∷ show_int db ∷ [])

unfoldable pub persist : Bytes → Redis2 → World → Call ℤ
unfolding query get_i
persist key = query get_i KCommand.persist (key ∷ [])

unfoldable pub pexpire : Bytes → ℤ → Redis2 → World → Call ℤ
unfolding query get_i show_int
pexpire key milliseconds = query get_i KCommand.pexpire (key ∷ show_int milliseconds ∷ [])

unfoldable pub pexpireat : Bytes → ℤ → Redis2 → World → Call ℤ
unfolding query get_i show_int
pexpireat key abs_milliseconds =
    query get_i KCommand.pexpireat (key ∷ show_int abs_milliseconds ∷ [])

unfoldable pub pttl : Bytes → Redis2 → World → Call ℤ
unfolding query get_i
pttl key = query get_i KCommand.pttl (key ∷ [])

unfoldable pub restore : Bytes → ℤ → Bytes → Redis2 → World → Call (Unit {0})
unfolding query status_ok show_int
restore key ttl value = query status_ok KCommand.restore (key ∷ show_int ttl ∷ value ∷ [])

unfoldable pub randomkey : Redis2 → World → Call (Option Bytes)
unfolding query bulk_or_nil
randomkey = query bulk_or_nil KCommand.randomkey []

-- `phrases` may be NULL.
phrases_of : Option (List Bytes) → List Bytes
phrases_of none = []
phrases_of (some ss) = ss

unfoldable pub sort : Bytes → Option (List Bytes) → Redis2 → World → Call MBulks
unfolding query get_mbulks phrases_of
sort key phrases = query get_mbulks KCommand.sort (key ∷ phrases_of phrases)

unfoldable pub ttl : Bytes → Redis2 → World → Call ℤ
unfolding query get_i
ttl key = query get_i KCommand.ttl (key ∷ [])

unfoldable pub type : Bytes → Redis2 → World → Call Bytes
unfolding query get_status
type key = query get_status KCommand.type (key ∷ [])

unfoldable pub rename : Bytes → Bytes → Redis2 → World → Call (Unit {0})
unfolding query status_ok
rename key newkey = query status_ok KCommand.rename (key ∷ newkey ∷ [])

unfoldable pub renamenx : Bytes → Bytes → Redis2 → World → Call ℤ
unfolding query get_i
renamenx key newkey = query get_i KCommand.renamenx (key ∷ newkey ∷ [])
