-- ===== src/Redis2/SortedSets.antt =====
-- The operations of `Redis2` on sorted sets (src/redis.cpp).
use librediscxx.Base.{
  ℤ, Bool, true, false, List, [], ◌∷◌, ◌++◌, Option, none, some, Bytes, codes, map, length, ◌==◌,
  if◌then◌else◌,
}
use librediscxx.Os.World.{World}
use librediscxx.Cmd.Command.{KCommand}
use librediscxx.Cmd.Output.{MBulks, RedisOutput, is_nil_bulk, get_i, get_bulk, get_mbulks}
use librediscxx.Protocol.Decimal.{show_nat, show_int}
use librediscxx.Redis2.State.{
  Redis2, done, failed, thrown, Call, Answer, Doubles, ask, query, check_expr, double_of,
  interleave, command_of, on_reply_type_error,
}

unfoldable pub zadd : (D : Doubles) → Bytes → D.Double → Bytes → Redis2 → World → Call ℤ
unfolding query get_i
zadd D key score member = query get_i KCommand.zadd (key ∷ D.print score ∷ member ∷ [])

unfoldable pub zadd_members :
    (D : Doubles) → Bytes → List (D.Double) → List Bytes → Redis2 → World → Call ℤ
unfolding check_expr query get_i interleave
zadd_members D key scores members =
    check_expr (length scores == length members)
      (query get_i KCommand.zadd (key ∷ interleave (map D.print scores) members))

unfoldable pub zcard : Bytes → Redis2 → World → Call ℤ
unfolding query get_i
zcard key = query get_i KCommand.zcard (key ∷ [])

unfoldable pub zcount : Bytes → Bytes → Bytes → Redis2 → World → Call ℤ
unfolding query get_i
zcount key minimum maximum = query get_i KCommand.zcount (key ∷ minimum ∷ maximum ∷ [])

unfoldable pub zincrby : (D : Doubles) → Bytes → D.Double → Bytes → Redis2 → World → Call (D.Double)
unfolding ask command_of double_of
zincrby D key increment member r w =
    double_of D (ask (command_of KCommand.zincrby (key ∷ D.print increment ∷ member ∷ [])) r w)

with_scores : Bool → List Bytes
with_scores true = codes "WITHSCORES" ∷ []
with_scores false = []

unfoldable pub zxxxrange : Bool → Bytes → ℤ → ℤ → Bool → Redis2 → World → Call MBulks
unfolding query get_mbulks with_scores show_int
zxxxrange rev key start stop withscores =
    query get_mbulks (if rev then KCommand.zrevrange else KCommand.zrange)
      (key ∷ show_int start ∷ show_int stop ∷ with_scores withscores)

unfoldable pub zrange : Bytes → ℤ → ℤ → Bool → Redis2 → World → Call MBulks
unfolding zxxxrange
zrange key start stop withscores = zxxxrange false key start stop withscores

unfoldable pub zrevrange : Bytes → ℤ → ℤ → Bool → Redis2 → World → Call MBulks
unfolding zxxxrange
zrevrange key start stop withscores = zxxxrange true key start stop withscores

-- The offset and the count of a limit, which may be NULL.
limit_of : Option (ℤ × ℤ) → List Bytes
unfolding show_int
limit_of none = []
limit_of (some (offset, count)) = codes "LIMIT" ∷ show_int offset ∷ show_int count ∷ []

unfoldable pub zxxxrangebyscore :
    Bool → Bytes → Bytes → Bytes → Bool → Option (ℤ × ℤ) → Redis2 → World → Call MBulks
unfolding query get_mbulks with_scores limit_of
zxxxrangebyscore rev key minimum maximum withscores limit =
    query get_mbulks (if rev then KCommand.zrevrangebyscore else KCommand.zrangebyscore)
      (key ∷ minimum ∷ maximum ∷ (with_scores withscores ++ limit_of limit))

unfoldable pub zrangebyscore :
    Bytes → Bytes → Bytes → Bool → Option (ℤ × ℤ) → Redis2 → World → Call MBulks
unfolding zxxxrangebyscore
zrangebyscore key minimum maximum withscores limit =
    zxxxrangebyscore false key minimum maximum withscores limit

unfoldable pub zrevrangebyscore :
    Bytes → Bytes → Bytes → Bool → Option (ℤ × ℤ) → Redis2 → World → Call MBulks
unfolding zxxxrangebyscore
zrevrangebyscore key maximum minimum withscores limit =
    zxxxrangebyscore true key maximum minimum withscores limit

-- A rank: `none` if the member does not exist.
rank_of : RedisOutput → Option (Option ℤ)
unfolding get_i is_nil_bulk
rank_of o = elim (get_i o) [
  | some i ↦ some (some i)
  | none ↦ if is_nil_bulk o then some none else none
]

unfoldable pub zxxxrank : Bool → Bytes → Bytes → Redis2 → World → Call (Option ℤ)
unfolding query rank_of
zxxxrank rev key member =
    query rank_of (if rev then KCommand.zrevrank else KCommand.zrank) (key ∷ member ∷ [])

unfoldable pub zrank : Bytes → Bytes → Redis2 → World → Call (Option ℤ)
unfolding zxxxrank
zrank key member = zxxxrank false key member

unfoldable pub zrevrank : Bytes → Bytes → Redis2 → World → Call (Option ℤ)
unfolding zxxxrank
zrevrank key member = zxxxrank true key member

unfoldable pub zrem : Bytes → Bytes → Redis2 → World → Call ℤ
unfolding query get_i
zrem key member = query get_i KCommand.zrem (key ∷ member ∷ [])

unfoldable pub zrem_members : Bytes → List Bytes → Redis2 → World → Call ℤ
unfolding query get_i
zrem_members key members = query get_i KCommand.zrem (key ∷ members)

unfoldable pub zremrangebyrank : Bytes → ℤ → ℤ → Redis2 → World → Call ℤ
unfolding query get_i show_int
zremrangebyrank key start stop =
    query get_i KCommand.zremrangebyrank (key ∷ show_int start ∷ show_int stop ∷ [])

unfoldable pub zremrangebyscore : Bytes → Bytes → Bytes → Redis2 → World → Call ℤ
unfolding query get_i
zremrangebyscore key minimum maximum =
    query get_i KCommand.zremrangebyscore (key ∷ minimum ∷ maximum ∷ [])

-- A score: `none` if the bulk is nil.
score_of : (D : Doubles) → Answer → Call (Option (D.Double))
unfolding get_bulk is_nil_bulk on_reply_type_error
score_of D (none, r, w) = (failed, r, w)
score_of D (some c, r, w) = elim (get_bulk c.out) [
  | none ↦ if is_nil_bulk c.out then (done none, r, w) else (failed, on_reply_type_error c r, w)
  | some s ↦ elim (D.parse s) [ none ↦ (thrown, r, w) | some d ↦ (done (some d), r, w) ]
]

unfoldable pub zscore : (D : Doubles) → Bytes → Bytes → Redis2 → World → Call (Option (D.Double))
unfolding ask command_of score_of
zscore D key member r w = score_of D (ask (command_of KCommand.zscore (key ∷ member ∷ [])) r w)

-- `aggregate` of src/redis_base.h
pub data Aggregate : Type 0 where
  no_aggregate sum minimum maximum : Aggregate

aggregate_of : Aggregate → List Bytes
aggregate_of Aggregate.minimum = codes "AGGREGATE" ∷ codes "MIN" ∷ []
aggregate_of Aggregate.maximum = codes "AGGREGATE" ∷ codes "MAX" ∷ []
aggregate_of _ = []

weights_of : (D : Doubles) → Option (List (D.Double)) → List Bytes
weights_of D none = []
weights_of D (some ds) = codes "WEIGHTS" ∷ map D.print ds

unfoldable pub zxxxxxstore :
    (D : Doubles)
    → Bool
    → Bytes
    → List Bytes
    → Option (List (D.Double))
    → Aggregate
    → Redis2
    → World
    → Call ℤ
unfolding query get_i aggregate_of weights_of show_nat
zxxxxxstore D is_zinterstore destination keys weights agg =
    query get_i (if is_zinterstore then KCommand.zinterstore else KCommand.zunionstore)
      (destination ∷ show_nat (length keys) ∷ (keys ++ (weights_of D weights ++ aggregate_of agg)))

unfoldable pub zinterstore :
    (D : Doubles)
    → Bytes
    → List Bytes
    → Option (List (D.Double))
    → Aggregate
    → Redis2
    → World
    → Call ℤ
unfolding zxxxxxstore
zinterstore D destination keys weights agg = zxxxxxstore D true destination keys weights agg

unfoldable pub zunionstore :
    (D : Doubles)
    → Bytes
    → List Bytes
    → Option (List (D.Double))
    → Aggregate
    → Redis2
    → World
    → Call ℤ
unfolding zxxxxxstore
zunionstore D destination keys weights agg = zxxxxxstore D false destination keys weights agg
