-- ===== src/Redis2/Session/Calling.antt =====
-- One call of a program that is answered (src/redis.cpp), and the stores that the client can read.
use librediscxx.Base.{
  to_int_lem, ◌^◌, Bool-cases, inl, inr, ◌≡◌, refl, sym, ap, ◌∙◌, subst, Bool, true, false, List,
  [], ◌∷◌, ◌++◌, length, ◌<◌, append_assoc, append-nil, map, Option, none, some, Bytes, arith, All,
  IsInt64, if◌then◌else◌,
}
use librediscxx.Os.World.{World}
use librediscxx.Cmd.Command.{KCommand}
use librediscxx.Cmd.Output.{RedisOutput, RedisCommand, integer, bulk, mbulks, get_i}
use librediscxx.Cmd.Input.{RedisInput, redis_input, command_info, push_arg, push_args}
use librediscxx.Protocol.Conn.Lines.{Holds}
use librediscxx.Protocol.Reply.Wire.{put_output}
use librediscxx.Protocol.Request.Sending.{ArgcFits, CanSend, text_of}
use librediscxx.Protocol.Exec.Replying.{Accepts, mode_after}
use librediscxx.Redis2.State.{Redis2, done, command_of, query, bulk_or_nil}
use librediscxx.Redis2.State.Asking.{Healthy, query-Healthy}
use librediscxx.Protocol.Bulk.Wire.{NotEmpty}
use librediscxx.Protocol.Reply.{expected_type}
use librediscxx.Protocol.Request.{argc_error}
use librediscxx.RedisBase.Helpers.Maps.{same}
use librediscxx.Redis2.Session.{
  Op, gets, sets, dels, exists, setnxs, getsets, mgets, Answer, value, number, as_number, Store,
  next, as_answer, is_some, request,
}

-- A client that is ready for the next operation, and the bytes that it will read.
pub record Ready (r : Redis2) (w : World) (s : Bytes) : Type 0 where
  pub healthy : Healthy r w
  pub sends : w.sends ≡ []
  pub mode : r.proto.transaction_mode ≡ false
  pub holds : Holds r.proto w s

-- No value is an empty string: the client cannot read one.
abbrev pub Full : Store → Type 0
Full s = (key : Bytes) → NotEmpty (s key)

-- An operation that stores no empty string; MGET has at least one key, and fewer than 2^31.
abbrev pub Storing : Op → Type 0
Storing (gets key) = Unit {0}
Storing (sets key v) = 0 < length v
Storing (dels key) = Unit {0}
Storing (exists key) = Unit {0}
Storing (setnxs key v) = 0 < length v
Storing (getsets key v) = 0 < length v
Storing (mgets keys) = (0 < length keys) × (length keys < 2 ^ 31)

-- Such an operation whose request has fewer than 2^31 bytes.
abbrev pub Allowed : Op → Type 0
Allowed op = Storing op × (length (request op) < 2 ^ 31)

pub NotEmpty-if :
    (b : Bool) (v u : Option Bytes) → NotEmpty v → NotEmpty u → NotEmpty (if b then v else u)
NotEmpty-if true v u h k = h
NotEmpty-if false v u h k = k

pub next-Full : (op : Op) (s : Store) → Storing op → Full s → Full (next op s)
unfolding next
next-Full (gets key) s h full j = full j
next-Full (sets key v) s h full j = NotEmpty-if (same key j) (some v) (s j) h (full j)
next-Full (dels key) s h full j = NotEmpty-if (same key j) none (s j) tt (full j)
next-Full (exists key) s h full j = full j
next-Full (setnxs key v) s h full j = elim (Bool-cases (is_some (s key))) [
  | inl there ↦ rw there (full j)
  | inr free ↦ rw free (NotEmpty-if (same key j) (some v) (s j) h (full j))
]
next-Full (getsets key v) s h full j = NotEmpty-if (same key j) (some v) (s j) h (full j)
next-Full (mgets keys) s h full j = full j

-- One query that is answered leaves the client ready for the next.
pub query-Ready :
    {A : Type 0} (get : RedisOutput → Option A) (cmd : KCommand) (args : List Bytes)
    (o : RedisOutput) (a : A) (rest : Bytes) (r : Redis2) (w : World)
    → CanSend (command_of cmd args)
    → Accepts (command_of cmd args).inp false o
    → mode_after (command_of cmd args).inp o false ≡ false
    → get o ≡ some a
    → Ready r w (put_output o rest)
    → let (v, r', w') = query get cmd args r w in
      (v ≡ done a)
      × Ready r' w' rest
      × (w'.sent ≡ w.sent ++ text_of (command_of cmd args))
      × (w'.clock ≡ w.clock)
query-Ready get cmd args o a rest r w argc accepts stays e h =
    let (v, holds, sent, mode, healthy, sends, _, clock) =
      query-Healthy get cmd args o a rest r w h.healthy h.sends argc
        (subst (λ m. Accepts (command_of cmd args).inp m o) (sym h.mode) accepts) h.holds e in
    (
      v,
      record {
        healthy = healthy;
        sends = sends;
        mode = mode ∙ ap (mode_after (command_of cmd args).inp o) h.mode ∙ stays;
        holds = holds;
      },
      sent,
      clock,
    )

pub asked :
    {A : Type 0} (f : A → Answer) (get : RedisOutput → Option A) (cmd : KCommand)
    (args : List Bytes) (o : RedisOutput) (a : A) (rest : Bytes) (r : Redis2) (w : World)
    → CanSend (command_of cmd args)
    → Accepts (command_of cmd args).inp false o
    → mode_after (command_of cmd args).inp o false ≡ false
    → get o ≡ some a
    → Ready r w (put_output o rest)
    → let (v, r', w') = query get cmd args r w in
      (as_answer f v ≡ done (f a))
      × Ready r' w' rest
      × (w'.sent ≡ w.sent ++ text_of (command_of cmd args))
asked f get cmd args o a rest r w argc accepts stays e h =
    let (v, ready, sent, _) = query-Ready get cmd args o a rest r w argc accepts stays e h in
    (ap (as_answer f) v, ready, sent)

pub bulk_or_nil_lem : (b : Option Bytes) → bulk_or_nil (bulk b) ≡ some b
unfolding bulk_or_nil
bulk_or_nil_lem none = refl
bulk_or_nil_lem (some s) = refl

pub as_number-IsInt64 : (b : Bool) → IsInt64 (as_number b)
as_number-IsInt64 true = omega arith
as_number-IsInt64 false = omega arith

pub pushed : (ss : List Bytes) (c : RedisInput) → push_args ss c ≡ record c { args = c.args ++ ss }
unfolding push_args push_arg
pushed [] c = ap (λ l. record c { args = l }) (sym (append-nil c.args))
pushed (s ∷ ss) c =
    pushed ss (push_arg s c) ∙ ap (λ l. record c { args = l }) (append_assoc c.args (s ∷ []) ss)

pub mget_command : List Bytes → RedisCommand
mget_command keys = record (command_of KCommand.mget []) {
  inp = record (redis_input KCommand.mget) { args = keys };
}

pub mget_lem : (keys : List Bytes) → command_of KCommand.mget keys ≡ mget_command keys
unfolding command_of mget_command redis_input
mget_lem keys =
    ap (λ i. record (command_of KCommand.mget []) { inp = i })
      (pushed keys (redis_input KCommand.mget))

pub mget-ArgcFits :
    (keys : List Bytes) → 0 < length keys → length keys < 2 ^ 31 → ArgcFits (mget_command keys)
unfolding mget_command redis_input command_info argc_error
mget-ArgcFits keys some_key few = rw (to_int_lem (length keys) few) (ground arith)

pub bulks-NotEmpty : (keys : List Bytes) (s : Store) → Full s → All NotEmpty (map s keys)
bulks-NotEmpty [] s full = tt
bulks-NotEmpty (key ∷ keys) s full = (full key, bulks-NotEmpty keys s full)

pub mget-Accepts :
    (keys : List Bytes) (s : Store)
    → Full s
    → Accepts (mget_command keys).inp false (mbulks (some (map s keys)))
unfolding mget_command redis_input command_info expected_type
mget-Accepts keys s full = (refl, bulks-NotEmpty keys s full)

-- The ways in which the calls of a program ask.
pub ask_value :
    (cmd : KCommand) (args : List Bytes) (o : Option Bytes) (rest : Bytes) (r : Redis2) (w : World)
    → CanSend (command_of cmd args)
    → Accepts (command_of cmd args).inp false (bulk o)
    → Ready r w (put_output (bulk o) rest)
    → let (v, r', w') = query bulk_or_nil cmd args r w in
      (as_answer value v ≡ done (value o))
      × Ready r' w' rest
      × (w'.sent ≡ w.sent ++ text_of (command_of cmd args))
ask_value cmd args o rest r w argc accepts =
    asked value bulk_or_nil cmd args (bulk o) o rest r w argc accepts refl (bulk_or_nil_lem o)

pub ask_number :
    (cmd : KCommand) (args : List Bytes) (b : Bool) (rest : Bytes) (r : Redis2) (w : World)
    → CanSend (command_of cmd args)
    → Accepts (command_of cmd args).inp false (integer (some (as_number b)))
    → Ready r w (put_output (integer (some (as_number b))) rest)
    → let (v, r', w') = query get_i cmd args r w in
      (as_answer number v ≡ done (number (as_number b)))
      × Ready r' w' rest
      × (w'.sent ≡ w.sent ++ text_of (command_of cmd args))
unfolding get_i
ask_number cmd args b rest r w argc accepts =
    asked number get_i cmd args (integer (some (as_number b))) (as_number b) rest r w argc accepts
      refl refl
