-- ===== src/Redis2/Session.antt =====
-- A client of one server against a store: what a server of keys and strings has to answer, and a program
-- that calls `get`, `set`, `del`, `exists`, `setnx`, `getset` and `mget` (src/redis.cpp).
use librediscxx.Base.{
  not, map, ℕ, ◌==◌, ℤ, pos, Bool, true, false, List, [], ◌∷◌, ◌++◌, Option, none, some, Bytes,
  codes, if◌then◌else◌,
}
use librediscxx.Os.World.{World}
use librediscxx.Cmd.Command.{KCommand}
use librediscxx.Cmd.Output.{RedisOutput, MBulks, status, integer, bulk, mbulks}
use librediscxx.Protocol.Reply.Wire.{put_output}
use librediscxx.Protocol.Request.Sending.{text_of}
use librediscxx.Redis2.State.{Redis2, Result, done, failed, thrown, command_of}
use librediscxx.Redis2.Keys
use librediscxx.Redis2.Strings
use librediscxx.RedisBase.Helpers.Maps.{same}
pub mod Calling
pub mod Refining

pub data Op : Type 0 where
  gets : Bytes → Op
  sets : Bytes → Bytes → Op
  dels : Bytes → Op
  exists : Bytes → Op
  setnxs : Bytes → Bytes → Op
  getsets : Bytes → Bytes → Op
  mgets : List Bytes → Op

pub data Answer : Type 0 where
  value : Option Bytes → Answer
  stored : Answer
  number : ℤ → Answer
  several : MBulks → Answer

abbrev pub Store : Type 0
Store = Bytes → Option Bytes

abbrev pub update : Bytes → Option Bytes → Store → Store
update key v s = λ j. if same key j then v else s j

-- 1 or 0
abbrev pub as_number : Bool → ℤ
as_number true = pos 1
as_number false = pos 0

unfoldable pub is_some : Option Bytes → Bool
is_some none = false
is_some (some v) = true

-- The specification: what each operation answers and what it leaves.
unfoldable pub answer : Op → Store → Answer
unfolding is_some
answer (gets key) s = value (s key)
answer (sets key v) s = stored
answer (dels key) s = number (as_number (is_some (s key)))
answer (exists key) s = number (as_number (is_some (s key)))
answer (setnxs key v) s = number (as_number (not (is_some (s key))))
answer (getsets key v) s = value (s key)
answer (mgets keys) s = several (map s keys)

unfoldable pub next : Op → Store → Store
unfolding is_some
next (gets key) s = s
next (sets key v) s = update key (some v) s
next (dels key) s = update key none s
next (exists key) s = s
next (setnxs key v) s = if is_some (s key) then s else update key (some v) s
next (getsets key v) s = update key (some v) s
next (mgets keys) s = s

unfoldable pub answers : List Op → Store → List Answer
unfolding answer next
answers [] s = []
answers (op ∷ ops) s = answer op s ∷ answers ops (next op s)

-- The server's side: the reply to each answer, and all that it writes.
unfoldable pub reply_to : Answer → RedisOutput
reply_to (value v) = bulk v
reply_to stored = status (some (codes "OK"))
reply_to (number n) = integer (some n)
reply_to (several bs) = mbulks (some bs)

unfoldable pub replies : List Op → Store → Bytes → Bytes
unfolding reply_to answer next
replies [] s rest = rest
replies (op ∷ ops) s rest = put_output (reply_to (answer op s)) (replies ops (next op s) rest)

-- The client's side: the calls of a program, and the requests that they send.
abbrev as_answer {ℓ} : {A : Type ℓ} → (A → Answer) → Result A → Result Answer
as_answer f (done a) = done (f a)
as_answer f failed = failed
as_answer f thrown = thrown

unfoldable pub call : Op → Redis2 → World → Result Answer × Redis2 × World
call (gets key) r w = let (v, r', w') = Strings.get key r w in (as_answer value v, r', w')
call (sets key v) r w =
    let (u, r', w') = Strings.set key v r w in (as_answer (λ _. stored) u, r', w')
call (dels key) r w = let (n, r', w') = Keys.del key r w in (as_answer number n, r', w')
call (exists key) r w = let (n, r', w') = Keys.exists key r w in (as_answer number n, r', w')
call (setnxs key v) r w = let (n, r', w') = Strings.setnx key v r w in (as_answer number n, r', w')
call (getsets key v) r w = let (o, r', w') = Strings.getset key v r w in (as_answer value o, r', w')
call (mgets keys) r w = let (bs, r', w') = Strings.mget keys r w in (as_answer several bs, r', w')

unfoldable pub calls : List Op → Redis2 → World → List (Result Answer) × Redis2 × World
unfolding call
calls [] r w = ([], r, w)
calls (op ∷ ops) r w =
    let (a, r', w') = call op r w in let (as_, r'', w'') = calls ops r' w' in (a ∷ as_, r'', w'')

unfoldable pub request : Op → Bytes
unfolding command_of
request (gets key) = text_of (command_of KCommand.get (key ∷ []))
request (sets key v) = text_of (command_of KCommand.set (key ∷ v ∷ []))
request (dels key) = text_of (command_of KCommand.del (key ∷ []))
request (exists key) = text_of (command_of KCommand.exists (key ∷ []))
request (setnxs key v) = text_of (command_of KCommand.setnx (key ∷ v ∷ []))
request (getsets key v) = text_of (command_of KCommand.getset (key ∷ v ∷ []))
request (mgets keys) = text_of (command_of KCommand.mget keys)

unfoldable pub requests : List Op → Bytes
unfolding request
requests [] = []
requests (op ∷ ops) = request op ++ requests ops
