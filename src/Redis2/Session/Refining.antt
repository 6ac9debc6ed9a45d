-- ===== src/Redis2/Session/Refining.antt =====
-- A program on a client behaves as one on the store itself.
use librediscxx.Base.{
  not, ◌≡◌, refl, sym, ap, ◌∙◌, subst, false, List, [], ◌∷◌, ◌++◌, append_assoc, append-nil, map,
  some, Bytes, codes, arith, All, str_eq,
}
use librediscxx.Os.World.{World}
use librediscxx.Cmd.Command.{KCommand}
use librediscxx.Cmd.Output.{status, mbulks, get_i, get_mbulks}
use librediscxx.Cmd.Input.{redis_input, command_info, push_arg}
use librediscxx.Protocol.Reply.Wire.{put_output}
use librediscxx.Protocol.Request.Sending.{ArgcFits}
use librediscxx.Protocol.Exec.Replying.{Accepts}
use librediscxx.Redis2.State.{Redis2, done, command_of, status_ok}
use librediscxx.Protocol.Reply.{
  same_type, checks_type, expected_type, wrong_type, mode_after_status,
}
use librediscxx.Protocol.Request.{argc_error}
use librediscxx.Redis2.Keys
use librediscxx.Redis2.Strings
use librediscxx.Redis2.Session.{
  Op, gets, sets, dels, exists, setnxs, getsets, mgets, stored, several, Store, answer, next,
  answers, reply_to, replies, is_some, call, calls, request, requests,
}
use librediscxx.Redis2.Session.Calling.{
  Ready, Full, Allowed, next-Full, asked, as_number-IsInt64, mget_lem, mget-ArgcFits, mget-Accepts,
  ask_value, ask_number,
}

call-Ready :
    (op : Op) (s : Store) (rest : Bytes) (r : Redis2) (w : World)
    → Allowed op
    → Full s
    → Ready r w (put_output (reply_to (answer op s)) rest)
    → let (a, r', w') = call op r w in
      (a ≡ done (answer op s)) × Ready r' w' rest × (w'.sent ≡ w.sent ++ request op)
unfolding call answer reply_to request Strings.get Strings.set Strings.setnx Strings.getset
    Strings.mget Keys.del Keys.exists command_of redis_input push_arg command_info argc_error
    same_type checks_type expected_type wrong_type get_i get_mbulks status_ok mode_after_status
    str_eq
call-Ready (gets key) s rest r w (ok, short) full h =
    ask_value KCommand.get (key ∷ []) (s key) rest r w (record { argc = refl; short = short })
      (refl, full key) h
call-Ready (sets key v) s rest r w (ok, short) full h =
    asked (λ _. stored) status_ok KCommand.set (key ∷ v ∷ []) (status (some (codes "OK"))) tt rest r
      w (record { argc = refl; short = short }) (refl, omega arith) refl refl h
call-Ready (dels key) s rest r w (ok, short) full h =
    ask_number KCommand.del (key ∷ []) (is_some (s key)) rest r w
      (record { argc = refl; short = short }) (refl, as_number-IsInt64 (is_some (s key))) h
call-Ready (exists key) s rest r w (ok, short) full h =
    ask_number KCommand.exists (key ∷ []) (is_some (s key)) rest r w
      (record { argc = refl; short = short }) (refl, as_number-IsInt64 (is_some (s key))) h
call-Ready (setnxs key v) s rest r w (ok, short) full h =
    ask_number KCommand.setnx (key ∷ v ∷ []) (not (is_some (s key))) rest r w
      (record { argc = refl; short = short }) (refl, as_number-IsInt64 (not (is_some (s key)))) h
call-Ready (getsets key v) s rest r w (ok, short) full h =
    ask_value KCommand.getset (key ∷ v ∷ []) (s key) rest r w
      (record { argc = refl; short = short }) (refl, full key) h
call-Ready (mgets keys) s rest r w ((some_key, few), short) full h =
    asked several get_mbulks KCommand.mget keys (mbulks (some (map s keys))) (map s keys) rest r w
      (record {
        argc = subst ArgcFits (sym (mget_lem keys)) (mget-ArgcFits keys some_key few);
        short = short;
      })
      (subst (λ c. Accepts c.inp false (mbulks (some (map s keys)))) (sym (mget_lem keys))
        (mget-Accepts keys s full))
      refl refl h

-- A client of one server behaves as the store itself: the calls of a program of GET, SET, DEL, EXISTS,
-- SETNX, GETSET and MGET return just what the same operations give on the store, the bytes written are
-- just the requests in their order, and the client ends ready for more. The program stores no empty
-- string, asks MGET for at least one and fewer than 2^31 keys, and each request has fewer than 2^31
-- bytes. The store has no empty string either (the client cannot read one). At first the client is
-- healthy (its connection open, tested not long ago, and on the client's database) and out of a
-- transaction, and its socket accepts every write. The client's buffer is well-formed, no poll fails or
-- times out, `errno` is neither EINVAL nor ERANGE (`parse_integer` fails on a stale one), and the bytes
-- that are to be read are the replies of a server with that store and what follows them, together
-- shorter than 2^63 - 512.
pub calls-Refines :
    (ops : List Op) (s : Store) (rest : Bytes) (r : Redis2) (w : World)
    → All Allowed ops
    → Full s
    → Ready r w (replies ops s rest)
    → let (as_, r', w') = calls ops r w in
      (as_ ≡ map done (answers ops s)) × Ready r' w' rest × (w'.sent ≡ w.sent ++ requests ops)
unfolding calls answers replies requests
calls-Refines [] s rest r w storing full h = (refl, h, sym (append-nil w.sent))
calls-Refines (op ∷ ops) s rest r w ((storing, short), more) full h =
    let (a, h', sent) =
      call-Ready op s (replies ops (next op s) rest) r w (storing, short) full h in
    let (as_, h'', sent') =
      calls-Refines ops (next op s) rest (call op r w).1 (call op r w).2 more
        (next-Full op s storing full) h' in
    (
      (cc),
      h'',
      sent' ∙ ap (λ t. t ++ requests ops) sent ∙ append_assoc w.sent (request op) (requests ops),
    )
