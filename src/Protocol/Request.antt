-- ===== src/Protocol/Request.antt =====
-- The requests of a `RedisProtocol` (src/redis_protocol.cpp): `check_argc`, `write_command` and
-- `write_commandv`. What `vsnprintf`, boost::trim and boost::split make of a format is a parameter.
pub mod Server
pub mod Sending
use librediscxx.Base.{
  ℕ, zero, suc, ◌+◌, ◌*◌, ℤ, pos, negsuc, to_int, same_int, neg_ℤ, ltb_ℤ, ◌+ℤ◌, Bool, true, false,
  not, List, [], ◌∷◌, ◌++◌, map, Option, none, some, Bytes, codes, ltb, ◌==◌, length, take, flatten,
  if◌then◌else◌,
}
use librediscxx.Message.{Message, text, write_failed, invalid_command, argc_not_matched}
use librediscxx.Os.World.{World}
use librediscxx.Cmd.Command.{KCommand, CommandInfo, argc_no_checking, index}
use librediscxx.Cmd.Input.{RedisInput, set_command_name}
use librediscxx.Cmd.Output.{RedisCommand, set_error}
use librediscxx.Tcp.Client
use librediscxx.Protocol.Decimal.{show_nat, show_int}
use librediscxx.Protocol.Conn.{Protocol, line_end, disconnect}

-- The switch of `check_argc`: is the given number of arguments wrong?
unfoldable pub argc_error : ℤ → ℤ → Bool
argc_error (pos n) given = not (same_int (pos n) given)
argc_error (negsuc n) given =
    if same_int (negsuc n) argc_no_checking then false else ltb_ℤ given (pos (suc n))

-- A failed call whose error is stored in the command's reply as well.
soft_error : Message → RedisCommand → Protocol → RedisCommand × Protocol
unfolding set_error
soft_error m c p = (record c { out = set_error m c.out }, record p { error = m })

unfoldable pub check_argc : ℤ → RedisCommand → Protocol → Bool × RedisCommand × Protocol
unfolding argc_error soft_error
check_argc given c p =
    let (c', p') = soft_error (argc_not_matched c.inp.info.argc given) c p in
    if argc_error c.inp.info.argc given then (false, c', p') else (true, c, p)

-- `$<size> CR LF <data> CR LF`
unfoldable pub bulk_text : Bytes → Bytes
unfolding show_nat
bulk_text s = b'$' ∷ (show_nat (length s) ++ (line_end ++ (s ++ line_end)))

-- `*<count> CR LF`, then each argument.
unfoldable pub request_text : ℤ → List Bytes → Bytes
unfolding show_int bulk_text
request_text count ss = b'*' ∷ (show_int count ++ (line_end ++ flatten (map bulk_text ss)))

abbrev pub Written : Type 0
Written = Bool × RedisCommand × Protocol × World

-- The common end of both writers: send the text, and disconnect if that fails.
pub send_text : Bytes → RedisCommand → Protocol → World → Written
unfolding disconnect set_error
send_text s c p w =
    let (ec, t, w') = Client.write s p.timeout p.tcp w in
    let p' = record p { tcp = t } in
    let (p'', w'') = disconnect (λ h q. write_failed h q ec) p' w' in
    if ec == 0
    then (true, c, p', w')
    else (false, record c { out = set_error p''.error c.out }, p'', w'')

unfoldable pub write_command : RedisCommand → Protocol → World → Written
unfolding check_argc request_text send_text
write_command c p w =
    let given_argc = to_int (length c.inp.args) in
    let (ok, c', p') = check_argc given_argc c p in
    if ok
    then send_text (request_text (given_argc +ℤ pos 1) (c.inp.info.command_str ∷ c.inp.args)) c' p'
        w
    else (false, c', p', w)

-- The buffer doubling of `write_commandv`: the text fits once the buffer is longer than it. Every round
-- doubles the buffer, so as many rounds as the text has bytes are enough.
format_loop : ℕ → ℕ → Bytes → ℕ
format_loop zero buf_len formatted = buf_len
format_loop (suc f) buf_len formatted =
    let rest = format_loop f (buf_len * 2) formatted in
    if ltb (length formatted) buf_len then buf_len else rest

unfoldable pub format_text : Bytes → Bytes
unfolding format_loop
format_text formatted = take (format_loop (length formatted) 64 formatted) formatted

-- `std::remove_if(…, is_empty_string())`
remove_empty : List Bytes → List Bytes
remove_empty [] = []
remove_empty ([] ∷ ss) = remove_empty ss
remove_empty ((c ∷ s) ∷ ss) = (c ∷ s) ∷ remove_empty ss

is_noop : KCommand → Bool
unfolding index
is_noop c = index c == 0

with_args : List Bytes → RedisCommand → RedisCommand
with_args ss c = record c { inp = record c.inp { args = ss } }

named : Bytes → RedisCommand → RedisCommand
unfolding set_command_name
named s c = record c { inp = set_command_name s c.inp }

-- What follows the splitting: the first word names the command.
write_words : List Bytes → RedisCommand → Protocol → World → Written
unfolding soft_error named is_noop check_argc request_text send_text
write_words [] c p w =
    let (c', p') = soft_error (text (codes "given argc is zero")) c p in (false, c', p', w)
write_words (s ∷ ss) c p w =
    let c₁ = named s c in
    let given_argc = to_int (suc (length ss)) in
    let (c₂, p₂) = soft_error (invalid_command s) c₁ p in
    let (ok, c₃, p₃) = check_argc (given_argc +ℤ negsuc 0) c₁ p in
    if is_noop c₁.inp.command
    then (false, c₂, p₂, w)
    else if ok
    then send_text (request_text given_argc (s ∷ ss)) c₃ p₃ w
    else (false, c₃, p₃, w)

-- `write_commandv`, for the text that `vsnprintf` makes of the format and its arguments.
unfoldable pub write_commandv :
    (trim : Bytes → Bytes) (split : Bytes → List Bytes)
    → Bytes
    → RedisCommand
    → Protocol
    → World
    → Written
unfolding write_words remove_empty with_args format_text
write_commandv trim split formatted c p w =
    let ss = remove_empty (split (trim (format_text formatted))) in
    write_words ss (with_args ss c) p w
