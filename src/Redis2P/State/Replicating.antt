-- ===== src/Redis2P/State/Replicating.antt =====
-- A write for a key reaches one host of each group (`FOR_EACH_GROUP_WRITE` of src/redis_partition.cpp).
use librediscxx.Base.{
  ℕ, zero, suc, ◌+◌, ◌^◌, ◌≤◌, ◌<◌, ◌≡◌, ◌≢◌, refl, sym, ap, ◌∙◌, subst, List, [], ◌∷◌, ◌++◌, some,
  Bytes, get_elem?, set, All, arith, length, codes, str_eq,
}
use librediscxx.Os.World.{World, einval_no, erange}
use librediscxx.Cmd.Command.{KCommand}
use librediscxx.Cmd.Input.{redis_input, command_info, push_arg}
use librediscxx.Cmd.Output.{RedisOutput, status}
use librediscxx.Protocol.Reply.Wire.{put_output}
use librediscxx.Protocol.Reply.{
  same_type, checks_type, expected_type, wrong_type, mode_after_status,
}
use librediscxx.Protocol.Request.{argc_error}
use librediscxx.Protocol.Request.Sending.{text_of}
use librediscxx.Redis2.State.{Redis2, Result, done, failed, Call, command_of, status_ok}
use librediscxx.Redis2.State.Asking.{Healthy-shared}
use librediscxx.Redis2.Session.Calling.{Ready, query-Ready}
use librediscxx.Redis2.Strings
use librediscxx.Redis2P.State.{
  Redis2P, Networks, CallP, call_on, call_at, write_loop, get_key_client, for_each_group_write,
  available_or, rotated,
}
use librediscxx.Redis2P.State.Serving.{Grouped}
use librediscxx.Redis2P.State.Spreading.{Distinct, get_key_client-Distinct}
use librediscxx.Redis2P.StringCalls

-- The network of a host as a call finds it: `errno`, the clock and the cache are the process's.
abbrev pub shared : World → Networks → World
shared w ns = record w { errno = ns.errno; clock = ns.clock; dns_cache = ns.dns_cache }

-- A host that is ready for the next call, what has been sent to it, and the bytes that it will write.
pub record HostReady (i : ℕ) (m : Redis2P) (ns : Networks) (sent s : Bytes) : Type 0 where
  pub client : Redis2
  pub world : World
  pub client_at : get_elem? m.clients i ≡ some client
  pub world_at : get_elem? ns.worlds i ≡ some world
  pub ready : Ready client (shared world ns) s
  pub sends : world.sent ≡ sent

get_elem-set_self {ℓ} :
    {A : Type ℓ} (xs : List A) (i : ℕ) (x y : A)
    → get_elem? xs i ≡ some x
    → get_elem? (set xs i y) i ≡ some y
get_elem-set_self [] i x y e = cc
get_elem-set_self (z ∷ xs) zero x y e = refl
get_elem-set_self (z ∷ xs) (suc i) x y e = get_elem-set_self xs i x y e

get_elem-set_ne {ℓ} :
    {A : Type ℓ} (xs : List A) (i j : ℕ) (y : A) → i ≢ j → get_elem? (set xs i y) j ≡ get_elem? xs j
get_elem-set_ne [] i j y ne = refl
get_elem-set_ne (z ∷ xs) zero zero y ne = absurd (ne refl)
get_elem-set_ne (z ∷ xs) zero (suc j) y ne = refl
get_elem-set_ne (z ∷ xs) (suc i) zero y ne = refl
get_elem-set_ne (z ∷ xs) (suc i) (suc j) y ne = get_elem-set_ne xs i j y (λ e. ne (ap suc e))

-- What other calls of the process leave behind keeps a client ready, as long as no time passes.
Ready-shared :
    (r : Redis2) (w : World) (ns ns' : Networks) (s : Bytes)
    → ns'.clock ≡ ns.clock
    → ns'.errno ≢ einval_no
    → ns'.errno ≢ erange
    → Ready r (shared w ns) s
    → Ready r (shared w ns') s
Ready-shared r w ns ns' s clock p q h = record {
  healthy = Healthy-shared r (shared w ns) (shared w ns') clock h.healthy;
  sends = h.sends;
  mode = h.mode;
  holds = record {
    inv = h.holds.inv;
    polls = h.holds.polls;
    not_einval = p;
    not_erange = q;
    bytes = h.holds.bytes;
    short = h.holds.short;
  };
}

-- A call that every ready host carries out when it answers so.
abbrev Answers : {A : Type 0} → (Redis2 → World → Call A) → A → Bytes → RedisOutput → Type 0
Answers op a text o =
    (r : Redis2) (w : World) (rest : Bytes)
    → Ready r w (put_output o rest)
    → let (v, r', w') = op r w in
      (v ≡ done a) × Ready r' w' rest × (w'.sent ≡ w.sent ++ text) × (w'.clock ≡ w.clock)

-- What a call on one host does: that host has got the request and is ready again, and every other is as before.
abbrev OneCalled :
    {A : Type 0} → ℕ → Bytes → Bytes → A → Redis2P → Networks → CallP A → Bytes → Type 0
OneCalled i text rest a m ns (v, m', ns') sent =
    (v ≡ done a)
    × HostReady i m' ns' (sent ++ text) rest
    × ((j : ℕ) (before s : Bytes) → i ≢ j → HostReady j m ns before s → HostReady j m' ns' before s)

call_on-OneCalled :
    {A : Type 0} (op : Redis2 → World → Call A) (a : A) (text : Bytes) (o : RedisOutput) (i : ℕ)
    (m : Redis2P) (ns : Networks) (sent rest : Bytes)
    → Answers op a text o
    → (h : HostReady i m ns sent (put_output o rest))
    → OneCalled i text rest a m ns (call_on op i (some h.client) (some h.world) m ns) sent
unfolding call_on
call_on-OneCalled op a text o i m ns sent rest answers h =
    let (v, ready, out, clock) = answers h.client (shared h.world ns) rest h.ready in
    (
      v,
      record {
        client = (op h.client (shared h.world ns)).1;
        world = (op h.client (shared h.world ns)).2;
        client_at =
            get_elem-set_self m.clients i h.client (op h.client (shared h.world ns)).1 h.client_at;
        world_at =
            get_elem-set_self ns.worlds i h.world (op h.client (shared h.world ns)).2 h.world_at;
        ready = ready;
        sends = out ∙ ap (λ t. t ++ text) h.sends;
      },
      λ j before s ne k. record {
        client = k.client;
        world = k.world;
        client_at =
            get_elem-set_ne m.clients i j (op h.client (shared h.world ns)).1 ne ∙ k.client_at;
        world_at =
            get_elem-set_ne ns.worlds i j (op h.client (shared h.world ns)).2 ne ∙ k.world_at;
        ready =
            Ready-shared k.client k.world ns (call_on op i (some h.client) (some h.world) m ns).2 s
              clock ready.holds.not_einval ready.holds.not_erange k.ready;
        sends = k.sends;
      },
    )

call_at-OneCalled :
    {A : Type 0} (op : Redis2 → World → Call A) (a : A) (text : Bytes) (o : RedisOutput) (i : ℕ)
    (m : Redis2P) (ns : Networks) (sent rest : Bytes)
    → Answers op a text o
    → HostReady i m ns sent (put_output o rest)
    → OneCalled i text rest a m ns (call_at op i m ns) sent
unfolding call_at
call_at-OneCalled op a text o i m ns sent rest answers h =
    rw (h.client_at, h.world_at) (call_on-OneCalled op a text o i m ns sent rest answers h)

All-both {ℓ κ} :
    {A : Type ℓ} {P Q R : A → Type κ} (f : (x : A) → P x → Q x → R x) (xs : List A)
    → All P xs
    → All Q xs
    → All R xs
All-both f [] ps qs = tt
All-both f (x ∷ xs) (p, ps) (q, qs) = (f x p q, All-both f xs ps qs)

write_loop-done :
    {A : Type 0} (op : Redis2 → World → Call A) (i : ℕ) (is : List ℕ) (last : Result A) (a : A)
    (m : Redis2P) (ns : Networks)
    → (call_at op i m ns).0 ≡ done a
    → write_loop op (i ∷ is) last m ns
      ≡ write_loop op is (done a) (call_at op i m ns).1 (call_at op i m ns).2
unfolding write_loop
write_loop-done op i is last a m ns e =
    rw (e, write_loop) (ap (λ r. write_loop op is r (call_at op i m ns).1 (call_at op i m ns).2) e)

-- What a call on several hosts does: each of them has got the request once, and every other is as before.
abbrev pub AllCalled :
    {A : Type 0}
    → List ℕ
    → Bytes
    → (ℕ → Bytes)
    → A
    → Redis2P
    → Networks
    → CallP A
    → (ℕ → Bytes)
    → Type 0
AllCalled is text rest a m ns (v, m', ns') sent =
    (v ≡ done a)
    × All (λ i. HostReady i m' ns' (sent i ++ text) (rest i)) is
    × ((j : ℕ) (before s : Bytes)
        → All (λ i. i ≢ j) is
        → HostReady j m ns before s
        → HostReady j m' ns' before s)

module _ {A : Type 0} (op : Redis2 → World → Call A) (a : A) (text : Bytes) (o : RedisOutput)
    (answers : Answers op a text o) (sent rest : ℕ → Bytes) where
  join_called :
      (i : ℕ) (is : List ℕ) (last : Result A) (m : Redis2P) (ns : Networks)
      → All (λ j. i ≢ j) is
      → (one : OneCalled i text (rest i) a m ns (call_at op i m ns) (sent i))
      → AllCalled is text rest a
          (call_at op i m ns).1
          (call_at op i m ns).2
          (write_loop op is (done a) (call_at op i m ns).1 (call_at op i m ns).2)
          sent
      → AllCalled (i ∷ is) text rest a m ns (write_loop op (i ∷ is) last m ns) sent
  join_called i is last m ns ne (v, here, others) (v', all, others') =
      subst (λ q. AllCalled (i ∷ is) text rest a m ns q sent)
        (sym (write_loop-done op i is last a m ns v))
        (
          v',
          (
            others' i (sent i ++ text) (rest i) (All-both (λ j x _. λ e. x (sym e)) is ne ne) here,
            all,
          ),
          λ j before s (first, more) k. others' j before s more (others j before s first k),
        )

  write_loop-AllCalled :
      (is : List ℕ) (m : Redis2P) (ns : Networks)
      → Distinct is
      → All (λ i. HostReady i m ns (sent i) (put_output o (rest i))) is
      → AllCalled is text rest a m ns (write_loop op is (done a) m ns) sent
  unfolding write_loop
  write_loop-AllCalled [] m ns distinct ready = (refl, tt, λ j before s all k. k)
  write_loop-AllCalled (i ∷ is) m ns (ne, distinct) (here, ready) =
      let one = call_at-OneCalled op a text o i m ns (sent i) (rest i) answers here in
      join_called i is (done a) m ns ne one (
        write_loop-AllCalled is (call_at op i m ns).1 (call_at op i m ns).2 distinct
          (All-both (λ j x k. one.2 j (sent j) (put_output o (rest j)) x k) is ne ready))

  available_or-AllCalled :
      (is : List ℕ) (m : Redis2P) (ns : Networks)
      → 0 < length is
      → Distinct is
      → All (λ i. HostReady i m ns (sent i) (put_output o (rest i))) is
      → AllCalled is text rest a m ns (available_or is (λ is'. write_loop op is' failed) m ns) sent
  unfolding available_or
  available_or-AllCalled [] m ns some_host distinct ready = absurd (omega arith)
  available_or-AllCalled (i ∷ is) m ns some_host (ne, distinct) (here, ready) =
      let one = call_at-OneCalled op a text o i m ns (sent i) (rest i) answers here in
      join_called i is failed m ns ne one (
        write_loop-AllCalled is (call_at op i m ns).1 (call_at op i m ns).2 distinct
          (All-both (λ j x k. one.2 j (sent j) (put_output o (rest j)) x k) is ne ready))

length-rotated :
    (left i seed host_index : ℕ) (m : Redis2P) → length (rotated left i seed host_index m) ≡ left
unfolding rotated
length-rotated zero i seed host_index m = refl
length-rotated (suc left) i seed host_index m =
    ap suc (length-rotated left (suc i) seed host_index m)

set-Answers :
    (key value : Bytes)
    → length (text_of (command_of KCommand.set (key ∷ value ∷ []))) < 2 ^ 31
    → Answers
        (Strings.set key value)
        tt
        (text_of (command_of KCommand.set (key ∷ value ∷ [])))
        (status (some (codes "OK")))
unfolding Strings.set command_of redis_input push_arg command_info argc_error same_type checks_type
    expected_type wrong_type status_ok mode_after_status str_eq
set-Answers key value short r w rest h =
    query-Ready status_ok KCommand.set (key ∷ value ∷ []) (status (some (codes "OK"))) tt rest r w
      (record { argc = refl; short = short }) (refl, omega arith) refl refl h

-- A SET on partitioned servers is replicated: when each host chosen for the key is ready and will
-- answer OK, the call succeeds, each of these hosts has got the request exactly once and is ready for
-- more, and every other host that was ready is as it was. There is at least one group and no more
-- groups than clients, the number of the thread plus that of the groups is at most 2^64, and the
-- request has fewer than 2^31 bytes. A host is ready when its client is healthy (its connection open,
-- tested not long ago, and on the client's database) and out of a transaction, its socket accepts every
-- write, its buffer is well-formed, no poll of it fails or times out, `errno` is neither EINVAL nor
-- ERANGE, and the bytes that it will read are the reply and what follows it, together shorter than 2^63
-- - 512.
pub set-AllCalled :
    (key value : Bytes) (m : Redis2P) (ns : Networks) (sent rest : ℕ → Bytes)
    → length (text_of (command_of KCommand.set (key ∷ value ∷ []))) < 2 ^ 31
    → Grouped m
    → ns.thread_id + m.groups ≤ 2 ^ 64
    → All
        (λ i. HostReady i m ns (sent i) (put_output (status (some (codes "OK"))) (rest i)))
        (get_key_client key m ns)
    → AllCalled
        (get_key_client key m ns)
        (text_of (command_of KCommand.set (key ∷ value ∷ [])))
        rest
        tt
        m
        ns
        (StringCalls.set key value m ns)
        sent
unfolding StringCalls.set for_each_group_write get_key_client
set-AllCalled key value m ns sent rest short g fits ready =
    available_or-AllCalled (Strings.set key value) tt
      (text_of (command_of KCommand.set (key ∷ value ∷ []))) (status (some (codes "OK")))
      (set-Answers key value short) sent rest (get_key_client key m ns) m ns
      (subst (λ n. 0 < n) (sym (length-rotated m.groups 0 ns.thread_id _ m)) g.some_group)
      (get_key_client-Distinct key m ns g fits) ready
