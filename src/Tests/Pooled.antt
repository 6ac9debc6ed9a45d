-- ===== src/Tests/Pooled.antt =====
-- The theorems on the pool of clients at concrete inputs.
use librediscxx.Base.{
  count, ℕ, ◌+◌, ◌==◌, ==_refl, ◌≡◌, ◌≢◌, refl, pos, Bool, true, List, [], ◌∷◌, Option, none, some,
  Bytes, codes, arith, if◌then◌else◌,
}
use librediscxx.ThreadSpecific.{Storage}
use librediscxx.Tss.{
  Tss, RedisClientType, thread_specific, not_thread_specific, single, tss, get, put, thread_exit,
  destroy, new_client,
}
use librediscxx.Tss.Owned.{Owned, set_slot, slot}
use librediscxx.Tss.Stepping.{Steps, no_step, after, make, keep, Steps-Owned}
use librediscxx.Tss.Usage.{
  no_call, get_own, get_free, put_own, put_back, ends, Calls-Steps, tss-Owned, get-Exclusive,
  put-get, destroy_leaks,
}
use librediscxx.Redis2.State.{redis2}

-- A storage with one pointer for each thread.
if-then : (b : Bool) (p q : Option ℕ) → b ≡ true → (if b then p else q) ≡ p
if-then b p q e = rw e refl

set-ne : (t u : ℕ) (p q : Option ℕ) → t ≢ u → (if t == u then p else q) ≡ q
set-ne t u p q ne = ground arith

abbrev slots : Storage
slots = record {
  Slots = ℕ → Option ℕ;
  empty = λ t. none;
  get_tss_data = λ s t. s t;
  set_tss_data = λ s t p cleanup. (λ u. if t == u then p else s u, if cleanup then s t else none);
  get-empty = λ t. refl;
  get-set_self = λ s t p cleanup. if-then (t == t) p (s t) (==_refl t);
  get-set_ne = λ s t u p cleanup ne. set-ne t u p (s u) ne;
  set-cleanup = λ s t p cleanup. refl;
}

abbrev one_host : Bytes → List Bytes
one_host host = host ∷ []

-- A pool that keeps one free client at most.
abbrev pool : Tss (ℕ → Option ℕ)
pool = tss slots one_host (codes "h") (codes "1") (pos 0) (pos 1) (pos 50) RedisClientType.normal 1

pool-Owned : Owned slots one_host pool []
pool-Owned =
    tss-Owned slots one_host (codes "h") (codes "1") (pos 0) (pos 1) (pos 50) RedisClientType.normal
      1

abbrev made_one : Tss (ℕ → Option ℕ)
made_one = record pool { made = single (redis2 (codes "h") (codes "1") (pos 0) (pos 50)) ∷ [] }

steps : Steps slots one_host pool [] (set_slot slots one_host made_one 3 (some 0) true) []
unfolding tss new_client
steps =
    after
      (after no_step
        (make (single (redis2 (codes "h") (codes "1") (pos 0) (pos 50))) refl refl refl))
      (keep 3 0 (λ r. refl) refl refl)

Steps-Owned_example : Owned slots one_host (set_slot slots one_host made_one 3 (some 0) true) []
Steps-Owned_example = Steps-Owned slots one_host pool-Owned steps

-- The pool after the thread 3 has asked for its client.
abbrev after_get : Tss (ℕ → Option ℕ)
after_get = (get slots one_host thread_specific 3 pool).1

after_get-some : get slots one_host thread_specific 3 pool ≡ (some 0, after_get)
unfolding get tss
after_get-some = refl

get-Exclusive_example :
    (slot slots one_host after_get 3 ≡ some 0)
    × ((u : ℕ) → 3 ≢ u → slot slots one_host after_get u ≢ some 0)
    × (count 0 after_get.free_redis + count 0 [] + count 0 after_get.deleted ≡ 0)
get-Exclusive_example = get-Exclusive slots one_host 3 pool [] 0 after_get pool-Owned after_get-some

-- Another thread takes a client and puts it back; the thread 3 puts its own back and ends.
abbrev after_free : Tss (ℕ → Option ℕ)
after_free = (get slots one_host not_thread_specific 4 after_get).1

after_free-some : get slots one_host not_thread_specific 4 after_get ≡ (some 1, after_free)
unfolding get tss
after_free-some = refl

abbrev put_1 : Tss (ℕ → Option ℕ)
put_1 = put slots one_host (some 1) not_thread_specific 4 after_free

put_1-slot : slot slots one_host put_1 3 ≡ some 0
unfolding get put tss
put_1-slot = refl

abbrev all_back : Tss (ℕ → Option ℕ)
all_back = thread_exit slots one_host 3 (put slots one_host (some 0) thread_specific 3 put_1)

Calls-Steps_example : Steps slots one_host pool [] all_back []
Calls-Steps_example = Calls-Steps slots one_host (
    ends 3 (
      put_own 3 0
        (put_back 4 1 (get_free 4 (get_own 3 no_call after_get-some) after_free-some) (λ r. refl))
        put_1-slot))

put-get_example :
    get slots one_host not_thread_specific 5
      (put slots one_host (some 1) not_thread_specific 4 pool)
    ≡ (some 1, pool)
unfolding tss
put-get_example = put-get slots one_host 4 5 1 pool (omega arith)

destroy_leaks_example :
    ((destroy slots one_host 3 after_get).free_redis ≡ 0 ∷ [])
    × (count 0 (destroy slots one_host 3 after_get).deleted ≡ 0)
unfolding get tss
destroy_leaks_example =
    destroy_leaks slots one_host 3 0 after_get
      (Steps-Owned slots one_host pool-Owned
        (Calls-Steps slots one_host (get_own 3 no_call after_get-some)))
      (get-Exclusive slots one_host 3 pool [] 0 after_get pool-Owned after_get-some).0 (omega arith)
