-- ===== src/Redis2P/State/Trying.antt =====
-- Writing to every host and reading from the first that answers (`FOR_EACH_GROUP_WRITE` and
-- `FOR_EACH_GROUP_READ` of src/redis_partition.cpp).
use librediscxx.Base.{ℕ, ◌≡◌, refl, ap, sym, subst, List, [], ◌∷◌, ◌++◌}
use librediscxx.Os.World.{World}
use librediscxx.Redis2.State.{Redis2, Result, done, failed, thrown, Call}
use librediscxx.Redis2P.State.{
  Redis2P, Networks, CallP, call_at, write_loop, read_loop, set_index_error,
}

module _ {A : Type 0} (op : Redis2 → World → Call A) where
  -- Every host of the list carries the operation out, in the list's order, each in the state that the
  -- ones before leave.
  pub data AllDone : List ℕ → Redis2P → Networks → Redis2P → Networks → Type 0 where
    finished : {m : Redis2P} {ns : Networks} → AllDone [] m ns m ns
    next :
        {i : ℕ} {is : List ℕ} {m m' m'' : Redis2P} {ns ns' ns'' : Networks} {a : A}
        → call_at op i m ns ≡ (done a, m', ns')
        → AllDone is m' ns' m'' ns''
        → AllDone (i ∷ is) m ns m'' ns''

  -- Every host of the list fails, in the list's order, and each leaves its error with the client.
  pub data AllFailed : List ℕ → Redis2P → Networks → Redis2P → Networks → Type 0 where
    no_more : {m : Redis2P} {ns : Networks} → AllFailed [] m ns m ns
    miss :
        {i : ℕ} {is : List ℕ} {m m' m'' : Redis2P} {ns ns' ns'' : Networks}
        → call_at op i m ns ≡ (failed, m', ns')
        → AllFailed is (set_index_error i m') ns' m'' ns''
        → AllFailed (i ∷ is) m ns m'' ns''

  -- A host after those that fail is the first that answers.
  pub record Answered (is : List ℕ) (m : Redis2P) (ns : Networks) (a : A) (m' : Redis2P)
      (ns' : Networks) : Type 0 where
    pub before : List ℕ
    pub host : ℕ
    pub after : List ℕ
    pub m_then : Redis2P
    pub ns_then : Networks
    pub split : is ≡ before ++ (host ∷ after)
    pub misses : AllFailed before m ns m_then ns_then
    pub answers : call_at op host m_then ns_then ≡ (done a, m', ns')

  -- A host after those that carry it out fails, and its error is the client's.
  pub record Stopped (is : List ℕ) (m : Redis2P) (ns : Networks) (m' : Redis2P) (ns' : Networks)
      : Type 0 where
    pub before : List ℕ
    pub host : ℕ
    pub after : List ℕ
    pub m_then : Redis2P
    pub m_failed : Redis2P
    pub ns_then : Networks
    pub split : is ≡ before ++ (host ∷ after)
    pub dones : AllDone before m ns m_then ns_then
    pub fails : call_at op host m_then ns_then ≡ (failed, m_failed, ns')
    pub told : m' ≡ set_index_error host m_failed

  -- What a write over the hosts comes to.
  pub Written : CallP A → List ℕ → Redis2P → Networks → Type 0
  Written (done a, m', ns') is m ns = AllDone is m ns m' ns'
  Written (failed, m', ns') is m ns = Stopped is m ns m' ns'
  Written (thrown, m', ns') is m ns = Unit {0}

  extend_done :
      (x : CallP A) (i : ℕ) (is : List ℕ) (m : Redis2P) (ns : Networks) {m' : Redis2P}
      {ns' : Networks} {a : A}
      → call_at op i m ns ≡ (done a, m', ns')
      → Written x is m' ns'
      → Written x (i ∷ is) m ns
  unfolding Written
  extend_done (done b, m'', ns'') i is m ns e w = next e w
  extend_done (failed, m'', ns'') i is m ns e s = record {
    before = i ∷ s.before;
    host = s.host;
    after = s.after;
    m_then = s.m_then;
    m_failed = s.m_failed;
    ns_then = s.ns_then;
    split = ap (λ l. i ∷ l) s.split;
    dones = next e s.dones;
    fails = s.fails;
    told = s.told;
  }
  extend_done (thrown, m'', ns'') i is m ns e w = tt

  abbrev after_write : ℕ → List ℕ → CallP A → CallP A
  after_write i is (r, m', ns') =
      let rest = write_loop op is r m' ns' in
      elim r [
        | done a ↦ rest
        | failed ↦ (failed, set_index_error i m', ns')
        | thrown ↦ (thrown, m', ns')
      ]

  write_step :
      (i : ℕ) (is : List ℕ) (last : Result A) (m : Redis2P) (ns : Networks) (q : CallP A)
      → call_at op i m ns ≡ q
      → ((a : A) (m' : Redis2P) (ns' : Networks)
          → Written (write_loop op is (done a) m' ns') is m' ns')
      → Written (write_loop op (i ∷ is) last m ns) (i ∷ is) m ns
  unfolding Written write_loop
  write_step i is last m ns (done a, m', ns') e rest =
      subst (λ x. Written (after_write i is x) (i ∷ is) m ns) (sym e)
        (extend_done (write_loop op is (done a) m' ns') i is m ns e (rest a m' ns'))
  write_step i is last m ns (failed, m', ns') e rest =
      subst (λ x. Written (after_write i is x) (i ∷ is) m ns) (sym e)
        (record {
          before = [];
          host = i;
          after = is;
          m_then = m;
          m_failed = m';
          ns_then = ns;
          split = refl;
          dones = finished;
          fails = e;
          told = refl;
        })
  write_step i is last m ns (thrown, m', ns') e rest =
      subst (λ x. Written (after_write i is x) (i ∷ is) m ns) (sym e) tt

  write_more :
      (is : List ℕ) (a : A) (m : Redis2P) (ns : Networks)
      → Written (write_loop op is (done a) m ns) is m ns
  unfolding Written write_loop
  write_more [] a m ns = finished
  write_more (i ∷ is) a m ns =
      write_step i is (done a) m ns (call_at op i m ns) refl (write_more is)

  -- A write over at least one host succeeds only when every host, in turn, has carried it out; when it
  -- fails, the hosts before one of them have carried it out, that one has failed, those after it have not
  -- been asked, and the client's error is the one of that host.
  pub write_loop-Written :
      (i : ℕ) (is : List ℕ) (last : Result A) (m : Redis2P) (ns : Networks)
      → Written (write_loop op (i ∷ is) last m ns) (i ∷ is) m ns
  write_loop-Written i is last m ns =
      write_step i is last m ns (call_at op i m ns) refl (write_more is)

  -- What a read over the hosts comes to.
  pub ReadFrom : CallP A → List ℕ → Redis2P → Networks → Type 0
  ReadFrom (done a, m', ns') is m ns = Answered is m ns a m' ns'
  ReadFrom (failed, m', ns') is m ns = AllFailed is m ns m' ns'
  ReadFrom (thrown, m', ns') is m ns = Unit {0}

  extend_missed :
      (x : CallP A) (i : ℕ) (is : List ℕ) (m : Redis2P) (ns : Networks) {m' : Redis2P}
      {ns' : Networks}
      → call_at op i m ns ≡ (failed, m', ns')
      → ReadFrom x is (set_index_error i m') ns'
      → ReadFrom x (i ∷ is) m ns
  unfolding ReadFrom
  extend_missed (done b, m'', ns'') i is m ns e s = record {
    before = i ∷ s.before;
    host = s.host;
    after = s.after;
    m_then = s.m_then;
    ns_then = s.ns_then;
    split = ap (λ l. i ∷ l) s.split;
    misses = miss e s.misses;
    answers = s.answers;
  }
  extend_missed (failed, m'', ns'') i is m ns e s = miss e s
  extend_missed (thrown, m'', ns'') i is m ns e s = tt

  abbrev after_read : ℕ → List ℕ → CallP A → CallP A
  after_read i is (r, m', ns') =
      let rest = read_loop op is (set_index_error i m') ns' in
      elim r [ done a ↦ (done a, m', ns') | failed ↦ rest | thrown ↦ (thrown, m', ns') ]

  read_step :
      (i : ℕ) (is : List ℕ) (m : Redis2P) (ns : Networks) (q : CallP A)
      → call_at op i m ns ≡ q
      → ((m' : Redis2P) (ns' : Networks) → ReadFrom (read_loop op is m' ns') is m' ns')
      → ReadFrom (read_loop op (i ∷ is) m ns) (i ∷ is) m ns
  unfolding ReadFrom read_loop
  read_step i is m ns (done a, m', ns') e rest =
      subst (λ x. ReadFrom (after_read i is x) (i ∷ is) m ns) (sym e)
        (record {
          before = [];
          host = i;
          after = is;
          m_then = m;
          ns_then = ns;
          split = refl;
          misses = no_more;
          answers = e;
        })
  read_step i is m ns (failed, m', ns') e rest =
      subst (λ x. ReadFrom (after_read i is x) (i ∷ is) m ns) (sym e)
        (extend_missed (read_loop op is (set_index_error i m') ns') i is m ns e
          (rest (set_index_error i m') ns'))
  read_step i is m ns (thrown, m', ns') e rest =
      subst (λ x. ReadFrom (after_read i is x) (i ∷ is) m ns) (sym e) tt

  -- A read over the hosts returns the value of the first of them that answers, when all before it have
  -- failed; when it fails, every one of them has failed in turn.
  pub read_loop-ReadFrom :
      (is : List ℕ) (m : Redis2P) (ns : Networks) → ReadFrom (read_loop op is m ns) is m ns
  unfolding ReadFrom read_loop
  read_loop-ReadFrom [] m ns = no_more
  read_loop-ReadFrom (i ∷ is) m ns =
      read_step i is m ns (call_at op i m ns) refl (read_loop-ReadFrom is)
