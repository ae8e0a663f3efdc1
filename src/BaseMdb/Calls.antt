-- ===== src/BaseMdb/Calls.antt =====
-- CBaseMdb.hpp: sequences of calls on the class and on the database that was chosen.
use simple_dsp.Base.{◌≡◌, refl, Bool, List, [], ◌∷◌, ℤ}
use simple_dsp.Text.{Bytes}
use simple_dsp.Prog.{Outcome}
use simple_dsp.Store.{Double, Ty, Val, Mdb}
use simple_dsp.Store.Link.{Link}
use simple_dsp.BaseMdb.{
  TypeDb, redis, tair, CBaseMdb, choose, base_mdb, get, set, hset, hget, zadd, zrangebyscore,
  zmembers, sadd, smembers, incr,
}
use simple_dsp.BaseMdb.Connection.{base_link, close_chosen, connect, set_num_db, close, remove_key}

module _ (d : Double) where
  -- A call of the class, with its arguments.
  pub data Call : Type 0 where
    connects : Bytes → ℤ → Call
    sets_num_db : ℤ → Call
    closes : Call
    removes_key : ℤ → Bytes → Call
    gets : (t : Ty) → Bytes → Val d t → Call
    sets : (t : Ty) → Bytes → Val d t → Call
    hsets : (t : Ty) → Bytes → Bytes → Val d t → Call
    hgets : (t : Ty) → Bytes → Call
    zadds : (t : Ty) → Bytes → d.W → Val d t → Call
    zranges : (t : Ty) → Bytes → d.W → d.W → Call
    lists_zmembers : (t : Ty) → Bytes → Call
    sadds : (t : Ty) → Bytes → Val d t → Call
    lists_smembers : (t : Ty) → Bytes → Call
    incrs : Bytes → ℤ → Call

  -- What it gives.
  pub data Answer : Type 0 where
    flag : Outcome Bool → Answer
    number : ℤ → Answer
    value : (t : Ty) → Val d t → Answer
    values : (t : Ty) → List (Val d t) → Answer
    fields : (t : Ty) → List (Bytes × Val d t) → Answer
    nothing : Answer

  abbrev pub giving : {A S : Type 0} → (A → Answer) → A × S → Answer × S
  giving f (a, s) = (f a, s)

  module _ (m : Mdb d) (l : Link d m) where
    unfoldable pub run_call : Call → m.State → Answer × m.State
    run_call (connects host port) s = giving flag (l.connect host port s)
    run_call (sets_num_db n) s = giving flag (l.set_num_db n s)
    run_call closes s = (nothing, l.close s)
    run_call (removes_key area k) s = giving number (l.remove_key area k s)
    run_call (gets t k v) s = giving (value t) (m.get t k v s)
    run_call (sets t k v) s = giving number (m.set t k v s)
    run_call (hsets t k f v) s = giving number (m.hset t k f v s)
    run_call (hgets t k) s = giving (fields t) (m.hget t k s)
    run_call (zadds t k x v) s = giving number (m.zadd t k x v s)
    run_call (zranges t k lo hi) s = giving (values t) (m.zrangebyscore t k lo hi s)
    run_call (lists_zmembers t k) s = giving (values t) (m.zmembers t k s)
    run_call (sadds t k v) s = giving number (m.sadd t k v s)
    run_call (lists_smembers t k) s = giving (values t) (m.smembers t k s)
    run_call (incrs k n) s = giving number (m.incr k n s)

    unfoldable pub run_calls : List Call → m.State → List Answer × m.State
    run_calls [] s = ([], s)
    run_calls (c ∷ calls) s =
        let (a, s') = run_call c s in let (answers, s'') = run_calls calls s' in (a ∷ answers, s'')

  module _ (r t : Mdb d) (rl : Link d r) (tl : Link d t) where
    unfoldable pub on_base : Call → CBaseMdb d r t → Answer × CBaseMdb d r t
    unfolding base_mdb
    on_base = run_call (base_mdb d r t) (base_link d r t rl tl)

    unfoldable pub calls_on_base : List Call → CBaseMdb d r t → List Answer × CBaseMdb d r t
    unfolding base_mdb
    calls_on_base = run_calls (base_mdb d r t) (base_link d r t rl tl)

    giving-choose :
        {A : Type 0} (f : A → Answer) (y : TypeDb) (g : r.State → A × r.State)
        (h : t.State → A × t.State) (b : CBaseMdb d r t)
        → giving f (choose d r t y g h b)
          ≡ choose d r t y (λ s. giving f (g s)) (λ s. giving f (h s)) b
    giving-choose f redis g h b = refl
    giving-choose f tair g h b = refl

    closes_chosen :
        (y : TypeDb) (b : CBaseMdb d r t)
        → (nothing, close_chosen d r t rl tl y b)
          ≡ choose d r t y (run_call r rl closes) (run_call t tl closes) b
    unfolding run_call
    closes_chosen redis b = refl
    closes_chosen tair b = refl

    one_call :
        (c : Call) (b : CBaseMdb d r t)
        → on_base c b ≡ choose d r t b.m_type (run_call r rl c) (run_call t tl c) b
    unfolding on_base run_call base_mdb base_link connect set_num_db close remove_key get set hset
        hget zadd zrangebyscore zmembers sadd smembers incr
    one_call (connects host port) b = giving-choose flag b.m_type _ _ b
    one_call (sets_num_db n) b = giving-choose flag b.m_type _ _ b
    one_call closes b = closes_chosen b.m_type b
    one_call (removes_key area k) b = giving-choose number b.m_type _ _ b
    one_call (gets y k v) b = giving-choose (value y) b.m_type _ _ b
    one_call (sets y k v) b = giving-choose number b.m_type _ _ b
    one_call (hsets y k f v) b = giving-choose number b.m_type _ _ b
    one_call (hgets y k) b = giving-choose (fields y) b.m_type _ _ b
    one_call (zadds y k x v) b = giving-choose number b.m_type _ _ b
    one_call (zranges y k lo hi) b = giving-choose (values y) b.m_type _ _ b
    one_call (lists_zmembers y k) b = giving-choose (values y) b.m_type _ _ b
    one_call (sadds y k v) b = giving-choose number b.m_type _ _ b
    one_call (lists_smembers y k) b = giving-choose (values y) b.m_type _ _ b
    one_call (incrs k n) b = giving-choose number b.m_type _ _ b

    calls_as :
        (y : TypeDb) (calls : List Call) (s : r.State) (u : t.State)
        → calls_on_base calls (record { m_type = y; m_redis_db = s; m_tair_db = u })
          ≡ choose d r t y
              (run_calls r rl calls)
              (run_calls t tl calls)
              (record { m_type = y; m_redis_db = s; m_tair_db = u })
    unfolding calls_on_base on_base run_calls
    calls_as redis [] s u = refl
    calls_as tair [] s u = refl
    calls_as redis (c ∷ calls) s u =
        let step = one_call c (record { m_type = redis; m_redis_db = s; m_tair_db = u }) in
        rw (step, calls_as redis calls (run_call r rl c s).1 u) refl
    calls_as tair (c ∷ calls) s u =
        let step = one_call c (record { m_type = tair; m_redis_db = s; m_tair_db = u }) in
        rw (step, calls_as tair calls s (run_call t tl c u).1) refl

    -- On an object whose type is Redis, any sequence of calls, those on the connection included, gives
    -- what it gives on the Redis database and leaves that database so, with the Tair database and the
    -- type as they were; and the other way round where the type is Tair.
    pub calls-chosen :
        (calls : List Call) (s : r.State) (u : t.State)
        → (calls_on_base calls (record { m_type = redis; m_redis_db = s; m_tair_db = u }) ≡ (
          (run_calls r rl calls s).0,
          record { m_type = redis; m_redis_db = (run_calls r rl calls s).1; m_tair_db = u },
        ))
          × (calls_on_base calls (record { m_type = tair; m_redis_db = s; m_tair_db = u }) ≡ (
            (run_calls t tl calls u).0,
            record { m_type = tair; m_redis_db = s; m_tair_db = (run_calls t tl calls u).1 },
          ))
    calls-chosen calls s u = (calls_as redis calls s u, calls_as tair calls s u)
