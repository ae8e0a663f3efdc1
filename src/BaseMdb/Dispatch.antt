-- ===== src/BaseMdb/Dispatch.antt =====
-- CBaseMdb.hpp: the chosen database behind the class, and its contract.
use simple_dsp.Base.{◌≡◌, refl, ◌∙◌}
use simple_dsp.Store.{Double, Mdb}
use simple_dsp.Store.Contract.{IsStore}
use simple_dsp.BaseMdb.{
  TypeDb, redis, tair, CBaseMdb, choose, get, set, hset, hget, zadd, zrangebyscore, zmembers, sadd,
  smembers, incr,
}

module _ (d : Double) (r t : Mdb d) where
  -- The contract of the database that a type stands for.
  abbrev pub ChosenIsStore : TypeDb → Type 1
  ChosenIsStore redis = IsStore d r
  ChosenIsStore tair = IsStore d t

  -- An object with that type.
  abbrev pub Typed : TypeDb → Type 0
  Typed y = (b : CBaseMdb d r t) × (b.m_type ≡ y)

  -- No call changes the type.
  pub choose-type :
      {A : Type 0} (z : TypeDb) (f : r.State → A × r.State) (g : t.State → A × t.State)
      (b : CBaseMdb d r t)
      → (choose d r t z f g b).1.m_type ≡ b.m_type
  choose-type redis f g b = refl
  choose-type tair f g b = refl

  -- A call on an object with a type.
  abbrev pub typed_call :
      {A : Type 0} (y : TypeDb) (f : CBaseMdb d r t → A × CBaseMdb d r t)
      → ((b : CBaseMdb d r t) → (f b).1.m_type ≡ b.m_type)
      → Typed y
      → A × Typed y
  typed_call y f h (b, p) = ((f b).0, ((f b).1, h b ∙ p))

  -- The class, as a memory database of the objects with a type.
  pub typed_mdb : TypeDb → Mdb d
  unfolding get set hset hget zadd zrangebyscore zmembers sadd smembers incr
  typed_mdb y = record {
    State = Typed y;
    get = λ u k v. typed_call y (get d r t u k v) (λ b. choose-type b.m_type _ _ b);
    set = λ u k v. typed_call y (set d r t u k v) (λ b. choose-type b.m_type _ _ b);
    hset = λ u k f v. typed_call y (hset d r t u k f v) (λ b. choose-type b.m_type _ _ b);
    hget = λ u k. typed_call y (hget d r t u k) (λ b. choose-type b.m_type _ _ b);
    zadd = λ u k x v. typed_call y (zadd d r t u k x v) (λ b. choose-type b.m_type _ _ b);
    zrangebyscore =
        λ u k lo hi. typed_call y (zrangebyscore d r t u k lo hi) (λ b. choose-type b.m_type _ _ b);
    zmembers = λ u k. typed_call y (zmembers d r t u k) (λ b. choose-type b.m_type _ _ b);
    sadd = λ u k v. typed_call y (sadd d r t u k v) (λ b. choose-type b.m_type _ _ b);
    smembers = λ u k. typed_call y (smembers d r t u k) (λ b. choose-type b.m_type _ _ b);
    incr = λ k n. typed_call y (incr d r t k n) (λ b. choose-type b.m_type _ _ b);
  }

  redis-IsStore : IsStore d r → IsStore d (typed_mdb redis)
  unfolding typed_mdb get set zadd sadd smembers incr
  redis-IsStore a = record {
    cell = λ (b, p). a.cell b.m_redis_db;
    rounded = a.rounded;
    get_value = λ u k v (b, p) h. rw p (a.get_value u k v b.m_redis_db h);
    cell-get = λ y k v (b, p) u j h. rw p (a.cell-get y k v b.m_redis_db u j h);
    cell-set_int = λ k v (b, p) h f g. rw p (a.cell-set_int k v b.m_redis_db h f g);
    cell-set_ull = λ k v (b, p) h f g. rw p (a.cell-set_ull k v b.m_redis_db h f g);
    cell-set_time = λ k v (b, p) h f g. rw p (a.cell-set_time k v b.m_redis_db h f g);
    cell-set_double = λ k v (b, p) h f. rw p (a.cell-set_double k v b.m_redis_db h f);
    cell-set_ne = λ y k v (b, p) u j h n q. rw p (a.cell-set_ne y k v b.m_redis_db u j h n q);
    cell-zadd = λ k x v (b, p) u j h g. rw p (a.cell-zadd k x v b.m_redis_db u j h g);
    cell-sadd = λ k v (b, p) u j h g. rw p (a.cell-sadd k v b.m_redis_db u j h g);
    cell-smembers = λ y k (b, p) u j h. rw p (a.cell-smembers y k b.m_redis_db u j h);
    cell-incr_ne = λ k n (b, p) u j h q. rw p (a.cell-incr_ne k n b.m_redis_db u j h q);
  }

  tair-IsStore : IsStore d t → IsStore d (typed_mdb tair)
  unfolding typed_mdb get set zadd sadd smembers incr
  tair-IsStore a = record {
    cell = λ (b, p). a.cell b.m_tair_db;
    rounded = a.rounded;
    get_value = λ u k v (b, p) h. rw p (a.get_value u k v b.m_tair_db h);
    cell-get = λ y k v (b, p) u j h. rw p (a.cell-get y k v b.m_tair_db u j h);
    cell-set_int = λ k v (b, p) h f g. rw p (a.cell-set_int k v b.m_tair_db h f g);
    cell-set_ull = λ k v (b, p) h f g. rw p (a.cell-set_ull k v b.m_tair_db h f g);
    cell-set_time = λ k v (b, p) h f g. rw p (a.cell-set_time k v b.m_tair_db h f g);
    cell-set_double = λ k v (b, p) h f. rw p (a.cell-set_double k v b.m_tair_db h f);
    cell-set_ne = λ y k v (b, p) u j h n q. rw p (a.cell-set_ne y k v b.m_tair_db u j h n q);
    cell-zadd = λ k x v (b, p) u j h g. rw p (a.cell-zadd k x v b.m_tair_db u j h g);
    cell-sadd = λ k v (b, p) u j h g. rw p (a.cell-sadd k v b.m_tair_db u j h g);
    cell-smembers = λ y k (b, p) u j h. rw p (a.cell-smembers y k b.m_tair_db u j h);
    cell-incr_ne = λ k n (b, p) u j h q. rw p (a.cell-incr_ne k n b.m_tair_db u j h q);
  }

  -- If the database that a type stands for keeps the contract, whatever the other one does, then so
  -- do the objects of `CBaseMdb` with that type.
  pub typed_mdb-IsStore : (y : TypeDb) → ChosenIsStore y → IsStore d (typed_mdb y)
  typed_mdb-IsStore redis a = redis-IsStore a
  typed_mdb-IsStore tair a = tair-IsStore a
