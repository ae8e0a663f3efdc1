-- ===== src/BaseMdb.antt =====
-- CBaseMdb.hpp: `class CBaseMdb`, which hands each call to the database that was chosen.
pub mod Calls
pub mod Connection
pub mod Dispatch
use simple_dsp.Base.{ℕ, ◌≡◌, List, ℤ}
use simple_dsp.Text.{Bytes}
use simple_dsp.Store.{Double, Ty, Val, Mdb}

pub data TypeDb : Type 0 where
  redis tair : TypeDb

module _ (d : Double) (r t : Mdb d) where
  -- The members of the class.
  pub record CBaseMdb : Type 0 where
    pub m_type : TypeDb
    pub m_redis_db : r.State
    pub m_tair_db : t.State

  -- A call on one of the two.
  abbrev pub on_redis : {A : Type 0} → (r.State → A × r.State) → CBaseMdb → A × CBaseMdb
  on_redis f b = let (a, s) = f b.m_redis_db in (a, record b { m_redis_db = s })

  abbrev pub on_tair : {A : Type 0} → (t.State → A × t.State) → CBaseMdb → A × CBaseMdb
  on_tair f b = let (a, s) = f b.m_tair_db in (a, record b { m_tair_db = s })

  -- `if (REDIS == m_type) … else if (TAIR == m_type) …`
  abbrev pub choose :
      {A : Type 0}
      → TypeDb
      → (r.State → A × r.State)
      → (t.State → A × t.State)
      → CBaseMdb
      → A × CBaseMdb
  choose redis f g = on_redis f
  choose tair f g = on_tair g

  unfoldable pub set_TypeDb : TypeDb → CBaseMdb → CBaseMdb
  set_TypeDb value b = record b { m_type = value }

  unfoldable pub set : (y : Ty) → Bytes → Val d y → CBaseMdb → ℤ × CBaseMdb
  set y k v b = choose b.m_type (r.set y k v) (t.set y k v) b

  unfoldable pub get : (y : Ty) → Bytes → Val d y → CBaseMdb → Val d y × CBaseMdb
  get y k v b = choose b.m_type (r.get y k v) (t.get y k v) b

  unfoldable pub hset : (y : Ty) → Bytes → Bytes → Val d y → CBaseMdb → ℤ × CBaseMdb
  hset y k f v b = choose b.m_type (r.hset y k f v) (t.hset y k f v) b

  unfoldable pub hget : (y : Ty) → Bytes → CBaseMdb → List (Bytes × Val d y) × CBaseMdb
  hget y k b = choose b.m_type (r.hget y k) (t.hget y k) b

  unfoldable pub zadd : (y : Ty) → Bytes → d.W → Val d y → CBaseMdb → ℤ × CBaseMdb
  zadd y k x v b = choose b.m_type (r.zadd y k x v) (t.zadd y k x v) b

  unfoldable pub zrangebyscore : (y : Ty) → Bytes → d.W → d.W → CBaseMdb → List (Val d y) × CBaseMdb
  zrangebyscore y k lo hi b =
      choose b.m_type (r.zrangebyscore y k lo hi) (t.zrangebyscore y k lo hi) b

  unfoldable pub zmembers : (y : Ty) → Bytes → CBaseMdb → List (Val d y) × CBaseMdb
  zmembers y k b = choose b.m_type (r.zmembers y k) (t.zmembers y k) b

  unfoldable pub sadd : (y : Ty) → Bytes → Val d y → CBaseMdb → ℤ × CBaseMdb
  sadd y k v b = choose b.m_type (r.sadd y k v) (t.sadd y k v) b

  unfoldable pub smembers : (y : Ty) → Bytes → CBaseMdb → List (Val d y) × CBaseMdb
  smembers y k b = choose b.m_type (r.smembers y k) (t.smembers y k) b

  unfoldable pub incr : Bytes → ℤ → CBaseMdb → ℤ × CBaseMdb
  incr k n b = choose b.m_type (r.incr k n) (t.incr k n) b

  unfoldable pub base_mdb : Mdb d
  base_mdb = record {
    State = CBaseMdb;
    get = get;
    set = set;
    hset = hset;
    hget = hget;
    zadd = zadd;
    zrangebyscore = zrangebyscore;
    zmembers = zmembers;
    sadd = sadd;
    smembers = smembers;
    incr = incr;
  }
