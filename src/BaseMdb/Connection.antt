-- ===== src/BaseMdb/Connection.antt =====
-- CBaseMdb.hpp: the operations that concern the connection.
use simple_dsp.Base.{Bool, ℤ, pos}
use simple_dsp.Text.{Bytes}
use simple_dsp.Prog.{Outcome}
use simple_dsp.Store.{Double, Mdb}
use simple_dsp.Store.Link.{Link}
use simple_dsp.BaseMdb.{TypeDb, redis, tair, CBaseMdb, choose, base_mdb}

-- The value of the `enum`.
unfoldable pub type_number : TypeDb → ℤ
type_number redis = pos 0
type_number tair = pos 1

module _ (d : Double) (r t : Mdb d) where
  unfoldable pub get_type_db : CBaseMdb d r t → ℤ
  get_type_db b = type_number b.m_type

  module _ (rl : Link d r) (tl : Link d t) where
    unfoldable pub connect : Bytes → ℤ → CBaseMdb d r t → Outcome Bool × CBaseMdb d r t
    connect host port b = choose d r t b.m_type (rl.connect host port) (tl.connect host port) b

    unfoldable pub init_db : Bytes → ℤ → CBaseMdb d r t → Outcome Bool × CBaseMdb d r t
    init_db host port b = choose d r t b.m_type (rl.connect host port) (tl.connect host port) b

    unfoldable pub set_num_db : ℤ → CBaseMdb d r t → Outcome Bool × CBaseMdb d r t
    set_num_db num b = choose d r t b.m_type (rl.set_num_db num) (tl.set_num_db num) b

    abbrev pub close_chosen : TypeDb → CBaseMdb d r t → CBaseMdb d r t
    close_chosen redis b = record b { m_redis_db = rl.close b.m_redis_db }
    close_chosen tair b = record b { m_tair_db = tl.close b.m_tair_db }

    unfoldable pub close : CBaseMdb d r t → CBaseMdb d r t
    close b = close_chosen b.m_type b

    unfoldable pub remove_key : ℤ → Bytes → CBaseMdb d r t → ℤ × CBaseMdb d r t
    remove_key area k b = choose d r t b.m_type (rl.remove_key area k) (tl.remove_key area k) b

    -- All of them, as the class offers them.
    unfoldable pub base_link : Link d (base_mdb d r t)
    unfolding base_mdb
    base_link = record {
      connect = connect;
      set_num_db = set_num_db;
      close = close;
      remove_key = remove_key;
    }
