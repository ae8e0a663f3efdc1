-- ===== src/Tair/Connection.antt =====
-- tairDB.hpp and loadConf.cpp: the configuration that `TairDb` takes its addresses and its area from.
use simple_dsp.Base.{Bool, true, false, Option, none, ℤ, pos, if◌then◌else◌}
use simple_dsp.Text.{Bytes, codes}
use simple_dsp.Prog.{Outcome, done}
use simple_dsp.Store.{Double, Mdb}
use simple_dsp.Store.Link.{Link}
use simple_dsp.Tair
use simple_dsp.Tair.{Client}

-- The variables of loadConf.cpp; a null pointer is `none`.
pub record Conf : Type 0 where
  pub b_started_loadconfig : Bool
  pub create_db : Option Bytes
  pub master_addr : Option Bytes
  pub slave_addr : Option Bytes
  pub group_name : Option Bytes
  pub tair_namespace : ℤ

-- The configuration file: `load` fails or not; a string may be missing.
pub record ConfigFile : Type 0 where
  pub load : Bool
  pub get_string : Bytes → Bytes → Option Bytes
  pub get_int : Bytes → Bytes → ℤ → ℤ

unfoldable pub db_map : ConfigFile → Conf → Conf
db_map c s =
    if s.b_started_loadconfig
    then s
    else if c.load
    then record s {
      create_db = c.get_string (codes "tair_rdb") (codes "create_db");
      master_addr = c.get_string (codes "tair_rdb") (codes "master_addr");
      slave_addr = c.get_string (codes "tair_rdb") (codes "slave_addr");
      group_name = c.get_string (codes "tair_rdb") (codes "group_name");
      tair_namespace = c.get_int (codes "tair_rdb") (codes "namespace") (pos 0);
      b_started_loadconfig = true;
    }
    else s

-- Before `db_map`, which only the tests call.
abbrev pub unset_conf : Conf
unset_conf = record {
  b_started_loadconfig = false;
  create_db = none;
  master_addr = none;
  slave_addr = none;
  group_name = none;
  tair_namespace = pos 0;
}

module _ (d : Double) (c : Client d) where
  pub record TairDb : Type 0 where
    pub conf : Conf
    pub client : c.State

  -- A call in the area of the configuration.
  abbrev pub in_area : {A : Type 0} → (ℤ → c.State → A × c.State) → TairDb → A × TairDb
  in_area f s =
      let (a, client) = f s.conf.tair_namespace s.client in (a, record s { client = client })

  -- The operations of `TairDb`, in whatever area is set.
  unfoldable pub tair_db : Mdb d
  tair_db = record {
    State = TairDb;
    get = λ t k v. in_area (λ area. Tair.get d c area t k v);
    set = λ t k v. in_area (λ area. Tair.set d c area t k v);
    hset = λ t k f v. in_area (λ area. Tair.hset d c area t k f v);
    hget = λ t k. in_area (λ area. Tair.hget d c area t k);
    zadd = λ t k x v. in_area (λ area. Tair.zadd d c area t k x v);
    zrangebyscore = λ t k lo hi. in_area (λ area. Tair.zrangebyscore d c area t k lo hi);
    zmembers = λ t k. in_area (λ area. Tair.zmembers d c area t k);
    sadd = λ t k v. in_area (λ area. Tair.sadd d c area t k v);
    smembers = λ t k. in_area (λ area. Tair.smembers d c area t k);
    incr = λ k n. in_area (λ area. Tair.incr d c area k n);
  }

  -- `startup` and `close` of the client.
  module _ (startup : Option Bytes → Option Bytes → Option Bytes → c.State → Bool × c.State)
      (close_client : c.State → c.State) where
    -- The host and the port are not used.
    unfoldable pub connect : Bytes → ℤ → TairDb → Outcome Bool × TairDb
    connect host port s =
        let (ok, client) =
          startup s.conf.master_addr s.conf.slave_addr s.conf.group_name s.client in
        (done ok, record s { client = client })

    unfoldable pub set_num_db : ℤ → TairDb → Outcome Bool × TairDb
    set_num_db num s = (done true, record s { conf = record (s.conf) { tair_namespace = num } })

    unfoldable pub close : TairDb → TairDb
    close s = record s { client = close_client s.client }

    unfoldable pub tair_link : Link d tair_db
    unfolding tair_db
    tair_link = record {
      connect = connect;
      set_num_db = set_num_db;
      close = close;
      remove_key = λ area k. in_area (λ own. Tair.remove_key d c own area k);
    }
