-- ===== src/AdMap/Start.antt =====
-- ad_map.cpp: `ad_map_init` and the operations that do nothing.
pub mod Slices
use simple_dsp.Base.{Bool, true, false, Option, none, some, if◌then◌else◌, ℤ, pos, negsuc, eqb_ℤ}
use simple_dsp.Text.{Bytes, codes, bytes_eq, atoi}
use simple_dsp.Prog.{Prog, Outcome, done, throws, blocks, undefined, pure, ◌>>=◌, ◌>>◌}
use simple_dsp.Store.{Double, Ty, Mdb}
use simple_dsp.Store.Link.{Link}
use simple_dsp.BaseMdb.{TypeDb, redis, tair, CBaseMdb, base_mdb, set_TypeDb}
use simple_dsp.BaseMdb.Connection.{get_type_db, init_db}
use simple_dsp.UserMap.Start.{or_text}

-- The configuration: a string that is missing and has no default is a null pointer.
pub record Config : Type 0 where
  pub get_string : Bytes → Bytes → Option Bytes
  pub get_int : Bytes → Bytes → ℤ → ℤ

-- These four are declared for the service and have no body but this.
abbrev pub ad_add : ℤ
ad_add = negsuc 0

abbrev pub ad_remove : ℤ
ad_remove = negsuc 0

abbrev pub ad_update : ℤ
ad_update = negsuc 0

abbrev pub ad_query : ℤ
ad_query = negsuc 0

abbrev pub slice_x_key : Bytes
slice_x_key = codes "config:slice.x"

abbrev pub slice_y_key : Bytes
slice_y_key = codes "config:slice.y"

module _ (d : Double) (r t : Mdb d) where
  -- The variables of ad_map.cpp that it sets; the addresses of Tair are not used here.
  pub record Statics : Type 0 where
    pub b_started : Bool
    pub base_mdb_ad : CBaseMdb d r t
    pub time_slice : ℤ
    pub tair_namespace : ℤ
    pub charge_ad_sql : Option Bytes
    pub pg_server : Option Bytes
    pub pg_user : Option Bytes
    pub pg_database : Option Bytes
    pub pg_password : Option Bytes
    pub slice_x : ℤ
    pub slice_y : ℤ

  -- A call of the database.
  abbrev pub on_mdb : {A : Type 0} → (CBaseMdb d r t → A × CBaseMdb d r t) → Statics → A × Statics
  on_mdb f s = let (a, b) = f s.base_mdb_ad in (a, record s { base_mdb_ad = b })

  unfoldable pub read_slices : Statics → Statics
  unfolding base_mdb
  read_slices s =
      let (x, s') = on_mdb ((base_mdb d r t).get Ty.int slice_x_key (pos 10)) s in
      let (y, s'') = on_mdb ((base_mdb d r t).get Ty.int slice_y_key (pos 10)) s' in
      record s'' { slice_x = x; slice_y = y }

  module _ (rl : Link d r) (tl : Link d t) (c : Config) where
    abbrev pub update : (Statics → Statics) → Prog Statics (Unit {0})
    update f s = (done tt, f s)

    -- A text that must not be null: as a `std::string`, and as the argument of `atoi`.
    abbrev pub as_string : Option Bytes → Prog Statics Bytes
    as_string none s = (throws, s)
    as_string (some text) s = (done text, s)

    abbrev pub as_c_text : Option Bytes → Prog Statics Bytes
    as_c_text none s = (undefined, s)
    as_c_text (some text) s = (done text, s)

    unfoldable pub load_config : Statics → Statics
    load_config s = record s {
      time_slice = c.get_int (codes "tair_rdb") (codes "time_slice") (pos 10);
      tair_namespace = c.get_int (codes "tair_rdb") (codes "namespace") (pos 0);
      charge_ad_sql = c.get_string (codes "ad_map") (codes "charge_ad_sql");
      pg_server = c.get_string (codes "user_map") (codes "pg_server");
      pg_user = c.get_string (codes "user_map") (codes "pg_user");
      pg_database = c.get_string (codes "user_map") (codes "pg_database");
      pg_password = c.get_string (codes "user_map") (codes "pg_password");
    }

    -- Another name than the two leaves the choice as it is.
    unfoldable pub choose_type : Statics → Statics
    choose_type s =
        let mdb = or_text (codes "redis") (c.get_string (codes "tair_rdb") (codes "mdb")) in
        if bytes_eq mdb (codes "redis")
        then record s { base_mdb_ad = set_TypeDb d r t redis s.base_mdb_ad }
        else if bytes_eq mdb (codes "tair")
        then record s { base_mdb_ad = set_TypeDb d r t tair s.base_mdb_ad }
        else s

    abbrev pub section_of : ℤ → Bytes
    section_of n = if eqb_ℤ n (pos 1) then codes "tair_rdb" else codes "redis_rdb"

    abbrev pub dropped : Outcome Bool → Outcome (Unit {0})
    dropped (done b) = done tt
    dropped throws = throws
    dropped blocks = blocks
    dropped undefined = undefined

    -- The result of `initDb` is not looked at.
    unfoldable pub connect_mdb : Prog Statics (Unit {0})
    connect_mdb s =
        let section = section_of (get_type_db d r t s.base_mdb_ad) in
        (do
          port ← as_c_text (c.get_string section (codes "master_addr_port"))
          ip ← as_string (c.get_string section (codes "master_addr_ip"))
          λ v. let (b, v') = on_mdb (init_db d r t rl tl ip (atoi port)) v in (dropped b, v'))
          s

    unfoldable pub start_up : Prog Statics (Unit {0})
    start_up = do
      update load_config
      tb_log_file ← as_string (c.get_string (codes "tair_rdb") (codes "log_file"))
      update choose_type
      connect_mdb
      update (λ s. record s { b_started = true })
      update read_slices

    unfoldable pub ad_map_init : Prog Statics (Unit {0})
    ad_map_init s = if s.b_started then (done tt, s) else start_up s
