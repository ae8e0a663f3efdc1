-- ===== src/Examples/Admin.antt =====
-- Calls on the connection, the start of ad_map.cpp, and the service of redis_op.cpp.
use simple_dsp.Base.{List, ◌≡◌, refl, ap, length, arith, true, false, [], ◌∷◌, none, some, pos}
use simple_dsp.Text.{
  codes, bytes_eq, scan_int, scan_signed, scan_nat, skip_spaces, show_int, read_digits,
}
use simple_dsp.Prog.{done}
use simple_dsp.Store.{Ty, int}
use simple_dsp.Store.Link.{Link}
use simple_dsp.Keys.Fields.{literal-IsKey}
use simple_dsp.Redis.{extract}
use simple_dsp.Redis.Contract.{redis_mdb-IsStore}
use simple_dsp.Request.{Query, read_params}
use simple_dsp.BaseMdb.{TypeDb, redis, tair, CBaseMdb, set_TypeDb}
use simple_dsp.BaseMdb.Connection.{get_type_db, init_db, type_number}
use simple_dsp.BaseMdb.Calls.{
  Call, Answer, value, nothing, run_call, sets, gets, closes, calls_on_base, run_calls,
  calls-chosen,
}
use simple_dsp.AdMap.Start.{Config, Statics, ad_map_init, start_up, choose_type, connect_mdb}
use simple_dsp.AdMap.Start.Slices.{HasSlices, ad_map_init-slices}
use simple_dsp.RedisOp.{OpState, Extras, redis_op, number, defaults, set_param}
use simple_dsp.RedisOp.Stored.{Asks, redis_op-get-set}
use simple_dsp.Examples.Memory.{whole, Tables, memory, memory-IsStore, empty_tables}
use simple_dsp.Examples.Commands.{texts, texts-IsServer, whole-ShowsWords}
use simple_dsp.Examples.Services.{wholes, given}

-- A link that always opens.
abbrev link : Link whole memory
link = record {
  connect = λ host port s. (done true, s);
  set_num_db = λ n s. (done true, s);
  close = λ s. s;
  remove_key = λ area k s. (pos 0, s);
}

abbrev of_type : TypeDb → Tables → Tables → CBaseMdb whole memory memory
of_type y s u = record { m_type = y; m_redis_db = s; m_tair_db = u }

abbrev three_calls : List (Call whole)
three_calls = sets Ty.int (codes "a") (pos 1) ∷ closes ∷ gets Ty.int (codes "a") (pos 0) ∷ []

-- The table of the database that was chosen changes.
abbrev with_a : Tables
with_a = record empty_tables { ints = (codes "a", pos 1) ∷ [] }

calls-chosen_example :
    (calls_on_base whole memory memory link link three_calls
        (of_type redis empty_tables empty_tables)
      ≡ (
        Answer.number (pos 1) ∷ nothing ∷ value int (pos 1) ∷ [],
        of_type redis with_a empty_tables,
      ))
    × (calls_on_base whole memory memory link link three_calls
          (of_type tair empty_tables empty_tables)
        ≡ (
          Answer.number (pos 1) ∷ nothing ∷ value int (pos 1) ∷ [],
          of_type tair empty_tables with_a,
        ))
unfolding run_calls run_call bytes_eq
calls-chosen_example =
    calls-chosen whole memory memory link link three_calls empty_tables empty_tables

abbrev all_redis : Config
all_redis = record {
  get_string = λ section key. some (codes "redis");
  get_int = λ section key n. n;
}

abbrev unstarted : Statics whole memory memory
unstarted = record {
  b_started = false;
  base_mdb_ad = of_type tair empty_tables empty_tables;
  time_slice = pos 0;
  tair_namespace = pos 0;
  charge_ad_sql = none;
  pg_server = none;
  pg_user = none;
  pg_database = none;
  pg_password = none;
  slice_x = pos 0;
  slice_y = pos 0;
}

ad_map_init-slices_example :
    let s = (ad_map_init whole memory memory link link all_redis unstarted).1 in
    HasSlices whole memory memory memory-IsStore memory-IsStore s
    × (ad_map_init whole memory memory link link all_redis s ≡ (done tt, s))
unfolding ad_map_init start_up choose_type bytes_eq set_TypeDb connect_mdb get_type_db init_db
    type_number
ad_map_init-slices_example =
    ad_map_init-slices whole memory memory memory-IsStore memory-IsStore link link all_redis
      unstarted refl refl

abbrev extras : Extras whole texts
extras = record {
  zrange = λ k lo hi s. ([], s);
  text_at = λ entry. entry;
  as_string = λ n. some (show_int n);
}

abbrev set_seven : Query
set_seven = given "action" "set" ∷ given "key" "phone" ∷ given "value" "7" ∷ []

abbrev get_it : Query
get_it = given "action" "get" ∷ given "key" "phone" ∷ []

Asks-set : Asks whole texts wholes extras (pos 0) set_seven (codes "set") (codes "phone") (pos 7)
unfolding read_params set_param bytes_eq extract scan_int scan_signed scan_nat skip_spaces
    read_digits
Asks-set = record {
  params = record (defaults whole texts wholes extras (pos 0)) {
    action = codes "set";
    phone = codes "phone";
    shop_id = pos 7;
  };
  is_read = refl;
  action_lem = refl;
  key_lem = refl;
  value_lem = refl;
}

Asks-get : Asks whole texts wholes extras (pos 0) get_it (codes "get") (codes "phone") (pos 0)
unfolding read_params set_param bytes_eq
Asks-get = record {
  params = record (defaults whole texts wholes extras (pos 0)) {
    action = codes "get";
    phone = codes "phone";
  };
  is_read = refl;
  action_lem = refl;
  key_lem = refl;
  value_lem = refl;
}

abbrev no_data : OpState whole texts
no_data = record { db = []; zadd_count = pos 0 }

redis_op-get-set_example :
    (redis_op whole texts wholes extras
      (pos 0)
      get_it
      (redis_op whole texts wholes extras (pos 0) set_seven no_data).1).0
    ≡ done (number (pos 7))
redis_op-get-set_example =
    redis_op-get-set whole texts wholes extras (pos 0)
      (redis_mdb-IsStore whole texts texts-IsServer whole-ShowsWords) set_seven get_it
      (codes "phone") (pos 7) (pos 0) (show_int (pos 7)) no_data
      (literal-IsKey (codes "phone") refl) (λ q. absurd (omega (arith, ap length q))) refl refl
      Asks-set Asks-get
