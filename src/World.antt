-- ===== src/World.antt =====
-- What the position and advertisement services run on: the memory database, the SQL server behind
-- `exec` and `pqxx`, the clock, the local time zone and the configuration.
use simple_dsp.Base.{ℕ, suc, Bool, List, [], ◌∷◌, Option, none, some, ℤ}
use simple_dsp.Text.{Bytes}
use simple_dsp.Store.{Double, Mdb}
use simple_dsp.Prog.{Prog, Outcome, done, throws}

-- The fields of `struct tm` that the sources read.
pub record Tm : Type 0 where
  pub tm_min : ℕ
  pub tm_hour : ℕ
  pub tm_mday : ℕ
  pub tm_mon : ℕ
  pub tm_year : ℤ
  pub tm_wday : ℕ

-- An argument of `boost::format`.
pub data Arg (W : Type 0) : Type 0 where
  number : ℤ → Arg W
  real : W → Arg W
  text : Bytes → Arg W

-- What `get_charge_cmd` hands to the JSON writer.
pub record Remark : Type 0 where
  pub engine_id : ℤ
  pub ad_id : ℤ
  pub ad_group_id : ℤ
  pub charge_type : Bytes

-- etc/config.ini, as `user_map_init` and `ad_map_init` read it, and the two slice widths that
-- `ad_map_init` takes from the memory database.
pub record Config : Type 0 where
  pub time_slice : ℕ
  pub max_duration_gap : ℤ
  pub max_in_shop_gap : ℤ
  pub check_vip : ℤ
  pub user_tag_save_on_tair : Bool
  pub add_user_sql : Bytes
  pub add_user_location_sql : Bytes
  pub query_user_id_sql : Bytes
  pub charge_ad_sql : Bytes
  pub pg_password : Bytes
  pub pg_server : Bytes
  pub pg_user : Bytes
  pub pg_database : Bytes
  pub slice_x : ℤ
  pub slice_y : ℤ

-- `exec` runs a shell command and gives its output. `query` is a statement run by `pqxx`: the rows
-- of the result, or `none` for an exception; `as_int` is the conversion of a field, which may throw.
-- `write_json` is the writer of the JSON library. `clock n` is the reading of the n-th call of `time(0)`,
-- and `beyond` what memory holds behind the end of a text.
pub record Env : Type 1 where
  pub d : Double
  pub m : Mdb d
  pub Sql : Type 0
  pub exec : Bytes → Sql → Bytes × Sql
  pub query : Bytes → Sql → Option (List Bytes) × Sql
  pub escape : Bytes → Bytes
  pub as_int : Bytes → Option ℤ
  pub format : Bytes → List (Arg d.W) → Bytes
  pub write_json : Remark → Bytes
  pub localtime : ℤ → Tm
  pub beyond : ℕ → ℕ
  pub clock : ℕ → ℤ
  pub config : Config

-- The state between calls. `locked` is the mutex of user_map.cpp; `last_date_time` the static map of
-- `user_location_log_add`.
pub record World (e : Env) : Type 0 where
  pub db : e.m.State
  pub sql : e.Sql
  pub reads : ℕ
  pub locked : Bool
  pub last_date_time : List (ℤ × Bytes)

module _ (e : Env) where
  -- A call of the memory database.
  abbrev pub on_db : {A : Type 0} → (e.m.State → A × e.m.State) → Prog (World e) A
  on_db f w = let (a, db) = f w.db in (done a, record w { db = db })

  -- The same, where the caller drops the result.
  abbrev pub run_db : {A : Type 0} → (e.m.State → A × e.m.State) → Prog (World e) (Unit {0})
  run_db f w = let (a, db) = f w.db in (done tt, record w { db = db })

  -- `time(0)`
  abbrev pub time_now : Prog (World e) ℤ
  time_now w = (done (e.clock w.reads), record w { reads = suc w.reads })

  -- `exec(cmd)` of tair_common.h
  abbrev pub exec : Bytes → Prog (World e) Bytes
  exec cmd w = let (out, sql) = e.exec cmd w.sql in (done out, record w { sql = sql })

  abbrev pub of_query : Option (List Bytes) → World e → Outcome (List Bytes) × World e
  of_query none w = (throws, w)
  of_query (some rows) w = (done rows, w)

  abbrev pub query : Bytes → Prog (World e) (List Bytes)
  query sql w = let (rows, sql') = e.query sql w.sql in of_query rows (record w { sql = sql' })

  -- A conversion that may throw.
  abbrev pub or_throw : {A : Type 0} → Option A → Prog (World e) A
  or_throw none w = (throws, w)
  or_throw (some a) w = (done a, w)

  -- `try { m } catch (std::exception &) { a }`
  abbrev pub on_throw : {A : Type 0} → Outcome A → A → Outcome A
  on_throw throws a = done a
  on_throw r a = r

  abbrev pub catch_with : {A : Type 0} → Prog (World e) A → A → Prog (World e) A
  catch_with m a w = let (r, w') = m w in (on_throw r a, w')

  -- The tail of each command line for the SQL server.
  abbrev pub login : List (Arg e.d.W)
  login =
      text e.config.pg_password
      ∷ text e.config.pg_server
      ∷ text e.config.pg_user
      ∷ text e.config.pg_database
      ∷ []
