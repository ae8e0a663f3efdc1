-- ===== src/Redis/Connection.antt =====
-- redisDB.hpp: `RedisDb::connect` and `RedisDb::close`.
use simple_dsp.Base.{Bool, true, false, [], Option, none, some, ℤ}
use simple_dsp.Text.{Bytes, codes}
use simple_dsp.Prog.{Outcome, done, undefined}
use simple_dsp.Store.{Double}
use simple_dsp.Store.Link.{Link}
use simple_dsp.Redis.{Server, redis_mdb, set_num_db, remove_key}

module _ (d : Double) (r : Server d) where
  -- `redisConnect`: `none` for a null pointer, else the member `err` of the context and what commands on
  -- it find.
  module _ (redis_connect : Bytes → ℤ → Option (Bool × r.State)) where
    -- A command on a null context is undefined.
    abbrev pub connected : Option (Bool × r.State) → r.State → Outcome Bool × r.State
    connected none s = (undefined, s)
    connected (some (true, opened)) s = (done false, opened)
    connected (some (false, opened)) s = (done true, (r.command (codes "select 2") [] opened).1)

    unfoldable pub connect : Bytes → ℤ → r.State → Outcome Bool × r.State
    connect host port = connected (redis_connect host port)

    unfoldable pub close : r.State → r.State
    close s = (r.command (codes "QUIT") [] s).1

    unfoldable pub redis_link : Link d (redis_mdb d r)
    unfolding redis_mdb
    redis_link = record {
      connect = connect;
      set_num_db = set_num_db d r;
      close = close;
      remove_key = remove_key d r;
    }
