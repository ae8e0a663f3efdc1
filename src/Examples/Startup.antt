-- ===== src/Examples/Startup.antt =====
-- The start of user_map.cpp.
use simple_dsp.Base.{◌≡◌, false, true, [], ◌∷◌, none, some, pos}
use simple_dsp.Prog.{done}
use simple_dsp.Text.{codes}
use simple_dsp.BaseMdb.{redis}
use simple_dsp.UserMap.Start.{Surroundings, Statics, user_map_init}
use simple_dsp.UserMap.Start.Sound.{IsSound, is_done, user_map_init-IsSound}

-- Every text of the configuration is the same.
abbrev small : Surroundings
small = record {
  get_string = λ section key. some (codes "redis");
  get_int = λ section key n. n;
  resolve = λ host. some (codes "127.0.0.1" ∷ []);
  unset_ip = [];
  is_open = λ text. some true;
  init_db = λ y ip port. done true;
}

abbrev fresh : Statics
fresh = record {
  b_started = false;
  m_type = redis;
  connected = [];
  locked = false;
  conn = none;
  check_vip = pos 0;
  time_slice = pos 0;
  max_duration_gap = pos 0;
  max_in_shop_gap = pos 0;
}

user_map_init-IsSound_example :
    IsSound small (user_map_init small fresh).1
    × ((user_map_init small fresh).1.b_started ≡ is_done (user_map_init small fresh).0)
user_map_init-IsSound_example = user_map_init-IsSound small fresh tt
