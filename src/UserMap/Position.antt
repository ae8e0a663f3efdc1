-- ===== src/UserMap/Position.antt =====
-- user_map.cpp: `user_add`, which stores a position and its log, and `user_query`.
pub mod Frame
pub mod Parts
pub mod Log
pub mod Stored
pub mod Query
use simple_dsp.Base.{
  ℕ, zero, suc, ◌-◌, ◌/◌, ◌%◌, ◌^◌, List, [], ◌∷◌, ℤ, pos, negsuc, eqb_ℤ, not, if◌then◌else◌,
}
use simple_dsp.Text.{Bytes, codes, show_nat, show_int, bytes_eq, int_min}
use simple_dsp.Prog.{Prog, pure, when, done, ◌>>=◌, ◌>>◌}
use simple_dsp.Keys.{entry, get_value, get_date_time_str}
use simple_dsp.Store.{Ty, Val}
use simple_dsp.World.{Env, World, number, real, on_db, run_db, exec, time_now, login}
use simple_dsp.UserMap.Key.{
  location_key, log_prop_key, log_counter_key, log_dates_key, log_macs_key, log_set_key,
}
use simple_dsp.UserMap.Identity.{user_get_id}
use simple_dsp.UserMap.Visits.{
  user_duration_add, vip_arrive_time_record, mac_set_record, update_location_update_time,
}

-- The bytes of a nonnegative integer in memory, the lowest first.
unfoldable pub le_bytes : ℕ → ℕ → Bytes
le_bytes zero n = []
le_bytes (suc k) n = n % 256 ∷ le_bytes k (n / 256)

-- The pattern of a 64-bit `time_t`.
abbrev pub time_pattern : ℤ → ℕ
time_pattern (pos n) = n
time_pattern (negsuc n) = 2 ^ 64 - 1 - n

-- `data_entry((char *) &t_time, sizeof(time_t))` read back by `get_value<std::string>`.
unfoldable pub time_value : ℤ → Bytes
time_value t = get_value (le_bytes 8 (time_pattern t))

-- `last_date_time_map[mall_id]`, empty where nothing was stored.
unfoldable pub last_date_time : ℤ → List (ℤ × Bytes) → Bytes
last_date_time mall_id [] = []
last_date_time mall_id ((k, s) ∷ rest) = if eqb_ℤ k mall_id then s else last_date_time mall_id rest

-- struct UserPosition of ad_model.h, as far as `user_query` fills it. Its coordinates are `float`s.
pub record UserPosition (W : Type 0) : Type 0 where
  pub mac : ℕ
  pub x : W
  pub y : W
  pub z : ℤ

module _ (e : Env) where
  unfoldable pub tair_set_user_prop :
      (t : Ty) → ℤ → ℕ → Bytes → Val e.d t → Prog (World e) (Unit {0})
  tair_set_user_prop t mall_id mac prop value =
      run_db e (e.m.set t (location_key mall_id (show_nat mac) prop) value)

  unfoldable pub tair_get_user_prop :
      (t : Ty) → ℤ → Bytes → Bytes → Val e.d t → Prog (World e) (Val e.d t)
  tair_get_user_prop t mall_id mac prop default_v =
      on_db e (e.m.get t (location_key mall_id mac prop) default_v)

  unfoldable pub tair_set_log_prop :
      (t : Ty) → ℤ → Bytes → ℤ → Bytes → Val e.d t → Prog (World e) (Unit {0})
  tair_set_log_prop t mall_id date_time log_id prop value =
      run_db e (e.m.set t (log_prop_key mall_id date_time log_id prop) value)

  unfoldable pub user_query : ℕ → ℤ → Prog (World e) (UserPosition e.d.W)
  user_query mac mall_id = do
    let s_mac = show_nat mac
    x ← on_db e (e.m.get Ty.double (location_key mall_id s_mac (codes "x")) (e.d.of_int (pos 0)))
    y ← on_db e (e.m.get Ty.double (location_key mall_id s_mac (codes "y")) (e.d.of_int (pos 0)))
    z ← on_db e (e.m.get Ty.int (location_key mall_id s_mac (codes "z")) (pos 0))
    pure (record { mac = mac; x = e.d.to_float x; y = e.d.to_float y; z = z })

  -- `if (last_date_time_map[mall_id] != s_date_time) { … }`
  unfoldable pub note_date_time : ℤ → Bytes → ℤ → Prog (World e) (Unit {0})
  note_date_time mall_id date_time t_time w =
      if bytes_eq (last_date_time mall_id w.last_date_time) date_time
      then (done tt, w)
      else let (ret, db) =
          e.m.zadd Ty.string (log_dates_key mall_id) (e.d.of_int t_time) (time_value t_time) w.db in
        (done tt, record w { db = db; last_date_time = (mall_id, date_time) ∷ w.last_date_time })

  unfoldable pub add_location_cmd : ℤ → ℕ → e.d.W → e.d.W → ℤ → ℤ → Bytes
  add_location_cmd log_id mac x y z t_time = e.format e.config.add_user_location_sql (
      number log_id
      ∷ number (pos mac)
      ∷ real x
      ∷ real y
      ∷ number (if eqb_ℤ z int_min then pos 0 else z)
      ∷ number t_time
      ∷ login e)

  -- "set log's property"
  unfoldable pub set_log_props :
      ℤ → Bytes → ℤ → ℕ → e.d.W → e.d.W → ℤ → ℤ → Prog (World e) (Unit {0})
  set_log_props mall_id date_time log_id mac x y z t_time = do
    tair_set_log_prop Ty.ull mall_id date_time log_id (codes "mac") mac
    tair_set_log_prop Ty.time mall_id date_time log_id (codes "time") t_time
    tair_set_log_prop Ty.double mall_id date_time log_id (codes "x") x
    tair_set_log_prop Ty.double mall_id date_time log_id (codes "y") y
    when (not (eqb_ℤ z int_min)) (tair_set_log_prop Ty.int mall_id date_time log_id (codes "z") z)

  unfoldable pub user_location_log_add :
      ℕ → e.d.W → e.d.W → ℤ → ℤ → ℤ → ℤ → Prog (World e) (Unit {0})
  user_location_log_add mac x y z kafka_offset mall_id t_time = do
    let date_time = get_date_time_str (e.localtime t_time) e.config.time_slice
    log_id ← on_db e (e.m.incr (log_counter_key mall_id date_time) (pos 1))
    exec e (add_location_cmd log_id mac x y z t_time)
    note_date_time mall_id date_time t_time
    run_db e (e.m.sadd Ty.string (log_macs_key mall_id date_time) (entry (show_nat mac ∷ [])))
    run_db e (
        e.m.zadd Ty.string (log_set_key mall_id date_time mac) (e.d.of_int t_time)
          (entry (show_int log_id ∷ [])))
    set_log_props mall_id date_time log_id mac x y z t_time

  -- The position itself, and the time of the position before it.
  unfoldable pub set_position : ℕ → e.d.W → e.d.W → ℤ → ℤ → ℤ → Prog (World e) ℤ
  set_position mac x y z mall_id t_now = do
    tair_set_user_prop Ty.double mall_id mac (codes "x") x
    tair_set_user_prop Ty.double mall_id mac (codes "y") y
    when (not (eqb_ℤ z int_min)) (tair_set_user_prop Ty.int mall_id mac (codes "z") z)
    t_pre_time ← tair_get_user_prop Ty.time mall_id (show_nat mac) (codes "time") (pos 0)
    tair_set_user_prop Ty.time mall_id mac (codes "time") t_now
    pure t_pre_time

  -- What `user_add` does with the user's number.
  unfoldable pub note_visit : ℕ → ℤ → ℤ → ℤ → Prog (World e) (Unit {0})
  note_visit mac mall_id t_pre_time t_now = do
    user_id ← user_get_id e mac
    user_duration_add e user_id mall_id t_pre_time t_now
    vip_arrive_time_record e user_id mall_id t_pre_time t_now
    mac_set_record e mac mall_id t_now

  unfoldable pub user_add : ℕ → e.d.W → e.d.W → ℤ → ℤ → ℤ → Prog (World e) ℤ
  user_add mac x y z kafka_offset mall_id = do
    t_now ← time_now e
    t_pre_time ← set_position mac x y z mall_id t_now
    update_location_update_time e mall_id mac t_now
    user_location_log_add mac x y z kafka_offset mall_id t_now
    note_visit mac mall_id t_pre_time t_now
    pure (pos 0)
