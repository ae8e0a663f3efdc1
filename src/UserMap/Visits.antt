-- ===== src/UserMap/Visits.antt =====
-- user_map.cpp: how long users stay, when they arrive, and where they were seen last.
pub mod Shop
use simple_dsp.Base.{
  ℕ, Bool, true, [], ◌∷◌, ℤ, pos, ◌-ℤ◌, ltb_ℤ, eqb_ℤ, not, if◌then◌else◌, to_int32,
}
use simple_dsp.Text.{Bytes, codes, show_nat, show_int}
use simple_dsp.Prog.{Prog, pure, when, ◌>>=◌, ◌>>◌}
use simple_dsp.Keys.{entry, get_date_str}
use simple_dsp.Store.{Ty}
use simple_dsp.World.{Env, World, on_db, run_db, time_now}
use simple_dsp.UserMap.Key.{
  location_key, duration_key, mall_vip_key, vip_arrive_key, daily_macs_key, update_time_key,
  shop_update_time_key, shop_vip_arrive_key, shop_arrive_key, shop_time_key, shop_duration_key,
  mall_duration_key, shop_user_duration_key, user_shop_key,
}

module _ (e : Env) where
  -- `get_date_str(t)`
  abbrev pub date_of : ℤ → Bytes
  date_of t = get_date_str (e.localtime t)

  -- `datetime_str(time)`, which prints the same fields.
  unfoldable pub datetime_str : ℤ → Bytes
  datetime_str t = get_date_str (e.localtime t)

  -- `int delta = t_now - t_pre_time; if (delta > max_duration_gap) delta = max_duration_gap;`
  unfoldable pub capped_delta : ℤ → ℤ
  capped_delta delta =
      if ltb_ℤ e.config.max_duration_gap delta then e.config.max_duration_gap else delta

  unfoldable pub user_duration_add : ℤ → ℤ → ℤ → ℤ → Prog (World e) (Unit {0})
  user_duration_add user_id mall_id t_pre_time t_now = run_db e (
      e.m.incr (duration_key (date_of t_now) mall_id user_id)
        (capped_delta (to_int32 (t_now -ℤ t_pre_time))))

  unfoldable pub is_mall_vip : ℤ → ℤ → Prog (World e) Bool
  is_mall_vip user_id mall_id = do
    vip ← on_db e (e.m.get Ty.int (mall_vip_key mall_id user_id) (pos 0))
    pure (not (eqb_ℤ vip (pos 0)))

  -- `check_vip == 0 || is_mall_vip(user_id, mall_id)`
  unfoldable pub vip_test : ℤ → ℤ → Prog (World e) Bool
  vip_test user_id mall_id =
      if eqb_ℤ e.config.check_vip (pos 0) then pure true else is_mall_vip user_id mall_id

  unfoldable pub record_arrival : ℤ → ℤ → ℤ → Prog (World e) (Unit {0})
  record_arrival user_id mall_id t_now = run_db e (
      e.m.zadd Ty.string (vip_arrive_key mall_id) (e.d.of_int t_now)
        (entry (show_int user_id ∷ [])))

  unfoldable pub vip_arrive_time_record : ℤ → ℤ → ℤ → ℤ → Prog (World e) (Unit {0})
  vip_arrive_time_record user_id mall_id t_pre t_now =
      if ltb_ℤ e.config.max_in_shop_gap (t_now -ℤ t_pre)
      then (do vip ← vip_test user_id mall_id; when vip (record_arrival user_id mall_id t_now))
      else pure tt

  unfoldable pub mac_set_record : ℕ → ℤ → ℤ → Prog (World e) (Unit {0})
  mac_set_record mac mall_id t_now =
      run_db e
        (e.m.sadd Ty.string (daily_macs_key (date_of t_now) mall_id) (entry (show_nat mac ∷ [])))

  unfoldable pub tair_get_user_time : ℤ → Bytes → Bytes → Prog (World e) ℤ
  tair_get_user_time mall_id mac prop =
      on_db e (e.m.get Ty.time (location_key mall_id mac prop) (pos 0))

  -- The member is added to the vip set or to the plain set of the shop.
  unfoldable pub arrive_key : Bool → ℤ → ℤ → Bytes
  arrive_key is_vip mall_id shop_id =
      if is_vip then shop_vip_arrive_key mall_id shop_id else shop_arrive_key mall_id shop_id

  unfoldable pub update_user_arrive_time : ℤ → ℤ → ℤ → ℕ → ℤ → ℤ → Bool → Prog (World e) (Unit {0})
  update_user_arrive_time mall_id shop_id user_id mac pre now is_vip =
      when (ltb_ℤ e.config.max_in_shop_gap (now -ℤ pre)) (
        run_db e (
          e.m.zadd Ty.string (arrive_key is_vip mall_id shop_id) (e.d.of_int now)
            (entry (show_int user_id ∷ []))))

  unfoldable pub update_user_location_time : ℤ → ℤ → ℤ → ℕ → ℤ → Prog (World e) (Unit {0})
  update_user_location_time mall_id shop_id user_id mac now = do
    run_db e (e.m.set Ty.time (shop_time_key mall_id shop_id mac) now)
    run_db e (
        e.m.zadd Ty.string (shop_update_time_key (date_of now) mall_id shop_id) (e.d.of_int now)
          (entry (show_nat mac ∷ [])))

  unfoldable pub get_user_location_time : ℤ → ℤ → ℕ → Prog (World e) ℤ
  get_user_location_time mall_id shop_id mac =
      on_db e (e.m.get Ty.time (shop_time_key mall_id shop_id mac) (pos 0))

  unfoldable pub shop_all_users_duration_add : ℤ → ℤ → Bytes → ℤ → Prog (World e) (Unit {0})
  shop_all_users_duration_add mall_id shop_id datetime interval =
      run_db e (e.m.incr (shop_duration_key datetime mall_id shop_id) interval)

  unfoldable pub mall_all_users_duration_add : ℤ → Bytes → ℤ → Prog (World e) (Unit {0})
  mall_all_users_duration_add mall_id datetime interval =
      run_db e (e.m.incr (mall_duration_key datetime mall_id) interval)

  unfoldable pub shop_user_duration_add : ℤ → ℤ → ℤ → Bytes → ℤ → Prog (World e) (Unit {0})
  shop_user_duration_add mall_id shop_id user_id datetime interval = do
    let capped = capped_delta interval
    run_db e (e.m.incr (shop_user_duration_key datetime mall_id shop_id user_id) capped)
    shop_all_users_duration_add mall_id shop_id datetime capped
    mall_all_users_duration_add mall_id datetime capped

  unfoldable pub update_mac_location_time : ℤ → ℕ → ℤ → Prog (World e) (Unit {0})
  update_mac_location_time mall_id mac t =
      run_db e (e.m.set Ty.time (location_key mall_id (show_nat mac) (codes "time")) t)

  unfoldable pub update_location_update_time : ℤ → ℕ → ℤ → Prog (World e) (Unit {0})
  update_location_update_time mall_id mac t = run_db e (
      e.m.zadd Ty.string (update_time_key (date_of t) mall_id) (e.d.of_int t)
        (entry (show_nat mac ∷ [])))

  unfoldable pub get_shopid_of_user_location : ℤ → Prog (World e) ℤ
  get_shopid_of_user_location user_id = do
    t_now ← time_now e
    on_db e (e.m.get Ty.int (user_shop_key (date_of t_now) user_id) (pos 0))

  unfoldable pub update_shopid_of_user_location : ℤ → ℤ → ℤ → Prog (World e) (Unit {0})
  update_shopid_of_user_location user_id shop_id t =
      run_db e (e.m.set Ty.int (user_shop_key (date_of t) user_id) shop_id)
