-- ===== src/AdMap/Filters.antt =====
-- ad_map.cpp: the tests that a group passes before it takes part in the bidding.
use simple_dsp.Base.{
  Bool, true, false, ◌&&◌, ◌||◌, not, List, [], ◌∷◌, Option, some, ℤ, pos, leb_ℤ, ltb_ℤ, eqb_ℤ,
  neg_ℤ, map, if◌then◌else◌,
}
use simple_dsp.Text.{Bytes, codes, stoll}
use simple_dsp.Prog.{Prog, pure, ◌>>=◌}
use simple_dsp.Store.{Ty}
use simple_dsp.World.{Env, World, on_db, time_now}
use simple_dsp.Cron.{check_cron_timing, cron_of_text}
use simple_dsp.UserMap.Visits.{get_shopid_of_user_location}
use simple_dsp.UserMap.Position.{UserPosition}
use simple_dsp.UserMap.Identity.{is_empty}
use simple_dsp.UserMap.Key.{label_set_key}
use simple_dsp.AdMap.Key.{space_groups_key, location_groups_key, ad_key, group_key}
use simple_dsp.AdMap.Sets.{listed, check_intersection}

-- `time >= start && time <= end`, where both texts are numbers.
unfoldable pub in_market : ℤ → Option ℤ → Option ℤ → Bool
in_market t (some start) (some end) = leb_ℤ start t && leb_ℤ t end
in_market t _ _ = true

unfoldable pub time_range_test : ℤ → Bytes → Bytes → Bool
time_range_test t s_start s_end =
    if is_empty s_start || is_empty s_end then true else in_market t (stoll s_start) (stoll s_end)

-- The first id tells a list of shops from a list of excluded shops, whose ids are negated.
unfoldable pub shop_test : Bool → ℤ → List ℤ → Bool
shop_test true shop_id shops = if ltb_ℤ (pos 0) shop_id then listed shop_id shops else false
shop_test false shop_id shops =
    if ltb_ℤ (pos 0) shop_id then not (listed (neg_ℤ shop_id) shops) else true

module _ (e : Env) where
  unfoldable pub get_ad_group_set_of_space : ℤ → ℤ → Prog (World e) (List ℤ)
  get_ad_group_set_of_space mall_id space_id =
      on_db e (e.m.zmembers Ty.int (space_groups_key mall_id space_id))

  -- `int(coordinate / slice)`, a division of `float`s.
  unfoldable pub cell_of : e.d.W → ℤ → ℤ
  cell_of coordinate slice =
      e.d.to_int (e.d.to_float (e.d.div coordinate (e.d.to_float (e.d.of_int slice))))

  unfoldable pub get_ad_group_set_of_location : ℤ → UserPosition e.d.W → Prog (World e) (List ℤ)
  get_ad_group_set_of_location mall_id p = on_db e (
      e.m.zmembers Ty.int (
        location_groups_key mall_id (cell_of p.x e.config.slice_x) (cell_of p.y e.config.slice_y)
          p.z))

  unfoldable pub check_ad_valid : ℤ → ℤ → Prog (World e) Bool
  check_ad_valid mall_id ad_id = do
    valid ← on_db e (e.m.get Ty.int (ad_key mall_id ad_id (codes "valid")) (pos 1))
    pure (not (leb_ℤ valid (pos 0)))

  -- One of the timings fits, for the texts that hold them.
  unfoldable pub fits_any : ℤ → List Bytes → Bool
  fits_any t [] = false
  fits_any t (s ∷ timings) =
      if check_cron_timing (e.localtime t) (cron_of_text e.beyond s)
      then true
      else fits_any t timings

  unfoldable pub check_cron_time_set : ℤ → ℤ → ℤ → Prog (World e) Bool
  check_cron_time_set mall_id t ad_group_id = do
    timings ←
        on_db e (e.m.smembers Ty.string (group_key mall_id ad_group_id (codes "cron.time.set")))
    pure (if is_empty timings then true else fits_any t timings)

  unfoldable pub check_time_range : ℤ → ℤ → ℤ → Prog (World e) Bool
  check_time_range mall_id t ad_group_id = do
    s_start ← on_db e (e.m.get Ty.string (group_key mall_id ad_group_id (codes "market.start")) [])
    s_end ← on_db e (e.m.get Ty.string (group_key mall_id ad_group_id (codes "market.end")) [])
    pure (time_range_test t s_start s_end)

  -- The user's shop is asked for only where there is a user.
  unfoldable pub market_shop_test : Bool → ℤ → List ℤ → Prog (World e) Bool
  market_shop_test selected user_id shops =
      if ltb_ℤ (pos 0) user_id
      then (do
        shop_id ← get_shopid_of_user_location e user_id
        pure (shop_test selected shop_id shops))
      else pure (not selected)

  unfoldable pub by_first : ℤ → List ℤ → Prog (World e) Bool
  by_first user_id [] = pure true
  by_first user_id (first ∷ shops) = market_shop_test (leb_ℤ (pos 0) first) user_id (first ∷ shops)

  unfoldable pub check_market_shop : ℤ → ℤ → ℤ → Prog (World e) Bool
  check_market_shop user_id group_id mall_id = do
    shop_id_list ←
        on_db e (e.m.smembers Ty.int (group_key mall_id group_id (codes "market.shop.set")))
    by_first user_id shop_id_list

  -- `user_label_set`, read where there is a user.
  unfoldable pub user_labels : ℤ → Prog (World e) (List Bytes)
  user_labels user_id =
      if ltb_ℤ (pos 0) user_id
      then (do
        labels ← on_db e (e.m.hget Ty.double (label_set_key user_id))
        pure (map (λ (l : Bytes × e.d.W). l.0) labels))
      else pure []

  unfoldable pub label_test : ℤ → List Bytes → List Bytes → Bool
  label_test user_id user_label_set ad_group_label_set = not (
      ltb_ℤ (pos 0) user_id
      && (not (is_empty ad_group_label_set)
          && not (check_intersection user_label_set ad_group_label_set)))

  -- "filter by users' tag"
  unfoldable pub check_labels : ℤ → ℤ → List Bytes → ℤ → Prog (World e) Bool
  check_labels mall_id user_id user_label_set group_id = do
    labels ←
        on_db e (e.m.smembers Ty.string (group_key mall_id group_id (codes "target.label.set")))
    pure (label_test user_id user_label_set labels)

  -- "filter by timerange": the second test is made only if the first one passes.
  unfoldable pub check_times : ℤ → ℤ → Prog (World e) Bool
  check_times mall_id group_id = do
    t_now ← time_now e
    in_range ← check_time_range mall_id t_now group_id
    if in_range then check_cron_time_set mall_id t_now group_id else pure false

  -- `m && n` for tests that read.
  abbrev pub and_then : Prog (World e) Bool → Prog (World e) Bool → Prog (World e) Bool
  and_then m n = do b ← m; if b then n else pure false

  unfoldable pub check_group_valid : ℤ → ℤ → Prog (World e) Bool
  check_group_valid mall_id group_id = do
    valid ← on_db e (e.m.get Ty.int (group_key mall_id group_id (codes "valid")) (pos 1))
    pure (not (eqb_ℤ (pos 0) valid))

  -- The `continue`s of the loop of `bidding`, in their order.
  unfoldable pub passes : ℤ → ℤ → List Bytes → ℤ → Prog (World e) Bool
  passes mall_id user_id user_label_set group_id =
      and_then (check_market_shop user_id group_id mall_id) (
        and_then (check_group_valid mall_id group_id) (
          and_then (check_times mall_id group_id)
            (check_labels mall_id user_id user_label_set group_id)))
