-- ===== src/AdMap/Bidding/Total.antt =====
-- ad_map.cpp: the tests on a group and the reading of its bid, as operations that return.
use simple_dsp.Base.{
  Bool, true, false, List, [], ◌∷◌, ℤ, pos, ltb_ℤ, leb_ℤ, eqb_ℤ, not, if◌then◌else◌, map,
}
use simple_dsp.Text.{Bytes, codes, atoi}
use simple_dsp.Prog.{Prog, pure, ◌>>=◌}
use simple_dsp.Store.{Ty}
use simple_dsp.World.{Env, World, on_db}
use simple_dsp.UserMap.Position.{UserPosition}
use simple_dsp.UserMap.Identity.{is_empty}
use simple_dsp.UserMap.Key.{label_set_key, user_shop_key}
use simple_dsp.UserMap.Visits.{get_shopid_of_user_location, date_of}
use simple_dsp.AdMap.Key.{space_groups_key, ad_key, group_key}
use simple_dsp.AdMap.Sets.{set_intersection}
use simple_dsp.AdMap.Filters.{
  get_ad_group_set_of_space, get_ad_group_set_of_location, user_labels, passes, check_market_shop,
  by_first, market_shop_test, shop_test, check_group_valid, check_times, check_time_range,
  time_range_test, check_cron_time_set, fits_any, check_labels, label_test, check_ad_valid,
}
use simple_dsp.AdMap.Ecpm.{
  get_e_cpm, tally_members, read_stat, Tally, tally_ad, tally_start, ecpm_of_tally, zero_text,
}
use simple_dsp.AdMap.Bidding.{candidates}
use simple_dsp.AdMap.Bidding.Returns.{
  Returns, Anything, Returns-pure, Returns-lift, Returns-bind, Returns-if, Returns-time,
  Returns-and,
}

module _ (e : Env) where
  abbrev Total : {A : Type 0} → Prog (World e) A → Type 0
  Total m = Returns e Anything m

  Total-pure : {A : Type 0} (a : A) → Total (pure a)
  Total-pure a = Returns-pure e Anything a tt

  Total-bind :
      {A B : Type 0} (m : Prog (World e) A) (f : A → Prog (World e) B)
      → Total m
      → ((a : A) → Total (f a))
      → Total (m >>= f)
  Total-bind m f h k = Returns-bind e Anything Anything m f h (λ a u. k a)

  -- A call of the database, and what follows.
  Total-read :
      {A B : Type 0} (f : e.m.State → A × e.m.State) (g : A → Prog (World e) B)
      → ((a : A) → Total (g a))
      → Total (on_db e f >>= g)
  Total-read f g k = Total-bind (on_db e f) g (Returns-lift e f) k

  pub Total-group_valid : (mall group : ℤ) → Total (check_group_valid e mall group)
  unfolding check_group_valid
  Total-group_valid mall group =
      Total-read (e.m.get Ty.int (group_key mall group (codes "valid")) (pos 1)) _
        (λ v. Total-pure (not (eqb_ℤ (pos 0) v)))

  Total-labels :
      (mall id : ℤ) (labels : List Bytes) (group : ℤ) → Total (check_labels e mall id labels group)
  unfolding check_labels
  Total-labels mall id labels group =
      Total-read (e.m.smembers Ty.string (group_key mall group (codes "target.label.set"))) _
        (λ l. Total-pure (label_test e id labels l))

  pub Total-time_range : (mall t group : ℤ) → Total (check_time_range e mall t group)
  unfolding check_time_range
  Total-time_range mall t group =
      Total-read (e.m.get Ty.string (group_key mall group (codes "market.start")) []) _ (λ s_start.
        Total-read (e.m.get Ty.string (group_key mall group (codes "market.end")) []) _
          (λ s_end. Total-pure (time_range_test t s_start s_end)))

  Total-cron : (mall t group : ℤ) → Total (check_cron_time_set e mall t group)
  unfolding check_cron_time_set
  Total-cron mall t group =
      Total-read (e.m.smembers Ty.string (group_key mall group (codes "cron.time.set"))) _
        (λ l. Total-pure (if is_empty l then true else fits_any e t l))

  pub Total-times : (mall group : ℤ) → Total (check_times e mall group)
  unfolding check_times
  Total-times mall group = Total-bind _ _ (Returns-time e) (λ t.
      Total-bind _ _ (Total-time_range mall t group) (λ b.
        Returns-if e Anything b (check_cron_time_set e mall t group) (pure false)
          (Total-cron mall t group) (Total-pure false)))

  Total-shop : (id : ℤ) → Total (get_shopid_of_user_location e id)
  unfolding get_shopid_of_user_location
  Total-shop id =
      Total-bind _ _ (Returns-time e)
        (λ t. Returns-lift e (e.m.get Ty.int (user_shop_key (date_of e t) id) (pos 0)))

  Total-shop_test : (b : Bool) (id : ℤ) (shops : List ℤ) → Total (market_shop_test e b id shops)
  unfolding market_shop_test
  Total-shop_test b id shops =
      Returns-if e Anything (ltb_ℤ (pos 0) id)
        (get_shopid_of_user_location e id >>= λ shop. pure (shop_test b shop shops)) (pure (not b))
        (Total-bind _ _ (Total-shop id) (λ shop. Total-pure (shop_test b shop shops)))
        (Total-pure (not b))

  Total-by_first : (id : ℤ) (shops : List ℤ) → Total (by_first e id shops)
  unfolding by_first
  Total-by_first id [] = Total-pure true
  Total-by_first id (first ∷ shops) = Total-shop_test (leb_ℤ (pos 0) first) id (first ∷ shops)

  pub Total-market : (id group mall : ℤ) → Total (check_market_shop e id group mall)
  unfolding check_market_shop
  Total-market id group mall =
      Total-read (e.m.smembers Ty.int (group_key mall group (codes "market.shop.set")))
        (by_first e id) (λ shops. Total-by_first id shops)

  pub Total-passes :
      (mall id : ℤ) (labels : List Bytes) (group : ℤ) → Total (passes e mall id labels group)
  unfolding passes
  Total-passes mall id labels group = Returns-and e _ _ (Total-market id group mall) (
      Returns-and e _ _ (Total-group_valid mall group)
        (Returns-and e _ _ (Total-times mall group) (Total-labels mall id labels group)))

  Total-ad_valid : (mall ad : ℤ) → Total (check_ad_valid e mall ad)
  unfolding check_ad_valid
  Total-ad_valid mall ad =
      Total-read (e.m.get Ty.int (ad_key mall ad (codes "valid")) (pos 1)) _
        (λ v. Total-pure (not (leb_ℤ v (pos 0))))

  Total-stat : (mall ad : ℤ) → Total (read_stat e mall ad)
  unfolding read_stat
  Total-stat mall ad =
      Total-read (e.m.get Ty.string (ad_key mall ad (codes "show.counter")) (zero_text e)) _
        (λ s_show.
          Total-read (e.m.get Ty.string (ad_key mall ad (codes "click.counter")) (zero_text e)) _
            (λ s_click.
              Total-read (e.m.get Ty.int (ad_key mall ad (codes "weight")) (pos 0)) _ (λ weight.
                Total-pure (record {
                  ad_id = ad;
                  show_counter = atoi s_show;
                  click_counter = atoi s_click;
                  weight = if eqb_ℤ weight (pos 0) then pos 1 else weight;
                }))))

  Total-members :
      (mall : ℤ) (p q : e.d.W) (ids : List ℤ) (t : Tally e.d.W)
      → Total (tally_members e mall p q ids t)
  unfolding tally_members
  Total-members mall p q [] t = Total-pure t
  Total-members mall p q (ad ∷ ids) t = Total-bind _ _ (Total-ad_valid mall ad) (λ valid.
      Returns-if e Anything valid
        (read_stat e mall ad >>= λ a. tally_members e mall p q ids (tally_ad e.d p q a t))
        (tally_members e mall p q ids t)
        (Total-bind _ _ (Total-stat mall ad)
          (λ a. Total-members mall p q ids (tally_ad e.d p q a t)))
        (Total-members mall p q ids t))

  pub Total-ecpm : (mall group next : ℤ) → Total (get_e_cpm e mall group next)
  unfolding get_e_cpm
  Total-ecpm mall group next =
      Total-read (e.m.smembers Ty.int (group_key mall group (codes "ad.set"))) _ (λ ids.
        Total-read
          (e.m.get Ty.double (group_key mall group (codes "show.price")) (e.d.of_int (pos 0))) _
          (λ p.
            Total-read
              (e.m.get Ty.double (group_key mall group (codes "click.price")) (e.d.of_int (pos 0)))
              _
              (λ q.
                Total-bind _ _ (Total-members mall p q ids (tally_start e.d next))
                  (λ t. Total-pure (ecpm_of_tally e.d t, t.next_ad_id)))))

  pub Total-candidates :
      (p : UserPosition e.d.W) (id space mall : ℤ) → Total (candidates e p id space mall)
  unfolding candidates get_ad_group_set_of_space get_ad_group_set_of_location
  Total-candidates p id space mall =
      Total-read (e.m.zmembers Ty.int (space_groups_key mall space)) _ (λ here.
        Returns-if e Anything (ltb_ℤ (pos 0) id)
          (get_ad_group_set_of_location e mall p >>= λ there. pure (set_intersection here there))
          (pure here)
          (Total-bind _ _ (Returns-lift e _) (λ there. Total-pure (set_intersection here there)))
          (Total-pure here))

  pub Total-user_labels : (id : ℤ) → Total (user_labels e id)
  unfolding user_labels
  Total-user_labels id =
      Returns-if e Anything (ltb_ℤ (pos 0) id)
        (on_db e (e.m.hget Ty.double (label_set_key id)) >>= λ labels.
          pure (map (λ (l : Bytes × e.d.W). l.0) labels))
        (pure [])
        (Total-read (e.m.hget Ty.double (label_set_key id)) _
          (λ labels. Total-pure (map (λ (l : Bytes × e.d.W). l.0) labels)))
        (Total-pure [])
