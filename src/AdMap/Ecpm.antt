-- ===== src/AdMap/Ecpm.antt =====
-- ad_map.cpp: `get_eCPM`, the expected income of a group and the advertisement that it shows next.
pub mod Rotation
pub mod Stored
use simple_dsp.Base.{List, [], ◌∷◌, ℤ, pos, ◌+ℤ◌, ltb_ℤ, eqb_ℤ, if◌then◌else◌}
use simple_dsp.Text.{Bytes, codes, atoi}
use simple_dsp.Prog.{Prog, pure, ◌>>=◌}
use simple_dsp.Store.{Double, Ty}
use simple_dsp.World.{Env, World, on_db}
use simple_dsp.AdMap.Key.{ad_key, group_key}
use simple_dsp.AdMap.Filters.{check_ad_valid}

-- What the loop reads of one advertisement, with the weight 1 where none is set.
pub record AdStat : Type 0 where
  pub ad_id : ℤ
  pub show_counter : ℤ
  pub click_counter : ℤ
  pub weight : ℤ

-- The variables of the loop.
pub record Tally (W : Type 0) : Type 0 where
  pub sum_weight : ℤ
  pub sum_ecpm : W
  pub min_show_weight : W
  pub next_ad_id : ℤ

module _ (d : Double) where
  -- The term of one advertisement, before its weight.
  unfoldable pub ecpm_of : d.W → d.W → AdStat → d.W
  ecpm_of show_price click_price a = d.add (d.mul (d.decimal 1000 0) show_price) (
      if ltb_ℤ a.show_counter (pos 100)
      then d.mul (d.mul (d.decimal 1000 0) click_price) (d.decimal 5 2)
      else d.div (d.mul (d.mul (d.decimal 1000 0) click_price) (d.of_int a.click_counter))
          (d.of_int a.show_counter))

  -- `(show_counter + 1.0) / weight`
  unfoldable pub show_weight : AdStat → d.W
  show_weight a = d.div (d.add (d.of_int a.show_counter) (d.decimal 1 0)) (d.of_int a.weight)

  -- One round of the loop, for an advertisement that is valid.
  unfoldable pub tally_ad : d.W → d.W → AdStat → Tally d.W → Tally d.W
  tally_ad show_price click_price a t = record {
    sum_weight = t.sum_weight +ℤ a.weight;
    sum_ecpm = d.add t.sum_ecpm (d.mul (ecpm_of show_price click_price a) (d.of_int a.weight));
    min_show_weight =
        if d.lt (show_weight a) t.min_show_weight then show_weight a else t.min_show_weight;
    next_ad_id = if d.lt (show_weight a) t.min_show_weight then a.ad_id else t.next_ad_id;
  }

  abbrev pub tally_start : ℤ → Tally d.W
  tally_start next_ad_id = record {
    sum_weight = pos 0;
    sum_ecpm = d.of_int (pos 0);
    min_show_weight = d.max;
    next_ad_id = next_ad_id;
  }

  -- The rounds for advertisements that were read; `tally_members` is the loop that reads them.
  unfoldable pub tally_all : d.W → d.W → List AdStat → Tally d.W → Tally d.W
  tally_all show_price click_price [] t = t
  tally_all show_price click_price (a ∷ stats) t =
      tally_all show_price click_price stats (tally_ad show_price click_price a t)

  unfoldable pub ecpm_of_tally : Tally d.W → d.W
  ecpm_of_tally t =
      if eqb_ℤ t.sum_weight (pos 0)
      then d.of_int (pos 0)
      else d.div t.sum_ecpm (d.of_int t.sum_weight)

module _ (e : Env) where
  abbrev pub zero_text : Bytes
  zero_text = codes "0"

  unfoldable pub read_stat : ℤ → ℤ → Prog (World e) AdStat
  read_stat mall_id ad_id = do
    s_show ← on_db e (e.m.get Ty.string (ad_key mall_id ad_id (codes "show.counter")) zero_text)
    s_click ← on_db e (e.m.get Ty.string (ad_key mall_id ad_id (codes "click.counter")) zero_text)
    weight ← on_db e (e.m.get Ty.int (ad_key mall_id ad_id (codes "weight")) (pos 0))
    pure (record {
      ad_id = ad_id;
      show_counter = atoi s_show;
      click_counter = atoi s_click;
      weight = if eqb_ℤ weight (pos 0) then pos 1 else weight;
    })

  -- The loop over the members; an invalid advertisement is passed over.
  unfoldable pub tally_members :
      ℤ → e.d.W → e.d.W → List ℤ → Tally e.d.W → Prog (World e) (Tally e.d.W)
  tally_members mall_id show_price click_price [] t = pure t
  tally_members mall_id show_price click_price (ad_id ∷ ids) t = do
    valid ← check_ad_valid e mall_id ad_id
    if valid
        then (do
          a ← read_stat mall_id ad_id
          tally_members mall_id show_price click_price ids
              (tally_ad e.d show_price click_price a t))
        else tally_members mall_id show_price click_price ids t

  -- The result and the new value of `next_ad_id`.
  unfoldable pub get_e_cpm : ℤ → ℤ → ℤ → Prog (World e) (e.d.W × ℤ)
  get_e_cpm mall_id ad_group_id next_ad_id = do
    ad_id_set ← on_db e (e.m.smembers Ty.int (group_key mall_id ad_group_id (codes "ad.set")))
    show_price ← on_db e (
        e.m.get Ty.double (group_key mall_id ad_group_id (codes "show.price")) (e.d.of_int (pos 0)))
    click_price ← on_db e (
        e.m.get Ty.double (group_key mall_id ad_group_id (codes "click.price"))
          (e.d.of_int (pos 0)))
    t ← tally_members mall_id show_price click_price ad_id_set (tally_start e.d next_ad_id)
    pure (ecpm_of_tally e.d t, t.next_ad_id)
