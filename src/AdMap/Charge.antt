-- ===== src/AdMap/Charge.antt =====
-- ad_map.cpp: what is shown, counted and charged for an advertisement.
pub mod Clicks
use simple_dsp.Base.{[], ◌∷◌, ◌++◌, ℤ, pos, negsuc, eqb_ℤ, if◌then◌else◌}
use simple_dsp.Text.{Bytes, codes}
use simple_dsp.Prog.{Prog, pure, ◌>>=◌, ◌>>◌}
use simple_dsp.Store.{Ty}
use simple_dsp.World.{Env, World, number, real, text, on_db, run_db, exec, login}
use simple_dsp.AdMap.Key.{ad_key, group_key}

-- The JSON object of an advertisement.
pub record Ad : Type 0 where
  pub content : Bytes
  pub jump_url : Bytes
  pub id : ℤ
  pub group_id : ℤ

-- `s.substr(0, s.size() - 1)`
unfoldable pub drop_last : Bytes → Bytes
drop_last [] = []
drop_last (c ∷ []) = []
drop_last (c ∷ b ∷ cs) = c ∷ drop_last (b ∷ cs)

module _ (e : Env) where
  unfoldable pub increase_ad_time : ℤ → ℤ → Bytes → Prog (World e) (Unit {0})
  increase_ad_time mall_id show_ad_id type =
      run_db e (e.m.incr (ad_key mall_id show_ad_id (type ++ codes ".counter")) (pos 1))

  unfoldable pub get_ad : ℤ → ℤ → ℤ → Prog (World e) Ad
  get_ad mall_id show_ad_group_id show_ad_id = do
    content ← on_db e (e.m.get Ty.string (ad_key mall_id show_ad_id (codes "content")) [])
    jump_url ← on_db e (e.m.get Ty.string (ad_key mall_id show_ad_id (codes "jump.url")) [])
    pure (record {
      content = content;
      jump_url = jump_url;
      id = show_ad_id;
      group_id = show_ad_group_id;
    })

  -- `if (change >= 0) change = -change;`
  unfoldable pub charge_of : e.d.W → e.d.W
  charge_of change = if e.d.le (e.d.of_int (pos 0)) change then e.d.neg change else change

  abbrev pub get_engine_id : ℤ
  get_engine_id = pos 1

  unfoldable pub remark_text : ℤ → ℤ → Bytes → Bytes
  remark_text ad_id ad_group_id type = drop_last (
      e.write_json (record {
        engine_id = get_engine_id;
        ad_id = ad_id;
        ad_group_id = ad_group_id;
        charge_type = type;
      }))

  unfoldable pub get_charge_cmd : ℤ → ℤ → ℤ → Bytes → Prog (World e) Bytes
  get_charge_cmd mall_id ad_id ad_group_id type = do
    change ← on_db e (
        e.m.get Ty.double (group_key mall_id ad_group_id (type ++ codes ".price"))
          (e.d.of_int (pos 0)))
    owner_id ← on_db e (e.m.get Ty.int (group_key mall_id ad_group_id (codes "owner")) (pos 0))
    pure (
        e.format e.config.charge_ad_sql (
          number owner_id
          ∷ text (codes "adv_consume")
          ∷ real (charge_of change)
          ∷ text (remark_text ad_id ad_group_id type)
          ∷ number mall_id
          ∷ login e))

  unfoldable pub charge_ad : ℤ → ℤ → ℤ → Bytes → Prog (World e) (Unit {0})
  charge_ad mall_id ad_id ad_group_id type = do
    cmd ← get_charge_cmd mall_id ad_id ad_group_id type
    exec e cmd
    pure tt

  unfoldable pub ad_click : ℤ → ℤ → ℤ → Prog (World e) (Bytes × ℤ)
  ad_click ad_id user_id mall_id = do
    group_id ← on_db e (e.m.get Ty.int (ad_key mall_id ad_id (codes "group")) (negsuc 0))
    if eqb_ℤ group_id (negsuc 0) then pure (codes "no such ad", negsuc 0) else do
      increase_ad_time mall_id ad_id (codes "click")
      charge_ad mall_id ad_id group_id (codes "click")
      pure (codes "ok", pos 0)
