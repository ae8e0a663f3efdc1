-- ===== src/UserMap/Tags.antt =====
-- user_map.cpp: users' tags, and what the SQL server knows of access points and members.
use simple_dsp.Base.{ℕ, Bool, false, List, [], ◌∷◌, ◌++◌, ℤ, pos, ltb_ℤ, eqb_ℤ, if◌then◌else◌}
use simple_dsp.Text.{Bytes, codes, show_int}
use simple_dsp.Prog.{Prog, pure, Outcome, throws, undefined, ◌>>=◌}
use simple_dsp.Keys.{entry}
use simple_dsp.Store.{Ty}
use simple_dsp.World.{Env, World, on_db, query, or_throw, catch_with}
use simple_dsp.UserMap.Key.{label_set_key}
use simple_dsp.UserMap.Identity.{user_get_id}
use simple_dsp.UserMap.MacAddress.{uint64_to_str}

module _ (e : Env) where
  -- Without the flag the body ends with no `return`.
  unfoldable pub user_tag_update : ℕ → Bytes → e.d.W → Prog (World e) ℤ
  user_tag_update mac user_tag user_value =
      if e.config.user_tag_save_on_tair
      then (do
        user_id ← user_get_id e mac
        ret ← on_db e (
            e.m.hset Ty.string (label_set_key user_id) (entry (user_tag ∷ []))
              (entry (e.d.show user_value ∷ [])))
        pure (if eqb_ℤ ret (pos 0) then pos 1 else pos 0))
      else λ w. (undefined, w)

  unfoldable pub shopid_sql : ℕ → Bytes
  shopid_sql mac =
      codes "select \"shopId\" from ap_v2 where mac='" ++ (uint64_to_str mac ++ codes "'")

  -- The first field of the first row, and 0 or `false` where there is no row.
  abbrev pub first_row : {A : Type 0} → A → (ℤ → A) → List Bytes → Prog (World e) A
  first_row a f [] = pure a
  first_row a f (row ∷ rows) = do z ← or_throw e (e.as_int row); pure (f z)

  -- After an exception the body ends with no `return`.
  abbrev pub no_return : {A : Type 0} → Outcome A → Outcome A
  no_return throws = undefined
  no_return r = r

  unfoldable pub apmac_get_shopid : ℕ → Prog (World e) ℤ
  apmac_get_shopid mac w =
      let (r, w') = (do rows ← query e (shopid_sql mac); first_row (pos 0) (λ z. z) rows) w in
      (no_return r, w')

  unfoldable pub vip_sql : Bytes → ℤ → Bytes
  vip_sql mac_string shop_id =
      codes "select type from shop_member where \"shopId\"="
      ++ (show_int shop_id ++ (codes " and mac='" ++ (mac_string ++ codes "'")))

  -- `mac_str` is the text of 17 bytes that the caller points at.
  unfoldable pub mac_is_vip : Bytes → ℤ → Prog (World e) Bool
  mac_is_vip mac_string shop_id =
      catch_with e
        (do rows ← query e (vip_sql mac_string shop_id); first_row false (ltb_ℤ (pos 0)) rows) false
