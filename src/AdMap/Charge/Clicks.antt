-- ===== src/AdMap/Charge/Clicks.antt =====
-- ad_map.cpp: what a click is charged.
use simple_dsp.Base.{
  ◌≡◌, ◌≢◌, refl, sym, ap, ◌∙◌, inl, inr, [], ◌∷◌, ◌++◌, ℤ, pos, negsuc, eqb_ℤ, get_or, Bool-cases,
  arith, if◌then◌else◌,
}
use simple_dsp.Text.{Bytes, codes, show_int}
use simple_dsp.Prog.{done}
use simple_dsp.Keys.{get_data_entry_sstream}
use simple_dsp.Keys.Fields.{AllKeys, entry_lem, entry-IsKey, literal-IsKey, show_int-IsKey}
use simple_dsp.Store.{Ty}
use simple_dsp.Store.Contract.{IsStore, IsKey, or_default}
use simple_dsp.World.{Env, World, number, real, text, login}
use simple_dsp.AdMap.Key.{ad_key, group_key}
use simple_dsp.AdMap.Charge.{
  charge_of, remark_text, increase_ad_time, get_charge_cmd, charge_ad, ad_click,
}

colon-IsKey : IsKey (codes ":")
colon-IsKey = literal-IsKey (codes ":") refl

ad_args :
    (mall ad : ℤ) (prop : Bytes)
    → IsKey prop
    → AllKeys (codes "ad:" ∷ show_int mall ∷ codes ":" ∷ show_int ad ∷ codes ":" ∷ prop ∷ [])
ad_args mall ad prop h = (
  literal-IsKey (codes "ad:") refl,
  (show_int-IsKey mall, (colon-IsKey, (show_int-IsKey ad, (colon-IsKey, (h, tt))))),
)

group_args :
    (mall group : ℤ) (prop : Bytes)
    → IsKey prop
    → AllKeys
        (codes "ad.group:" ∷ show_int mall ∷ codes ":" ∷ show_int group ∷ codes ":" ∷ prop ∷ [])
group_args mall group prop h = (
  literal-IsKey (codes "ad.group:") refl,
  (show_int-IsKey mall, (colon-IsKey, (show_int-IsKey group, (colon-IsKey, (h, tt))))),
)

pub ad_key-IsKey : (mall ad : ℤ) (prop : Bytes) → IsKey prop → IsKey (ad_key mall ad prop)
unfolding ad_key
ad_key-IsKey mall ad prop h = entry-IsKey _ (ad_args mall ad prop h)

pub group_key-IsKey :
    (mall group : ℤ) (prop : Bytes) → IsKey prop → IsKey (group_key mall group prop)
unfolding group_key
group_key-IsKey mall group prop h = entry-IsKey _ (group_args mall group prop h)

-- A key of an advertisement is none of a group: the third bytes differ.
pub ad_key-group_key :
    (mall ad mall' group : ℤ) (p q : Bytes)
    → IsKey p
    → IsKey q
    → ad_key mall ad p ≢ group_key mall' group q
unfolding ad_key group_key get_data_entry_sstream
ad_key-group_key mall ad mall' group p q h k e =
    let third =
      ap (λ s. get_or s 2 0)
        (sym (entry_lem _ (ad_args mall ad p h)) ∙ e ∙ entry_lem _ (group_args mall' group q k)) in
    omega (arith, third)

module _ (e : Env) (s : IsStore e.d e.m) (mall ad user : ℤ) where
  -- The group that the database has for the advertisement.
  abbrev pub group_of : e.m.State → ℤ
  group_of db = or_default (negsuc 0) (s.cell db Ty.int (ad_key mall ad (codes "group")))

  abbrev pub owner_of : e.m.State → ℤ → ℤ
  owner_of db group = or_default (pos 0) (s.cell db Ty.int (group_key mall group (codes "owner")))

  abbrev pub price_of : e.m.State → ℤ → e.d.W
  price_of db group =
      or_default (e.d.of_int (pos 0))
        (s.cell db Ty.double (group_key mall group (codes "click" ++ codes ".price")))

  -- The command that charges an owner with a price.
  abbrev pub charge_with : ℤ → ℤ → e.d.W → Bytes
  charge_with group owner price = e.format e.config.charge_ad_sql (
      number owner
      ∷ text (codes "adv_consume")
      ∷ real (charge_of e price)
      ∷ text (remark_text e ad group (codes "click"))
      ∷ number mall
      ∷ login e)

  abbrev pub charge_cmd : e.m.State → ℤ → Bytes
  charge_cmd db group = charge_with group (owner_of db group) (price_of db group)

  price-IsKey : IsKey (codes "click" ++ codes ".price")
  price-IsKey = literal-IsKey (codes "click.price") refl

  -- `get_charge_cmd` reads the price and the owner.
  get_charge_cmd_lem :
      (group : ℤ) (w : World e)
      → (get_charge_cmd e mall ad group (codes "click") w).0 ≡ done (charge_cmd w.db group)
        × ((get_charge_cmd e mall ad group (codes "click") w).1.sql ≡ w.sql)
  unfolding get_charge_cmd
  get_charge_cmd_lem group w =
      let price_key = group_key mall group (codes "click" ++ codes ".price") in
      let owner_key = group_key mall group (codes "owner") in
      let kp = group_key-IsKey mall group (codes "click" ++ codes ".price") price-IsKey in
      let ko = group_key-IsKey mall group (codes "owner") (literal-IsKey (codes "owner") refl) in
      let zero = e.d.of_int (pos 0) in
      let db = (e.m.get Ty.double price_key zero w.db).1 in
      let price : (e.m.get Ty.double price_key zero w.db).0 ≡ price_of w.db group =
        s.get_value Ty.double price_key zero w.db kp in
      let owner : (e.m.get Ty.int owner_key (pos 0) db).0 ≡ owner_of w.db group =
        s.get_value Ty.int owner_key (pos 0) db ko
        ∙ ap (or_default (pos 0)) (s.cell-get Ty.double price_key zero w.db Ty.int owner_key kp) in
      (rw (price, owner) refl, refl)

  charge_ad_lem :
      (group : ℤ) (w : World e)
      → (charge_ad e mall ad group (codes "click") w).0 ≡ done tt
        × ((charge_ad e mall ad group (codes "click") w).1.sql
            ≡ (e.exec (charge_cmd w.db group) w.sql).1)
  unfolding charge_ad
  charge_ad_lem group w =
      let (cmd, same) = get_charge_cmd_lem group w in rw (cmd, same) (refl, refl)

  -- The price and the owner are those from before the click was counted.
  counted_cmd :
      (group : ℤ) (db : e.m.State)
      → charge_cmd
          (e.m.incr (ad_key mall ad (codes "click" ++ codes ".counter")) (pos 1) db).1
          group
        ≡ charge_cmd db group
  counted_cmd group db =
      let counter-IsKey : IsKey (codes "click" ++ codes ".counter") =
        literal-IsKey (codes "click.counter") refl in
      let apart : (u : Ty) (q : Bytes)
          → IsKey q
          → s.cell (e.m.incr (ad_key mall ad (codes "click" ++ codes ".counter")) (pos 1) db).1 u
              (group_key mall group q)
            ≡ s.cell db u (group_key mall group q) =
        λ u q k.
          s.cell-incr_ne (ad_key mall ad (codes "click" ++ codes ".counter")) (pos 1) db u
            (group_key mall group q)
            (ad_key-IsKey mall ad (codes "click" ++ codes ".counter") counter-IsKey)
            (ad_key-group_key mall ad mall group (codes "click" ++ codes ".counter") q counter-IsKey
              k) in
      ap
        (λ o. charge_with group (or_default (pos 0) o) (
          price_of (e.m.incr (ad_key mall ad (codes "click" ++ codes ".counter")) (pos 1) db).1
            group))
        (apart Ty.int (codes "owner") (literal-IsKey (codes "owner") refl))
      ∙ ap (λ o. charge_with group (owner_of db group) (or_default (e.d.of_int (pos 0)) o))
          (apart Ty.double (codes "click" ++ codes ".price") price-IsKey)

  -- The click is counted.
  abbrev counted : World e → World e
  counted w = record w {
    db = (e.m.incr (ad_key mall ad (codes "click" ++ codes ".counter")) (pos 1) w.db).1;
  }

  -- A click on an advertisement that has no group gets `no such ad` and runs no command. A click on one
  -- with a group gets `ok` and runs one command, which charges the owner of the group with the price
  -- of a click, both as the database had them before.
  pub ad_click_lem :
      (w : World e)
      → ((ad_click e ad user mall w).0
          ≡ done (
              if eqb_ℤ (group_of w.db) (negsuc 0)
              then (codes "no such ad", negsuc 0)
              else (codes "ok", pos 0)))
        × ((ad_click e ad user mall w).1.sql ≡ (
            if eqb_ℤ (group_of w.db) (negsuc 0)
            then w.sql
            else (e.exec (charge_cmd w.db (group_of w.db)) w.sql).1))
  unfolding ad_click increase_ad_time
  ad_click_lem w =
      let key = ad_key mall ad (codes "group") in
      let k = ad_key-IsKey mall ad (codes "group") (literal-IsKey (codes "group") refl) in
      let found = s.get_value Ty.int key (negsuc 0) w.db k in
      let kept = λ (u : Ty) (j : Bytes). s.cell-get Ty.int key (negsuc 0) w.db u j k in
      let db = (e.m.get Ty.int key (negsuc 0) w.db).1 in
      let group = group_of w.db in
      let charged = charge_ad_lem group (counted (record w { db = db })) in
      let cmd : charge_cmd db group ≡ charge_cmd w.db group =
        ap (λ o. charge_with group (or_default (pos 0) o) (price_of db group))
          (kept Ty.int (group_key mall group (codes "owner")))
        ∙ ap (λ o. charge_with group (owner_of w.db group) (or_default (e.d.of_int (pos 0)) o))
            (kept Ty.double (group_key mall group (codes "click" ++ codes ".price"))) in
      elim (Bool-cases (eqb_ℤ group (negsuc 0))) [
        | inl no_group ↦ (rw (found, no_group) refl, rw (found, no_group) refl)
        | inr grouped ↦ (
          rw (found, grouped, charged.0) refl,
          rw (found, grouped, charged.0)
              (charged.1 ∙ ap (λ c. (e.exec c w.sql).1) (counted_cmd group db ∙ cmd)),
        )
      ]
