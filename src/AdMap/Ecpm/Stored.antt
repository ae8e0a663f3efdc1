-- ===== src/AdMap/Ecpm/Stored.antt =====
-- ad_map.cpp: what `get_eCPM` gives, by what the database holds.
use simple_dsp.Base.{
  ◌≡◌, refl, ap, ◌∙◌, inl, inr, Bool, not, List, [], ◌∷◌, ℤ, pos, ◌+ℤ◌, leb_ℤ, eqb_ℤ, Bool-cases,
  if◌then◌else◌,
}
use simple_dsp.Text.{Bytes, codes, atoi}
use simple_dsp.Prog.{done}
use simple_dsp.Keys.Fields.{literal-IsKey}
use simple_dsp.Store.{Double, Ty}
use simple_dsp.Store.Contract.{IsStore, IsKey, or_default}
use simple_dsp.World.{Env, World}
use simple_dsp.AdMap.Key.{ad_key, group_key}
use simple_dsp.AdMap.Charge.Clicks.{ad_key-IsKey, group_key-IsKey}
use simple_dsp.AdMap.Filters.{check_ad_valid}
use simple_dsp.AdMap.Ecpm.{
  AdStat, Tally, ecpm_of, tally_ad, tally_all, tally_start, ecpm_of_tally, read_stat, zero_text,
  tally_members, get_e_cpm,
}

module _ (d : Double) where
  -- The sum of the weights.
  unfoldable pub weights : ℤ → List AdStat → ℤ
  weights n [] = n
  weights n (a ∷ stats) = weights (n +ℤ a.weight) stats

  -- The weighted sum of the incomes.
  unfoldable pub incomes : d.W → d.W → d.W → List AdStat → d.W
  incomes show_price click_price x [] = x
  incomes show_price click_price x (a ∷ stats) =
      incomes show_price click_price
        (d.add x (d.mul (ecpm_of d show_price click_price a) (d.of_int a.weight))) stats

  -- The weighted mean of the incomes, or 0 where the weights add up to 0.
  unfoldable pub mean_income : d.W → d.W → List AdStat → d.W
  mean_income show_price click_price stats =
      if eqb_ℤ (weights (pos 0) stats) (pos 0)
      then d.of_int (pos 0)
      else d.div (incomes show_price click_price (d.of_int (pos 0)) stats)
          (d.of_int (weights (pos 0) stats))

  tally_all-weights :
      (p q : d.W) (stats : List AdStat) (t : Tally d.W)
      → (tally_all d p q stats t).sum_weight ≡ weights t.sum_weight stats
  unfolding tally_all tally_ad weights
  tally_all-weights p q [] t = refl
  tally_all-weights p q (a ∷ stats) t = tally_all-weights p q stats (tally_ad d p q a t)

  tally_all-incomes :
      (p q : d.W) (stats : List AdStat) (t : Tally d.W)
      → (tally_all d p q stats t).sum_ecpm ≡ incomes p q t.sum_ecpm stats
  unfolding tally_all tally_ad incomes
  tally_all-incomes p q [] t = refl
  tally_all-incomes p q (a ∷ stats) t = tally_all-incomes p q stats (tally_ad d p q a t)

  mean_income_lem :
      (p q : d.W) (stats : List AdStat) (next : ℤ)
      → ecpm_of_tally d (tally_all d p q stats (tally_start d next)) ≡ mean_income p q stats
  unfolding ecpm_of_tally mean_income
  mean_income_lem p q stats next =
      rw
        (
          tally_all-weights p q stats (tally_start d next),
          tally_all-incomes p q stats (tally_start d next),
        )
        refl

module _ (e : Env) (s : IsStore e.d e.m) where
  abbrev pub SameCells : e.m.State → e.m.State → Type 0
  SameCells db db' = (u : Ty) (j : Bytes) → s.cell db' u j ≡ s.cell db u j

  -- What the database holds of an advertisement.
  abbrev pub stat_in : ℤ → e.m.State → ℤ → AdStat
  stat_in mall db ad =
      let weight = or_default (pos 0) (s.cell db Ty.int (ad_key mall ad (codes "weight"))) in
      record {
        ad_id = ad;
        show_counter = atoi (
            or_default (zero_text e) (s.cell db Ty.string (ad_key mall ad (codes "show.counter"))));
        click_counter = atoi (
            or_default (zero_text e)
              (s.cell db Ty.string (ad_key mall ad (codes "click.counter"))));
        weight = if eqb_ℤ weight (pos 0) then pos 1 else weight;
      }

  abbrev pub valid_in : ℤ → e.m.State → ℤ → Bool
  valid_in mall db ad =
      not (leb_ℤ (or_default (pos 1) (s.cell db Ty.int (ad_key mall ad (codes "valid")))) (pos 0))

  -- The same for the valid ones of some advertisements.
  unfoldable pub stats_in : ℤ → e.m.State → List ℤ → List AdStat
  stats_in mall db [] = []
  stats_in mall db (ad ∷ ads) =
      let rest = stats_in mall db ads in
      if valid_in mall db ad then stat_in mall db ad ∷ rest else rest

  stat_in-same :
      (mall : ℤ) (db db' : e.m.State) (ad : ℤ)
      → SameCells db db'
      → stat_in mall db' ad ≡ stat_in mall db ad
  stat_in-same mall db db' ad h =
      rw
        (
          h Ty.int (ad_key mall ad (codes "weight")),
          h Ty.string (ad_key mall ad (codes "show.counter")),
          h Ty.string (ad_key mall ad (codes "click.counter")),
        )
        refl

  stats_in-same :
      (mall : ℤ) (db db' : e.m.State) (ads : List ℤ)
      → SameCells db db'
      → stats_in mall db' ads ≡ stats_in mall db ads
  unfolding stats_in
  stats_in-same mall db db' [] h = refl
  stats_in-same mall db db' (ad ∷ ads) h =
      rw
        (
          h Ty.int (ad_key mall ad (codes "valid")),
          stat_in-same mall db db' ad h,
          stats_in-same mall db db' ads h,
        )
        refl

  check_ad_valid_lem :
      (mall ad : ℤ) (w : World e) → (check_ad_valid e mall ad w).0 ≡ done (valid_in mall w.db ad)
  unfolding check_ad_valid
  check_ad_valid_lem mall ad w =
      ap (λ v. done (not (leb_ℤ v (pos 0))))
        (s.get_value Ty.int _ (pos 1) w.db
          (ad_key-IsKey mall ad (codes "valid") (literal-IsKey (codes "valid") refl)))

  check_ad_valid-same :
      (mall ad : ℤ) (w : World e) → SameCells w.db (check_ad_valid e mall ad w).1.db
  unfolding check_ad_valid
  check_ad_valid-same mall ad w u j =
      s.cell-get Ty.int _ (pos 1) w.db u j
        (ad_key-IsKey mall ad (codes "valid") (literal-IsKey (codes "valid") refl))

  module _ (mall ad : ℤ) where
    show-IsKey : IsKey (ad_key mall ad (codes "show.counter"))
    show-IsKey = ad_key-IsKey mall ad _ (literal-IsKey (codes "show.counter") refl)

    click-IsKey : IsKey (ad_key mall ad (codes "click.counter"))
    click-IsKey = ad_key-IsKey mall ad _ (literal-IsKey (codes "click.counter") refl)

    weight-IsKey : IsKey (ad_key mall ad (codes "weight"))
    weight-IsKey = ad_key-IsKey mall ad _ (literal-IsKey (codes "weight") refl)

    abbrev after_show : e.m.State → e.m.State
    after_show db = (e.m.get Ty.string (ad_key mall ad (codes "show.counter")) (zero_text e) db).1

    abbrev after_click : e.m.State → e.m.State
    after_click db =
        (e.m.get Ty.string (ad_key mall ad (codes "click.counter")) (zero_text e) (after_show db)).1

    after_click-same : (db : e.m.State) → SameCells db (after_click db)
    after_click-same db u j =
        s.cell-get Ty.string _ (zero_text e) (after_show db) u j click-IsKey
        ∙ s.cell-get Ty.string _ (zero_text e) db u j show-IsKey

    read_stat_lem : (w : World e) → (read_stat e mall ad w).0 ≡ done (stat_in mall w.db ad)
    unfolding read_stat
    read_stat_lem w =
        let shown = s.get_value Ty.string _ (zero_text e) w.db show-IsKey in
        let clicked =
          s.get_value Ty.string _ (zero_text e) (after_show w.db) click-IsKey
          ∙ ap (or_default (zero_text e)) (
              s.cell-get Ty.string _ (zero_text e) w.db Ty.string
                (ad_key mall ad (codes "click.counter")) show-IsKey) in
        let weighed =
          s.get_value Ty.int _ (pos 0) (after_click w.db) weight-IsKey
          ∙ ap (or_default (pos 0))
              (after_click-same w.db Ty.int (ad_key mall ad (codes "weight"))) in
        rw (shown, clicked, weighed) refl

    read_stat-same : (w : World e) → SameCells w.db (read_stat e mall ad w).1.db
    unfolding read_stat
    read_stat-same w u j =
        s.cell-get Ty.int _ (pos 0) (after_click w.db) u j weight-IsKey ∙ after_click-same w.db u j

  tally_members_lem :
      (mall : ℤ) (p q : e.d.W) (ads : List ℤ) (t : Tally e.d.W) (w : World e)
      → (tally_members e mall p q ads t w).0 ≡ done (tally_all e.d p q (stats_in mall w.db ads) t)
  unfolding tally_members tally_all stats_in
  tally_members_lem mall p q [] t w = refl
  tally_members_lem mall p q (ad ∷ ads) t w =
      let v = (check_ad_valid e mall ad w).1 in
      let same = check_ad_valid-same mall ad w in
      elim (Bool-cases (valid_in mall w.db ad)) [
        | inl valid ↦
            let u = (read_stat e mall ad v).1 in
            rw (check_ad_valid_lem mall ad w, valid, read_stat_lem mall ad v)
              (tally_members_lem mall p q ads (tally_ad e.d p q (stat_in mall v.db ad) t) u ∙ (λ i.
                done (
                  tally_all e.d p q
                    (stats_in-same mall w.db u.db ads
                      (λ y j. read_stat-same mall ad v y j ∙ same y j) i)
                    (tally_ad e.d p q (stat_in-same mall w.db v.db ad same i) t))))
        | inr invalid ↦
            rw (check_ad_valid_lem mall ad w, invalid)
              (tally_members_lem mall p q ads t v
                ∙ ap (λ l. done (tally_all e.d p q l t)) (stats_in-same mall w.db v.db ads same))
      ]

  -- The advertisements of a group that are valid, and its prices.
  abbrev pub group_stats : ℤ → ℤ → e.m.State → List AdStat
  group_stats mall group db =
      stats_in mall db (e.m.smembers Ty.int (group_key mall group (codes "ad.set")) db).0

  abbrev pub price_in : ℤ → ℤ → Bytes → e.m.State → e.d.W
  price_in mall group prop db =
      or_default (e.d.of_int (pos 0)) (s.cell db Ty.double (group_key mall group prop))

  -- The mean income of a group.
  abbrev pub income_in : ℤ → ℤ → e.m.State → e.d.W
  income_in mall group db =
      mean_income e.d (price_in mall group (codes "show.price") db)
        (price_in mall group (codes "click.price") db) (group_stats mall group db)

  -- The loop of `get_eCPM` on what the database holds of the group.
  abbrev pub tally_in : ℤ → ℤ → ℤ → e.m.State → Tally e.d.W
  tally_in mall group next db =
      tally_all e.d (price_in mall group (codes "show.price") db)
        (price_in mall group (codes "click.price") db) (group_stats mall group db)
        (tally_start e.d next)

  pub get_e_cpm_lem :
      (mall group next : ℤ) (w : World e)
      → (get_e_cpm e mall group next w).0
        ≡ done (income_in mall group w.db, (tally_in mall group next w.db).next_ad_id)
  unfolding get_e_cpm
  get_e_cpm_lem mall group next w =
      let ads = (e.m.smembers Ty.int (group_key mall group (codes "ad.set")) w.db).0 in
      let ks =
        group_key-IsKey mall group (codes "show.price") (literal-IsKey (codes "show.price") refl) in
      let kc =
        group_key-IsKey mall group (codes "click.price")
          (literal-IsKey (codes "click.price") refl) in
      let ka = group_key-IsKey mall group (codes "ad.set") (literal-IsKey (codes "ad.set") refl) in
      let zero = e.d.of_int (pos 0) in
      let db1 = (e.m.smembers Ty.int (group_key mall group (codes "ad.set")) w.db).1 in
      let db2 = (e.m.get Ty.double (group_key mall group (codes "show.price")) zero db1).1 in
      let db3 = (e.m.get Ty.double (group_key mall group (codes "click.price")) zero db2).1 in
      let same1 : SameCells w.db db1 = λ u j. s.cell-smembers Ty.int _ w.db u j ka in
      let same2 : SameCells w.db db2 = λ u j. s.cell-get Ty.double _ zero db1 u j ks ∙ same1 u j in
      let same3 : SameCells w.db db3 = λ u j. s.cell-get Ty.double _ zero db2 u j kc ∙ same2 u j in
      let shown =
        s.get_value Ty.double _ zero db1 ks
        ∙ ap (or_default zero) (same1 Ty.double (group_key mall group (codes "show.price"))) in
      let clicked =
        s.get_value Ty.double _ zero db2 kc
        ∙ ap (or_default zero) (same2 Ty.double (group_key mall group (codes "click.price"))) in
      let p = price_in mall group (codes "show.price") w.db in
      let q = price_in mall group (codes "click.price") w.db in
      rw
        (
          shown,
          clicked,
          tally_members_lem mall p q ads (tally_start e.d next) (record w { db = db3 }),
          stats_in-same mall w.db db3 ads same3,
          mean_income_lem e.d p q (stats_in mall w.db ads) next,
        )
        refl
