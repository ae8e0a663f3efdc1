-- ===== src/AdMap/Ecpm/Rotation.antt =====
-- ad_map.cpp: which advertisement of a group `get_eCPM` chooses.
use mathlib.Core.List.{Mem, mem-cons_self, mem-cons_of_mem}
use simple_dsp.Base.{◌≡◌, refl, sym, ◌∙◌, subst, inl, inr, ◌⊎◌, true, List, [], ◌∷◌, ℤ, Bool-cases}
use simple_dsp.Store.{Double}
use simple_dsp.Store.Order.{IsOrdered}
use simple_dsp.Store.Contract.{IsStore}
use simple_dsp.Text.{codes}
use simple_dsp.Prog.{done}
use simple_dsp.World.{Env, World}
use simple_dsp.AdMap.Ecpm.{AdStat, Tally, show_weight, tally_ad, tally_all, tally_start, get_e_cpm}
use simple_dsp.AdMap.Ecpm.Stored.{group_stats, price_in, income_in, tally_in, get_e_cpm_lem}

module _ (d : Double) where
  abbrev pub AllNumbers : List AdStat → Type 0
  AllNumbers [] = Unit {0}
  AllNumbers (a ∷ stats) = (d.le (show_weight d a) (show_weight d a) ≡ true) × AllNumbers stats

  abbrev pub AllAbove : d.W → List AdStat → Type 0
  AllAbove x [] = Unit {0}
  AllAbove x (a ∷ stats) = (d.le x (show_weight d a) ≡ true) × AllAbove x stats

  -- What the loop ends with, against what it started with: the least share of `shown` is known, and
  -- the next advertisement is one that has it, unless none was below the start.
  pub record IsNext (start : Tally d.W) (stats : List AdStat) (end : Tally d.W) : Type 0 where
    pub below_start : d.le end.min_show_weight start.min_show_weight ≡ true
    pub below_all : AllAbove end.min_show_weight stats
    pub chosen :
        ((end.next_ad_id ≡ start.next_ad_id) × (end.min_show_weight ≡ start.min_show_weight))
        ⊎ ((a : AdStat) × Mem a stats
            × (end.next_ad_id ≡ a.ad_id)
            × (end.min_show_weight ≡ show_weight d a))

  -- The loop picks an advertisement with the least `(show_counter + 1) / weight` of all, or keeps what
  -- it started with if none is below that.
  tally_all-IsNext :
      (o : IsOrdered d) (show_price click_price : d.W) (stats : List AdStat) (t : Tally d.W)
      → d.le t.min_show_weight t.min_show_weight ≡ true
      → AllNumbers stats
      → IsNext t stats (tally_all d show_price click_price stats t)
  unfolding tally_all tally_ad
  tally_all-IsNext o p q [] t h n = record {
    below_start = h;
    below_all = tt;
    chosen = inl (refl, refl);
  }
  tally_all-IsNext o p q (a ∷ stats) t h n =
      let u = tally_ad d p q a t in
      let x = show_weight d a in
      elim (Bool-cases (d.lt x t.min_show_weight)) [
        | inl less ↦
            let same : u.min_show_weight ≡ x = rw less refl in
            let next : u.next_ad_id ≡ a.ad_id = rw less refl in
            let r =
              tally_all-IsNext o p q stats u (subst (λ y. d.le y y ≡ true) (sym same) n.0) n.1 in
            let below =
              subst (λ y. d.le (tally_all d p q stats u).min_show_weight y ≡ true) same
                r.below_start in
            record {
              below_start = o.le_trans _ x _ below (o.le_of_lt x _ less);
              below_all = (below, r.below_all);
              chosen = elim r.chosen [
                | inl (k, m) ↦ inr (a, mem-cons_self, k ∙ next, m ∙ same)
                | inr (b, i, k, m) ↦ inr (b, mem-cons_of_mem a i, k, m)
              ];
            }
        | inr more ↦
            let same : u.min_show_weight ≡ t.min_show_weight = rw more refl in
            let next : u.next_ad_id ≡ t.next_ad_id = rw more refl in
            let r =
              tally_all-IsNext o p q stats u (subst (λ y. d.le y y ≡ true) (sym same) h) n.1 in
            let below =
              subst (λ y. d.le (tally_all d p q stats u).min_show_weight y ≡ true) same
                r.below_start in
            record {
              below_start = below;
              below_all = (
                o.le_trans _ t.min_show_weight x below (o.le_of_not_lt x _ n.0 h more),
                r.below_all,
              );
              chosen = elim r.chosen [
                | inl (k, m) ↦ inl (k ∙ next, m ∙ same)
                | inr (b, i, k, m) ↦ inr (b, mem-cons_of_mem a i, k, m)
              ];
            }
      ]

module _ (e : Env) (s : IsStore e.d e.m) where
  -- The choice among some advertisements: one with the least `(show_counter + 1) / weight` of all, or
  -- `next` if none is below the greatest `double`.
  abbrev pub IsLeast : ℤ → List AdStat → ℤ → Type 0
  IsLeast next stats chosen =
      ((chosen ≡ next) × AllAbove e.d e.d.max stats)
      ⊎ ((a : AdStat) × Mem a stats × (chosen ≡ a.ad_id) × AllAbove e.d (show_weight e.d a) stats)

  least :
      (next : ℤ) (stats : List AdStat) (end : Tally e.d.W)
      → IsNext e.d (tally_start e.d next) stats end
      → IsLeast next stats end.next_ad_id
  least next stats end n = elim n.chosen [
    | inl (k, m) ↦ inl (k, subst (λ x. AllAbove e.d x stats) m n.below_all)
    | inr (a, i, k, m) ↦ inr (a, i, k, subst (λ x. AllAbove e.d x stats) m n.below_all)
  ]

  -- On a database that keeps its contract, `get_eCPM` gives the weighted mean of the incomes of the
  -- group's valid advertisements, with the prices, weights and counters that the database holds, or 0
  -- where the weights add up to 0. Where no `(show_counter + 1) / weight` is NaN, it chooses an
  -- advertisement of them for which this is least, or keeps the number it was given if it is nowhere
  -- below the greatest `double`.
  pub get_e_cpm-IsLeast :
      (o : IsOrdered e.d) (mall group next : ℤ) (w : World e)
      → e.d.le e.d.max e.d.max ≡ true
      → AllNumbers e.d (group_stats e s mall group w.db)
      → (chosen : ℤ) × ((get_e_cpm e mall group next w).0
          ≡ done (income_in e s mall group w.db, chosen))
        × IsLeast next (group_stats e s mall group w.db) chosen
  get_e_cpm-IsLeast o mall group next w m n =
      let p = price_in e s mall group (codes "show.price") w.db in
      let q = price_in e s mall group (codes "click.price") w.db in
      let stats = group_stats e s mall group w.db in
      (
        (tally_in e s mall group next w.db).next_ad_id,
        get_e_cpm_lem e s mall group next w,
        least next stats (tally_in e s mall group next w.db)
            (tally_all-IsNext e.d o p q stats (tally_start e.d next) m n),
      )
