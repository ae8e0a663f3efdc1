-- ===== src/AdMap/Bidding/Accepted.antt =====
-- ad_map.cpp: what the database holds of a group that passes the tests of `bidding`.
use simple_dsp.Base.{
  suc, arith, ◌≡◌, refl, sym, ap, ◌∙◌, inl, inr, Bool, true, false, not, List, [], ◌∷◌, ℤ, pos,
  ltb_ℤ, leb_ℤ, eqb_ℤ, Bool-cases, if◌then◌else◌,
}
use simple_dsp.Text.{Bytes, codes}
use simple_dsp.Prog.{Outcome, Prog, done}
use simple_dsp.Keys.Fields.{literal-IsKey, get_date_str-IsKey}
use simple_dsp.Store.{Ty}
use simple_dsp.Store.Contract.{IsStore, IsKey, or_default}
use simple_dsp.World.{Env, World}
use simple_dsp.UserMap.Key.{user_shop_key}
use simple_dsp.UserMap.Key.Plain.{user_shop_key-IsKey}
use simple_dsp.UserMap.Visits.{date_of, get_shopid_of_user_location}
use simple_dsp.AdMap.Key.{group_key}
use simple_dsp.AdMap.Charge.Clicks.{group_key-IsKey}
use simple_dsp.AdMap.Ecpm.Stored.{SameCells}
use simple_dsp.AdMap.Filters.{
  passes, check_market_shop, by_first, market_shop_test, shop_test, check_group_valid, check_times,
  check_time_range, time_range_test, check_labels, label_test, and_then,
}
use simple_dsp.AdMap.Bidding.Returns.{Returns, Anything}
use simple_dsp.AdMap.Bidding.Total.{Total-market, Total-group_valid, Total-times}

module _ (e : Env) where
  -- Both tests of a pair that passes.
  and_then-true :
      (m n : Prog (World e) Bool) (w : World e)
      → Returns e Anything m
      → (and_then e m n w).0 ≡ done true
      → ((m w).0 ≡ done true) × ((n (m w).1).0 ≡ done true)
  and_then-true m n w h p =
      let (a, u, q) = h.run w in
      elim (Bool-cases a) [
        | inl passed ↦ let r : (m w).0 ≡ done true = q ∙ ap done passed in (r, rw r at p)
        | inr failed ↦
            let r : (m w).0 ≡ done false = q ∙ ap done failed in
            let c : done false ≡ done true = rw r at p in ground arith
      ]

  module _ (s : IsStore e.d e.m) where
    -- The test of the shops of a group, for the shop where the user was seen today.
    abbrev pub shop_fits : ℤ → List ℤ → World e → Bool
    shop_fits user [] w = true
    shop_fits user (first ∷ shops) w =
        if ltb_ℤ (pos 0) user
        then shop_test (leb_ℤ (pos 0) first)
            (or_default (pos 0)
              (s.cell w.db Ty.int (user_shop_key (date_of e (e.clock w.reads)) user)))
            (first ∷ shops)
        else not (leb_ℤ (pos 0) first)

    -- A number or a text of a group.
    abbrev pub number_in : ℤ → ℤ → Bytes → ℤ → e.m.State → ℤ
    number_in mall group prop n db = or_default n (s.cell db Ty.int (group_key mall group prop))

    abbrev pub text_in : ℤ → ℤ → Bytes → e.m.State → Bytes
    text_in mall group prop db = or_default [] (s.cell db Ty.string (group_key mall group prop))

    -- The states before the test of the time and before that of the labels.
    abbrev pub before_times : ℤ → ℤ → ℤ → World e → World e
    before_times mall user group w =
        (check_group_valid e mall group (check_market_shop e user group mall w).1).1

    abbrev pub before_labels : ℤ → ℤ → ℤ → World e → World e
    before_labels mall user group w = (check_times e mall group (before_times mall user group w)).1

    -- What the tests ask of a group, but for its timings: the shop, the flag, the range of time at the
    -- clock's reading and the labels.
    pub record Accepts (mall user : ℤ) (labels : List Bytes) (group : ℤ) (w : World e)
        : Type 0 where
      pub in_shop :
          shop_fits user
            (e.m.smembers Ty.int (group_key mall group (codes "market.shop.set")) w.db).0
            w
          ≡ true
      pub is_valid : eqb_ℤ (pos 0) (number_in mall group (codes "valid") (pos 1) w.db) ≡ false
      pub in_time :
          time_range_test
            (e.clock (before_times mall user group w).reads)
            (text_in mall group (codes "market.start") w.db)
            (text_in mall group (codes "market.end") w.db)
          ≡ true
      pub fits :
          label_test e user labels
            (e.m.smembers Ty.string
              (group_key mall group (codes "target.label.set"))
              (before_labels mall user group w).db).0
          ≡ true

    by_first_lem :
        (user : ℤ) (shops : List ℤ) (w : World e)
        → ((by_first e user shops w).0 ≡ done (shop_fits user shops w))
          × SameCells e s w.db (by_first e user shops w).1.db
    unfolding by_first market_shop_test get_shopid_of_user_location
    by_first_lem user [] w = (refl, λ u j. refl)
    by_first_lem user (first ∷ shops) w = elim (Bool-cases (ltb_ℤ (pos 0) user)) [
      | inl known ↦
          let k =
            user_shop_key-IsKey (date_of e (e.clock w.reads)) user
              (get_date_str-IsKey (e.localtime (e.clock w.reads))) in
          rw known (
            ap (λ v. done (shop_test (leb_ℤ (pos 0) first) v (first ∷ shops)))
                (s.get_value Ty.int _ (pos 0) w.db k),
            λ u j. s.cell-get Ty.int _ (pos 0) w.db u j k,
          )
      | inr unknown ↦ rw unknown (refl, λ u j. refl)
    ]

    shop_fits-same :
        (user : ℤ) (shops : List ℤ) (w : World e) (db : e.m.State)
        → SameCells e s w.db db
        → shop_fits user shops (record w { db = db }) ≡ shop_fits user shops w
    shop_fits-same user [] w db h = refl
    shop_fits-same user (first ∷ shops) w db h =
        rw (h Ty.int (user_shop_key (date_of e (e.clock w.reads)) user)) refl

    module _ (mall group : ℤ) where
      abbrev shops_key : Bytes
      shops_key = group_key mall group (codes "market.shop.set")

      shops-IsKey : IsKey shops_key
      shops-IsKey = group_key-IsKey mall group _ (literal-IsKey (codes "market.shop.set") refl)

      market_lem :
          (user : ℤ) (w : World e)
          → ((check_market_shop e user group mall w).0
              ≡ done (shop_fits user (e.m.smembers Ty.int shops_key w.db).0 w))
            × SameCells e s w.db (check_market_shop e user group mall w).1.db
      unfolding check_market_shop
      market_lem user w =
          let (shops, db) = e.m.smembers Ty.int shops_key w.db in
          let same : SameCells e s w.db db =
            λ u j. s.cell-smembers Ty.int shops_key w.db u j shops-IsKey in
          let (found, kept) = by_first_lem user shops (record w { db = db }) in
          (found ∙ ap done (shop_fits-same user shops w db same), λ u j. kept u j ∙ same u j)

      valid-IsKey : IsKey (group_key mall group (codes "valid"))
      valid-IsKey = group_key-IsKey mall group _ (literal-IsKey (codes "valid") refl)

      valid_lem :
          (w : World e)
          → ((check_group_valid e mall group w).0
              ≡ done (not (eqb_ℤ (pos 0) (number_in mall group (codes "valid") (pos 1) w.db))))
            × SameCells e s w.db (check_group_valid e mall group w).1.db
      unfolding check_group_valid
      valid_lem w = (
        ap (λ v. done (not (eqb_ℤ (pos 0) v))) (s.get_value Ty.int _ (pos 1) w.db valid-IsKey),
        λ u j. s.cell-get Ty.int _ (pos 1) w.db u j valid-IsKey,
      )

      start-IsKey : IsKey (group_key mall group (codes "market.start"))
      start-IsKey = group_key-IsKey mall group _ (literal-IsKey (codes "market.start") refl)

      end-IsKey : IsKey (group_key mall group (codes "market.end"))
      end-IsKey = group_key-IsKey mall group _ (literal-IsKey (codes "market.end") refl)

      range_lem :
          (t : ℤ) (w : World e)
          → (check_time_range e mall t group w).0
            ≡ done (
                time_range_test t
                  (text_in mall group (codes "market.start") w.db)
                  (text_in mall group (codes "market.end") w.db))
      unfolding check_time_range
      range_lem t w =
          let db = (e.m.get Ty.string (group_key mall group (codes "market.start")) [] w.db).1 in
          let ends =
            s.get_value Ty.string _ [] db end-IsKey
            ∙ ap (or_default []) (
                s.cell-get Ty.string _ [] w.db Ty.string (group_key mall group (codes "market.end"))
                  start-IsKey) in
          rw (s.get_value Ty.string _ [] w.db start-IsKey, ends) refl

      times_lem :
          (w : World e)
          → (check_times e mall group w).0 ≡ done true
          → time_range_test
              (e.clock w.reads)
              (text_in mall group (codes "market.start") w.db)
              (text_in mall group (codes "market.end") w.db)
            ≡ true
      unfolding check_times
      times_lem w h =
          let w' : World e = record w { reads = suc w.reads } in
          let range = range_lem (e.clock w.reads) w' in
          elim (Bool-cases (
            time_range_test (e.clock w.reads) (text_in mall group (codes "market.start") w.db)
              (text_in mall group (codes "market.end") w.db))) [
                | inl inside ↦ inside
                | inr outside ↦
                    let r : (check_time_range e mall (e.clock w.reads) group w').0 ≡ done false =
                      range ∙ ap done outside in
                    let c : done false ≡ done true = rw r at h in ground arith
              ]

      done_true : (b : Bool) (r : Outcome Bool) → r ≡ done b → r ≡ done true → b ≡ true
      done_true b r h k = let q : done b ≡ done true = sym h ∙ k in cc q

      not-true : (b : Bool) → not b ≡ true → b ≡ false
      not-true b h = ground arith

      -- A group that passes is accepted.
      pub passes-Accepts :
          (user : ℤ) (labels : List Bytes) (w : World e)
          → (passes e mall user labels group w).0 ≡ done true
          → Accepts mall user labels group w
      unfolding passes check_labels
      passes-Accepts user labels w h =
          let market = check_market_shop e user group mall in
          let valid = check_group_valid e mall group in
          let times = check_times e mall group in
          let fits = check_labels e mall user labels group in
          let (a, rest) =
            and_then-true market (and_then e valid (and_then e times fits)) w
              (Total-market e user group mall) h in
          let w1 = (market w).1 in
          let (b, rest') =
            and_then-true valid (and_then e times fits) w1 (Total-group_valid e mall group) rest in
          let w2 = (valid w1).1 in
          let (c, f) = and_then-true times fits w2 (Total-times e mall group) rest' in
          let (shop, same1) = market_lem user w in
          let (found, same2) = valid_lem w1 in
          let same : SameCells e s w.db w2.db = λ u j. same2 u j ∙ same1 u j in
          record {
            in_shop = done_true _ _ shop a;
            is_valid =
                ap (λ v. eqb_ℤ (pos 0) (or_default (pos 1) v))
                  (sym (same1 Ty.int (group_key mall group (codes "valid"))))
                ∙ not-true _ (done_true _ _ found b);
            in_time =
                sym (λ i.
                  time_range_test (e.clock w2.reads)
                    (or_default [] (same Ty.string (group_key mall group (codes "market.start")) i))
                    (or_default [] (same Ty.string (group_key mall group (codes "market.end")) i)))
                ∙ times_lem w2 c;
            fits = done_true _ _ refl f;
          }
