-- ===== src/UserMap/Visits/Shop.antt =====
-- user_map.cpp: the shop where a user was seen last on a day.
use simple_dsp.Base.{
  ◌≡◌, ◌⊎◌, refl, ap, sym, ◌∙◌, inl, inr, true, List, [], ◌∷◌, false, false≢true, ◌&&◌, Bool-cases,
  ℤ, pos, eqb_ℤ, eqb_ℤ_iff, if◌then◌else◌,
}
use simple_dsp.Text.{Bytes, bytes_eq, bytes_eq_iff, in_range, int_min, int_max}
use simple_dsp.Prog.{Outcome, done}
use simple_dsp.Keys.Fields.{get_date_str-IsKey, get_date_str-IsField}
use simple_dsp.Store.{Ty}
use simple_dsp.Store.Contract.{IsStore, IsKey, or_default}
use simple_dsp.World.{Env, World}
use simple_dsp.UserMap.Key.{user_shop_key}
use simple_dsp.UserMap.Key.Plain.{user_shop_key-IsKey, user_shop_key-nonempty}
use simple_dsp.UserMap.Key.Distinct.{user_shop_key-injective}
use simple_dsp.UserMap.Visits.{date_of, get_shopid_of_user_location, update_shopid_of_user_location}

-- The test below, as a decision of the two equations.
same_cases :
    (c d : Bytes) (a b : ℤ)
    → (((bytes_eq c d && eqb_ℤ a b) ≡ true) × (c ≡ d) × (a ≡ b))
      ⊎ (((bytes_eq c d && eqb_ℤ a b) ≡ false) × ¬ ((c ≡ d) × (a ≡ b)))
same_cases c d a b = elim (Bool-cases (bytes_eq c d)) [
  | inl day ↦ elim (Bool-cases (eqb_ℤ a b)) [
    | inl user ↦ inl (rw (day, user) refl, (bytes_eq_iff c d).0 day, (eqb_ℤ_iff a b).0 user)
    | inr other ↦ inr (rw (day, other) refl, λ h. false≢true (sym other ∙ (eqb_ℤ_iff a b).1 h.1))
  ]
  | inr other ↦ inr (rw other refl, λ h. false≢true (sym other ∙ (bytes_eq_iff c d).1 h.0))
]

module _ (e : Env) (s : IsStore e.d e.m) where
  abbrev today : World e → Bytes
  today w = date_of e (e.clock w.reads)

  shop-IsKey : (t id : ℤ) → IsKey (user_shop_key (date_of e t) id)
  shop-IsKey t id = user_shop_key-IsKey (date_of e t) id (get_date_str-IsKey (e.localtime t))

  -- A call reads what is stored for the day of the clock.
  get_shopid_lem :
      (id : ℤ) (w : World e)
      → (get_shopid_of_user_location e id w).0
        ≡ done (or_default (pos 0) (s.cell w.db Ty.int (user_shop_key (today w) id)))
  unfolding get_shopid_of_user_location
  get_shopid_lem id w =
      ap done (s.get_value Ty.int _ (pos 0) w.db (shop-IsKey (e.clock w.reads) id))

  -- A shop number that fits an `int`, written for a user at a time, is what
  -- `get_shopid_of_user_location` then gives for this user while the clock shows the date of that
  -- time; on another date, or for another user, it gives what it gave before.
  get_shopid-update_shopid :
      (user_id user_id' shop_id t : ℤ) (w : World e)
      → in_range int_min int_max shop_id ≡ true
      → (get_shopid_of_user_location e user_id'
          (update_shopid_of_user_location e user_id shop_id t w).1).0
        ≡ (if bytes_eq (date_of e t) (date_of e (e.clock w.reads)) && eqb_ℤ user_id user_id'
            then done shop_id
            else (get_shopid_of_user_location e user_id' w).0)
  unfolding update_shopid_of_user_location
  get_shopid-update_shopid user_id user_id' shop_id t w r =
      let k = shop-IsKey t user_id in
      let j = user_shop_key (today w) user_id' in
      elim (same_cases (date_of e t) (today w) user_id user_id') [
        | inl (test, day, user) ↦ rw test (
            get_shopid_lem user_id' _
            ∙ ap
                (λ i. done (
                  or_default (pos 0) (
                    s.cell (e.m.set Ty.int (user_shop_key (date_of e t) user_id) shop_id w.db).1
                      Ty.int i)))
                (λ n. user_shop_key (sym day n) (sym user n))
            ∙ ap (λ v. done (or_default (pos 0) v))
                (s.cell-set_int _ shop_id w.db k
                  (user_shop_key-nonempty (date_of e t) user_id
                    (get_date_str-IsKey (e.localtime t)))
                  r))
        | inr (test, differ) ↦ rw test (
            get_shopid_lem user_id' _
            ∙ ap (λ v. done (or_default (pos 0) v))
                (s.cell-set_ne Ty.int _ shop_id w.db Ty.int j k tt (λ q. differ (
                  user_shop_key-injective (date_of e t) (today w) user_id user_id'
                    (get_date_str-IsKey (e.localtime t))
                    (get_date_str-IsKey (e.localtime (e.clock w.reads)))
                    (get_date_str-IsField (e.localtime t))
                    (get_date_str-IsField (e.localtime (e.clock w.reads))) q)))
            ∙ sym (get_shopid_lem user_id' w))
      ]

-- A user seen in a shop at a time.
pub record Sighting : Type 0 where
  pub user_id : ℤ
  pub shop_id : ℤ
  pub seen_at : ℤ

-- Every shop number fits an `int`.
abbrev pub AllFit : List Sighting → Type 0
AllFit [] = Unit {0}
AllFit (a ∷ seen) = (in_range int_min int_max a.shop_id ≡ true) × AllFit seen

module _ (e : Env) where
  -- The calls for these users, one after the other.
  unfoldable pub update_all : List Sighting → World e → World e
  update_all [] w = w
  update_all (a ∷ seen) w =
      update_all seen (update_shopid_of_user_location e a.user_id a.shop_id a.seen_at w).1

  -- The shop of the last of them for the user on the date, or else `before`.
  unfoldable pub last_shop : Bytes → ℤ → List Sighting → Outcome ℤ → Outcome ℤ
  last_shop date id [] before = before
  last_shop date id (a ∷ seen) before =
      last_shop date id seen (
        if bytes_eq (date_of e a.seen_at) date && eqb_ℤ a.user_id id
        then done a.shop_id
        else before)

-- After any sequence of calls of `update_shopid_of_user_location` with shop numbers that fit an
-- `int`, `get_shopid_of_user_location` gives the shop of the last of them that was for the same user
-- at a time with the date that the clock shows, or what it gave before the sequence if there is none,
-- on a memory database that keeps its contract.
pub get_shopid-update_all :
    (e : Env) (s : IsStore e.d e.m) (user_id : ℤ) (seen : List Sighting) (w : World e)
    → AllFit seen
    → (get_shopid_of_user_location e user_id (update_all e seen w)).0
      ≡ last_shop e
          (date_of e (e.clock w.reads))
          user_id
          seen
          (get_shopid_of_user_location e user_id w).0
unfolding update_all last_shop update_shopid_of_user_location
get_shopid-update_all e s user_id [] w h = refl
get_shopid-update_all e s user_id (a ∷ seen) w h =
    let w' = (update_shopid_of_user_location e a.user_id a.shop_id a.seen_at w).1 in
    get_shopid-update_all e s user_id seen w' h.1
    ∙ ap (last_shop e (date_of e (e.clock w.reads)) user_id seen)
        (get_shopid-update_shopid e s a.user_id user_id a.shop_id a.seen_at w h.0)
