-- ===== src/AdMap/Bidding/Considered.antt =====
-- ad_map.cpp: the groups that `bidding` considers, by the sorted sets of the space and of the place.
use simple_dsp.Base.{
  ℕ, zero, suc, ◌≡◌, refl, ap, ◌∙◌, inl, inr, true, false, not, ◌&&◌, ◌||◌, List, [], ◌∷◌, ℤ, pos,
  ltb_ℤ, Bool-cases, arith,
}
use simple_dsp.Text.{codes}
use simple_dsp.Prog.{done}
use simple_dsp.World.{Env, World}
use simple_dsp.UserMap.Position.{UserPosition}
use simple_dsp.AdMap.Sets.{set_intersection, listed}
use simple_dsp.AdMap.Sets.Sorted.{
  AllInts, Rising, listed-set_intersection, set_intersection_head_above,
}
use simple_dsp.AdMap.Filters.{get_ad_group_set_of_space, get_ad_group_set_of_location, user_labels}
use simple_dsp.AdMap.Slots.{empty_slots}
use simple_dsp.AdMap.Bidding.{candidates, bid_all, is_taken, show_all, reply_of, bidding}
use simple_dsp.AdMap.Bidding.Total.{Total-user_labels}

module _ (e : Env) where
  -- The database gives these groups for the space and for the place of a user, one after the other.
  pub record Finds (p : UserPosition e.d.W) (space mall : ℤ) (w : World e) (here there : List ℤ)
      : Type 0 where
    pub here_lem : (get_ad_group_set_of_space e mall space w).0 ≡ done here
    pub there_lem :
        (get_ad_group_set_of_location e mall p (get_ad_group_set_of_space e mall space w).1).0
        ≡ done there

  candidates_user :
      (p : UserPosition e.d.W) (id space mall : ℤ) (w : World e) (here there : List ℤ)
      → Finds p space mall w here there
      → ltb_ℤ (pos 0) id ≡ true
      → (candidates e p id space mall w).0 ≡ done (set_intersection here there)
  unfolding candidates
  candidates_user p id space mall w here there f h = rw (f.here_lem, h, f.there_lem) refl

  candidates_nobody :
      (p : UserPosition e.d.W) (id space mall : ℤ) (w : World e) (here there : List ℤ)
      → Finds p space mall w here there
      → ltb_ℤ (pos 0) id ≡ false
      → (candidates e p id space mall w).0 ≡ done here
  unfolding candidates
  candidates_nobody p id space mall w here there f h = rw (f.here_lem, h) refl

  -- Where the database gives both sets of groups in the order of their ids, `bidding` considers a group
  -- exactly if it belongs to the space and, for a known user, to the user's place too.
  pub candidates-listed :
      (p : UserPosition e.d.W) (id space mall : ℤ) (w : World e) (here there : List ℤ)
      → Finds p space mall w here there
      → Rising here
      → Rising there
      → (groups : List ℤ) × ((candidates e p id space mall w).0 ≡ done groups)
        × ((z : ℤ)
            → listed z groups ≡ (listed z here && (not (ltb_ℤ (pos 0) id) || listed z there)))
  candidates-listed p id space mall w here there f r s = elim (Bool-cases (ltb_ℤ (pos 0) id)) [
    | inl known ↦ (
      set_intersection here there,
      candidates_user p id space mall w here there f known,
      λ z. rw known (listed-set_intersection z here there r s),
    )
    | inr nobody ↦ (
      here,
      candidates_nobody p id space mall w here there f nobody,
      λ z. rw nobody (ground arith),
    )
  ]

  show_all-empty :
      (mall : ℤ) (n : ℕ) (w : World e)
      → e.d.eq (e.d.of_int (pos 0)) (e.d.of_int (pos 0)) ≡ true
      → show_all e mall (empty_slots e.d n) w ≡ (done [], w)
  unfolding show_all empty_slots is_taken
  show_all-empty mall zero w h = refl
  show_all-empty mall (suc n) w h = rw h refl

  -- Where the database gives the sets in another order, groups are missed: for a known user, if the
  -- first group of the space has an id above those of all groups of the user's place, `bidding` replies
  -- that there is no valid advertisement, whatever the other groups of the space are.
  pub bidding-head_above :
      (p : UserPosition e.d.W) (id space mall : ℤ) (n : ℕ) (w : World e) (x : ℤ)
      (here there : List ℤ)
      → e.d.eq (e.d.of_int (pos 0)) (e.d.of_int (pos 0)) ≡ true
      → Finds p space mall w (x ∷ here) there
      → ltb_ℤ (pos 0) id ≡ true
      → AllInts (λ y. ltb_ℤ y x ≡ true) there
      → (bidding e p id space mall n w).0 ≡ done (record { ads = []; result = codes "no valid ad" })
  unfolding bidding bid_all reply_of
  bidding-head_above p id space mall n w x here there z f h a =
      let considered =
        candidates_user p id space mall w (x ∷ here) there f h
        ∙ ap done (set_intersection_head_above x here there a) in
      let w1 = (candidates e p id space mall w).1 in
      let (labels, u, q) = (Total-user_labels e id).run w1 in
      rw (considered, q, show_all-empty mall n (user_labels e id w1).1 z) refl
