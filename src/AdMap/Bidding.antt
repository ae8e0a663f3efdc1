-- ===== src/AdMap/Bidding.antt =====
-- ad_map.cpp: `bidding` and `ad_request`.
pub mod Returns
pub mod Total
pub mod Accepted
pub mod Ranked
pub mod Considered
use simple_dsp.Base.{ℕ, Bool, not, List, [], ◌∷◌, ℤ, pos, negsuc, ltb_ℤ, if◌then◌else◌}
use simple_dsp.Text.{Bytes, codes}
use simple_dsp.Prog.{Prog, pure, ◌>>=◌, ◌>>◌}
use simple_dsp.World.{Env, World}
use simple_dsp.UserMap.Position.{UserPosition, user_query}
use simple_dsp.UserMap.Identity.{is_empty}
use simple_dsp.AdMap.Sets.{set_intersection}
use simple_dsp.AdMap.Filters.{
  get_ad_group_set_of_space, get_ad_group_set_of_location, user_labels, passes,
}
use simple_dsp.AdMap.Ecpm.{get_e_cpm}
use simple_dsp.AdMap.Slots.{Slot, empty_slots, place}
use simple_dsp.AdMap.Charge.{Ad, get_ad, increase_ad_time, charge_ad}

-- The members `ad` and `result` of the JSON reply.
pub record Reply : Type 0 where
  pub ads : List Ad
  pub result : Bytes

module _ (e : Env) where
  -- `ad_group_list`
  unfoldable pub candidates : UserPosition e.d.W → ℤ → ℤ → ℤ → Prog (World e) (List ℤ)
  candidates p user_id space_id mall_id = do
    of_space ← get_ad_group_set_of_space e mall_id space_id
    if ltb_ℤ (pos 0) user_id
        then (do
          of_location ← get_ad_group_set_of_location e mall_id p
          pure (set_intersection of_space of_location))
        else pure of_space

  -- The bid of a group, entered in the arrays.
  unfoldable pub bid : ℕ → ℤ → ℤ → List (Slot e.d.W) → Prog (World e) (List (Slot e.d.W))
  bid n mall_id group_id slots = do
    (ecpm, next_ad) ← get_e_cpm e mall_id group_id (negsuc 0)
    pure (place e.d n slots (record { ecpm = ecpm; group = group_id; next_ad = next_ad }))

  -- The loop over the groups.
  unfoldable pub bid_all :
      ℕ → ℤ → ℤ → List Bytes → List ℤ → List (Slot e.d.W) → Prog (World e) (List (Slot e.d.W))
  bid_all n mall_id user_id labels [] slots = pure slots
  bid_all n mall_id user_id labels (g ∷ groups) slots = do
    ok ← passes e mall_id user_id labels g
    if ok
        then (do slots' ← bid n mall_id g slots; bid_all n mall_id user_id labels groups slots')
        else bid_all n mall_id user_id labels groups slots

  -- `highest_eCPM_list[i] != 0`
  unfoldable pub is_taken : Slot e.d.W → Bool
  is_taken s = not (e.d.eq s.ecpm (e.d.of_int (pos 0)))

  unfoldable pub show_ad : ℤ → Slot e.d.W → Prog (World e) Ad
  show_ad mall_id s = do
    ad ← get_ad e mall_id s.group s.next_ad
    increase_ad_time e mall_id s.next_ad (codes "show")
    charge_ad e mall_id s.next_ad s.group (codes "show")
    pure ad

  -- The loop over the arrays, up to the first entry that is not taken.
  unfoldable pub show_all : ℤ → List (Slot e.d.W) → Prog (World e) (List Ad)
  show_all mall_id [] = pure []
  show_all mall_id (s ∷ slots) =
      if is_taken s
      then (do ad ← show_ad mall_id s; ads ← show_all mall_id slots; pure (ad ∷ ads))
      else pure []

  unfoldable pub reply_of : List Ad → Reply
  reply_of ads = record {
    ads = ads;
    result = if is_empty ads then codes "no valid ad" else codes "ok";
  }

  unfoldable pub bidding : UserPosition e.d.W → ℤ → ℤ → ℤ → ℕ → Prog (World e) Reply
  bidding p user_id space_id mall_id n = do
    groups ← candidates p user_id space_id mall_id
    labels ← user_labels e user_id
    slots ← bid_all n mall_id user_id labels groups (empty_slots e.d n)
    ads ← show_all mall_id slots
    pure (reply_of ads)

  -- The reply, and the value that is returned.
  unfoldable pub ad_request : ℕ → ℤ → ℤ → ℤ → ℕ → Prog (World e) (Reply × ℤ)
  ad_request mac user_id space_id mall_id n = do
    p ← user_query e mac mall_id
    ret ← bidding p user_id space_id mall_id n
    pure (ret, negsuc 0)
