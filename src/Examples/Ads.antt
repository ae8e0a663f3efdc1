-- ===== src/Examples/Ads.antt =====
-- Runs of the bidding.
use simple_dsp.Base.{◌≡◌, refl, ℤ, pos, List, [], ◌∷◌, take, arith}
use simple_dsp.Store.Order.{IsOrdered}
use simple_dsp.AdMap.Slots.{Slot, empty_slots}
use simple_dsp.AdMap.Slots.Best.{place_all, IsRanking, place_all_best}
use simple_dsp.Examples.Memory.{whole}

pub whole-IsOrdered : IsOrdered whole
whole-IsOrdered = record {
  le_of_lt = λ x y h. ground arith;
  refl_of_lt = λ x y h. ground arith;
  le_of_not_lt = λ x y h k n. ground arith;
  lt_of_le_lt = λ x y z h k. ground arith;
  le_trans = λ x y z h k. ground arith;
  number_refl = λ z. ground arith;
}

abbrev bids : List (Slot ℤ)
bids =
    record { ecpm = pos 3; group = pos 1; next_ad = pos 11 }
    ∷ record { ecpm = pos 5; group = pos 2; next_ad = pos 12 }
    ∷ record { ecpm = pos 4; group = pos 3; next_ad = pos 13 }
    ∷ []

place_all_best_example :
    (ranking : List (Slot ℤ)) × IsRanking whole 2 bids ranking
    × (place_all whole 2 (empty_slots whole 2) bids ≡ take 2 ranking)
place_all_best_example = place_all_best whole whole-IsOrdered 2 bids (refl, (refl, (refl, tt)))
