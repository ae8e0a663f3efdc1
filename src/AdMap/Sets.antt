-- ===== src/AdMap/Sets.antt =====
-- The sets of ad_map.cpp: `std::set_intersection` as `bidding` calls it, and `check_intersection` of
-- tair_common.h.
pub mod Sorted
pub mod Common
use simple_dsp.Base.{ℕ, ◌≡◌, Bool, true, false, ◌||◌, List, [], ◌∷◌, ℤ, ltb_ℤ, eqb_ℤ, if◌then◌else◌}
use simple_dsp.Text.{Bytes, bytes_eq}

-- `for (it …) if (z == *it) return true;`, as `check_market_shop` looks for a shop.
unfoldable pub listed : ℤ → List ℤ → Bool
listed z [] = false
listed z (x ∷ xs) = if eqb_ℤ z x then true else listed z xs

-- One pass over both ranges. The one with the smaller head moves on.
unfoldable pub set_intersection : List ℤ → List ℤ → List ℤ
set_intersection [] ys = []
set_intersection (x ∷ xs) [] = []
set_intersection (x ∷ xs) (y ∷ ys) =
    let left = set_intersection xs (y ∷ ys) in
    let right = set_intersection (x ∷ xs) ys in
    let both = x ∷ set_intersection xs ys in
    if ltb_ℤ x y then left else if ltb_ℤ y x then right else both

-- `mark.find(s) != mark.end()`
unfoldable pub marked : List Bytes → Bytes → Bool
marked [] s = false
marked (x ∷ xs) s = bytes_eq x s || marked xs s

unfoldable pub check_intersection : List Bytes → List Bytes → Bool
check_intersection set1 [] = false
check_intersection set1 (s ∷ set2) = if marked set1 s then true else check_intersection set1 set2
