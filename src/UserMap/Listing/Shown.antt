-- ===== src/UserMap/Listing/Shown.antt =====
-- user_map.cpp: which users `user_list` writes out.
use simple_dsp.Base.{
  ℕ, zero, suc, ◌≡◌, refl, ap, ◌^◌, true, false, List, [], ◌∷◌, ◌++◌, some, ltb, if◌then◌else◌, map,
  length, take, arith, pos,
}
use simple_dsp.Text.{show_nat, show_int, scan_int}
use simple_dsp.Text.Decimal.{scan_int-show_int}
use simple_dsp.UserMap.Listing.{user, and_more, list_items, ull_of}

-- Every address fits 64 bits.
abbrev pub AllFit : List ℕ → Type 0
AllFit [] = Unit {0}
AllFit (n ∷ ns) = (ltb n (2 ^ 64) ≡ true) × AllFit ns

shown : (n : ℕ) → ltb n (2 ^ 64) ≡ true → ull_of (scan_int (show_nat n)) ≡ some n
unfolding show_int
shown n h = rw (scan_int-show_int (pos n), h) refl

-- A list of MAC addresses that were stored in decimal is written out in its order, up to `room`
-- addresses, and one more entry says that there are others exactly where there are.
pub list_items-show_nat :
    (room : ℕ) (macs : List ℕ)
    → AllFit macs
    → list_items room (map show_nat macs)
      ≡ map (λ n. user (some n)) (take room macs)
        ++ (if ltb room (length macs) then and_more ∷ [] else [])
unfolding list_items
list_items-show_nat zero [] h = refl
list_items-show_nat (suc room) [] h =
    let none_left : ltb (suc room) 0 ≡ false = ground arith in rw none_left refl
list_items-show_nat zero (n ∷ ns) h = ground arith
list_items-show_nat (suc room) (n ∷ ns) h =
    let same : ltb (suc room) (suc (length ns)) ≡ ltb room (length ns) = ground arith in
    rw (shown n h.0, same) (ap (λ l. user (some n) ∷ l) (list_items-show_nat room ns h.1))
