-- ===== src/AdMap/Slots.antt =====
-- ad_map.cpp: the arrays `highest_eCPM_list`, `highest_ad_group_list` and `next_ad_list` of `bidding`.
-- They are read and written together, so they are one list of records here.
pub mod Reversed
pub mod Loop
pub mod Falling
pub mod Best
use simple_dsp.Base.{
  ℕ, zero, suc, ◌+◌, ◌≡◌, Bool, true, false, List, [], ◌∷◌, ℤ, pos, ◌==◌, if◌then◌else◌, get_or,
  set, length, replicate,
}
use simple_dsp.Store.{Double}

pub record Slot (W : Type 0) : Type 0 where
  pub ecpm : W
  pub group : ℤ
  pub next_ad : ℤ

module _ (d : Double) where
  -- `new double[n] {}` and its two companions.
  abbrev pub empty_slot : Slot d.W
  empty_slot = record { ecpm = d.of_int (pos 0); group = pos 0; next_ad = pos 0 }

  unfoldable pub empty_slots : ℕ → List (Slot d.W)
  empty_slots n = replicate n empty_slot

  -- The body of the inner loop at the index `j`, where the new entry is larger: entry `j` moves down,
  -- if there is room, and the new one takes its place.
  unfoldable pub move_down : ℕ → ℕ → List (Slot d.W) → Slot d.W → List (Slot d.W)
  move_down n j slots s =
      set (if suc j == n then slots else set slots (suc j) (get_or slots j empty_slot)) j s

  -- The inner loop with `j` rounds left, so at the index `j - 1`.
  unfoldable pub place_from : ℕ → ℕ → List (Slot d.W) → Slot d.W → List (Slot d.W)
  place_from n zero slots s = slots
  place_from n (suc j) slots s =
      let rest = place_from n j (move_down n j slots s) s in
      if d.lt (get_or slots j empty_slot).ecpm s.ecpm then rest else slots

  -- `for (int j = n - 1; j >= 0; --j)`
  unfoldable pub place : ℕ → List (Slot d.W) → Slot d.W → List (Slot d.W)
  place n slots s = place_from n n slots s
