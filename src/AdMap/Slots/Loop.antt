-- ===== src/AdMap/Slots/Loop.antt =====
-- The inner loop of `bidding` in ad_map.cpp, on arrays seen from their far end.
use simple_dsp.Base.{
  ℕ, suc, ◌+◌, ◌≡◌, refl, ◌∙◌, sym, inl, inr, true, false, List, [], ◌∷◌, ◌==◌, if◌then◌else◌,
  length, take, arith, Bool-cases,
}
use simple_dsp.Store.{Double}
use simple_dsp.AdMap.Slots.{Slot, empty_slot, move_down, place_from, place}
use simple_dsp.AdMap.Slots.Reversed.{
  rev, get_or-rev, set-rev, set-rev-suc, rev-append, length-rev, take_all,
}

module _ (d : Double) where
  -- The same from the other end, on the reversed list.
  unfoldable pub insert_back : Slot d.W → List (Slot d.W) → List (Slot d.W)
  insert_back s [] = s ∷ []
  insert_back s (x ∷ rs) = if d.lt x.ecpm s.ecpm then x ∷ insert_back s rs else s ∷ x ∷ rs

  move_down-rev :
      (n : ℕ) (rs : List (Slot d.W)) (x s : Slot d.W) (zs : List (Slot d.W))
      → (suc (length rs) == n) ≡ false
      → move_down d n (length rs) (rev rs (x ∷ s ∷ zs)) s ≡ rev rs (s ∷ x ∷ zs)
  unfolding move_down
  move_down-rev n rs x s zs e =
      rw (e, get_or-rev rs x (s ∷ zs) (empty_slot d), set-rev-suc rs x s zs x)
        (set-rev rs x (x ∷ zs) s)

  -- The loop, once the new entry stands at the index behind `rs`.
  place_from-rev :
      (n : ℕ) (rs : List (Slot d.W)) (s : Slot d.W) (zs : List (Slot d.W))
      → length rs + 1 + length zs ≡ n
      → place_from d n (length rs) (rev rs (s ∷ zs)) s ≡ rev (insert_back s rs) zs
  unfolding place_from insert_back
  place_from-rev n [] s zs e = refl
  place_from-rev n (x ∷ rs) s zs e = elim (Bool-cases (d.lt x.ecpm s.ecpm)) [
    | inl less ↦
        rw (get_or-rev rs x (s ∷ zs) (empty_slot d), less, move_down-rev n rs x s zs (ground arith))
          (place_from-rev n rs s (x ∷ zs) (omega arith))
    | inr more ↦ rw (get_or-rev rs x (s ∷ zs) (empty_slot d), more) refl
  ]

  move_down-last :
      (rs : List (Slot d.W)) (x s : Slot d.W)
      → move_down d (suc (length rs)) (length rs) (rev rs (x ∷ [])) s ≡ rev rs (s ∷ [])
  unfolding move_down
  move_down-last rs x s =
      let e : (suc (length rs) == suc (length rs)) ≡ true = ground arith in rw e (set-rev rs x [] s)

  length-insert_back :
      (s : Slot d.W) (rs : List (Slot d.W)) → length (insert_back s rs) ≡ suc (length rs)
  unfolding insert_back
  length-insert_back s [] = refl
  length-insert_back s (x ∷ rs) = ground (arith, length-insert_back s rs)

  take-rev :
      (n : ℕ) (rs : List (Slot d.W)) (x : Slot d.W)
      → length rs ≡ n
      → take n (rev rs (x ∷ [])) ≡ rev rs []
  take-rev n rs x e =
      rw (← rev-append rs [] (x ∷ []))
        (take_all n (rev rs []) (x ∷ []) (omega (arith, length-rev rs [])))

  -- The arrays after one bid, whatever they hold.
  pub place-insert_back :
      (x s : Slot d.W) (rs : List (Slot d.W))
      → place d (length (x ∷ rs)) (rev (x ∷ rs) []) s
        ≡ take (length (x ∷ rs)) (rev (insert_back s (x ∷ rs)) [])
  unfolding place place_from insert_back
  place-insert_back x s rs = elim (Bool-cases (d.lt x.ecpm s.ecpm)) [
    | inl less ↦
        rw (get_or-rev rs x [] (empty_slot d), less, move_down-last rs x s)
          (place_from-rev (suc (length rs)) rs s [] (omega arith)
            ∙ sym (take-rev (suc (length rs)) (insert_back s rs) x (length-insert_back s rs)))
    | inr more ↦
        rw (get_or-rev rs x [] (empty_slot d), more)
          (sym (take-rev (suc (length rs)) (x ∷ rs) s refl))
  ]
