-- ===== src/AdMap/Slots/Falling.antt =====
-- Entries in falling order of their bids.
use simple_dsp.Base.{
  ◌≡◌, refl, ap, sym, inl, inr, true, false, List, [], ◌∷◌, ◌++◌, if◌then◌else◌, Bool-cases,
  append_assoc,
}
use simple_dsp.Store.{Double}
use simple_dsp.Store.Order.{IsOrdered}
use simple_dsp.AdMap.Slots.{Slot}
use simple_dsp.AdMap.Slots.Reversed.{rev, rev-append}
use simple_dsp.AdMap.Slots.Loop.{insert_back}

module _ (d : Double) where
  -- Behind every entry that is not smaller.
  unfoldable pub insert : Slot d.W → List (Slot d.W) → List (Slot d.W)
  insert s [] = s ∷ []
  insert s (x ∷ xs) = if d.lt x.ecpm s.ecpm then s ∷ x ∷ xs else x ∷ insert s xs

  -- Every later entry is a number that is no larger.
  abbrev pub AllSlots : (Slot d.W → Type 0) → List (Slot d.W) → Type 0
  AllSlots P [] = Unit {0}
  AllSlots P (x ∷ xs) = P x × AllSlots P xs

  abbrev pub AtMost : Slot d.W → Slot d.W → Type 0
  AtMost x y = d.le y.ecpm x.ecpm ≡ true

  abbrev pub IsNumber : Slot d.W → Type 0
  IsNumber x = d.le x.ecpm x.ecpm ≡ true

  abbrev pub Falling : List (Slot d.W) → Type 0
  Falling [] = Unit {0}
  Falling (x ∷ xs) = IsNumber x × AllSlots (AtMost x) xs × Falling xs

  insert-append_lt :
      (s x : Slot d.W) (l : List (Slot d.W))
      → d.lt x.ecpm s.ecpm ≡ true
      → insert s (l ++ x ∷ []) ≡ insert s l ++ x ∷ []
  unfolding insert
  insert-append_lt s x [] h = rw h refl
  insert-append_lt s x (y ∷ l) h = elim (Bool-cases (d.lt y.ecpm s.ecpm)) [
    | inl less ↦ rw less refl
    | inr more ↦ rw more (ap (◌∷◌ y) (insert-append_lt s x l h))
  ]

  insert_last :
      (s : Slot d.W) (l : List (Slot d.W))
      → AllSlots (λ y. d.lt y.ecpm s.ecpm ≡ false) l
      → insert s l ≡ l ++ s ∷ []
  unfolding insert
  insert_last s [] h = refl
  insert_last s (y ∷ l) h = rw h.0 (ap (◌∷◌ y) (insert_last s l h.1))

  Falling-append_left : (l m : List (Slot d.W)) → Falling (l ++ m) → Falling l
  Falling-append_left [] m h = tt
  Falling-append_left (x ∷ l) m h = (h.0, part l m h.1, Falling-append_left l m h.2)
    where
      part : (l m : List (Slot d.W)) → AllSlots (AtMost x) (l ++ m) → AllSlots (AtMost x) l
      part [] m h = tt
      part (y ∷ l) m h = (h.0, part l m h.1)

  AllSlots-last :
      (P : Slot d.W → Type 0) (l : List (Slot d.W)) (x : Slot d.W) → AllSlots P (l ++ x ∷ []) → P x
  AllSlots-last P [] x h = h.0
  AllSlots-last P (y ∷ l) x h = AllSlots-last P l x h.1

  Falling-above :
      (l : List (Slot d.W)) (x : Slot d.W) → Falling (l ++ x ∷ []) → AllSlots (λ y. AtMost y x) l
  Falling-above [] x h = tt
  Falling-above (y ∷ l) x h = (AllSlots-last (AtMost y) l x h.1, Falling-above l x h.2)

  module _ (o : IsOrdered d) where
    not_less_above :
        (s x : Slot d.W) (l : List (Slot d.W))
        → d.lt x.ecpm s.ecpm ≡ false
        → AllSlots (λ y. AtMost y x) l
        → AllSlots (λ y. d.lt y.ecpm s.ecpm ≡ false) (l ++ x ∷ [])
    not_less_above s x [] h above = (h, tt)
    not_less_above s x (y ∷ l) h above = (
      elim (Bool-cases (d.lt y.ecpm s.ecpm)) [
        | inl less ↦ cc (o.lt_of_le_lt x.ecpm y.ecpm s.ecpm above.0 less)
        | inr more ↦ more
      ],
      not_less_above s x l h above.1,
    )

    -- In a falling list both ends lead to the same place.
    pub rev-insert_back :
        (s : Slot d.W) (rs zs : List (Slot d.W))
        → Falling (rev rs [])
        → rev (insert_back d s rs) zs ≡ insert s (rev rs []) ++ zs
    unfolding insert_back
    rev-insert_back s [] zs f = unfold insert in refl
    rev-insert_back s (x ∷ rs) zs f = elim (Bool-cases (d.lt x.ecpm s.ecpm)) [
      | inl less ↦
          rw
            (
              less,
              rev-insert_back s rs (x ∷ zs) (Falling-append_left _ (x ∷ []) f'),
              ← rev-append rs [] (x ∷ []),
              insert-append_lt s x (rev rs []) less,
            )
            (sym (append_assoc (insert s (rev rs [])) (x ∷ []) zs))
      | inr more ↦
          rw
            (
              more,
              ← rev-append rs [] (x ∷ []),
              insert_last s (rev rs [] ++ x ∷ [])
                  (not_less_above s x (rev rs []) more (Falling-above (rev rs []) x f')),
            )
            (simp rev-append)
    ]
      where
        f' : Falling (rev rs [] ++ x ∷ [])
        f' = rw (rev-append rs [] (x ∷ [])) f
