-- ===== src/AdMap/Slots/Best.antt =====
-- The arrays of `bidding` in ad_map.cpp against insertion into a falling list.
use mathlib.Core.List.{Perm, perm_middle}
use mathlib.Core.List.Perm
use simple_dsp.Base.{
  ℕ, zero, suc, ◌≤◌, ◌≡◌, refl, ap, ◌∙◌, sym, inl, inr, true, List, [], ◌∷◌, ◌++◌, length,
  replicate, length-replicate, take, arith, Bool-cases, append-nil, subst, pos,
}
use simple_dsp.Store.{Double}
use simple_dsp.Store.Order.{IsOrdered}
use simple_dsp.AdMap.Slots.{Slot, empty_slot, empty_slots, place, place_from}
use simple_dsp.AdMap.Slots.Reversed.{rev, rev-rev, length-rev}
use simple_dsp.AdMap.Slots.Loop.{place-insert_back}
use simple_dsp.AdMap.Slots.Falling.{insert, AllSlots, AtMost, IsNumber, Falling, rev-insert_back}

module _ (d : Double) where
  -- The bids entered one after the other.
  unfoldable pub place_all : ℕ → List (Slot d.W) → List (Slot d.W) → List (Slot d.W)
  place_all n slots [] = slots
  place_all n slots (s ∷ bids) = place_all n (place d n slots s) bids

  -- The same without a bound on the length.
  unfoldable pub insert_all : List (Slot d.W) → List (Slot d.W) → List (Slot d.W)
  insert_all [] l = l
  insert_all (s ∷ bids) l = insert_all bids (insert d s l)

  take-insert :
      (n : ℕ) (s : Slot d.W) (l : List (Slot d.W))
      → take n (insert d s (take n l)) ≡ take n (insert d s l)
  unfolding insert
  take-insert zero s l = refl
  take-insert (suc n) s [] = refl
  take-insert (suc n) s (x ∷ l) = elim (Bool-cases (d.lt x.ecpm s.ecpm)) [
    | inl less ↦ rw less (ap (◌∷◌ s) (take_again n x l))
    | inr more ↦ rw more (ap (◌∷◌ x) (take-insert n s l))
  ]
    where
      take_again :
          (n : ℕ) (x : Slot d.W) (l : List (Slot d.W)) → take n (x ∷ take n l) ≡ take n (x ∷ l)
      take_again zero x l = refl
      take_again (suc zero) x l = refl
      take_again (suc (suc n)) x [] = refl
      take_again (suc (suc n)) x (y ∷ l) = ap (◌∷◌ x) (take_again (suc n) y l)

  AllSlots-take :
      (P : Slot d.W → Type 0) (n : ℕ) (l : List (Slot d.W))
      → AllSlots d P l
      → AllSlots d P (take n l)
  AllSlots-take P zero l h = tt
  AllSlots-take P (suc n) [] h = tt
  AllSlots-take P (suc n) (x ∷ l) h = (h.0, AllSlots-take P n l h.1)

  Falling-take : (n : ℕ) (l : List (Slot d.W)) → Falling d l → Falling d (take n l)
  Falling-take zero l h = tt
  Falling-take (suc n) [] h = tt
  Falling-take (suc n) (x ∷ l) h = (h.0, AllSlots-take _ n l h.1, Falling-take n l h.2)

  length-take_le : (n : ℕ) (l : List (Slot d.W)) → n ≤ length l → length (take n l) ≡ n
  length-take_le zero l h = refl
  length-take_le (suc n) [] h = absurd (omega arith)
  length-take_le (suc n) (x ∷ l) h = ap suc (length-take_le n l (omega arith))

  length-insert : (s : Slot d.W) (l : List (Slot d.W)) → length (insert d s l) ≡ suc (length l)
  unfolding insert
  length-insert s [] = refl
  length-insert s (x ∷ l) = ground (arith, length-insert s l)

  AllSlots-insert :
      (P : Slot d.W → Type 0) (s : Slot d.W) (l : List (Slot d.W))
      → P s
      → AllSlots d P l
      → AllSlots d P (insert d s l)
  unfolding insert
  AllSlots-insert P s [] p h = (p, tt)
  AllSlots-insert P s (x ∷ l) p h = elim (Bool-cases (d.lt x.ecpm s.ecpm)) [
    | inl less ↦ rw less (p, h)
    | inr more ↦ rw more (h.0, AllSlots-insert P s l p h.1)
  ]

  insert-perm : (s : Slot d.W) (l : List (Slot d.W)) → Perm (insert d s l) (s ∷ l)
  unfolding insert
  insert-perm s [] = Perm.refl _
  insert-perm s (x ∷ l) = elim (Bool-cases (d.lt x.ecpm s.ecpm)) [
    | inl less ↦ rw less (Perm.refl _)
    | inr more ↦ rw more (Perm.trans (Perm.cons x (insert-perm s l)) (Perm.swap s x l))
  ]

  module _ (o : IsOrdered d) where
    AtMost-below :
        (s x : Slot d.W) (l : List (Slot d.W))
        → d.le x.ecpm s.ecpm ≡ true
        → AllSlots d (AtMost d x) l
        → AllSlots d (AtMost d s) l
    AtMost-below s x [] e h = tt
    AtMost-below s x (y ∷ l) e h = (o.le_trans y.ecpm x.ecpm s.ecpm h.0 e, AtMost-below s x l e h.1)

    Falling-insert :
        (s : Slot d.W) (l : List (Slot d.W)) → IsNumber d s → Falling d l → Falling d (insert d s l)
    unfolding insert
    Falling-insert s [] i f = (i, tt, tt)
    Falling-insert s (x ∷ l) i f = elim (Bool-cases (d.lt x.ecpm s.ecpm)) [
      | inl less ↦
          let e : d.le x.ecpm s.ecpm ≡ true = o.le_of_lt x.ecpm s.ecpm less in
          rw less (i, (e, AtMost-below s x l e f.1), f)
      | inr more ↦ rw more (
        f.0,
        AllSlots-insert (AtMost d x) s l (o.le_of_not_lt x.ecpm s.ecpm f.0 i more) f.1,
        Falling-insert s l i f.2,
      )
    ]

    place-insert-rev :
        (n : ℕ) (rs : List (Slot d.W)) (s : Slot d.W)
        → length rs ≡ n
        → Falling d (rev rs [])
        → place d n (rev rs []) s ≡ take n (insert d s (rev rs []))
    place-insert-rev n [] s e f = rw (← e) (unfold place place_from in refl)
    place-insert-rev n (x ∷ rs) s e f = rw (← e) (
        place-insert_back d x s rs
        ∙ ap (take (suc (length rs))) (rev-insert_back d o s (x ∷ rs) [] f ∙ append-nil _))

    -- One bid.
    pub place-insert :
        (n : ℕ) (slots : List (Slot d.W)) (s : Slot d.W)
        → length slots ≡ n
        → Falling d slots
        → place d n slots s ≡ take n (insert d s slots)
    place-insert n slots s e f =
        let back : rev (rev slots []) [] ≡ slots = rev-rev slots [] [] ∙ append-nil slots in
        let at_rev =
          place-insert-rev n (rev slots []) s (length-rev slots [] ∙ omega (arith, e))
            (subst (Falling d) (sym back) f) in
        subst (λ (l : List (Slot d.W)). place d n l s ≡ take n (insert d s l)) back at_rev

    -- All bids.
    pub place_all-insert_all :
        (n : ℕ) (bids l : List (Slot d.W))
        → n ≤ length l
        → Falling d l
        → AllSlots d (IsNumber d) bids
        → place_all n (take n l) bids ≡ take n (insert_all bids l)
    unfolding place_all insert_all
    place_all-insert_all n [] l h f i = refl
    place_all-insert_all n (s ∷ bids) l h f i =
        ap (λ (m : List (Slot d.W)). place_all n m bids)
          (place-insert n (take n l) s (length-take_le n l h) (Falling-take n l f)
            ∙ take-insert n s l)
        ∙ place_all-insert_all n bids (insert d s l) (omega (arith, length-insert s l))
            (Falling-insert s l i.0 f) i.1

    Falling-insert_all :
        (bids l : List (Slot d.W))
        → Falling d l
        → AllSlots d (IsNumber d) bids
        → Falling d (insert_all bids l)
    unfolding insert_all
    Falling-insert_all [] l f i = f
    Falling-insert_all (s ∷ bids) l f i =
        Falling-insert_all bids (insert d s l) (Falling-insert s l i.0 f) i.1

  insert_all-perm : (bids l : List (Slot d.W)) → Perm (insert_all bids l) (bids ++ l)
  unfolding insert_all
  insert_all-perm [] l = Perm.refl l
  insert_all-perm (s ∷ bids) l =
      Perm.trans (insert_all-perm bids (insert d s l))
        (Perm.trans (Perm.append_left bids (insert-perm s l)) (perm_middle bids l))

  empty_slots-Falling : (o : IsOrdered d) (n : ℕ) → Falling d (empty_slots d n)
  unfolding empty_slots
  empty_slots-Falling o zero = tt
  empty_slots-Falling o (suc n) = (o.number_refl (pos 0), all n, empty_slots-Falling o n)
    where
      all : (n : ℕ) → AllSlots d (AtMost d (empty_slot d)) (replicate n (empty_slot d))
      all zero = tt
      all (suc n) = (o.number_refl (pos 0), all n)

  take-empty_slots : (n : ℕ) → take n (empty_slots d n) ≡ empty_slots d n
  unfolding empty_slots
  take-empty_slots zero = refl
  take-empty_slots (suc n) = ap (◌∷◌ (empty_slot d)) (take-empty_slots n)

  le_length : (n : ℕ) → n ≤ length (empty_slots d n)
  unfolding empty_slots
  le_length n = omega (arith, length-replicate n (empty_slot d))

  -- What the arrays hold after all bids: the head of a ranking.
  pub record IsRanking (n : ℕ) (bids ranking : List (Slot d.W)) : Type 0 where
    pub falling : Falling d ranking
    pub complete : Perm ranking (bids ++ empty_slots d n)

  -- With no bid that is NaN, the arrays of length `n` hold, after all bids, the first `n` entries of a
  -- list in falling order that consists of exactly these bids and the `n` zero entries of the start.
  pub place_all_best :
      (o : IsOrdered d) (n : ℕ) (bids : List (Slot d.W))
      → AllSlots d (IsNumber d) bids
      → (ranking : List (Slot d.W)) × IsRanking n bids ranking
        × (place_all n (empty_slots d n) bids ≡ take n ranking)
  place_all_best o n bids i = (
    insert_all bids (empty_slots d n),
    record {
      falling = Falling-insert_all o bids (empty_slots d n) (empty_slots-Falling o n) i;
      complete = insert_all-perm bids (empty_slots d n);
    },
    ap (λ (l : List (Slot d.W)). place_all n l bids) (sym (take-empty_slots n))
        ∙ place_all-insert_all o n bids (empty_slots d n) (le_length n) (empty_slots-Falling o n) i,
  )
