-- ===== src/AdMap/Sets/Sorted.antt =====
-- `std::set_intersection` as ad_map.cpp calls it, on sorted and on other ranges.
use simple_dsp.Base.{
  ◌≡◌, refl, inl, inr, Bool, true, false, ◌&&◌, List, [], ◌∷◌, ℤ, pos_part, neg_part, ◌≤ℤ◌, ltb_ℤ,
  eqb_ℤ, arith, ◌==◌, ◌+◌, Bool-cases, pos, negsuc, eq_of_parts, ◌∙◌,
}
use simple_dsp.AdMap.Sets.{set_intersection, listed}

abbrev pub AllInts : (ℤ → Type 0) → List ℤ → Type 0
AllInts P [] = Unit {0}
AllInts P (x ∷ xs) = P x × AllInts P xs

-- Sorted, as `std::set_intersection` asks.
abbrev pub Rising : List ℤ → Type 0
Rising [] = Unit {0}
Rising (x ∷ xs) = AllInts (λ y. x ≤ℤ y) xs × Rising xs

eqb_ℤ-parts : (a b : ℤ) → eqb_ℤ a b ≡ (pos_part a + neg_part b == pos_part b + neg_part a)
eqb_ℤ-parts (pos a) (pos b) = ground arith
eqb_ℤ-parts (pos a) (negsuc b) = ground arith
eqb_ℤ-parts (negsuc a) (pos b) = ground arith
eqb_ℤ-parts (negsuc a) (negsuc b) = ground arith

-- Nothing below the first of a sorted range is in it.
not_listed :
    (z x : ℤ) (xs : List ℤ) → ltb_ℤ z x ≡ true → AllInts (λ y. x ≤ℤ y) xs → listed z xs ≡ false
unfolding listed
not_listed z x [] h a = refl
not_listed z x (y ∷ xs) h a = ground (arith, eqb_ℤ-parts z y, not_listed z x xs h a.1)

-- A range that begins above `x` does not hold `x`.
not_listed_above :
    (z x y : ℤ) (ys : List ℤ)
    → ltb_ℤ x y ≡ true
    → AllInts (λ w. y ≤ℤ w) ys
    → eqb_ℤ z x ≡ true
    → listed z (y ∷ ys) ≡ false
not_listed_above z x y ys h a e =
    not_listed z y (y ∷ ys) (ground (arith, eqb_ℤ-parts z x)) (omega arith, a)

skip_left :
    (z x : ℤ) (xs : List ℤ) (b : Bool)
    → (eqb_ℤ z x ≡ true → b ≡ false)
    → (listed z xs && b) ≡ (listed z (x ∷ xs) && b)
unfolding listed
skip_left z x xs b f = elim (Bool-cases (eqb_ℤ z x)) [
  | inl same ↦ rw (same, f same) (ground arith)
  | inr other ↦ rw other refl
]

skip_right :
    (z y : ℤ) (ys : List ℤ) (b : Bool)
    → (eqb_ℤ z y ≡ true → b ≡ false)
    → (b && listed z ys) ≡ (b && listed z (y ∷ ys))
unfolding listed
skip_right z y ys b f = elim (Bool-cases (eqb_ℤ z y)) [
  | inl same ↦ rw (same, f same) refl
  | inr other ↦ rw other refl
]

eq_of_neither : (x y : ℤ) → ltb_ℤ x y ≡ false → ltb_ℤ y x ≡ false → x ≡ y
eq_of_neither x y h k = eq_of_parts x y (ground arith)

take_both :
    (z x : ℤ) (xs ys zs : List ℤ)
    → listed z zs ≡ (listed z xs && listed z ys)
    → listed z (x ∷ zs) ≡ (listed z (x ∷ xs) && listed z (x ∷ ys))
unfolding listed
take_both z x xs ys zs h = ground arith

-- An id is in the intersection of two sorted ranges exactly if it is in both.
pub listed-set_intersection :
    (z : ℤ) (xs ys : List ℤ)
    → Rising xs
    → Rising ys
    → listed z (set_intersection xs ys) ≡ (listed z xs && listed z ys)
unfolding set_intersection
listed-set_intersection z [] ys rx ry = unfold listed in refl
listed-set_intersection z (x ∷ xs) [] rx ry = unfold listed in ground arith
listed-set_intersection z (x ∷ xs) (y ∷ ys) rx ry = elim (Bool-cases (ltb_ℤ x y)) [
  | inl below ↦ rw below (
      listed-set_intersection z xs (y ∷ ys) rx.1 ry
      ∙ skip_left z x xs (listed z (y ∷ ys)) (not_listed_above z x y ys below ry.0))
  | inr not_below ↦ elim (Bool-cases (ltb_ℤ y x)) [
    | inl above ↦
        rw (not_below, above)
          (listed-set_intersection z (x ∷ xs) ys rx ry.1
            ∙ skip_right z y ys (listed z (x ∷ xs)) (not_listed_above z y x xs above rx.0))
    | inr not_above ↦
        rw (not_below, not_above, ← eq_of_neither x y not_below not_above)
          (take_both z x xs ys (set_intersection xs ys) (listed-set_intersection z xs ys rx.1 ry.1))
  ]
]

-- Where the first range begins with an id above all ids of the second, nothing is found, whatever
-- follows it.
pub set_intersection_head_above :
    (x : ℤ) (xs ys : List ℤ)
    → AllInts (λ y. ltb_ℤ y x ≡ true) ys
    → set_intersection (x ∷ xs) ys ≡ []
unfolding set_intersection
set_intersection_head_above x xs [] h = refl
set_intersection_head_above x xs (y ∷ ys) h =
    ground (arith, h.0, set_intersection_head_above x xs ys h.1)
