-- ===== src/AdMap/Sets/Common.antt =====
-- `check_intersection` of tair_common.h against membership in both lists.
use mathlib.Core.Logic.{◌↔◌, ∥∥₁_elim, ∥∥₁_map}
use mathlib.Core.Logic.Or
use mathlib.Core.List.{Mem, mem-cons, mem-cons_self, mem-cons_of_mem, not-mem-nil}
use simple_dsp.Base.{◌≡◌, inl, inr, Bool, true, List, [], ◌∷◌, arith, Bool-cases, sym}
use simple_dsp.Text.{Bytes, bytes_eq, bytes_eq_iff}
use simple_dsp.AdMap.Sets.{marked, check_intersection}

marked-mem : (set1 : List Bytes) (s : Bytes) → marked set1 s ≡ true → Mem s set1
unfolding marked
marked-mem [] s h = cc
marked-mem (x ∷ xs) s h = elim (Bool-cases (bytes_eq x s)) [
  | inl same ↦ mem-cons.1 (Or.inl (sym ((bytes_eq_iff x s).0 same)))
  | inr other ↦ mem-cons.1 (Or.inr (marked-mem xs s (ground arith)))
]

Bool_prop : (b : Bool) → IsProp (b ≡ true)
Bool_prop b = hlevel

mem-marked : (set1 : List Bytes) (s : Bytes) → Mem s set1 → marked set1 s ≡ true
unfolding marked
mem-marked [] s m = absurd (not-mem-nil m)
mem-marked (x ∷ xs) s m =
    Or.elim (Bool_prop _) (mem-cons.0 m) (λ e. ground (arith, (bytes_eq_iff x s).1 (sym e)))
      (λ r. ground (arith, mem-marked xs s r))

common_of_test :
    (set1 ys : List Bytes)
    → check_intersection set1 ys ≡ true
    → ∥ ((s : Bytes) × Mem s set1 × Mem s ys) ∥₁
unfolding check_intersection
common_of_test set1 [] h = cc
common_of_test set1 (y ∷ ys) h = elim (Bool-cases (marked set1 y)) [
  | inl here ↦ ∣ (y, marked-mem set1 y here, mem-cons_self) ∣₁
  | inr there ↦
      ∥∥₁_map (common_of_test set1 ys (ground arith)) (λ c. (c.0, c.1, mem-cons_of_mem y c.2))
]

test_of_common :
    (set1 ys : List Bytes) (s : Bytes) → Mem s set1 → Mem s ys → check_intersection set1 ys ≡ true
unfolding check_intersection
test_of_common set1 [] s m n = absurd (not-mem-nil n)
test_of_common set1 (y ∷ ys) s m n =
    Or.elim (Bool_prop _) (mem-cons.0 n) (λ e. rw (← e) (rw (mem-marked set1 s m)))
      (λ r. ground (arith, test_of_common set1 ys s m r))

-- `check_intersection` holds exactly if some text is in both lists.
pub check_intersection_iff :
    (set1 set2 : List Bytes)
    → (check_intersection set1 set2 ≡ true) ↔ ∥ ((s : Bytes) × Mem s set1 × Mem s set2) ∥₁
check_intersection_iff set1 set2 = (
  common_of_test set1 set2,
  λ t. ∥∥₁_elim t (Bool_prop _) (λ c. test_of_common set1 set2 c.0 c.1 c.2),
)
