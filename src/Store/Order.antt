-- ===== src/Store/Order.antt =====
-- What the proofs use of the order of `double`: laws that hold for all values, NaN included. A value
-- that is a number is `<=` itself.
use simple_dsp.Base.{◌≡◌, true, false, ℤ}
use simple_dsp.Store.{Double}

pub record IsOrdered (d : Double) : Type 0 where
  pub le_of_lt : (x y : d.W) → d.lt x y ≡ true → d.le x y ≡ true
  pub refl_of_lt : (x y : d.W) → d.lt x y ≡ true → d.le y y ≡ true
  pub le_of_not_lt :
      (x y : d.W) → d.le x x ≡ true → d.le y y ≡ true → d.lt x y ≡ false → d.le y x ≡ true
  pub lt_of_le_lt : (x y z : d.W) → d.le x y ≡ true → d.lt y z ≡ true → d.lt x z ≡ true
  pub le_trans : (x y z : d.W) → d.le x y ≡ true → d.le y z ≡ true → d.le x z ≡ true
  pub number_refl : (z : ℤ) → d.le (d.of_int z) (d.of_int z) ≡ true
