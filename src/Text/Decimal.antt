-- ===== src/Text/Decimal.antt =====
-- Decimal texts: printing and reading.
use simple_dsp.Base.{
  ℕ, zero, suc, ◌+◌, ◌-◌, ◌*◌, ◌/◌, ◌%◌, ◌≤◌, ◌<◌, ◌≡◌, refl, ap, ◌∙◌, inl, inr, true, false, [],
  ◌∷◌, ◌++◌, append-nil, append_assoc, some, arith, ltb, ◌==◌, ltb→lt, Bool-cases, ℤ, pos, negsuc,
}
use simple_dsp.Text.{
  Bytes, show_fuel, show_nat, show_int, read_digits, scan_nat, scan_signed, scan_int, skip_spaces,
  is_digit, is_space,
}

abbrev pub All {ℓ} : (ℕ → Type ℓ) → Bytes → Type ℓ
All P [] = Unit
All P (c ∷ cs) = P c × All P cs

pub All-append {ℓ} : (P : ℕ → Type ℓ) (x y : Bytes) → All P x → All P y → All P (x ++ y)
All-append P [] y hx hy = hy
All-append P (c ∷ cs) y hx hy = (hx.0, All-append P cs y hx.1 hy)

pub All-mono {ℓ κ} :
    (P : ℕ → Type ℓ) (Q : ℕ → Type κ) (f : (c : ℕ) → P c → Q c) (x : Bytes) → All P x → All Q x
All-mono P Q f [] h = tt
All-mono P Q f (c ∷ cs) h = (f c h.0, All-mono P Q f cs h.1)

is_digit_of : (d : ℕ) → d < 10 → is_digit (48 + d) ≡ true
is_digit_of d h = ground arith

read_digits-digit :
    (a d : ℕ) (rest : Bytes)
    → d < 10
    → read_digits a ((48 + d) ∷ rest) ≡ read_digits (a * 10 + d) rest
unfolding read_digits
read_digits-digit a d rest h =
    let e : a * 10 + (48 + d - 48) ≡ a * 10 + d = omega arith in
    rw (is_digit_of d h) (ap (λ n. read_digits n rest) e)

-- What was printed is read back digit by digit, whatever follows.
read_digits-show_fuel :
    (f n : ℕ) (rest : Bytes) → n < f → read_digits 0 (show_fuel f n ++ rest) ≡ read_digits n rest
unfolding show_fuel
read_digits-show_fuel zero n rest h = absurd (omega arith)
read_digits-show_fuel (suc f) n rest h = elim (Bool-cases (ltb n 10)) [
  | inl small ↦
      rw small (
        read_digits-digit 0 n rest (ltb→lt n 10 small) ∙ ap (λ k. read_digits k rest) (omega arith))
  | inr large ↦
      rw (large, append_assoc)
        (read_digits-show_fuel f (n / 10) ((48 + n % 10) ∷ rest) (ground arith)
          ∙ read_digits-digit (n / 10) (n % 10) rest (omega arith)
          ∙ ap (λ k. read_digits k rest) (omega arith))
]

abbrev pub IsDigit : ℕ → Type 0
IsDigit c = (48 ≤ c) × (c ≤ 57)

show_fuel-All : (f n : ℕ) → All IsDigit (show_fuel f n)
unfolding show_fuel
show_fuel-All zero n = tt
show_fuel-All (suc f) n = elim (Bool-cases (ltb n 10)) [
  | inl small ↦ rw small (let h = ltb→lt n 10 small in omega arith)
  | inr large ↦ rw large (All-append IsDigit _ _ (show_fuel-All f (n / 10)) (omega arith))
]

pub show_nat-digits : (n : ℕ) → All IsDigit (show_nat n)
unfolding show_nat
show_nat-digits n = show_fuel-All (suc n) n

abbrev pub Starts : Bytes → Type 0
Starts x = (c : ℕ) × (cs : Bytes) × (x ≡ c ∷ cs) × IsDigit c

Starts-append : (x y : Bytes) → All IsDigit x → Starts y → Starts (x ++ y)
Starts-append [] y d s = s
Starts-append (c ∷ cs) y d s = (c, cs ++ y, refl, d.0)

-- A printed number begins with a digit.
pub show_nat-Starts : (n : ℕ) → Starts (show_nat n)
unfolding show_nat show_fuel
show_nat-Starts n = elim (Bool-cases (ltb n 10)) [
  | inl small ↦ rw small (48 + n, [], refl, let h = ltb→lt n 10 small in (omega arith, omega arith))
  | inr large ↦ rw large (
      Starts-append (show_fuel n (n / 10)) ((48 + n % 10) ∷ []) (show_fuel-All n (n / 10))
        (48 + n % 10, [], refl, omega arith))
]

-- The same for a whole number.
pub read_digits-printed :
    (n : ℕ) (rest : Bytes) → read_digits 0 (show_nat n ++ rest) ≡ read_digits n rest
unfolding show_nat
read_digits-printed n rest = read_digits-show_fuel (suc n) n rest (omega arith)

read_digits-show_nat : (n : ℕ) → read_digits 0 (show_nat n) ≡ (n, [])
unfolding show_nat read_digits
read_digits-show_nat n =
    rw (← append-nil (show_fuel (suc n) n)) (read_digits-show_fuel (suc n) n [] (omega arith))

pub is_digit-true : (c : ℕ) → IsDigit c → is_digit c ≡ true
is_digit-true c h = ground arith

pub scan_nat-show_nat : (n : ℕ) → scan_nat (show_nat n) ≡ some n
unfolding scan_nat
scan_nat-show_nat n =
    let (c, cs, e, d) = show_nat-Starts n in
    let r : read_digits 0 (c ∷ cs) ≡ (n, []) = rw (← e) (read_digits-show_nat n) in
    rw (e, is_digit-true c d) (ap (λ (p : ℕ × Bytes). some p.0) r)

pub not_space : (c : ℕ) → IsDigit c → is_space c ≡ false
not_space c h = ground arith

pub not_minus : (c : ℕ) → IsDigit c → (c == 45) ≡ false
not_minus c h = ground arith

pub not_plus : (c : ℕ) → IsDigit c → (c == 43) ≡ false
not_plus c h = ground arith

-- `<< z` and then `strtol` give `z` back.
pub scan_int-show_int : (z : ℤ) → scan_int (show_int z) ≡ some z
unfolding show_int scan_int skip_spaces scan_signed
scan_int-show_int (pos n) =
    let (c, cs, e, d) = show_nat-Starts n in
    let r : scan_nat (c ∷ cs) ≡ some n = rw (← e) (scan_nat-show_nat n) in
    rw (e, not_space c d, not_minus c d, not_plus c d, r) refl
scan_int-show_int (negsuc n) = rw (scan_nat-show_nat (suc n)) refl

pub show_int-injective : (y z : ℤ) → show_int y ≡ show_int z → y ≡ z
show_int-injective y z e = cc (scan_int-show_int y, scan_int-show_int z, ap scan_int e)

pub show_nat-injective : (m n : ℕ) → show_nat m ≡ show_nat n → m ≡ n
show_nat-injective m n e = cc (scan_nat-show_nat m, scan_nat-show_nat n, ap scan_nat e)
