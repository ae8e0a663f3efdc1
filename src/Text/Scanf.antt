-- ===== src/Text/Scanf.antt =====
-- `sscanf` with `%d`: numbers between fixed texts.
use simple_dsp.Base.{
  ℕ, suc, ◌-◌, ◌^◌, ◌≡◌, refl, ap, sym, subst, ◌∙◌, true, false, List, [], ◌∷◌, ◌++◌, Option, none,
  some, ltb, ◌==◌, if◌then◌else◌, ℤ, pos, negsuc, to_int32, arith,
}
use simple_dsp.Text.{
  Bytes, is_digit, is_space, negated, skip_spaces, read_digits, show_nat, show_int, in_range,
  int_min, int_max,
}
use simple_dsp.Text.Decimal.{
  show_nat-Starts, read_digits-printed, is_digit-true, not_space, not_minus, not_plus,
}

-- The part of a format that the sources use behind a MAC address.
pub data Directive : Type 0 where
  space : Directive
  literal : Bytes → Directive
  decimal : Directive

unfoldable pub drop_literal : Bytes → Bytes → Option Bytes
drop_literal [] s = some s
drop_literal (c ∷ cs) [] = none
drop_literal (c ∷ cs) (d ∷ s) = let rest = drop_literal cs s in if c == d then rest else none

unfoldable pub scan_digits : Bytes → Option (ℕ × Bytes)
scan_digits [] = none
scan_digits (c ∷ cs) = if is_digit c then some (read_digits 0 (c ∷ cs)) else none

-- A `long` that does not hold the number gets the nearest one, and its low half is stored.
abbrev pub plus_int : Option (ℕ × Bytes) → Option (ℤ × Bytes)
plus_int none = none
plus_int (some (n, rest)) = some (to_int32 (pos (if ltb n (2 ^ 63) then n else 2 ^ 63 - 1)), rest)

abbrev pub minus_int : Option (ℕ × Bytes) → Option (ℤ × Bytes)
minus_int none = none
minus_int (some (n, rest)) = some (to_int32 (negated (if ltb n (2 ^ 63) then n else 2 ^ 63)), rest)

unfoldable pub signed_int : Bytes → Option (ℤ × Bytes)
signed_int [] = none
signed_int (c ∷ cs) =
    if c == 45
    then minus_int (scan_digits cs)
    else if c == 43
    then plus_int (scan_digits cs)
    else plus_int (scan_digits (c ∷ cs))

-- One `%d`.
unfoldable pub scan_d : Bytes → Option (ℤ × Bytes)
scan_d s = signed_int (skip_spaces s)

abbrev pub after_literal : (Bytes → List ℤ) → Option Bytes → List ℤ
after_literal more none = []
after_literal more (some rest) = more rest

abbrev pub after_decimal : (Bytes → List ℤ) → Option (ℤ × Bytes) → List ℤ
after_decimal more none = []
after_decimal more (some (z, rest)) = z ∷ more rest

-- The numbers that are stored before the scan ends.
unfoldable pub scan_ints : List Directive → Bytes → List ℤ
scan_ints [] s = []
scan_ints (space ∷ ds) s = scan_ints ds (skip_spaces s)
scan_ints (literal l ∷ ds) s = after_literal (scan_ints ds) (drop_literal l s)
scan_ints (decimal ∷ ds) s = after_decimal (scan_ints ds) (scan_d s)

-- `printf` with the same format.
unfoldable pub print_ints : List Directive → List ℤ → Bytes
print_ints [] zs = []
print_ints (space ∷ ds) zs = 32 ∷ print_ints ds zs
print_ints (literal l ∷ ds) zs = l ++ print_ints ds zs
print_ints (decimal ∷ ds) [] = []
print_ints (decimal ∷ ds) (z ∷ zs) = show_int z ++ print_ints ds zs

-- The text goes on with no digit and with no space.
abbrev pub NoDigit : Bytes → Type 0
NoDigit [] = Unit
NoDigit (c ∷ cs) = is_digit c ≡ false

abbrev pub NoSpace : Bytes → Type 0
NoSpace [] = Unit
NoSpace (c ∷ cs) = is_space c ≡ false

-- No number is followed by a digit and no space by a space, so what is printed can be read back.
abbrev pub IsReadable : List Directive → List ℤ → Type 0
IsReadable [] zs = zs ≡ []
IsReadable (space ∷ ds) zs = NoSpace (print_ints ds zs) × IsReadable ds zs
IsReadable (literal l ∷ ds) zs = IsReadable ds zs
IsReadable (decimal ∷ ds) [] = ⊥
IsReadable (decimal ∷ ds) (z ∷ zs) =
    (in_range int_min int_max z ≡ true) × NoDigit (print_ints ds zs) × IsReadable ds zs

read_digits-stops : (n : ℕ) (rest : Bytes) → NoDigit rest → read_digits n rest ≡ (n, rest)
unfolding read_digits
read_digits-stops n [] h = refl
read_digits-stops n (c ∷ cs) h = rw h refl

scan_digits-show_nat :
    (n : ℕ) (rest : Bytes) → NoDigit rest → scan_digits (show_nat n ++ rest) ≡ some (n, rest)
unfolding scan_digits
scan_digits-show_nat n rest h =
    let (c, cs, e, d) = show_nat-Starts n in
    let r : read_digits 0 ((c ∷ cs) ++ rest) ≡ (n, rest) =
      subst (λ x. read_digits 0 (x ++ rest) ≡ (n, rest)) e
        (read_digits-printed n rest ∙ read_digits-stops n rest h) in
    rw (e, is_digit-true c d) (ap some r)

scan_d-pos :
    (n : ℕ) (rest : Bytes) → NoDigit rest → scan_d (show_nat n ++ rest) ≡ plus_int (some (n, rest))
unfolding scan_d skip_spaces signed_int
scan_d-pos n rest h =
    let (c, cs, e, d) = show_nat-Starts n in
    let r : scan_digits ((c ∷ cs) ++ rest) ≡ some (n, rest) =
      subst (λ x. scan_digits (x ++ rest) ≡ some (n, rest)) e (scan_digits-show_nat n rest h) in
    rw (e, not_space c d, not_minus c d, not_plus c d) (ap plus_int r)

scan_d-neg :
    (n : ℕ) (rest : Bytes)
    → NoDigit rest
    → scan_d (45 ∷ (show_nat n ++ rest)) ≡ minus_int (some (n, rest))
unfolding scan_d skip_spaces signed_int
scan_d-neg n rest h = ap minus_int (scan_digits-show_nat n rest h)

pub scan_d-show_int :
    (z : ℤ) (rest : Bytes)
    → in_range int_min int_max z ≡ true
    → NoDigit rest
    → scan_d (show_int z ++ rest) ≡ some (z, rest)
unfolding show_int
scan_d-show_int (pos n) rest r h =
    let e : to_int32 (pos (if ltb n (2 ^ 63) then n else 2 ^ 63 - 1)) ≡ pos n = ground arith in
    scan_d-pos n rest h ∙ ap (λ y. some (y, rest)) e
scan_d-show_int (negsuc n) rest r h =
    let e : to_int32 (negated (if ltb (suc n) (2 ^ 63) then suc n else 2 ^ 63)) ≡ negsuc n =
      ground arith in
    scan_d-neg (suc n) rest h ∙ ap (λ y. some (y, rest)) e

pub drop_literal-append : (l s : Bytes) → drop_literal l (l ++ s) ≡ some s
unfolding drop_literal
drop_literal-append [] s = refl
drop_literal-append (c ∷ cs) s = let q = drop_literal-append cs s in ground arith

skip_spaces-stops : (s : Bytes) → NoSpace s → skip_spaces s ≡ s
unfolding skip_spaces
skip_spaces-stops [] h = refl
skip_spaces-stops (c ∷ cs) h = rw h refl

skip_spaces-space : (s : Bytes) → NoSpace s → skip_spaces (32 ∷ s) ≡ s
unfolding skip_spaces
skip_spaces-space s h = skip_spaces-stops s h

-- `sscanf` reads back what `printf` printed with the same format.
pub scan_ints-print_ints :
    (ds : List Directive) (zs : List ℤ) → IsReadable ds zs → scan_ints ds (print_ints ds zs) ≡ zs
unfolding scan_ints print_ints
scan_ints-print_ints [] zs h = sym h
scan_ints-print_ints (space ∷ ds) zs h =
    ap (scan_ints ds) (skip_spaces-space (print_ints ds zs) h.0) ∙ scan_ints-print_ints ds zs h.1
scan_ints-print_ints (literal l ∷ ds) zs h =
    ap (after_literal (scan_ints ds)) (drop_literal-append l (print_ints ds zs))
    ∙ scan_ints-print_ints ds zs h
scan_ints-print_ints (decimal ∷ ds) [] h = absurd h
scan_ints-print_ints (decimal ∷ ds) (z ∷ zs) h =
    ap (after_decimal (scan_ints ds)) (scan_d-show_int z (print_ints ds zs) h.0 h.1)
    ∙ ap (λ ys. z ∷ ys) (scan_ints-print_ints ds zs h.2)
