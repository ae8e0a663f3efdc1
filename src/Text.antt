-- ===== src/Text.antt =====
-- The texts of the program as lists of bytes: what `<<`, `>>`, `stoi`, `stoll`, `stoull`, `atoi`
-- and `sscanf` of the C++ library do with them where the sources call these.
pub mod Decimal
pub mod Scanf
use Prim.Native.Char.{code}
use simple_dsp.Base.{
  ℕ, zero, suc, ◌+◌, ◌-◌, ◌*◌, ◌/◌, ◌%◌, ◌^◌, ◌≡◌, refl, ◌↔◌, Bool, true, false, ◌&&◌, ◌||◌, List,
  [], ◌∷◌, ◌++◌, Option, none, some, String, arith, ltb, leb, ◌==◌, if◌then◌else◌, ℤ, pos, negsuc,
  leb_ℤ,
}

abbrev pub Bytes : Type 0
Bytes = List ℕ

abbrev pub codes : String → Bytes
codes String.[] = []
codes (String.◌∷◌ c s) = code c ∷ codes s

unfoldable pub bytes_eq : Bytes → Bytes → Bool
bytes_eq [] [] = true
bytes_eq (a ∷ xs) (b ∷ ys) = (a == b) && bytes_eq xs ys
bytes_eq _ _ = false

pub bytes_eq_iff : (x y : Bytes) → (bytes_eq x y ≡ true) ↔ (x ≡ y)
unfolding bytes_eq
bytes_eq_iff [] [] = ground arith
bytes_eq_iff [] (b ∷ ys) = ground arith
bytes_eq_iff (a ∷ xs) [] = ground arith
bytes_eq_iff (a ∷ xs) (b ∷ ys) = ground (arith, bytes_eq_iff xs ys)

pub bytes_eq_refl : (x : Bytes) → bytes_eq x x ≡ true
bytes_eq_refl x = (bytes_eq_iff x x).1 refl

abbrev pub is_space : ℕ → Bool
is_space c = (c == 32) || (leb 9 c && leb c 13)

abbrev pub is_digit : ℕ → Bool
is_digit c = leb 48 c && leb c 57

-- An unsigned number in decimal. Each round takes one digit, so the fuel `suc n` is enough.
unfoldable pub show_fuel : ℕ → ℕ → Bytes
show_fuel zero n = []
show_fuel (suc f) n =
    let front = show_fuel f (n / 10) in
    if ltb n 10 then (48 + n) ∷ [] else front ++ (48 + n % 10) ∷ []

unfoldable pub show_nat : ℕ → Bytes
unfolding show_fuel
show_nat n = show_fuel (suc n) n

unfoldable pub show_int : ℤ → Bytes
show_int (pos n) = show_nat n
show_int (negsuc n) = 45 ∷ show_nat (suc n)

unfoldable pub skip_spaces : Bytes → Bytes
skip_spaces [] = []
skip_spaces (c ∷ cs) = let rest = skip_spaces cs in if is_space c then rest else c ∷ cs

unfoldable pub read_digits : ℕ → Bytes → ℕ × Bytes
read_digits acc [] = (acc, [])
read_digits acc (c ∷ cs) =
    let rest = read_digits (acc * 10 + (c - 48)) cs in if is_digit c then rest else (acc, c ∷ cs)

-- At least one digit, or no conversion.
unfoldable pub scan_nat : Bytes → Option ℕ
scan_nat [] = none
scan_nat (c ∷ cs) = if is_digit c then some (read_digits 0 (c ∷ cs)).0 else none

abbrev pub negated : ℕ → ℤ
negated zero = pos zero
negated (suc n) = negsuc n

abbrev pub as_pos : Option ℕ → Option ℤ
as_pos none = none
as_pos (some n) = some (pos n)

abbrev pub as_neg : Option ℕ → Option ℤ
as_neg none = none
as_neg (some n) = some (negated n)

-- A sign, then digits.
unfoldable pub scan_signed : Bytes → Option ℤ
scan_signed [] = none
scan_signed (c ∷ cs) =
    if c == 45
    then as_neg (scan_nat cs)
    else if c == 43
    then as_pos (scan_nat cs)
    else as_pos (scan_nat (c ∷ cs))

-- `strtol`: spaces, a sign, digits.
unfoldable pub scan_int : Bytes → Option ℤ
scan_int s = scan_signed (skip_spaces s)

abbrev pub in_range : ℤ → ℤ → ℤ → Bool
in_range lo hi z = leb_ℤ lo z && leb_ℤ z hi

abbrev pub within : ℤ → ℤ → Option ℤ → Option ℤ
within lo hi none = none
within lo hi (some z) = if in_range lo hi z then some z else none

abbrev pub int_min : ℤ
int_min = negsuc (2 ^ 31 - 1)

abbrev pub int_max : ℤ
int_max = pos (2 ^ 31 - 1)

abbrev pub llong_min : ℤ
llong_min = negsuc (2 ^ 63 - 1)

abbrev pub llong_max : ℤ
llong_max = pos (2 ^ 63 - 1)

-- `none` stands for the exception (`invalid_argument` or `out_of_range`).
unfoldable pub stoi : Bytes → Option ℤ
stoi s = within int_min int_max (scan_int s)

unfoldable pub stoll : Bytes → Option ℤ
stoll s = within llong_min llong_max (scan_int s)

-- `stoull` takes a sign too, and negates modulo 2^64.
abbrev pub wrap_ull : Option ℤ → Option ℕ
wrap_ull none = none
wrap_ull (some (pos n)) = if ltb n (2 ^ 64) then some n else none
wrap_ull (some (negsuc n)) = if ltb n (2 ^ 64 - 1) then some (2 ^ 64 - 1 - n) else none

unfoldable pub stoull : Bytes → Option ℕ
stoull s = wrap_ull (scan_int s)

-- `atoi` gives 0 where there is no number.
abbrev pub or_zero : Option ℤ → ℤ
or_zero none = pos 0
or_zero (some z) = z

unfoldable pub atoi : Bytes → ℤ
atoi s = or_zero (scan_int s)

-- The bytes up to the first NUL, as `strlen` counts them.
unfoldable pub c_str : Bytes → Bytes
c_str [] = []
c_str (c ∷ cs) = let rest = c_str cs in if c == 0 then [] else c ∷ rest

-- The first word, as `>>` reads a `std::string`.
unfoldable pub take_word : Bytes → Bytes
take_word [] = []
take_word (c ∷ cs) = let rest = take_word cs in if is_space c then [] else c ∷ rest
