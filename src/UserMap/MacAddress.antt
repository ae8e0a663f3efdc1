-- ===== src/UserMap/MacAddress.antt =====
-- user_map.cpp: MAC addresses as numbers and as texts like `a0:b1:c2:d3:e4:f5`.
pub mod RoundTrip
use simple_dsp.Base.{
  ℕ, zero, suc, ◌+◌, ◌-◌, ◌*◌, ◌/◌, ◌%◌, ◌^◌, ◌≡◌, Bool, true, false, ◌&&◌, ◌||◌, List, [], ◌∷◌,
  ◌++◌, Option, none, some, ltb, leb, ◌==◌, if◌then◌else◌,
}
use simple_dsp.Text.{Bytes, skip_spaces}

-- A digit of `%x`.
unfoldable pub hex_digit : ℕ → ℕ
hex_digit n = if ltb n 10 then 48 + n else 87 + n

-- `%.2hhx`: two digits at least, and a byte has no more.
unfoldable pub hex_byte : ℕ → Bytes
unfolding hex_digit
hex_byte b = hex_digit (b / 16) ∷ hex_digit (b % 16) ∷ []

-- `bytes[k]` of `union Mac`.
unfoldable pub mac_byte : ℕ → ℕ → ℕ
mac_byte k num = num / 256 ^ k % 256

abbrev pub sep : ℕ
sep = 58

unfoldable pub uint64_to_str : ℕ → Bytes
uint64_to_str num =
    hex_byte (mac_byte 5 num)
    ++ (sep ∷ hex_byte (mac_byte 4 num)
        ++ (sep ∷ hex_byte (mac_byte 3 num)
            ++ (sep ∷ hex_byte (mac_byte 2 num)
                ++ (sep ∷ hex_byte (mac_byte 1 num) ++ (sep ∷ hex_byte (mac_byte 0 num))))))

-- The value of a byte as a digit of `%x`.
unfoldable pub hex_value : ℕ → Option ℕ
hex_value c =
    if leb 48 c && leb c 57
    then some (c - 48)
    else if leb 97 c && leb c 102
    then some (c - 87)
    else if leb 65 c && leb c 70
    then some (c - 55)
    else none

-- The digits at the front, added to `acc`.
unfoldable pub read_hex : ℕ → Bytes → ℕ × Bytes
read_hex acc [] = (acc, [])
read_hex acc (c ∷ cs) = elim (hex_value c) [
  | none ↦ (acc, c ∷ cs)
  | some v ↦ read_hex (acc * 16 + v) cs
]

-- At least one digit.
unfoldable pub hex_number : Bytes → Option (ℕ × Bytes)
hex_number [] = none
hex_number (c ∷ cs) = elim (hex_value c) [ none ↦ none | some v ↦ some (read_hex 0 (c ∷ cs)) ]

-- A prefix `0x` or `0X` is skipped where a digit follows it.
unfoldable pub after_prefix : Bytes → Option (ℕ × Bytes)
after_prefix (c ∷ x ∷ cs) =
    if (c == 48) && ((x == 120) || (x == 88)) then hex_number cs else hex_number (c ∷ x ∷ cs)
after_prefix s = hex_number s

abbrev pub low_byte : ℕ → ℕ
low_byte n = (if ltb n (2 ^ 64) then n else 2 ^ 64 - 1) % 256

abbrev pub plus_byte : Option (ℕ × Bytes) → Option (ℕ × Bytes)
plus_byte none = none
plus_byte (some (n, rest)) = some (low_byte n, rest)

abbrev pub minus_byte : Option (ℕ × Bytes) → Option (ℕ × Bytes)
minus_byte none = none
minus_byte (some (n, rest)) = some (if ltb n (2 ^ 64) then (256 - n % 256) % 256 else 255, rest)

unfoldable pub signed_byte : Bytes → Option (ℕ × Bytes)
signed_byte [] = none
signed_byte (c ∷ cs) =
    if c == 45
    then minus_byte (after_prefix cs)
    else if c == 43
    then plus_byte (after_prefix cs)
    else plus_byte (after_prefix (c ∷ cs))

-- One `%hhx`: spaces, a sign, a prefix, digits; the low byte is stored.
unfoldable pub scan_hhx : Bytes → Option (ℕ × Bytes)
scan_hhx s = signed_byte (skip_spaces s)

-- The literal `:` of the format, or the `-` of the one for phones.
unfoldable pub expect_sep : ℕ → Bytes → Option Bytes
expect_sep s [] = none
expect_sep s (c ∷ cs) = if c == s then some cs else none

-- `bytes[k] = b` in the number.
unfoldable pub set_byte : ℕ → ℕ → ℕ → ℕ
set_byte k b num = num / 256 ^ (k + 1) * 256 ^ (k + 1) + b * 256 ^ k + num % 256 ^ k

abbrev pub next_byte : (Bytes → ℕ → ℕ × Option Bytes) → Option Bytes → ℕ → ℕ × Option Bytes
next_byte more none num = (num, none)
next_byte more (some s) num = more s num

abbrev pub stored_byte :
    ℕ → (Bytes → ℕ → ℕ × Option Bytes) → Option (ℕ × Bytes) → ℕ → ℕ × Option Bytes
stored_byte k more none num = (num, none)
stored_byte k more (some (b, rest)) num = more rest (set_byte k b num)

abbrev pub scan_end : Bytes → ℕ → ℕ × Option Bytes
scan_end rest num = (num, some rest)

-- The conversions of `%hhx:…:%hhx` from `bytes + k` down to `bytes`, and the text behind them. The
-- scan ends at the first conversion or separator that does not fit, and leaves the other bytes alone.
unfoldable pub scan_bytes : ℕ → ℕ → Bytes → ℕ → ℕ × Option Bytes
scan_bytes c zero s num = stored_byte 0 scan_end (scan_hhx s) num
scan_bytes c (suc k) s num =
    stored_byte (suc k) (λ rest n. next_byte (scan_bytes c k) (expect_sep c rest) n) (scan_hhx s)
      num

-- `before` is what the uninitialised `union Mac` holds; its two high bytes are returned with it.
unfoldable pub str_to_uint64 : ℕ → Bytes → ℕ
str_to_uint64 before str = (scan_bytes sep 5 str before).0
