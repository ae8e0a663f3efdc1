-- ===== src/UserMap/MacAddress/RoundTrip.antt =====
-- user_map.cpp: `str_to_uint64` on the text that `uint64_to_str` prints.
use simple_dsp.Base.{
  ℕ, zero, suc, ◌+◌, ◌*◌, ◌/◌, ◌%◌, ◌^◌, ◌<◌, ◌≤◌, ◌≡◌, refl, ap, sym, subst, ◌∙◌, inl, inr, true,
  false, ◌||◌, [], ◌∷◌, ◌++◌, append-nil, append_assoc, Option, some, ltb, ◌==◌, ==_iff, arith,
  Bool-cases,
}
use native.Mathlib.Nat.{
  mul-add-div_right, mul-add-mod_self_right, mod-lt, div-add-mod', div-eq_of_lt, mod-eq_of_lt,
  pow-succ', one-le-pow, mul-add-mod_self_left, mul-le-mul_right,
}
use simple_dsp.Text.{Bytes, is_space, skip_spaces}
use simple_dsp.UserMap.MacAddress.{
  hex_digit, hex_byte, mac_byte, sep, uint64_to_str, hex_value, read_hex, hex_number, after_prefix,
  signed_byte, scan_hhx, expect_sep, set_byte, scan_bytes, str_to_uint64, next_byte, stored_byte,
  scan_end,
}

-- A digit is read as its value.
hex_value-hex_digit : (n : ℕ) → n < 16 → hex_value (hex_digit n) ≡ some n
unfolding hex_value hex_digit
hex_value-hex_digit n h = ground arith

-- No digit follows.
abbrev pub Stops : Bytes → Type 0
Stops rest = (acc : ℕ) → read_hex acc rest ≡ (acc, rest)

hex_digit_lem :
    (n : ℕ)
    → n < 16
    → (is_space (hex_digit n) ≡ false)
      × ((hex_digit n == 45) ≡ false)
      × ((hex_digit n == 43) ≡ false)
      × (((hex_digit n == 120) || (hex_digit n == 88)) ≡ false)
unfolding hex_digit
hex_digit_lem n h = (ground arith, ground arith, ground arith, ground arith)

read_hex_cons :
    (acc c v : ℕ) (cs : Bytes)
    → hex_value c ≡ some v
    → read_hex acc (c ∷ cs) ≡ read_hex (acc * 16 + v) cs
unfolding read_hex
read_hex_cons acc c v cs h = rw (read_hex, h) refl

hex_number_lem :
    (c v : ℕ) (cs : Bytes) → hex_value c ≡ some v → hex_number (c ∷ cs) ≡ some (read_hex 0 (c ∷ cs))
unfolding hex_number
hex_number_lem c v cs h = rw (hex_number, h) refl

two_digits_read :
    (b : ℕ) (rest : Bytes) → b < 256 → Stops rest → read_hex 0 (hex_byte b ++ rest) ≡ (b, rest)
unfolding hex_byte
two_digits_read b rest h s =
    let u = hex_value-hex_digit (b / 16) (omega arith) in
    let v = hex_value-hex_digit (b % 16) (omega arith) in
    let n : (0 * 16 + b / 16) * 16 + b % 16 ≡ b = omega arith in
    read_hex_cons 0 _ _ _ u ∙ read_hex_cons _ _ _ rest v ∙ ap (λ z. read_hex z rest) n ∙ s b

number_read :
    (b : ℕ) (rest : Bytes)
    → b < 256
    → Stops rest
    → after_prefix (hex_byte b ++ rest) ≡ some (b, rest)
unfolding hex_byte after_prefix
number_read b rest h s =
    let u = hex_value-hex_digit (b / 16) (omega arith) in
    let (a0, a1, a2, a3) = hex_digit_lem (b % 16) (omega arith) in
    elim (Bool-cases (hex_digit (b / 16) == 48)) [
      | inl nought ↦ rw (nought, a3) (hex_number_lem _ _ _ u ∙ ap some (two_digits_read b rest h s))
      | inr other ↦ rw other (hex_number_lem _ _ _ u ∙ ap some (two_digits_read b rest h s))
    ]

scan_hhx-hex_byte :
    (b : ℕ) (rest : Bytes) → b < 256 → Stops rest → scan_hhx (hex_byte b ++ rest) ≡ some (b, rest)
unfolding hex_byte scan_hhx skip_spaces signed_byte
scan_hhx-hex_byte b rest h s =
    let (a0, a1, a2, a3) = hex_digit_lem (b / 16) (omega arith) in
    let small : ltb b (2 ^ 64) ≡ true = ground arith in
    let low : b % 256 ≡ b = omega arith in rw (a0, a1, a2, number_read b rest h s, small, low) refl

-- `k + 1` bytes as they are printed, with a separator.
abbrev pub text_from : ℕ → ℕ → ℕ → Bytes
text_from s zero num = hex_byte (mac_byte 0 num)
text_from s (suc k) num = hex_byte (mac_byte (suc k) num) ++ (s ∷ text_from s k num)

split_mod : (p n : ℕ) → zero < p → n % (256 * p) ≡ n / p % 256 * p + n % p
split_mod p n h =
    let q = n / p in
    let c = q % 256 * p + n % p in
    let small : c < 256 * p =
      let l : q % 256 * p ≤ 255 * p = mul-le-mul_right p (omega arith) in
      let m = mod-lt n h in omega arith in
    let whole : n ≡ 256 * p * (q / 256) + c =
      let a = div-add-mod' n p in
      let b : (q / 256 * 256 + q % 256) * p ≡ q * p = ap (λ z. z * p) (div-add-mod' q 256) in
      omega arith in
    ap (λ z. z % (256 * p)) whole ∙ mul-add-mod_self_left (256 * p) (q / 256) c ∙ mod-eq_of_lt small

step :
    (p q b r : ℕ)
    → zero < p
    → r < 256 * p
    → (q * (256 * p) + r) / (256 * p) * (256 * p) + b * p + (q * (256 * p) + r) % p
      ≡ (q * 256 + b) * p + r % p
step p q b r h k =
    let u : (q * (256 * p) + r) / (256 * p) ≡ q =
      mul-add-div_right (omega arith) q r ∙ ap (λ z. q + z) (div-eq_of_lt k) ∙ omega arith in
    let e : q * (256 * p) + r ≡ (q * 256) * p + r = omega arith in
    let v : (q * (256 * p) + r) % p ≡ r % p =
      ap (λ z. z % p) e ∙ mul-add-mod_self_right (q * 256) p r in
    rw (u, v) (omega arith)

pow_suc : (k : ℕ) → 256 ^ (k + 1) ≡ 256 * 256 ^ k
pow_suc k = ap (λ i. 256 ^ i) (omega arith) ∙ pow-succ' 256 k

pow_pos : (k : ℕ) → zero < 256 ^ k
pow_pos k = one-le-pow k 256 (omega arith)

-- A byte is put in front of the bytes below it.
set_byte_lem :
    (k b v : ℕ)
    → set_byte k b v ≡ (v / 256 ^ (k + 1) * 256 + b) * 256 ^ k + v % 256 ^ (k + 1) % 256 ^ k
unfolding set_byte
set_byte_lem k b v =
    let p = 256 ^ k in
    let q = v / (256 * p) in
    let r = v % (256 * p) in
    let h = pow_pos k in
    rw (pow_suc k) (
      subst (λ z. z / (256 * p) * (256 * p) + b * p + z % p ≡ (q * 256 + b) * p + r % p)
        (div-add-mod' v (256 * p)) (step p q b r h (mod-lt v (omega arith))))

pub Stops-end : Stops []
unfolding read_hex
Stops-end acc = refl

pub Stops-sep : (cs : Bytes) → Stops (sep ∷ cs)
unfolding read_hex hex_value
Stops-sep cs acc = refl

pub Stops-space : (cs : Bytes) → Stops (32 ∷ cs)
unfolding read_hex hex_value
Stops-space cs acc = refl

pub Stops-dash : (cs : Bytes) → Stops (45 ∷ cs)
unfolding read_hex hex_value
Stops-dash cs acc = refl

pub Stops-bar : (cs : Bytes) → Stops (124 ∷ cs)
unfolding read_hex hex_value
Stops-bar cs acc = refl

pub Stops-comma : (cs : Bytes) → Stops (44 ∷ cs)
unfolding read_hex hex_value
Stops-comma cs acc = refl

pub Stops-bracket : (cs : Bytes) → Stops (93 ∷ cs)
unfolding read_hex hex_value
Stops-bracket cs acc = refl

byte_small : (k num : ℕ) → mac_byte k num < 256
unfolding mac_byte
byte_small k num = omega arith

assemble :
    (p v num : ℕ)
    → zero < p
    → let x = (v / (256 * p) * 256 + num / p % 256) * p + v % (256 * p) % p in
      x / p * p + num % p ≡ v / (256 * p) * (256 * p) + num % (256 * p)
assemble p v num h =
    let q = v / (256 * p) * 256 + num / p % 256 in
    let r = v % (256 * p) % p in
    let u : (q * p + r) / p ≡ q =
      mul-add-div_right h q r ∙ ap (λ z. q + z) (div-eq_of_lt (mod-lt _ h)) ∙ omega arith in
    rw (u, split_mod p num h) (omega arith)

stored_lem :
    (k : ℕ) (more : Bytes → ℕ → ℕ × Option Bytes) (o : Option (ℕ × Bytes)) (b : ℕ) (rest : Bytes)
    (v : ℕ)
    → o ≡ some (b, rest)
    → stored_byte k more o v ≡ more rest (set_byte k b v)
stored_lem k more o b rest v h = rw h refl

-- A separator is no digit.
module _ (c : ℕ) (h : (cs : Bytes) → Stops (c ∷ cs)) where
  scan_bytes-text_from :
      (k num v : ℕ) (rest : Bytes)
      → Stops rest
      → scan_bytes c k (text_from c k num ++ rest) v
        ≡ (v / 256 ^ (k + 1) * 256 ^ (k + 1) + num % 256 ^ (k + 1), some rest)
  unfolding scan_bytes expect_sep mac_byte
  scan_bytes-text_from zero num v rest s =
      let b = mac_byte 0 num in
      stored_lem 0 scan_end _ b rest v (scan_hhx-hex_byte b rest (byte_small 0 num) s)
      ∙ ap (λ z. (z, some rest)) (set_byte_lem 0 b v ∙ omega arith)
  scan_bytes-text_from (suc k) num v rest s =
      let b = mac_byte (suc k) num in
      let more = c ∷ (text_from c k num ++ rest) in
      let a =
        ap scan_hhx (append_assoc (hex_byte b) (c ∷ text_from c k num) rest)
        ∙ scan_hhx-hex_byte b more (byte_small (suc k) num) (h (text_from c k num ++ rest)) in
      let p : 256 ^ (k + 1) ≡ 256 ^ suc k = ap (λ i. 256 ^ i) (omega arith) in
      let same : (c == c) ≡ true = (==_iff c c).1 refl in
      stored_lem (suc k) (λ x. next_byte (scan_bytes c k) (expect_sep c x)) _ b more v a
      ∙ rw same (
          scan_bytes-text_from k num (set_byte (suc k) b v) rest s
          ∙ ap (λ z. (z, some rest))
              (rw (set_byte_lem (suc k) b v, p, pow_suc (suc k))
                (assemble (256 ^ suc k) v num (pow_pos (suc k)))))

  -- The six conversions on a printed address with more behind it.
  pub scan_bytes-printed :
      (before num : ℕ) (rest : Bytes)
      → num < 2 ^ 48
      → Stops rest
      → scan_bytes c 5 (text_from c 5 num ++ rest) before
        ≡ (before / 2 ^ 48 * 2 ^ 48 + num, some rest)
  scan_bytes-printed before num rest b s =
      scan_bytes-text_from 5 num before rest s
      ∙ ap (λ z. (before / 2 ^ 48 * 2 ^ 48 + z, some rest)) (mod-eq_of_lt b)

pub scan_bytes-uint64_to_str :
    (before num : ℕ) (rest : Bytes)
    → num < 2 ^ 48
    → Stops rest
    → scan_bytes sep 5 (uint64_to_str num ++ rest) before
      ≡ (before / 2 ^ 48 * 2 ^ 48 + num, some rest)
unfolding uint64_to_str
scan_bytes-uint64_to_str = scan_bytes-printed sep Stops-sep

-- The same for `str_to_uint64`.
pub str_to_uint64-printed :
    (before num : ℕ) (rest : Bytes)
    → num < 2 ^ 48
    → Stops rest
    → str_to_uint64 before (uint64_to_str num ++ rest) ≡ before / 2 ^ 48 * 2 ^ 48 + num
unfolding str_to_uint64
str_to_uint64-printed before num rest h s =
    ap (λ (r : ℕ × Option Bytes). r.0) (scan_bytes-uint64_to_str before num rest h s)

-- Reading the text of a MAC address of 48 bits gives the number back; the two high bytes are those that
-- stood in memory before.
pub str_to_uint64-uint64_to_str :
    (before num : ℕ)
    → num < 2 ^ 48
    → str_to_uint64 before (uint64_to_str num) ≡ before / 2 ^ 48 * 2 ^ 48 + num
str_to_uint64-uint64_to_str before num h =
    ap (str_to_uint64 before) (sym (append-nil (uint64_to_str num)))
    ∙ str_to_uint64-printed before num [] h Stops-end
