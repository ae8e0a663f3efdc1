-- ===== src/Tair/Memory.antt =====
-- `get_data_entry_of_value` and `get_value<T>` of tair_common.h: values as bytes in memory.
use simple_dsp.Base.{
  ℕ, zero, suc, ◌/◌, ◌^◌, ◌<◌, ◌≡◌, refl, sym, ap, ◌∙◌, true, [], ◌∷◌, ℤ, low_word, arith,
}
use native.Mathlib.Nat.{pow-succ'}
use simple_dsp.Text.{Bytes, in_range, int_min, int_max, llong_min, llong_max}
use simple_dsp.UserMap.Position.{le_bytes, time_pattern}
use simple_dsp.Tair.{of_le_bytes, signed, text_entry}

div_lt_pow : (k n : ℕ) → n < 256 ^ suc k → n / 256 < 256 ^ k
div_lt_pow k n h = let e = pow-succ' 256 k in omega arith

-- The bytes of a number that fits in them give it back.
pub of_le_bytes-le_bytes : (k n : ℕ) → n < 256 ^ k → of_le_bytes k (le_bytes k n) ≡ n
unfolding of_le_bytes le_bytes
of_le_bytes-le_bytes zero n h = omega arith
of_le_bytes-le_bytes (suc k) n h =
    let small : n / 256 < 256 ^ k = div_lt_pow k n h in
    let below = of_le_bytes-le_bytes k (n / 256) small in rw below (omega arith)

pub signed-low_word : (v : ℤ) → in_range int_min int_max v ≡ true → signed 32 (low_word v) ≡ v
signed-low_word v h = ground arith

pub signed-time_pattern :
    (v : ℤ) → in_range llong_min llong_max v ≡ true → signed 64 (time_pattern v) ≡ v
signed-time_pattern v h = ground arith

pub low_word_lt : (v : ℤ) → low_word v < 256 ^ 4
low_word_lt v = ground arith

pub time_pattern_lt : (v : ℤ) → in_range llong_min llong_max v ≡ true → time_pattern v < 256 ^ 8
time_pattern_lt v h = ground arith

-- Distinct texts give distinct entries.
abbrev without_last : Bytes → Bytes
without_last [] = []
without_last (a ∷ []) = []
without_last (a ∷ b ∷ s) = a ∷ without_last (b ∷ s)

without_last-text_entry : (s : Bytes) → without_last (text_entry s) ≡ s
without_last-text_entry [] = refl
without_last-text_entry (a ∷ []) = refl
without_last-text_entry (a ∷ b ∷ s) = ap (λ r. a ∷ r) (without_last-text_entry (b ∷ s))

pub text_entry-injective : (s t : Bytes) → text_entry s ≡ text_entry t → s ≡ t
text_entry-injective s t e =
    sym (without_last-text_entry s) ∙ ap without_last e ∙ without_last-text_entry t
