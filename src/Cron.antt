-- ===== src/Cron.antt =====
-- bitstring.h, cron_timing.h and cron_timing.cpp: when an advertisement group may be shown.
pub mod Bits
use Prim.Native.Nat.{bit_and}
use simple_dsp.Base.{
  ℕ, zero, suc, ◌+◌, ◌-◌, ◌*◌, ◌/◌, ◌%◌, ◌^◌, ◌≡◌, Bool, true, false, ◌&&◌, ◌||◌, not, List, [],
  ◌∷◌, ltb, leb, ◌==◌, if◌then◌else◌, ℤ, pos, negsuc, eqb_ℤ, length, get_or,
}
use simple_dsp.Text.{Bytes}
use simple_dsp.World.{Tm}

-- `(bit) >> 3`
unfoldable pub bit_byte : ℕ → ℕ
bit_byte bit = bit / 8

-- `1 << ((bit) & 0x7)`
unfoldable pub bit_mask : ℕ → ℕ
bit_mask bit = 2 ^ (bit % 8)

-- `name[_bit_byte(bit)] & _bit_mask(bit)` as a condition, for the bytes of `name`.
unfoldable pub bit_test : (ℕ → ℕ) → ℕ → Bool
unfolding bit_byte bit_mask
bit_test name bit = not (bit_and (name (bit_byte bit)) (bit_mask bit) == 0)

-- struct cron_timing: five bit strings, the year and the flags.
pub record CronTiming : Type 0 where
  pub minute : ℕ → ℕ
  pub hour : ℕ → ℕ
  pub dom : ℕ → ℕ
  pub month : ℕ → ℕ
  pub dow : ℕ → ℕ
  pub year : ℤ
  pub flags : ℕ

abbrev pub dom_star : ℕ
dom_star = 0x01

abbrev pub dow_star : ℕ
dow_star = 0x02

abbrev pub year_star : ℕ
year_star = 0x20

-- `flags & mask`
unfoldable pub has_flag : ℕ → ℕ → Bool
has_flag flags mask = not (bit_and flags mask == 0)

unfoldable pub check_cron_timing : Tm → CronTiming → Bool
check_cron_timing now r =
    bit_test r.minute now.tm_min
    && (bit_test r.hour now.tm_hour
        && (bit_test r.month now.tm_mon
            && ((if has_flag r.flags year_star then true else eqb_ℤ r.year now.tm_year)
                && (if has_flag r.flags dom_star || has_flag r.flags dow_star
                    then bit_test r.dow now.tm_wday && bit_test r.dom now.tm_mday
                    else bit_test r.dow now.tm_wday || bit_test r.dom now.tm_mday))))

-- The byte at an offset of a text, of its final NUL, or of what follows in memory.
unfoldable pub byte_at : (ℕ → ℕ) → Bytes → ℕ → ℕ
byte_at beyond [] zero = 0
byte_at beyond [] (suc i) = beyond i
byte_at beyond (c ∷ cs) zero = c
byte_at beyond (c ∷ cs) (suc i) = byte_at beyond cs i

-- Four bytes, the lowest first.
unfoldable pub word_at : (ℕ → ℕ) → ℕ → ℕ
word_at m i = m i + 256 * m (i + 1) + 65536 * m (i + 2) + 16777216 * m (i + 3)

abbrev pub as_int32 : ℕ → ℤ
as_int32 n = if ltb n (2 ^ 31) then pos n else negsuc (2 ^ 32 - 1 - n)

-- `(cron_timing *) s.c_str()`: bit strings of 8, 3, 4, 2 and 1 bytes, two bytes of padding, and two
-- words.
unfoldable pub cron_of_text : (ℕ → ℕ) → Bytes → CronTiming
cron_of_text beyond s =
    let m = byte_at beyond s in
    record {
      minute = m;
      hour = λ i. m (8 + i);
      dom = λ i. m (11 + i);
      month = λ i. m (15 + i);
      dow = λ i. m (17 + i);
      year = as_int32 (word_at m 20);
      flags = word_at m 24;
    }
