-- ===== src/Cron/Bits.antt =====
-- cron_timing.cpp: which bytes of the text of a timing are read.
use simple_dsp.Base.{ℕ, zero, suc, ◌+◌, ◌/◌, ◌≤◌, ◌≡◌, refl, [], ◌∷◌, length, arith}
use simple_dsp.Text.{Bytes}
use simple_dsp.World.{Tm}
use simple_dsp.Cron.{bit_byte, bit_test, check_cron_timing, byte_at, word_at, cron_of_text}

-- A text or its final NUL.
byte_inside : (a b : ℕ → ℕ) (s : Bytes) (i : ℕ) → i ≤ length s → byte_at a s i ≡ byte_at b s i
unfolding byte_at
byte_inside a b [] zero h = refl
byte_inside a b [] (suc i) h = absurd (omega arith)
byte_inside a b (c ∷ s) zero h = refl
byte_inside a b (c ∷ s) (suc i) h = byte_inside a b s i (omega arith)

-- The ranges that `localtime` documents.
pub record IsDate (now : Tm) : Type 0 where
  pub minutes : now.tm_min ≤ 59
  pub hours : now.tm_hour ≤ 23
  pub days : now.tm_mday ≤ 31
  pub months : now.tm_mon ≤ 11
  pub weekdays : now.tm_wday ≤ 6

-- For a text of 27 bytes at least, with its final NUL, the test reads nothing behind the text: its
-- answer does not depend on what stands there.
pub check_cron_timing-inside :
    (now : Tm) (a b : ℕ → ℕ) (s : Bytes)
    → IsDate now
    → 27 ≤ length s
    → check_cron_timing now (cron_of_text a s) ≡ check_cron_timing now (cron_of_text b s)
unfolding check_cron_timing cron_of_text word_at bit_test bit_byte
check_cron_timing-inside now a b s d h =
    let m = d.minutes in
    let r = d.hours in
    let y = d.days in
    let n = d.months in
    let v = d.weekdays in
    let at : (i : ℕ) → i ≤ 27 → byte_at a s i ≡ byte_at b s i =
      λ i k. byte_inside a b s i (omega arith) in
    rw
      (
        at (now.tm_min / 8) (omega arith),
        at (8 + now.tm_hour / 8) (omega arith),
        at (11 + now.tm_mday / 8) (omega arith),
        at (15 + now.tm_mon / 8) (omega arith),
        at (17 + now.tm_wday / 8) (omega arith),
        at 20 (omega arith),
        at 21 (omega arith),
        at 22 (omega arith),
        at 23 (omega arith),
        at 24 (omega arith),
        at 25 (omega arith),
        at 26 (omega arith),
        at 27 (omega arith),
      )
      refl
