-- ===== src/Examples/Texts.antt =====
-- Runs of the tests of times.
use simple_dsp.Base.{◌≡◌, pos, replicate, arith}
use simple_dsp.Text.{Bytes}
use simple_dsp.Cron.{check_cron_timing, cron_of_text}
use simple_dsp.Cron.Bits.{check_cron_timing-inside}
use simple_dsp.Examples.Memory.{noon}

abbrev always : Bytes
always = replicate 28 255

check_cron_timing-inside_example :
    check_cron_timing (noon (pos 0)) (cron_of_text (λ i. 0) always)
    ≡ check_cron_timing (noon (pos 0)) (cron_of_text (λ i. 1) always)
check_cron_timing-inside_example =
    check_cron_timing-inside (noon (pos 0)) (λ i. 0) (λ i. 1) always
      (record {
        minutes = omega arith;
        hours = omega arith;
        days = omega arith;
        months = omega arith;
        weekdays = omega arith;
      })
      (omega arith)
