-- ===== src/Examples/Senders.antt =====
-- Runs of the client that retries.
use simple_dsp.Base.{◌+◌, ◌≡◌, refl, true, false, [], ◌∷◌, pos, ◌+ℤ◌, arith}
use simple_dsp.Text.{codes, atoi, c_str, scan_int, skip_spaces, scan_signed, scan_nat, read_digits}
use simple_dsp.Sender.{replied, timed_out, waiting, over, run, start, next_request, with_server}
use simple_dsp.Sender.Invariant.{IsValid, here, Reach-IsValid}
use simple_dsp.Sender.Silence.{gives_up}
use simple_dsp.Sender.Dock.{with_server-keeps}

Reach-IsValid_example : IsValid start
Reach-IsValid_example = Reach-IsValid start here

gives_up_example :
    ((run (timed_out ∷ replied (codes "7") ∷ timed_out ∷ timed_out ∷ []) start).phase ≡ over)
    × ((run (timed_out ∷ replied (codes "7") ∷ timed_out ∷ timed_out ∷ []) start).retries_left ≡ 0)
unfolding start next_request ◌+ℤ◌ atoi c_str scan_int skip_spaces scan_signed scan_nat read_digits
gives_up_example =
    gives_up start (timed_out ∷ replied (codes "7") ∷ timed_out ∷ timed_out ∷ []) here refl
      (refl, (refl, (refl, (refl, tt)))) (omega arith)

with_server-keeps_example :
    ((with_server (true ∷ false ∷ false ∷ true ∷ []) start).phase ≡ waiting)
    × ((with_server (true ∷ false ∷ false ∷ true ∷ []) start).sequence ≡ pos (1 + 2))
with_server-keeps_example =
    with_server-keeps (true ∷ false ∷ false ∷ true ∷ []) (omega arith, (omega arith, tt))
      (omega arith)
