-- ===== src/Sender/Dock.antt =====
-- ap_signal_sender.cpp with ap_signal_dock.cpp: a server that sends each request back is never
-- misunderstood.
use simple_dsp.Base.{
  ℕ, suc, ◌+◌, ◌-◌, ◌^◌, ◌<◌, ◌≡◌, refl, sym, subst, Bool, true, false, List, [], ◌∷◌, ap, ◌∙◌, pos,
  ◌+ℤ◌, to_int32, eqb_ℤ_iff, arith,
}
use simple_dsp.Text.{Bytes, show_int, show_nat, atoi, or_zero, c_str}
use simple_dsp.Text.Decimal.{All, IsDigit, show_nat-digits, scan_int-show_int}
use simple_dsp.Sender.{
  Sender, replied, timed_out, waiting, newest, request_retries, serve, on_poll, on_reply,
  next_request, start, with_server, if_waiting,
}
use simple_dsp.Sender.Silence.{resent, on_timeout_more}

-- No three replies in a row are late, with `left` retries at the start.
abbrev pub NeverSpent : ℕ → List Bool → Type 0
NeverSpent left [] = Unit
NeverSpent left (true ∷ rest) = NeverSpent request_retries rest
NeverSpent left (false ∷ rest) = (1 < left) × NeverSpent (left - 1) rest

abbrev pub arrivals : List Bool → ℕ
arrivals [] = 0
arrivals (true ∷ rest) = suc (arrivals rest)
arrivals (false ∷ rest) = arrivals rest

c_str-digits : (x : Bytes) → All IsDigit x → c_str x ≡ x
unfolding c_str
c_str-digits [] h = refl
c_str-digits (c ∷ cs) h = let q = c_str-digits cs h.1 in ground (arith, h.0)

atoi-show_nat : (n : ℕ) → atoi (c_str (show_int (pos n))) ≡ pos n
unfolding atoi show_int
atoi-show_nat n =
    ap atoi (c_str-digits (show_nat n) (show_nat-digits n)) ∙ ap or_zero (scan_int-show_int (pos n))

abbrev renewed : ℕ → Sender → Sender
renewed n s = record s {
  sequence = pos (suc n);
  retries_left = request_retries;
  sent = show_int (pos (suc n)) ∷ s.sent;
  phase = waiting;
}

to_int32-suc : (n : ℕ) → suc n < 2 ^ 31 → to_int32 (pos n +ℤ pos 1) ≡ pos (suc n)
unfolding ◌+ℤ◌
to_int32-suc n h = ground arith

on_poll-serve :
    (s : Sender) (n : ℕ)
    → s.sequence ≡ pos n
    → suc n < 2 ^ 31
    → newest s.sent ≡ show_int s.sequence
    → on_poll (replied (serve (newest s.sent))) s ≡ renewed n s
unfolding on_poll on_reply next_request serve
on_poll-serve s n q h p =
    let a : atoi (c_str (newest s.sent)) ≡ s.sequence =
      ap (λ x. atoi (c_str x)) (p ∙ ap show_int q) ∙ atoi-show_nat n ∙ sym q in
    rw ((eqb_ℤ_iff _ _).1 a, q, to_int32-suc n h) refl

on_poll-late : (s : Sender) → 1 < s.retries_left → on_poll timed_out s ≡ resent s
unfolding on_poll
on_poll-late s h = on_timeout_more s h

-- A client that waits for the number `n` it has sent last.
record Asks (n : ℕ) (s : Sender) : Type 0 where
  phase_of : s.phase ≡ waiting
  number_of : s.sequence ≡ pos n
  newest_of : newest s.sent ≡ show_int s.sequence

with_server-Asks :
    (cs : List Bool) (s : Sender) (n : ℕ)
    → Asks n s
    → NeverSpent s.retries_left cs
    → n + arrivals cs < 2 ^ 31
    → Asks (n + arrivals cs) (with_server cs s)
unfolding with_server
with_server-Asks [] s n a h b = subst (λ k. Asks k s) (omega arith) a
with_server-Asks (true ∷ cs) s n a h b =
    let e : if_waiting s.phase (on_poll (replied (serve (newest s.sent)))) s ≡ renewed n s =
      ap (λ p. if_waiting p (on_poll (replied (serve (newest s.sent)))) s) a.phase_of
      ∙ on_poll-serve s n a.number_of (omega arith) a.newest_of in
    subst (Asks (n + suc (arrivals cs))) (ap (with_server cs) (sym e)) (
      subst (λ k. Asks k (with_server cs (renewed n s))) (omega arith)
        (with_server-Asks cs (renewed n s) (suc n)
          (record { phase_of = refl; number_of = refl; newest_of = refl }) h (omega arith)))
with_server-Asks (false ∷ cs) s n a h b =
    let e : if_waiting s.phase (on_poll timed_out) s ≡ resent s =
      ap (λ p. if_waiting p (on_poll timed_out) s) a.phase_of ∙ on_poll-late s h.0 in
    subst (Asks (n + arrivals cs)) (ap (with_server cs) (sym e)) (
      with_server-Asks cs (resent s) n
        (record { phase_of = a.phase_of; number_of = a.number_of; newest_of = refl }) h.1 b)

-- With the server of ap_signal_dock.cpp, and no three of its replies in a row late, the client never
-- stops before its numbers leave the range of an `int`: it waits, and its number is one more than
-- the number of replies that arrived in time, none of which it took for malformed.
pub with_server-keeps :
    (cs : List Bool)
    → NeverSpent request_retries cs
    → arrivals cs + 1 < 2 ^ 31
    → ((with_server cs start).phase ≡ waiting)
      × ((with_server cs start).sequence ≡ pos (1 + arrivals cs))
unfolding start next_request ◌+ℤ◌
with_server-keeps cs h b =
    let a =
      with_server-Asks cs start 1 (record { phase_of = refl; number_of = refl; newest_of = refl }) h
        (omega arith) in
    (a.phase_of, a.number_of)
