-- ===== src/Sender/Invariant.antt =====
-- ap_signal_sender.cpp: what holds at every poll.
use simple_dsp.Base.{
  ℕ, ◌+◌, ◌-◌, ◌%◌, ◌^◌, ◌≤◌, ◌≡◌, refl, subst, inl, inr, length, ℤ, pos, ◌+ℤ◌, low_word, to_int32,
  eqb_ℤ, arith, ◌==◌, Bool-cases,
}
use simple_dsp.Text.{show_int, atoi, c_str}
use simple_dsp.Sender.{
  Sender, Poll, replied, timed_out, Phase, waiting, over, newest, request_retries, on_poll,
  on_reply, on_timeout, next_request, start,
}

-- One poll of a client that waits.
pub data Step : Sender → Sender → Type 0 where
  polled : (p : Poll) (s : Sender) → s.phase ≡ waiting → Step s (on_poll p s)

pub data Reach (s : Sender) : Sender → Type 0 where
  here : Reach s s
  next : {t u : Sender} → Reach s t → Step t u → Reach s u

abbrev pub InPhase : Phase → Sender → Type 0
InPhase waiting s =
    (1 ≤ s.retries_left)
    × (s.retries_left ≤ request_retries)
    × (newest s.sent ≡ show_int s.sequence)
InPhase over s = s.retries_left ≡ 0

-- Every message is a new number or goes out on a new socket.
abbrev pub IsCounted : Sender → Type 0
IsCounted s = (n : ℕ) × (length s.sent + 1 ≡ n + s.connections) × (low_word s.sequence ≡ n % 2 ^ 32)

pub record IsValid (s : Sender) : Type 0 where
  pub in_phase : InPhase s.phase s
  pub counted : IsCounted s

low_word-suc :
    (z : ℤ) (n : ℕ) → low_word z ≡ n % 2 ^ 32 → low_word (to_int32 (z +ℤ pos 1)) ≡ (n + 1) % 2 ^ 32
unfolding ◌+ℤ◌
low_word-suc z n h = ground arith

next_request-IsValid :
    (s : Sender) → s.retries_left ≤ request_retries → IsCounted s → IsValid (next_request s)
unfolding next_request
next_request-IsValid s h (n, c, q) = elim (Bool-cases (s.retries_left == 0)) [
  | inl spent ↦ rw spent (record { in_phase = ground arith; counted = (n, c, q) })
  | inr left ↦ rw left (record {
    in_phase = (ground arith, h, refl);
    counted = (n + 1, omega arith, low_word-suc s.sequence n q);
  })
]

on_reply-IsValid : (s : Sender) (r : _) → s.phase ≡ waiting → IsValid s → IsValid (on_reply r s)
unfolding on_reply
on_reply-IsValid s r w v = elim (Bool-cases (eqb_ℤ (atoi (c_str r)) s.sequence)) [
  | inl same ↦ rw same (next_request-IsValid _ (omega arith) v.counted)
  | inr other ↦ rw other v
]

on_timeout-IsValid : (s : Sender) → s.phase ≡ waiting → IsValid s → IsValid (on_timeout s)
unfolding on_timeout
on_timeout-IsValid s w v =
    let (n, c, q) = v.counted in
    let h : InPhase waiting s = subst (λ p. InPhase p s) w v.in_phase in
    elim (Bool-cases (s.retries_left - 1 == 0)) [
      | inl spent ↦ rw spent (next_request-IsValid _ (omega arith) v.counted)
      | inr left ↦
          rw (left, w)
            (record {
              in_phase = (ground arith, ground arith, refl);
              counted = (n, omega arith, q);
            })
    ]

on_poll-IsValid : (p : Poll) (s : Sender) → s.phase ≡ waiting → IsValid s → IsValid (on_poll p s)
unfolding on_poll
on_poll-IsValid (replied r) s w v = on_reply-IsValid s r w v
on_poll-IsValid timed_out s w v = on_timeout-IsValid s w v

start-IsValid : IsValid start
unfolding start
start-IsValid = next_request-IsValid _ (omega arith) (0, refl, refl)

Step-IsValid : {s t : Sender} → Step s t → IsValid s → IsValid t
Step-IsValid (polled p s w) v = on_poll-IsValid p s w v

-- In every state that `main` reaches, whatever its polls end with: a client that waits has one to
-- three retries left and has sent its number last, a client that stopped has none left, and the
-- number of messages and the sequence number agree, up to the 32 bits of an `int` and the messages
-- that were sent again on new sockets.
pub Reach-IsValid : (s : Sender) → Reach start s → IsValid s
Reach-IsValid s here = start-IsValid
Reach-IsValid s (next r step) = Step-IsValid step (Reach-IsValid _ r)
