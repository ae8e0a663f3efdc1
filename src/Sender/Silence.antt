-- ===== src/Sender/Silence.antt =====
-- ap_signal_sender.cpp: how the client ends when no reply fits.
use simple_dsp.Base.{
  ℕ, zero, suc, ◌+◌, ◌-◌, ◌≤◌, ◌<◌, ◌≡◌, refl, sym, subst, Bool, false, inl, inr, List, [], ◌∷◌,
  ◌++◌, ◌∙◌, ap, ℤ, eqb_ℤ, arith, ◌==◌, Bool-cases, replicate,
}
use simple_dsp.Text.{Bytes, show_int, atoi, c_str}
use simple_dsp.Sender.{
  Sender, Poll, replied, timed_out, waiting, over, if_waiting, request_retries, run, on_poll,
  on_reply, on_timeout, next_request, start,
}
use simple_dsp.Sender.Invariant.{Reach, InPhase, Reach-IsValid}

-- Whether a poll brings the reply to the number `n`.
abbrev pub fits : ℤ → Poll → Bool
fits n (replied r) = eqb_ℤ (atoi (c_str r)) n
fits n timed_out = false

abbrev pub NoneFits : ℤ → List Poll → Type 0
NoneFits n [] = Unit
NoneFits n (p ∷ ps) = (fits n p ≡ false) × NoneFits n ps

abbrev pub timeouts : List Poll → ℕ
timeouts [] = 0
timeouts (replied r ∷ ps) = timeouts ps
timeouts (timed_out ∷ ps) = suc (timeouts ps)

run_over : (ps : List Poll) (s : Sender) → s.phase ≡ over → run ps s ≡ s
unfolding run
run_over [] s h = refl
run_over (p ∷ ps) s h = ap (λ q. run ps (if_waiting q (on_poll p) s)) h ∙ run_over ps s h

on_timeout_last :
    (s : Sender)
    → s.retries_left ≡ 1
    → ((on_timeout s).phase ≡ over) × ((on_timeout s).retries_left ≡ 0)
unfolding on_timeout next_request
on_timeout_last s h = rw h (refl, refl)

abbrev pub resent : Sender → Sender
resent s = record s {
  retries_left = s.retries_left - 1;
  connections = suc s.connections;
  sent = show_int s.sequence ∷ s.sent;
}

pub on_timeout_more : (s : Sender) → 1 < s.retries_left → on_timeout s ≡ resent s
unfolding on_timeout
on_timeout_more s h = elim (Bool-cases (s.retries_left - 1 == 0)) [
  | inl spent ↦ absurd (ground arith)
  | inr left ↦ rw left refl
]

-- What silence makes of a client: it stops when its retries are spent.
abbrev pub AfterSilence : ℕ → Sender → Sender → Type 0
AfterSilence k s t =
    (s.retries_left ≤ k → (t.phase ≡ over) × (t.retries_left ≡ 0))
    × (k < s.retries_left
        → (t.phase ≡ waiting)
          × (t.sequence ≡ s.sequence)
          × (t.retries_left + k ≡ s.retries_left)
          × (t.sent ≡ replicate k (show_int s.sequence) ++ s.sent))

replicate_end :
    (k : ℕ) (x : Bytes) (xs : List Bytes) → replicate k x ++ (x ∷ xs) ≡ x ∷ (replicate k x ++ xs)
replicate_end zero x xs = refl
replicate_end (suc k) x xs = ap (λ l. x ∷ l) (replicate_end k x xs)

run_waiting :
    (p : Poll) (ps : List Poll) (s : Sender)
    → s.phase ≡ waiting
    → run (p ∷ ps) s ≡ run ps (on_poll p s)
unfolding run
run_waiting p ps s w = ap (λ q. run ps (if_waiting q (on_poll p) s)) w

AfterSilence-resent :
    (k : ℕ) (s t : Sender) → AfterSilence k (resent s) t → AfterSilence (suc k) s t
AfterSilence-resent k s t (spent, left) = (
  λ h. spent (omega arith),
  λ h.
      let (w, n, c, q) = left (omega arith) in
      (w, n, omega arith, q ∙ replicate_end k (show_int s.sequence) s.sent),
)

AfterSilence-over :
    (k : ℕ) (s t : Sender)
    → s.retries_left ≡ 1
    → (t.phase ≡ over) × (t.retries_left ≡ 0)
    → AfterSilence (suc k) s t
AfterSilence-over k s t one q = (λ h. q, λ h. absurd (omega arith))

on_poll_misses :
    (r : Bytes) (s : Sender) → fits s.sequence (replied r) ≡ false → on_poll (replied r) s ≡ s
unfolding on_poll on_reply
on_poll_misses r s f = rw f refl

run-AfterSilence :
    (ps : List Poll) (s : Sender)
    → s.phase ≡ waiting
    → 1 ≤ s.retries_left
    → NoneFits s.sequence ps
    → AfterSilence (timeouts ps) s (run ps s)
unfolding run on_poll
run-AfterSilence [] s w h f = (λ p. absurd (omega arith), λ p. (w, refl, omega arith, refl))
run-AfterSilence (replied r ∷ ps) s w h f =
    subst (AfterSilence (timeouts ps) s)
      (sym (run_waiting (replied r) ps s w ∙ ap (run ps) (on_poll_misses r s f.0)))
      (run-AfterSilence ps s w h f.1)
run-AfterSilence (timed_out ∷ ps) s w h f = elim (Bool-cases (s.retries_left == 1)) [
  | inl one ↦
      let e : s.retries_left ≡ 1 = ground arith in
      let (o, z) = on_timeout_last s e in
      AfterSilence-over (timeouts ps) s (run (timed_out ∷ ps) s) e (
        subst (λ t. (t.phase ≡ over) × (t.retries_left ≡ 0))
          (sym (run_waiting timed_out ps s w ∙ run_over ps (on_timeout s) o)) (o, z))
  | inr many ↦
      let more : 1 < s.retries_left = ground arith in
      subst (AfterSilence (suc (timeouts ps)) s)
        (sym (run_waiting timed_out ps s w ∙ ap (run ps) (on_timeout_more s more)))
        (AfterSilence-resent (timeouts ps) s (run ps (resent s))
          (run-AfterSilence ps (resent s) w (omega arith) f.1))
]

-- A client that waits, in any state that `main` reaches, stops after three timeouts, whatever other
-- replies come in between, if none of them is the one to its number.
pub gives_up :
    (s : Sender) (ps : List Poll)
    → Reach start s
    → s.phase ≡ waiting
    → NoneFits s.sequence ps
    → request_retries ≤ timeouts ps
    → ((run ps s).phase ≡ over) × ((run ps s).retries_left ≡ 0)
gives_up s ps r w f h =
    let v = subst (λ p. InPhase p s) w (Reach-IsValid s r).in_phase in
    (run-AfterSilence ps s w v.0 f).0 (omega arith)

-- A client that waits, in any state that `main` reaches, still waits for the same number after fewer
-- timeouts than it has retries left and no reply that fits; it has sent that number once more for
-- each timeout, and has that many retries less.
pub keeps_asking :
    (s : Sender) (ps : List Poll)
    → Reach start s
    → s.phase ≡ waiting
    → NoneFits s.sequence ps
    → timeouts ps < s.retries_left
    → ((run ps s).phase ≡ waiting)
      × ((run ps s).sequence ≡ s.sequence)
      × ((run ps s).retries_left + timeouts ps ≡ s.retries_left)
      × ((run ps s).sent ≡ replicate (timeouts ps) (show_int s.sequence) ++ s.sent)
keeps_asking s ps r w f h =
    let v = subst (λ p. InPhase p s) w (Reach-IsValid s r).in_phase in
    (run-AfterSilence ps s w v.0 f).1 h
