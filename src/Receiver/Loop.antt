-- ===== src/Receiver/Loop.antt =====
-- ap_signal_receiver.cpp: the loop of `main` ends with the first error.
use simple_dsp.Base.{ℕ, pos, ◌≡◌, ◌≢◌, refl, sym, ◌∙◌, Bool, true, false, List, [], ◌∷◌, ◌++◌}
use simple_dsp.Prog.{Prog, pure, ◌>>=◌, ◌>>◌}
use simple_dsp.Prog.Laws.{>>=-congr, >>=_assoc}
use simple_dsp.Kafka.{
  Broker, exits, conf_settings, tconf_settings, consume_while, status_of, run_consumer,
}
use simple_dsp.UserMap.Start.Letters.{uuid-letters}
use simple_dsp.Text.{Bytes, codes}
use simple_dsp.World.{Env, World}
use simple_dsp.Receiver.{
  Message, Err, err_timed_out, err_no_error, err_partition_eof, err_other, msg_consume, consume_err,
  main, consume_payload,
}

-- No message is an error of the consumer.
abbrev pub NoneFailed : List Message → Type 0
NoneFailed [] = Unit
NoneFailed (m ∷ ms) = (m.err ≢ err_other) × NoneFailed ms

module _ (e : Env) where
  -- The payload of a message that has one.
  abbrev pub payload_of : Err → Message → Prog (World e) (Unit {0})
  payload_of err_no_error m = consume_payload e m
  payload_of err m = pure tt

  -- The payloads, one after the other.
  abbrev pub payloads : List Message → Prog (World e) (Unit {0})
  payloads [] = pure tt
  payloads (m ∷ ms) = payload_of m.err m >> payloads ms

  one_message :
      {B : Type 0} (err : Err) (m : Message) (f : Bool → Prog (World e) B) (w : World e)
      → err ≢ err_other
      → (consume_err e err m true >>= f) w ≡ (payload_of err m >> f true) w
  one_message err_timed_out m f w h = refl
  one_message err_no_error m f w h = sym (>>=_assoc (consume_payload e m) (λ u. pure true) f w)
  one_message err_partition_eof m f w h = refl
  one_message err_other m f w h = absurd (h refl)

  consume_while-false :
      (ms : List Message) (w : World e)
      → consume_while (msg_consume e) false ms w ≡ pure (false, ms) w
  unfolding consume_while
  consume_while-false [] w = refl
  consume_while-false (m ∷ ms) w = refl

  -- The loop ends with the first message that is an error: before it, it has consumed the payloads of
  -- the messages in their order, unless one of them did not return; the error and the messages behind
  -- it change nothing.
  pub consume_while-failed :
      (ms : List Message) (m : Message) (rest : List Message) (w : World e)
      → NoneFailed ms
      → m.err ≡ err_other
      → consume_while (msg_consume e) true (ms ++ (m ∷ rest)) w
        ≡ (payloads ms >> pure (false, rest)) w
  unfolding consume_while msg_consume
  consume_while-failed [] m rest w n f = rw f (consume_while-false rest w)
  consume_while-failed (l ∷ ms) m rest w n f =
      one_message l.err l (λ b. consume_while (msg_consume e) b (ms ++ (m ∷ rest))) w n.0
      ∙ >>=-congr (payload_of l.err l) (λ u. consume_while (msg_consume e) true (ms ++ (m ∷ rest)))
          (λ u. payloads ms >> pure (false, rest)) (λ u v. consume_while-failed ms m rest v n.1 f) w
      ∙ >>=_assoc (payload_of l.err l) (λ u. payloads ms) (λ u. pure (false, rest)) w

  -- A receiver whose consumer starts has consumed, when it meets an error, the payloads of the messages
  -- before it in their order, unless one of them did not return; then it exits with 0, and the error
  -- and the messages behind it change nothing.
  pub main-failed :
      (rand : ℕ → ℕ) (b : Broker Message) (ms : List Message) (m : Message) (rest : List Message)
      (w : World e)
      → ((id : Bytes) → b.creates_consumer (conf_settings id) ≡ true)
      → b.creates_topic (codes "lbs-point") tconf_settings ≡ true
      → b.starts (codes "lbs-point") (pos 0) b.offset_end ≡ true
      → b.messages ≡ ms ++ (m ∷ rest)
      → NoneFailed ms
      → m.err ≡ err_other
      → main e rand b w ≡ (payloads ms >> pure (exits 0)) w
  unfolding main run_consumer
  main-failed rand b ms m rest w c t s q n f =
      let (id, named) = uuid-letters rand in
      let loop = consume_while-failed ms m rest w n f in
      rw (named.0, c id, t, s, q, loop)
        (sym (
          >>=_assoc (payloads ms) (λ u. pure (false, rest))
            (λ ended. pure (status_of (msg_consume e) ended.0)) w))
