-- ===== src/PhoneReceiver.antt =====
-- user_phone_receiver.cpp: the messages that give a phone number to a user.
pub mod Parsed
use simple_dsp.Base.{ℕ, Bool, false, leb, drop, if◌then◌else◌}
use simple_dsp.Text.{Bytes, codes}
use simple_dsp.Prog.{Prog, pure, undefined, ◌>>=◌, ◌>>◌}
use simple_dsp.Kafka.{Broker, Status, run_consumer}
use simple_dsp.World.{Env, World}
use simple_dsp.UserMap.MacAddress.{scan_bytes}
use simple_dsp.UserMap.Identity.{user_update}
use simple_dsp.Receiver.{Err, err_timed_out, err_no_error, err_partition_eof, err_other}

-- A message: its payload up to the first NUL, and its length by Kafka.
pub record Message : Type 0 where
  pub err : Err
  pub payload : Bytes
  pub len : ℕ

-- The `sscanf` of `msg_consume`, into a number that starts as 0.
unfoldable pub read_mac : Bytes → ℕ
read_mac msg = (scan_bytes 45 5 msg 0).0

-- `exit_eof`, which nothing sets.
abbrev pub exit_eof : Bool
exit_eof = false

module _ (e : Env) where
  -- `string(p_msg + 18)`; the copy has `len + 1` bytes, and NULs behind the text.
  unfoldable pub consume_phone : Message → Prog (World e) (Unit {0})
  consume_phone m =
      if leb 18 m.len
      then (user_update e (read_mac m.payload) (drop 18 m.payload) >> pure tt)
      else λ w. (undefined, w)

  abbrev pub consume_err : Err → Message → Bool → Prog (World e) Bool
  consume_err err_timed_out m run = pure run
  consume_err err_no_error m run = consume_phone m >> pure run
  consume_err err_partition_eof m run = pure (if exit_eof then false else run)
  consume_err err_other m run = pure false

  -- The value of `run` after the message.
  unfoldable pub msg_consume : Message → Bool → Prog (World e) Bool
  msg_consume m run = consume_err m.err m run

  unfoldable pub main : Broker Message → Prog (World e) Status
  main b =
      run_consumer msg_consume b (codes "wushuu-server-1-user-phone") (codes "user-phone")
        b.offset_beginning
