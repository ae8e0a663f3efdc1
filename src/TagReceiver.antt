-- ===== src/TagReceiver.antt =====
-- user_tag_receiver.cpp: the messages that give a tag to a user.
pub mod Parsed
use simple_dsp.Base.{ℕ, Bool, false, [], Option, none, some, ltb, length, if◌then◌else◌, pos}
use simple_dsp.Text.{Bytes, codes, skip_spaces, take_word}
use simple_dsp.Text.Scanf.{drop_literal}
use simple_dsp.Prog.{Prog, pure, undefined, ◌>>=◌, ◌>>◌}
use simple_dsp.Kafka.{Broker, Status, run_consumer}
use simple_dsp.World.{Env, World}
use simple_dsp.UserMap.MacAddress.{scan_bytes, sep}
use simple_dsp.UserMap.Tags.{user_tag_update}
use simple_dsp.Receiver.{Err, err_timed_out, err_no_error, err_partition_eof, err_other}

-- A message: its payload up to the first NUL, and what the `union Mac` holds before it is set.
pub record Message : Type 0 where
  pub err : Err
  pub payload : Bytes
  pub unset_mac : ℕ

-- `%s`, where the scan gets so far; otherwise the text is still empty.
abbrev pub read_word : Option Bytes → Bytes
read_word none = []
read_word (some rest) = take_word (skip_spaces rest)

abbrev pub scan_tag : ℕ → Option Bytes → ℕ × Bytes
scan_tag before none = (before, [])
scan_tag before (some s) = let (mac, rest) = scan_bytes sep 5 s before in (mac, read_word rest)

-- The `sscanf` of `msg_consume`.
unfoldable pub read_tag_msg : ℕ → Bytes → ℕ × Bytes
read_tag_msg before msg = scan_tag before (drop_literal (codes "Mac") msg)

-- `exit_eof`, which nothing sets.
abbrev pub exit_eof : Bool
exit_eof = false

module _ (e : Env) where
  -- `usertag` has room for 39 bytes and a NUL.
  unfoldable pub consume_tag : ℕ × Bytes → Prog (World e) (Unit {0})
  consume_tag (mac, usertag) =
      if ltb (length usertag) 40
      then (user_tag_update e mac usertag (e.d.of_int (pos 1)) >> pure tt)
      else λ w. (undefined, w)

  abbrev pub consume_err : Err → Message → Bool → Prog (World e) Bool
  consume_err err_timed_out m run = pure run
  consume_err err_no_error m run = consume_tag (read_tag_msg m.unset_mac m.payload) >> pure run
  consume_err err_partition_eof m run = pure (if exit_eof then false else run)
  consume_err err_other m run = pure false

  -- The value of `run` after the message.
  unfoldable pub msg_consume : Message → Bool → Prog (World e) Bool
  msg_consume m run = consume_err m.err m run

  unfoldable pub main : Broker Message → Prog (World e) Status
  main b =
      run_consumer msg_consume b (codes "tair-rdb-client1") (codes "user-tag") b.offset_beginning
