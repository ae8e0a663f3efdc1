-- ===== src/Examples/Members.antt =====
-- Messages about users.
use simple_dsp.Base.{◌≡◌, refl, true, pos, length, arith}
use simple_dsp.Text.{Bytes, codes}
use simple_dsp.Prog.{pure, ◌>>◌}
use simple_dsp.World.{Env}
use simple_dsp.UserMap.Tags.{user_tag_update}
use simple_dsp.UserMap.Identity.{user_update}
use simple_dsp.Receiver.{err_no_error}
use simple_dsp.TagReceiver
use simple_dsp.TagReceiver.Parsed.{tag_text, msg_consume-tag_text}
use simple_dsp.PhoneReceiver
use simple_dsp.PhoneReceiver.Parsed.{phone_text, msg_consume-phone_text}
use simple_dsp.Examples.Memory.{env_with, counting, start}

abbrev good : Env
good = env_with counting

abbrev tagged : Bytes → TagReceiver.Message
tagged tag = record { err = err_no_error; payload = tag_text 5 tag; unset_mac = 0 }

abbrev phoned : PhoneReceiver.Message
phoned = record {
  err = err_no_error;
  payload = phone_text 5 (codes "123");
  len = length (phone_text 5 (codes "123"));
}

msg_consume-tag_text_example :
    TagReceiver.msg_consume good (tagged (codes "vip")) true (start counting)
    ≡ (user_tag_update good 5 (codes "vip") (pos 1) >> pure true) (start counting)
msg_consume-tag_text_example =
    msg_consume-tag_text good (tagged (codes "vip")) 5 (codes "vip") true (start counting) refl refl
      (omega arith) (omega arith) (refl, (refl, (refl, tt))) (omega arith)

msg_consume-phone_text_example :
    PhoneReceiver.msg_consume good phoned true (start counting)
    ≡ (user_update good 5 (codes "123") >> pure true) (start counting)
msg_consume-phone_text_example =
    msg_consume-phone_text good phoned 5 (codes "123") true (start counting) refl refl refl
      (omega arith)
