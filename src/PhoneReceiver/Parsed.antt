-- ===== src/PhoneReceiver/Parsed.antt =====
-- user_phone_receiver.cpp: what a message with an address and a phone number does.
use simple_dsp.Base.{
  ℕ, ◌^◌, ◌<◌, ◌≤◌, ◌≡◌, refl, sym, ap, ◌∙◌, Bool, true, ◌∷◌, ◌++◌, Option, leb, length, drop,
  arith,
}
use simple_dsp.Text.{Bytes}
use simple_dsp.Prog.{pure, ◌>>◌}
use simple_dsp.Prog.Laws.{>>=_assoc}
use simple_dsp.World.{Env, World}
use simple_dsp.UserMap.MacAddress.{hex_byte}
use simple_dsp.UserMap.MacAddress.RoundTrip.{Stops-dash, Stops-bar, text_from, scan_bytes-printed}
use simple_dsp.UserMap.Identity.{user_update}
use simple_dsp.Receiver.{err_no_error}
use simple_dsp.PhoneReceiver.{Message, read_mac, consume_phone, consume_err, msg_consume}

-- `a0-b1-c2-d3-e4-f5|phone`
abbrev pub phone_text : ℕ → Bytes → Bytes
phone_text mac phone = text_from 45 5 mac ++ (124 ∷ phone)

read_mac-phone_text :
    (mac : ℕ) (phone : Bytes) → mac < 2 ^ 48 → read_mac (phone_text mac phone) ≡ mac
unfolding read_mac
read_mac-phone_text mac phone b =
    ap (λ (r : ℕ × Option Bytes). r.0)
      (scan_bytes-printed 45 Stops-dash 0 mac (124 ∷ phone) b (Stops-bar phone))
    ∙ omega arith

drop-phone_text : (mac : ℕ) (phone : Bytes) → drop 18 (phone_text mac phone) ≡ phone
unfolding hex_byte
drop-phone_text mac phone = refl

length-phone_text : (mac : ℕ) (phone : Bytes) → 18 ≤ length (phone_text mac phone)
unfolding hex_byte
length-phone_text mac phone = omega arith

module _ (e : Env) (m : Message) (mac : ℕ) (phone : Bytes) (run : Bool) (w : World e) where
  -- A message with an address of 48 bits and a phone number makes the receiver store that number for
  -- that address.
  pub msg_consume-phone_text :
      m.err ≡ err_no_error
      → m.payload ≡ phone_text mac phone
      → m.len ≡ length m.payload
      → mac < 2 ^ 48
      → msg_consume e m run w ≡ (user_update e mac phone >> pure run) w
  unfolding msg_consume consume_phone
  msg_consume-phone_text n p l b =
      let long : leb 18 m.len ≡ true =
        let q = length-phone_text mac phone in
        let r : m.len ≡ length (phone_text mac phone) = l ∙ ap length p in ground arith in
      ap (λ err. consume_err e err m run w) n
      ∙ rw (long, p, read_mac-phone_text mac phone b, drop-phone_text mac phone)
          (sym (>>=_assoc (user_update e mac phone) (λ z. pure tt) (λ u. pure run) w))
