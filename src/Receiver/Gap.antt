-- ===== src/Receiver/Gap.antt =====
-- ap_signal_receiver.cpp: the time that `parse_apmac_msg` writes is not the time it reads back.
use simple_dsp.Base.{
  ℕ, suc, Option, ◌/◌, ◌%◌, ◌<◌, ◌≤◌, ◌≡◌, ◌≢◌, refl, sym, subst, ap, ◌∙◌, ◌∷◌, ◌++◌, ℤ, pos,
  get_or, arith,
}
use simple_dsp.Text.{Bytes, codes, show_nat, show_int}
use simple_dsp.Prog.{Prog, Outcome, done, throws, blocks, undefined, pure, continue, ◌>>=◌, ◌>>◌}
use simple_dsp.Keys.{get_data_entry_sstream}
use simple_dsp.Keys.Fields.{
  IsField, literal-IsKey, show_nat-IsKey, show_nat-IsField, show_int-IsField, split_field,
  append_cancel_left,
}
use simple_dsp.Store.{Ty}
use simple_dsp.Store.Contract.{IsStore, IsKey, IsPlain, or_default}
use simple_dsp.Text.Decimal.{All-append}
use simple_dsp.World.{Env, World}
use simple_dsp.UserMap.Key.{location_key}
use simple_dsp.UserMap.Key.Plain.{location_key-IsKey, location_key_fields}
use simple_dsp.UserMap.MacAddress.{hex_digit, hex_byte, mac_byte, uint64_to_str}
use simple_dsp.UserMap.Identity.{user_get_id}
use simple_dsp.UserMap.Visits.{
  update_mac_location_time, update_location_update_time, tair_get_user_time,
}
use simple_dsp.UserMap.Position.Frame.{IsLocation, Keeps, Keeps-get}
use simple_dsp.UserMap.Position.Parts.{
  Keeps-user_get_id, Keeps-vip_arrive_time_record, Keeps-update_location,
}
use simple_dsp.Receiver.{note_seen, seen_by_ap}

hex_digit_plain :
    (n : ℕ)
    → n < 16
    → (33 ≤ hex_digit n) × (hex_digit n ≢ 37) × (hex_digit n ≢ 58) × (hex_digit n ≢ 116)
unfolding hex_digit
hex_digit_plain n h = (ground arith, ground arith, ground arith, ground arith)

hex_byte-IsKey : (b : ℕ) → b < 256 → IsKey (hex_byte b)
unfolding hex_byte
hex_byte-IsKey b h =
    let (p, q, r, s) = hex_digit_plain (b / 16) (omega arith) in
    let (p', q', r', s') = hex_digit_plain (b % 16) (omega arith) in ((p, q), ((p', q'), tt))

hex_byte-IsField : (b : ℕ) → b < 256 → IsField (hex_byte b)
unfolding hex_byte
hex_byte-IsField b h =
    let (p, q, r, s) = hex_digit_plain (b / 16) (omega arith) in
    let (p', q', r', s') = hex_digit_plain (b % 16) (omega arith) in (r, (r', tt))

byte_small : (k num : ℕ) → mac_byte k num < 256
unfolding mac_byte
byte_small k num = omega arith

mac_byte-IsKey : (k num : ℕ) → IsKey (hex_byte (mac_byte k num))
mac_byte-IsKey k num = hex_byte-IsKey (mac_byte k num) (byte_small k num)

followed :
    (k num : ℕ) (rest : Bytes) → IsKey rest → IsKey (hex_byte (mac_byte k num) ++ (58 ∷ rest))
followed k num rest h =
    All-append IsPlain _ _ (mac_byte-IsKey k num) ((omega arith, omega arith), h)

uint64_to_str-IsKey : (mac : ℕ) → IsKey (uint64_to_str mac)
unfolding uint64_to_str
uint64_to_str-IsKey mac = followed 5 mac _ (
    followed 4 mac _
      (followed 3 mac _ (followed 2 mac _ (followed 1 mac _ (mac_byte-IsKey 0 mac)))))

-- The key that `parse_apmac_msg` reads: the address is written as a text.
abbrev pub stamp_key : ℕ → Bytes
stamp_key mac = location_key (pos 2) (uint64_to_str mac) (codes "time")

IsKey-time : IsKey (codes "time")
IsKey-time = literal-IsKey (codes "time") refl

stamp_key-IsKey : (mac : ℕ) → IsKey (stamp_key mac)
stamp_key-IsKey mac = location_key-IsKey (pos 2) _ _ (uint64_to_str-IsKey mac) IsKey-time

stamp_key-IsLocation : (mac : ℕ) → IsLocation (stamp_key mac)
unfolding get_data_entry_sstream
stamp_key-IsLocation mac =
    rw
      (location_key_fields (pos 2) (uint64_to_str mac) (codes "time") (uint64_to_str-IsKey mac)
        IsKey-time)
      (refl, refl)

-- It is written nowhere with the address as a number.
pub stamp_key_ne : (n mac : ℕ) → location_key (pos 2) (show_nat n) (codes "time") ≢ stamp_key mac
unfolding get_data_entry_sstream uint64_to_str hex_byte
stamp_key_ne n mac e =
    let e' =
      sym (location_key_fields (pos 2) (show_nat n) (codes "time") (show_nat-IsKey n) IsKey-time)
      ∙ e
      ∙ location_key_fields (pos 2) (uint64_to_str mac) (codes "time") (uint64_to_str-IsKey mac)
          IsKey-time in
    let r = append_cancel_left (codes "location:") _ _ e' in
    let (h, r') =
      split_field (show_int (pos 2)) (show_int (pos 2)) _ _ (show_int-IsField (pos 2))
        (show_int-IsField (pos 2)) r in
    let (h', r'') =
      split_field (show_nat n) (hex_byte (mac_byte 5 mac)) _ _ (show_nat-IsField n)
        (hex_byte-IsField (mac_byte 5 mac) (byte_small 5 mac)) r' in
    let (p, q, c, t) =
      hex_digit_plain (mac_byte 4 mac / 16) (let b = byte_small 4 mac in omega arith) in
    t (sym (ap (λ s. get_or s 0 0) r''))

-- The value of an action that returns.
abbrev pub Gives : {A : Type 0} → (A → Type 0) → Outcome A → Type 0
Gives P (done a) = P a
Gives P r = Unit

module _ (e : Env) (s : IsStore e.d e.m) (mac : ℕ) where
  -- What the key holds that `parse_apmac_msg` reads.
  abbrev pub stamp : e.m.State → Option ℤ
  stamp db = s.cell db Ty.time (stamp_key mac)

  -- `m` leaves it alone.
  record Kept {A : Type 0} (m : Prog (World e) A) : Type 0 where
    same : (w : World e) → stamp (m w).1.db ≡ stamp w.db

  Kept-Keeps : {A : Type 0} (m : Prog (World e) A) → Keeps e s m → Kept m
  Kept-Keeps m h = record {
    same = λ w. h.same w Ty.time (stamp_key mac) (stamp_key-IsLocation mac);
  }

  Kept-continue :
      {A B : Type 0} (r : Outcome A) (f : A → Prog (World e) B)
      → ((a : A) → Kept (f a))
      → Kept (continue r f)
  Kept-continue (done a) f h = record { same = λ w. (h a).same w }
  Kept-continue throws f h = record { same = λ w. refl }
  Kept-continue blocks f h = record { same = λ w. refl }
  Kept-continue undefined f h = record { same = λ w. refl }

  Kept-bind :
      {A B : Type 0} (m : Prog (World e) A) (f : A → Prog (World e) B)
      → Kept m
      → ((a : A) → Kept (f a))
      → Kept (m >>= f)
  Kept-bind m f h k = record { same = λ w. (Kept-continue (m w).0 f k).same (m w).1 ∙ h.same w }

  Kept-update : (n : ℕ) (t : ℤ) → Kept (update_mac_location_time e (pos 2) n t)
  unfolding update_mac_location_time
  Kept-update n t = record {
    same = λ w.
        s.cell-set_ne Ty.time (location_key (pos 2) (show_nat n) (codes "time")) t w.db Ty.time
          (stamp_key mac)
          (location_key-IsKey (pos 2) (show_nat n) (codes "time") (show_nat-IsKey n) IsKey-time) tt
          (stamp_key_ne n mac);
  }

  Kept-get_time : (n : ℕ) → Kept (tair_get_user_time e (pos 2) (uint64_to_str n) (codes "time"))
  unfolding tair_get_user_time
  Kept-get_time n = Kept-Keeps _ (Keeps-get e s Ty.time (stamp_key n) (pos 0) (stamp_key-IsKey n))

  -- `note_seen` up to the number of the user.
  abbrev before_stamp : ℕ → ℤ → Prog (World e) ℤ
  before_stamp n now = do
    update_mac_location_time e (pos 2) n now
    update_location_update_time e (pos 2) n now
    user_get_id e n

  Kept-before : (n : ℕ) (now : ℤ) → Kept (before_stamp n now)
  Kept-before n now = Kept-bind _ _ (Kept-update n now) (λ u.
      Kept-bind _ _ (Kept-Keeps _ (Keeps-update_location e s (pos 2) n now))
        (λ v. Kept-Keeps _ (Keeps-user_get_id e s n)))

  Kept-note_seen : (n : ℕ) (now : ℤ) → Kept (note_seen e n now)
  unfolding note_seen
  Kept-note_seen n now = Kept-bind _ _ (Kept-update n now) (λ u.
      Kept-bind _ _ (Kept-Keeps _ (Keeps-update_location e s (pos 2) n now)) (λ v.
        Kept-bind _ _ (Kept-Keeps _ (Keeps-user_get_id e s n))
          (λ id. Kept-bind _ _ (Kept-get_time n) (λ prev. record { same = λ w. refl }))))

  Kept-seen_by_ap : (n : ℕ) → Kept (seen_by_ap e n)
  unfolding seen_by_ap
  Kept-seen_by_ap n = record {
    same = λ w.
        (Kept-bind _ _ (Kept-note_seen n (e.clock w.reads)) (λ seen.
            Kept-Keeps _
              (Keeps-vip_arrive_time_record e s seen.0 (pos 2) seen.1 (e.clock w.reads)))).same
          (record w { reads = suc w.reads });
  }

  read_stamp :
      (r : Outcome ℤ) (w : World e)
      → Gives
          (λ q. q.1 ≡ or_default (pos 0) (stamp w.db))
          (continue {B = ℤ × ℤ} r
            (λ user_id. do
              prev_t ← tair_get_user_time e (pos 2) (uint64_to_str mac) (codes "time")
              pure (user_id, prev_t))
            w).0
  unfolding tair_get_user_time
  read_stamp (done a) w = s.get_value Ty.time (stamp_key mac) (pos 0) w.db (stamp_key-IsKey mac)
  read_stamp throws w = tt
  read_stamp blocks w = tt
  read_stamp undefined w = tt

  -- Where it returns, the time that `parse_apmac_msg` takes for the last one at which an address was
  -- seen is what stood under a key of its own, 0 if nothing did, and no earlier call for any address
  -- changes what stands there, although each writes its time for that purpose.
  pub note_seen-seen_by_ap :
      (w : World e) (earlier : ℕ) (now : ℤ)
      → Gives
          (λ q. q.1 ≡ or_default (pos 0) (stamp w.db))
          (note_seen e mac now (seen_by_ap e earlier w).1).0
  unfolding note_seen update_mac_location_time tair_get_user_time update_location_update_time
  note_seen-seen_by_ap w earlier now =
      let v = (seen_by_ap e earlier w).1 in
      subst
        (λ o.
          Gives (λ q. q.1 ≡ or_default (pos 0) o)
            (note_seen e mac now (seen_by_ap e earlier w).1).0)
        ((Kept-before mac now).same v ∙ (Kept-seen_by_ap earlier).same w)
        (read_stamp (before_stamp mac now v).0 (before_stamp mac now v).1)
