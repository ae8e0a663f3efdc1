-- ===== src/Receiver.antt =====
-- ap_signal_receiver.cpp: the messages of access points and cameras, and the loop that takes them.
pub mod Counts
pub mod Listed
pub mod Rect
pub mod Gap
pub mod Loop
use simple_dsp.Base.{
  ℕ, zero, suc, ◌+◌, ◌-◌, ◌/◌, ◌%◌, ◌^◌, Bool, true, false, ◌&&◌, List, [], ◌∷◌, ◌++◌, Option, none,
  some, leb, ltb, ◌==◌, length, drop, take, get_or, if◌then◌else◌, ℤ, pos, ◌-ℤ◌, eqb_ℤ, not,
  to_int32, pos_part,
}
use simple_dsp.Text.{Bytes, codes, int_min}
use simple_dsp.Text.Scanf.{Directive, space, literal, decimal, drop_literal, scan_ints}
use simple_dsp.Prog.{Prog, Outcome, done, throws, blocks, undefined, pure, when, ◌>>=◌, ◌>>◌}
use simple_dsp.Kafka.{Broker, Status, run_consumer}
use simple_dsp.UserMap.Start.{uuid}
use simple_dsp.World.{Env, World, time_now}
use simple_dsp.UserMap.MacAddress.{uint64_to_str, str_to_uint64, scan_bytes, sep}
use simple_dsp.UserMap.Identity.{user_get_id}
use simple_dsp.UserMap.Tags.{apmac_get_shopid, mac_is_vip}
use simple_dsp.UserMap.Position.{user_add}
use simple_dsp.UserMap.Visits.{
  datetime_str, update_mac_location_time, update_location_update_time, tair_get_user_time,
  vip_arrive_time_record, get_user_location_time, update_user_location_time, shop_user_duration_add,
  update_user_arrive_time, update_shopid_of_user_location,
}

-- `RdKafka::ErrorCode`, as far as the handler tells the codes apart.
pub data Err : Type 0 where
  err_timed_out : Err
  err_no_error : Err
  err_partition_eof : Err
  err_other : Err

-- What the handler reads before it is set: the bytes of a `union Mac`, at each offset where it scans
-- one, and the four numbers of the rectangle.
pub record Unset : Type 0 where
  pub mac : ℕ → ℕ
  pub x : ℤ
  pub y : ℤ
  pub width : ℤ
  pub height : ℤ

-- A message: its payload up to the first NUL and its length by Kafka. `behind` is the text that
-- starts at an offset behind the NUL, and `raw` the 17 bytes at an offset that are not all text.
pub record Message : Type 0 where
  pub err : Err
  pub payload : Bytes
  pub len : ℕ
  pub behind : ℕ → Bytes
  pub raw : ℕ → Bytes
  pub unset : Unset

unfoldable pub msg_start_with : Bytes → Bytes → Bool
msg_start_with msg [] = true
msg_start_with [] (p ∷ prefix) = false
msg_start_with (c ∷ msg) (p ∷ prefix) = (c == p) && msg_start_with msg prefix

-- `msg + k`
unfoldable pub text_at : Message → ℕ → Bytes
text_at m k = if leb k (length m.payload) then drop k m.payload else m.behind k

-- `std::string(msg + k, 17)`
unfoldable pub seventeen_at : Message → ℕ → Bytes
seventeen_at m k = if leb (k + 17) (length m.payload) then take 17 (drop k m.payload) else m.raw k

unfoldable pub mac_at : Message → ℕ → ℕ
mac_at m k = str_to_uint64 (m.unset.mac k) (text_at m k)

-- `(strlen(msg) - offset + 1) / 19`, computed in 64 bits without sign and stored in an `int`.
unfoldable pub num_macs : ℕ → Message → ℤ
num_macs offset m = to_int32 (pos ((length m.payload + (2 ^ 64 - offset) + 1) % 2 ^ 64 / 19))

abbrev pub ap_offset : ℕ
ap_offset = 30

abbrev pub closer_offset : ℕ
closer_offset = 37

abbrev pub set_mac : ℕ × Option Bytes → ℕ
set_mac r = r.0

abbrev pub rect_directives : List Directive
rect_directives =
    space
    ∷ literal (codes "Rect:")
    ∷ decimal
    ∷ literal (codes ",")
    ∷ decimal
    ∷ literal (codes ",")
    ∷ decimal
    ∷ literal (codes ",")
    ∷ decimal
    ∷ space
    ∷ literal (codes "Group:")
    ∷ decimal
    ∷ []

abbrev pub scan_behind : Option Bytes → List ℤ
scan_behind none = []
scan_behind (some rest) = scan_ints rect_directives rest

abbrev pub scan_mac_msg : Option Bytes → ℕ × List ℤ
scan_mac_msg none = (0, [])
scan_mac_msg (some s) = let (mac, rest) = scan_bytes sep 5 s 0 in (mac, scan_behind rest)

-- The `sscanf` of `msg_consume`: the number of the `union Mac`, which starts as 0, and the numbers of
-- `%d` that were read.
unfoldable pub read_mac_msg : Bytes → ℕ × List ℤ
read_mac_msg msg = scan_mac_msg (drop_literal (codes "Mac:") msg)

module _ (e : Env) where
  -- `for (int i = 0; i < n; ++i, offset += 19) body(offset)`
  unfoldable pub for_offsets : (ℕ → Prog (World e) (Unit {0})) → ℕ → ℕ → Prog (World e) (Unit {0})
  for_offsets body zero offset = pure tt
  for_offsets body (suc n) offset = body offset >> for_offsets body n (offset + 19)

  -- The body of the loop of `parse_apmac_msg`, up to the time that it reads back.
  unfoldable pub note_seen : ℕ → ℤ → Prog (World e) (ℤ × ℤ)
  note_seen mac now = do
    update_mac_location_time e (pos 2) mac now
    update_location_update_time e (pos 2) mac now
    user_id ← user_get_id e mac
    prev_t ← tair_get_user_time e (pos 2) (uint64_to_str mac) (codes "time")
    pure (user_id, prev_t)

  unfoldable pub seen_by_ap : ℕ → Prog (World e) (Unit {0})
  seen_by_ap mac = do
    now ← time_now e
    seen ← note_seen mac now
    vip_arrive_time_record e seen.0 (pos 2) seen.1 now

  unfoldable pub parse_apmac_msg : Message → Prog (World e) (Unit {0})
  parse_apmac_msg m = do
    shop_id ← apmac_get_shopid e (mac_at m 6)
    for_offsets (λ k. seen_by_ap (mac_at m k)) (pos_part (num_macs ap_offset m)) ap_offset

  unfoldable pub stay_in_shop : ℤ → ℤ → ℕ → Bool → ℤ → Prog (World e) (Unit {0})
  stay_in_shop shop_id user_id mac is_vip now = do
    last_time ← get_user_location_time e (pos 2) shop_id mac
    update_user_location_time e (pos 2) shop_id user_id mac now
    shop_user_duration_add e (pos 2) shop_id user_id (datetime_str e now) (now -ℤ last_time)
    update_user_arrive_time e (pos 2) shop_id user_id mac last_time now is_vip
    update_shopid_of_user_location e user_id shop_id now

  -- The body of the loop of `parse_apmac_closer_msg`.
  unfoldable pub close_to_ap : ℤ → ℤ → ℕ → Bytes → Prog (World e) (Unit {0})
  close_to_ap shop_id now mac mac_text = do
    is_vip ← mac_is_vip e mac_text shop_id
    user_id ← user_get_id e mac
    when (not (eqb_ℤ shop_id (pos 0))) (stay_in_shop shop_id user_id mac is_vip now)

  unfoldable pub parse_apmac_closer_msg : Message → Prog (World e) (Unit {0})
  parse_apmac_closer_msg m = do
    shop_id ← apmac_get_shopid e (mac_at m 13)
    now ← time_now e
    for_offsets (λ k. close_to_ap shop_id now (mac_at m k) (seventeen_at m k))
        (pos_part (num_macs closer_offset m)) closer_offset

  -- `x + width / 2.0`
  unfoldable pub middle : ℤ → ℤ → e.d.W
  middle x width = e.d.add (e.d.of_int x) (e.d.div (e.d.of_int width) (e.d.of_int (pos 2)))

  -- `user_add` with the numbers that were read, and the others as they were.
  unfoldable pub add_rect : Unset → ℕ → ℕ → List ℤ → Prog (World e) ℤ
  add_rect u len mac zs =
      user_add e mac (middle (get_or zs 0 u.x) (get_or zs 2 u.width))
        (middle (get_or zs 1 u.y) (get_or zs 3 u.height)) int_min (to_int32 (pos len))
        (get_or zs 4 (pos 2))

  unfoldable pub consume_mac : Message → ℕ × List ℤ → Prog (World e) (Unit {0})
  consume_mac m (mac, zs) = if ltb 0 mac then add_rect m.unset m.len mac zs >> pure tt else pure tt

  unfoldable pub consume_payload : Message → Prog (World e) (Unit {0})
  consume_payload m =
      if msg_start_with m.payload (codes "Mac:")
      then consume_mac m (read_mac_msg m.payload)
      else if msg_start_with m.payload (codes "ApMac:")
      then parse_apmac_msg m
      else if msg_start_with m.payload (codes "ApMac-Closer:")
      then parse_apmac_closer_msg m
      else pure tt

  -- `exit_eof`, which nothing sets.
  abbrev pub exit_eof : Bool
  exit_eof = false

  abbrev pub consume_err : Err → Message → Bool → Prog (World e) Bool
  consume_err err_timed_out m run = pure run
  consume_err err_no_error m run = consume_payload m >> pure run
  consume_err err_partition_eof m run = pure (if exit_eof then false else run)
  consume_err err_other m run = pure false

  -- The value of `run` after the message.
  unfoldable pub msg_consume : Message → Bool → Prog (World e) Bool
  msg_consume m run = consume_err m.err m run

  -- `main`, with a client's id by `uuid`; `rand k` is what the call number `k` of `rand()` gives.
  abbrev pub main_as : Broker Message → Outcome Bytes → Prog (World e) Status
  main_as b (done client_id) w =
      run_consumer msg_consume b client_id (codes "lbs-point") b.offset_end w
  main_as b throws w = (throws, w)
  main_as b blocks w = (blocks, w)
  main_as b undefined w = (undefined, w)

  unfoldable pub main : (ℕ → ℕ) → Broker Message → Prog (World e) Status
  main rand b = main_as b (uuid rand)
