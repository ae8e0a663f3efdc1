-- ===== src/Receiver/Rect.antt =====
-- ap_signal_receiver.cpp: the message of a camera, from its text to the stored position.
use simple_dsp.Base.{
  ℕ, ◌+◌, ◌^◌, ◌<◌, ◌≡◌, refl, ap, ◌∙◌, Bool, true, List, [], ◌∷◌, ◌++◌, Option, some, ◌*◌, ◌/◌,
  lt→ltb, ℤ, pos, to_int32, arith,
}
use simple_dsp.Text.{Bytes, codes, int_min, int_max, in_range}
use simple_dsp.Text.Scanf.{print_ints, scan_ints-print_ints, drop_literal-append, IsReadable}
use simple_dsp.Prog.{Prog, Outcome, done, continue, ◌>>◌, pure}
use simple_dsp.Prog.Laws.{same_state}
use simple_dsp.Store.Contract.{IsStore, IsKey}
use simple_dsp.World.{Env, World}
use simple_dsp.UserMap.MacAddress.{uint64_to_str}
use simple_dsp.UserMap.MacAddress.RoundTrip.{Stops, Stops-space, scan_bytes-uint64_to_str}
use simple_dsp.UserMap.Position.{user_add, user_query, time_value}
use simple_dsp.UserMap.Position.Stored.{level}
use simple_dsp.UserMap.Position.Query.{user_query-user_add}
use simple_dsp.Receiver.{
  Message, err_no_error, rect_directives, scan_behind, scan_mac_msg, read_mac_msg, msg_start_with,
  msg_consume, consume_err, consume_payload, consume_mac, add_rect, middle,
}

-- The rectangle of a user and the mall.
pub record Rect : Type 0 where
  pub x : ℤ
  pub y : ℤ
  pub width : ℤ
  pub height : ℤ
  pub mall_id : ℤ

abbrev pub numbers : Rect → List ℤ
numbers r = r.x ∷ r.y ∷ r.width ∷ r.height ∷ r.mall_id ∷ []

abbrev pub IsInt : ℤ → Type 0
IsInt z = in_range int_min int_max z ≡ true

pub record IsRect (r : Rect) : Type 0 where
  pub x_in : IsInt r.x
  pub y_in : IsInt r.y
  pub width_in : IsInt r.width
  pub height_in : IsInt r.height
  pub mall_in : IsInt r.mall_id

-- `Mac:a0:b1:c2:d3:e4:f5 Rect:1,2,3,4 Group:5`
unfoldable pub rect_text : ℕ → Rect → Bytes
rect_text mac r = codes "Mac:" ++ (uint64_to_str mac ++ print_ints rect_directives (numbers r))

readable : (r : Rect) → IsRect r → IsReadable rect_directives (numbers r)
unfolding print_ints
readable r h = (
  refl,
  (
    h.x_in,
    refl,
    (h.y_in, refl, (h.width_in, refl, (h.height_in, refl, (refl, (h.mall_in, tt, refl))))),
  ),
)

text_Stops : (r : Rect) → Stops (print_ints rect_directives (numbers r))
unfolding print_ints
text_Stops r = Stops-space _

-- The text of an address of 48 bits and of a rectangle of `int`s is read back as these.
pub read_mac_msg-rect_text :
    (mac : ℕ) (r : Rect)
    → mac < 2 ^ 48
    → IsRect r
    → read_mac_msg (rect_text mac r) ≡ (mac, numbers r)
unfolding read_mac_msg rect_text
read_mac_msg-rect_text mac r b h =
    let text = print_ints rect_directives (numbers r) in
    let low : 0 / 2 ^ 48 * 2 ^ 48 + mac ≡ mac = omega arith in
    let zs : scan_behind (some text) ≡ numbers r =
      scan_ints-print_ints rect_directives (numbers r) (readable r h) in
    ap scan_mac_msg (drop_literal-append (codes "Mac:") (uint64_to_str mac ++ text))
    ∙ ap (λ (p : ℕ × Option Bytes). (p.0, scan_behind p.1))
        (scan_bytes-uint64_to_str 0 mac text b (text_Stops r))
    ∙ ap (λ n. (n, scan_behind (some text))) low
    ∙ ap (λ l. (mac, l)) zs

starts_mac : (mac : ℕ) (r : Rect) → msg_start_with (rect_text mac r) (codes "Mac:") ≡ true
unfolding msg_start_with rect_text
starts_mac mac r = refl

module _ (e : Env) (m : Message) (mac : ℕ) (r : Rect) where
  -- `user_add` in the middle of the rectangle.
  abbrev pub add_middle : Prog (World e) ℤ
  add_middle =
      user_add e mac (middle e r.x r.width) (middle e r.y r.height) int_min (to_int32 (pos m.len))
        r.mall_id

  module _ (t : m.payload ≡ rect_text mac r) (b : mac < 2 ^ 48) (p : 0 < mac) (h : IsRect r) where
    consume_payload-rect : (w : World e) → consume_payload e m w ≡ (add_middle >> pure tt) w
    unfolding consume_payload consume_mac add_rect
    consume_payload-rect w =
        rw (t, starts_mac mac r, read_mac_msg-rect_text mac r b h, lt→ltb 0 mac p) refl

    module _ (s : IsStore e.d e.m) (run : Bool) (w : World e) where
      -- A message that names an address, a rectangle and a mall leaves the middle of the rectangle as
      -- what `user_query` gives for the address in that mall, however the handler ends; the level is
      -- the one from before. The time of the call must be one whose bytes the database takes as a
      -- text, and the address is not 0.
      pub user_query-msg_consume :
          m.err ≡ err_no_error
          → IsKey (time_value (e.clock w.reads))
          → (user_query e mac r.mall_id (msg_consume e m run w).1).0
            ≡ done (record {
              mac = mac;
              x = e.d.to_float (s.rounded (middle e r.x r.width));
              y = e.d.to_float (s.rounded (middle e r.y r.height));
              z =
                  level e s r.mall_id mac
                    (middle e r.x r.width)
                    (middle e r.y r.height)
                    int_min
                    (e.clock w.reads)
                    w.db;
            })
      unfolding msg_consume
      user_query-msg_consume n k =
          let q : (msg_consume e m run w).1 ≡ (add_middle w).1 =
            ap (λ err. (consume_err e err m run w).1) n
            ∙ ap (λ (a : Outcome (Unit {0}) × World e). (continue a.0 (λ u. pure run) a.1).1)
                (consume_payload-rect w)
            ∙ same_state (add_middle w).0 tt run (add_middle w).1 in
          ap (λ v. (user_query e mac r.mall_id v).0) q
          ∙ user_query-user_add e s mac (middle e r.x r.width) (middle e r.y r.height) int_min
              (to_int32 (pos m.len)) r.mall_id w refl k
