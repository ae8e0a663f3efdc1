-- ===== src/TagReceiver/Parsed.antt =====
-- user_tag_receiver.cpp: what a message with an address and a tag does.
use simple_dsp.Base.{
  ℕ, ◌+◌, ◌*◌, ◌/◌, ◌^◌, ◌<◌, ◌≤◌, ◌≡◌, refl, sym, ap, ◌∙◌, Bool, true, false, [], ◌∷◌, ◌++◌,
  Option, some, ltb, length, pos, arith,
}
use simple_dsp.Text.{Bytes, codes, is_space, skip_spaces, take_word}
use simple_dsp.Text.Decimal.{All}
use simple_dsp.Text.Scanf.{drop_literal-append}
use simple_dsp.Prog.{Outcome, undefined, pure, ◌>>◌}
use simple_dsp.Prog.Laws.{>>=_assoc}
use simple_dsp.World.{Env, World}
use simple_dsp.UserMap.MacAddress.{uint64_to_str, scan_bytes, sep, scan_hhx}
use simple_dsp.UserMap.MacAddress.RoundTrip.{Stops-space, scan_bytes-uint64_to_str}
use simple_dsp.UserMap.Tags.{user_tag_update}
use simple_dsp.Receiver.{err_no_error}
use simple_dsp.TagReceiver.{
  Message, read_word, scan_tag, read_tag_msg, consume_tag, consume_err, msg_consume,
}

-- `Mac a0:b1:c2:d3:e4:f5 tag`
abbrev pub tag_text : ℕ → Bytes → Bytes
tag_text mac tag = codes "Mac" ++ (32 ∷ (uint64_to_str mac ++ (32 ∷ tag)))

abbrev pub NoSpaces : Bytes → Type 0
NoSpaces = All (λ c. is_space c ≡ false)

take_word-NoSpaces : (x : Bytes) → NoSpaces x → take_word x ≡ x
unfolding take_word
take_word-NoSpaces [] h = refl
take_word-NoSpaces (c ∷ cs) h = rw (h.0, take_word-NoSpaces cs h.1) refl

read_word-tag : (tag : Bytes) → NoSpaces tag → read_word (some (32 ∷ tag)) ≡ tag
unfolding skip_spaces take_word
read_word-tag [] h = refl
read_word-tag (c ∷ cs) h = rw h.0 (take_word-NoSpaces (c ∷ cs) h)

-- `%hhx` skips the space in front of an address.
scan_bytes-space : (s : Bytes) (n : ℕ) → scan_bytes sep 5 (32 ∷ s) n ≡ scan_bytes sep 5 s n
unfolding scan_bytes scan_hhx skip_spaces
scan_bytes-space s n = refl

-- The text of an address and a tag without spaces is read back as these, under the two bytes that
-- memory held before.
read_tag_msg-tag_text :
    (before mac : ℕ) (tag : Bytes)
    → mac < 2 ^ 48
    → NoSpaces tag
    → read_tag_msg before (tag_text mac tag) ≡ (before / 2 ^ 48 * 2 ^ 48 + mac, tag)
unfolding read_tag_msg
read_tag_msg-tag_text before mac tag b h =
    ap (scan_tag before)
      (drop_literal-append (codes "Mac") (32 ∷ (uint64_to_str mac ++ (32 ∷ tag))))
    ∙ ap (λ (r : ℕ × Option Bytes). (r.0, read_word r.1))
        (scan_bytes-space (uint64_to_str mac ++ (32 ∷ tag)) before
          ∙ scan_bytes-uint64_to_str before mac (32 ∷ tag) b (Stops-space tag))
    ∙ ap (λ x. (before / 2 ^ 48 * 2 ^ 48 + mac, x)) (read_word-tag tag h)

module _ (e : Env) (m : Message) (mac : ℕ) (tag : Bytes) (run : Bool) (w : World e) where
  module _ (n : m.err ≡ err_no_error) (p : m.payload ≡ tag_text mac tag) where
    module _ (u : m.unset_mac < 2 ^ 48) (b : mac < 2 ^ 48) (h : NoSpaces tag) where
      consumes : msg_consume e m run w ≡ (consume_tag e (mac, tag) >> pure run) w
      unfolding msg_consume
      consumes =
          let low : m.unset_mac / 2 ^ 48 * 2 ^ 48 + mac ≡ mac = omega arith in
          ap (λ err. consume_err e err m run w) n
          ∙ ap (λ t. (consume_tag e (read_tag_msg m.unset_mac t) >> pure run) w) p
          ∙ ap (λ r. (consume_tag e r >> pure run) w)
              (read_tag_msg-tag_text m.unset_mac mac tag b h ∙ ap (λ k. (k, tag)) low)

      -- A message with an address of 48 bits and a tag of 39 bytes at most, none of them a space,
      -- makes the receiver give that tag to that address with the value 1, if the bytes that stood in
      -- memory above the address are 0.
      pub msg_consume-tag_text :
          length tag ≤ 39
          → msg_consume e m run w ≡ (user_tag_update e mac tag (e.d.of_int (pos 1)) >> pure run) w
      unfolding consume_tag
      msg_consume-tag_text l =
          let t : ltb (length tag) 40 ≡ true = ground arith in
          consumes
          ∙ rw t (
              sym (
                >>=_assoc (user_tag_update e mac tag (e.d.of_int (pos 1))) (λ z. pure tt)
                  (λ u. pure run) w))

      -- With a longer tag the receiver writes behind its buffer.
      pub msg_consume-long_tag : 39 < length tag → (msg_consume e m run w).0 ≡ undefined
      unfolding consume_tag
      msg_consume-long_tag l =
          let t : ltb (length tag) 40 ≡ false = ground arith in
          ap (λ (r : Outcome Bool × World e). r.0) consumes ∙ rw t refl
