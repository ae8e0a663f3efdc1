-- ===== src/Receiver/Listed.antt =====
-- ap_signal_receiver.cpp: the two parsers of access points go through the addresses of the list.
use simple_dsp.Base.{
  ℕ, ◌+◌, ◌-◌, ◌*◌, ◌/◌, ◌^◌, ◌<◌, ◌≤◌, ◌≡◌, refl, sym, subst, ap, ◌∙◌, true, List, [], ◌∷◌, ◌++◌,
  append_assoc, leb, length, drop, take, length-append, pos_part, arith,
}
use simple_dsp.Text.{Bytes, codes}
use simple_dsp.Prog.{Prog, pure, ◌>>=◌, ◌>>◌}
use simple_dsp.Prog.Laws.{>>=-congr}
use simple_dsp.World.{Env, World, time_now}
use simple_dsp.UserMap.MacAddress.{uint64_to_str, hex_byte}
use simple_dsp.UserMap.MacAddress.RoundTrip.{
  Stops, Stops-space, Stops-comma, Stops-bracket, str_to_uint64-printed,
}
use simple_dsp.UserMap.Tags.{apmac_get_shopid}
use simple_dsp.Receiver.{
  Message, text_at, mac_at, seventeen_at, num_macs, ap_offset, closer_offset, for_offsets,
  seen_by_ap, close_to_ap, parse_apmac_msg, parse_apmac_closer_msg,
}
use simple_dsp.Receiver.Counts.{num_macs_lem}

-- The addresses between brackets, behind the opening one: `a0:…:f5, a0:…:f6]`.
abbrev pub macs_text : List ℕ → Bytes
macs_text [] = codes "]"
macs_text (mac ∷ []) = uint64_to_str mac ++ codes "]"
macs_text (mac ∷ next ∷ macs) = uint64_to_str mac ++ (codes ", " ++ macs_text (next ∷ macs))

abbrev pub AllMacs : List ℕ → Type 0
AllMacs [] = Unit
AllMacs (mac ∷ macs) = (mac < 2 ^ 48) × AllMacs macs

drop-append : (pre t : Bytes) → drop (length pre) (pre ++ t) ≡ t
drop-append [] t = refl
drop-append (c ∷ pre) t = drop-append pre t

length-uint64 : (mac : ℕ) (t : Bytes) → length (uint64_to_str mac ++ t) ≡ 17 + length t
unfolding uint64_to_str hex_byte
length-uint64 mac t = omega arith

take-uint64 : (mac : ℕ) (t : Bytes) → take 17 (uint64_to_str mac ++ t) ≡ uint64_to_str mac
unfolding uint64_to_str hex_byte
take-uint64 mac t = refl

length-macs_text :
    (mac : ℕ) (macs : List ℕ) → length (macs_text (mac ∷ macs)) + 1 ≡ 19 * length (mac ∷ macs)
length-macs_text mac [] = rw (length-uint64 mac (codes "]")) refl
length-macs_text mac (next ∷ macs) =
    rw (length-uint64 mac (codes ", " ++ macs_text (next ∷ macs)))
      (let q = length-macs_text next macs in omega arith)

rounds_of : (macs : List ℕ) → (length (macs_text macs) + 1) / 19 ≡ length macs
rounds_of [] = refl
rounds_of (mac ∷ macs) = let q = length-macs_text mac macs in omega arith

-- At an offset where an address is printed, it is read.
module _ (m : Message) (pre : Bytes) (mac : ℕ) (t : Bytes) where
  module _ (p : m.payload ≡ pre ++ (uint64_to_str mac ++ t)) where
    long_enough : length pre + 17 ≤ length m.payload
    long_enough =
        rw (p, length-append pre (uint64_to_str mac ++ t), length-uint64 mac t) (omega arith)

    rest_at : drop (length pre) m.payload ≡ uint64_to_str mac ++ t
    rest_at = ap (drop (length pre)) p ∙ drop-append pre (uint64_to_str mac ++ t)

    mac_at_printed :
        m.unset.mac (length pre) < 2 ^ 48 → mac < 2 ^ 48 → Stops t → mac_at m (length pre) ≡ mac
    unfolding mac_at text_at
    mac_at_printed u b s =
        let l : leb (length pre) (length m.payload) ≡ true = let q = long_enough in ground arith in
        rw (l, rest_at) (str_to_uint64-printed (m.unset.mac (length pre)) mac t b s ∙ omega arith)

    seventeen_at_printed : seventeen_at m (length pre) ≡ uint64_to_str mac
    unfolding seventeen_at
    seventeen_at_printed =
        let l : leb (length pre + 17) (length m.payload) ≡ true =
          let q = long_enough in ground arith in
        rw (l, rest_at) (take-uint64 mac t)

module _ (e : Env) where
  abbrev pub each : (ℕ → Prog (World e) (Unit {0})) → List ℕ → Prog (World e) (Unit {0})
  each f [] = pure tt
  each f (mac ∷ macs) = f mac >> each f macs

  module _ (m : Message) (body : ℕ → Bytes → Prog (World e) (Unit {0})) where
    abbrev body_at : ℕ → Prog (World e) (Unit {0})
    body_at k = body (mac_at m k) (seventeen_at m k)

    abbrev printed : ℕ → Prog (World e) (Unit {0})
    printed mac = body mac (uint64_to_str mac)

    module _ (u : (k : ℕ) → m.unset.mac k < 2 ^ 48) where
      body_at-printed :
          (pre : Bytes) (mac : ℕ) (t : Bytes)
          → m.payload ≡ pre ++ (uint64_to_str mac ++ t)
          → mac < 2 ^ 48
          → Stops t
          → body_at (length pre) ≡ printed mac
      body_at-printed pre mac t p b s =
          rw (mac_at_printed m pre mac t p (u (length pre)) b s, seventeen_at_printed m pre mac t p)
            refl

      for_offsets-macs :
          (macs : List ℕ) (pre : Bytes) (w : World e)
          → m.payload ≡ pre ++ macs_text macs
          → AllMacs macs
          → for_offsets e body_at (length macs) (length pre) w ≡ each printed macs w
      unfolding for_offsets
      for_offsets-macs [] pre w p b = refl
      for_offsets-macs (mac ∷ []) pre w p b =
          rw (body_at-printed pre mac _ p b.0 (Stops-bracket [])) refl
      for_offsets-macs (mac ∷ next ∷ macs) pre w p b =
          let t = codes ", " ++ macs_text (next ∷ macs) in
          let pre' = pre ++ (uint64_to_str mac ++ codes ", ") in
          let q : m.payload ≡ pre' ++ macs_text (next ∷ macs) =
            p
            ∙ sym (
                append_assoc pre (uint64_to_str mac ++ codes ", ") (macs_text (next ∷ macs))
                ∙ ap (λ x. pre ++ x)
                    (append_assoc (uint64_to_str mac) (codes ", ") (macs_text (next ∷ macs)))) in
          let l : length pre' ≡ length pre + 19 =
            length-append pre (uint64_to_str mac ++ codes ", ")
            ∙ ap (λ k. length pre + k) (length-uint64 mac (codes ", ")) in
          rw (body_at-printed pre mac t p b.0 (Stops-comma _)) (
            >>=-congr (printed mac)
              (λ a. for_offsets e body_at (length (next ∷ macs)) (length pre + 19))
              (λ a. each printed (next ∷ macs))
              (λ a v.
                subst
                  (λ k.
                    for_offsets e body_at (length (next ∷ macs)) k v ≡ each printed (next ∷ macs) v)
                  l (for_offsets-macs (next ∷ macs) pre' v q b.1))
              w)

      -- The loop of either parser, behind a text of the length it expects.
      loop-macs :
          (offset : ℕ) (macs : List ℕ) (pre : Bytes) (w : World e)
          → length pre ≡ offset
          → m.payload ≡ pre ++ macs_text macs
          → length m.payload < 2 ^ 31
          → AllMacs macs
          → for_offsets e body_at (pos_part (num_macs offset m)) offset w ≡ each printed macs w
      loop-macs offset macs pre w l p s b =
          let n : length m.payload ≡ offset + length (macs_text macs) =
            ap length p
            ∙ length-append pre (macs_text macs)
            ∙ ap (λ k. k + length (macs_text macs)) l in
          let c : (length m.payload + 1 - offset) / 19 ≡ length macs =
            ap (λ k. k / 19) (omega (arith, n)) ∙ rounds_of macs in
          ap (λ z. for_offsets e body_at (pos_part z) offset w)
            (num_macs_lem m offset (omega (arith, n)) s)
          ∙ ap (λ k. for_offsets e body_at k offset w) c
          ∙ ap (λ k. for_offsets e body_at (length macs) k w) (sym l)
          ∙ for_offsets-macs macs pre w p b

abbrev pub ap_prefix : ℕ → Bytes
ap_prefix ap = codes "ApMac:" ++ (uint64_to_str ap ++ codes " Macs:[")

abbrev pub closer_prefix : ℕ → Bytes
closer_prefix ap = codes "ApMac-Closer:" ++ (uint64_to_str ap ++ codes " Macs:[")

length-ap_prefix : (ap : ℕ) → length (ap_prefix ap) ≡ ap_offset
unfolding uint64_to_str hex_byte
length-ap_prefix ap = refl

length-closer_prefix : (ap : ℕ) → length (closer_prefix ap) ≡ closer_offset
unfolding uint64_to_str hex_byte
length-closer_prefix ap = refl

head_read :
    (m : Message) (lead : Bytes) (ap : ℕ) (rest : Bytes)
    → m.payload ≡ (lead ++ (uint64_to_str ap ++ codes " Macs:[")) ++ rest
    → m.unset.mac (length lead) < 2 ^ 48
    → ap < 2 ^ 48
    → mac_at m (length lead) ≡ ap
head_read m lead mac rest p u b =
    mac_at_printed m lead mac (codes " Macs:[" ++ rest)
      (p
        ∙ append_assoc lead (uint64_to_str mac ++ codes " Macs:[") rest
        ∙ ap (λ x. lead ++ x) (append_assoc (uint64_to_str mac) (codes " Macs:[") rest))
      u b (Stops-space _)

module _ (e : Env) (m : Message) (mac : ℕ) (macs : List ℕ) (w : World e) where
  -- A message of an access point with a list of addresses of 48 bits makes `parse_apmac_msg` look up
  -- the access point and then handle these addresses, in their order and no others, if the bytes
  -- that stood in memory above an address are 0.
  pub parse_apmac_msg-macs :
      ((k : ℕ) → m.unset.mac k < 2 ^ 48)
      → mac < 2 ^ 48
      → AllMacs macs
      → length m.payload < 2 ^ 31
      → m.payload ≡ ap_prefix mac ++ macs_text macs
      → parse_apmac_msg e m w ≡ (apmac_get_shopid e mac >> each e (seen_by_ap e) macs) w
  unfolding parse_apmac_msg
  parse_apmac_msg-macs u b bs s p =
      let l = length-ap_prefix mac in
      rw (head_read m (codes "ApMac:") mac (macs_text macs) p (u 6) b) (
        >>=-congr (apmac_get_shopid e mac) _ _
          (λ z v. loop-macs e m (λ n t. seen_by_ap e n) u ap_offset macs (ap_prefix mac) v l p s bs)
          w)

  -- A message of close addresses makes `parse_apmac_closer_msg` look up the shop of the access point,
  -- read the clock once, and then handle these addresses with their texts, in their order and no
  -- others, if the bytes that stood in memory above an address are 0.
  pub parse_apmac_closer_msg-macs :
      ((k : ℕ) → m.unset.mac k < 2 ^ 48)
      → mac < 2 ^ 48
      → AllMacs macs
      → length m.payload < 2 ^ 31
      → m.payload ≡ closer_prefix mac ++ macs_text macs
      → parse_apmac_closer_msg e m w
        ≡ (do
          shop_id ← apmac_get_shopid e mac
          now ← time_now e
          each e (λ n. close_to_ap e shop_id now n (uint64_to_str n)) macs)
            w
  unfolding parse_apmac_closer_msg
  parse_apmac_closer_msg-macs u b bs s p =
      let l = length-closer_prefix mac in
      rw (head_read m (codes "ApMac-Closer:") mac (macs_text macs) p (u 13) b) (
        >>=-congr (apmac_get_shopid e mac) _ _
          (λ shop. >>=-congr (time_now e) _ _ (λ now v.
            loop-macs e m (close_to_ap e shop now) u closer_offset macs (closer_prefix mac) v l p s
              bs))
          w)
