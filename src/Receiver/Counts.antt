-- ===== src/Receiver/Counts.antt =====
-- ap_signal_receiver.cpp: how many addresses the two parsers look for.
use simple_dsp.Base.{
  ℕ, ◌+◌, ◌-◌, ◌*◌, ◌/◌, ◌%◌, ◌^◌, ◌≤◌, ◌<◌, ◌≡◌, subst, pos, pos_part, length, to_int32, arith,
}
use simple_dsp.Receiver.{Message, num_macs, ap_offset}

-- Behind the offset there is one entry of 19 bytes for each number, but for the last byte.
pub num_macs_lem :
    (m : Message) (offset : ℕ)
    → offset ≤ length m.payload + 1
    → length m.payload < 2 ^ 31
    → num_macs offset m ≡ pos ((length m.payload + 1 - offset) / 19)
unfolding num_macs
num_macs_lem m offset h b =
    let e : (length m.payload + (2 ^ 64 - offset) + 1) % 2 ^ 64 ≡ length m.payload + 1 - offset =
      omega arith in
    rw e (ground arith)

-- For a message that reaches the list, every address that the parsers read lies inside the text with
-- its 17 bytes.
pub num_macs-inside :
    (m : Message) (offset i : ℕ)
    → offset ≤ length m.payload + 1
    → length m.payload < 2 ^ 31
    → i < pos_part (num_macs offset m)
    → offset + 19 * i + 17 < length m.payload
unfolding num_macs
num_macs-inside m offset i h b l =
    let r : i < (length m.payload + 1 - offset) / 19 =
      subst (λ z. i < pos_part z) (num_macs_lem m offset h b) l in
    omega arith

wrapped :
    (q : ℕ)
    → 1356305460 ≤ q % 2 ^ 32
    → q % 2 ^ 32 ≤ 1356305461
    → 1356000000 < pos_part (to_int32 (pos q))
wrapped q h b = ground arith

-- A message with the first bytes of `ApMac:` that ends before the list makes `parse_apmac_msg` go
-- through more than 1,356,000,000 addresses behind the text.
pub num_macs-short :
    (m : Message) → length m.payload + 1 < ap_offset → 1356000000 < pos_part (num_macs ap_offset m)
unfolding num_macs
num_macs-short m h =
    let q = (length m.payload + (2 ^ 64 - ap_offset) + 1) % 2 ^ 64 / 19 in
    let r : (970881267037344820 ≤ q) × (q ≤ 970881267037344821) = omega arith in
    let a : (1356305460 ≤ q % 2 ^ 32) × (q % 2 ^ 32 ≤ 1356305461) = omega arith in wrapped q a.0 a.1
