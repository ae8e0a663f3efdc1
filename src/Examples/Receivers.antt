-- ===== src/Examples/Receivers.antt =====
-- Runs of the receiver of access points.
use simple_dsp.Base.{ℕ, ◌≡◌, refl, true, [], ◌∷◌, ◌++◌, pos, negsuc, ◌+ℤ◌, length, arith}
use simple_dsp.Prog.{done, pure, ◌>>◌}
use simple_dsp.Text.{Bytes, c_str}
use simple_dsp.Store.Contract.{or_default}
use simple_dsp.Keys.{get_value}
use simple_dsp.Keys.Fields.{literal-IsKey}
use simple_dsp.World.{Env}
use simple_dsp.UserMap.MacAddress.{uint64_to_str, hex_byte}
use simple_dsp.UserMap.Tags.{apmac_get_shopid}
use simple_dsp.UserMap.Position.{user_query, time_value, le_bytes}
use simple_dsp.Kafka.{Broker, exits}
use simple_dsp.Receiver.{
  Err, Message, err_no_error, err_other, err_timed_out, msg_consume, main, seen_by_ap, note_seen,
  parse_apmac_msg, middle,
}
use simple_dsp.Receiver.Loop.{payloads, main-failed}
use simple_dsp.Receiver.Rect.{Rect, IsRect, rect_text, user_query-msg_consume}
use simple_dsp.Receiver.Listed.{ap_prefix, macs_text, each, parse_apmac_msg-macs}
use simple_dsp.Receiver.Gap.{stamp, Gives, note_seen-seen_by_ap}
use simple_dsp.Examples.Memory.{env_with, counting, start, memory-IsStore}

abbrev good : Env
good = env_with counting

abbrev message : Err → Bytes → Message
message err text = record {
  err = err;
  payload = text;
  len = length text;
  behind = λ k. [];
  raw = λ k. [];
  unset = record { mac = λ k. 0; x = pos 9; y = pos 9; width = pos 9; height = pos 9 };
}

abbrev two : ℕ → Bytes
two ap = ap_prefix ap ++ macs_text (5 ∷ 6 ∷ [])

abbrev broker : Broker Message
broker = record {
  creates_consumer = λ settings. true;
  creates_topic = λ topic settings. true;
  starts = λ topic partition offset. true;
  offset_beginning = negsuc 1;
  offset_end = negsuc 0;
  messages =
      message err_timed_out []
      ∷ message err_no_error (two 7)
      ∷ message err_other []
      ∷ message err_no_error (two 8)
      ∷ [];
}

main-failed_example :
    main good (λ k. k) broker (start counting)
    ≡ (payloads good (message err_timed_out [] ∷ message err_no_error (two 7) ∷ [])
          >> pure (exits 0))
        (start counting)
main-failed_example =
    main-failed good (λ k. k) broker (message err_timed_out [] ∷ message err_no_error (two 7) ∷ [])
      (message err_other []) (message err_no_error (two 8) ∷ []) (start counting) (λ id. refl) refl
      refl refl ((λ q. cc q), ((λ q. cc q), tt)) refl

abbrev rect : Rect
rect = record { x = pos 4; y = pos 6; width = pos 10; height = pos 20; mall_id = pos 3 }

abbrev rect_ok : IsRect rect
rect_ok = record { x_in = refl; y_in = refl; width_in = refl; height_in = refl; mall_in = refl }

user_query-msg_consume_example :
    (user_query good 5
      (pos 3)
      (msg_consume good (message err_no_error (rect_text 5 rect)) true (start counting)).1).0
    ≡ done (record { mac = 5; x = pos 9; y = pos 16; z = pos 0 })
unfolding time_value le_bytes get_value c_str middle ◌+ℤ◌
user_query-msg_consume_example =
    user_query-msg_consume good (message err_no_error (rect_text 5 rect)) 5 rect refl (omega arith)
      (omega arith) rect_ok memory-IsStore true (start counting) refl
      (literal-IsKey (time_value (pos 1404709697)) refl)

parse_apmac_msg-macs_example :
    parse_apmac_msg good (message err_no_error (two 7)) (start counting)
    ≡ (apmac_get_shopid good 7 >> each good (seen_by_ap good) (5 ∷ 6 ∷ [])) (start counting)
unfolding uint64_to_str hex_byte
parse_apmac_msg-macs_example =
    parse_apmac_msg-macs good (message err_no_error (two 7)) 7 (5 ∷ 6 ∷ []) (start counting)
      (λ k. omega arith) (omega arith) (omega arith, (omega arith, tt)) (omega arith) refl

-- Both calls are for the same address.
note_seen-seen_by_ap_example :
    Gives
      (λ q. q.1 ≡ or_default (pos 0) (stamp good memory-IsStore 5 (start counting).db))
      (note_seen good 5 (pos 1404709800) (seen_by_ap good 5 (start counting)).1).0
note_seen-seen_by_ap_example =
    note_seen-seen_by_ap good memory-IsStore 5 (start counting) 5 (pos 1404709800)
