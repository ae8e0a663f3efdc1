-- ===== src/Examples/Identity.antt =====
-- Runs of `user_get_id` and `user_get_mac`.
use simple_dsp.Base.{ℕ, [], ◌∷◌, ◌≡◌, refl, ◌≤◌, pos, arith}
use simple_dsp.Prog.{done, blocks}
use simple_dsp.Text.{
  bytes_eq, c_str, stoi, scan_int, scan_signed, skip_spaces, scan_nat, show_nat, read_digits,
}
use simple_dsp.World.{Env}
use simple_dsp.Keys.{entry, get_value, get_data_entry, get_data_entry_sstream}
use simple_dsp.UserMap.Key.{user_id_key}
use simple_dsp.UserMap.Identity.{user_get_id, user_get_mac, add_user_cmd, retry, register, conclude}
use simple_dsp.UserMap.Identity.Mutex.{runs}
use simple_dsp.UserMap.Identity.Numbering.{
  EndsWell, user_get_id-EndsWell, user_get_id-blocks, user_get_id-runs,
}
use simple_dsp.UserMap.Identity.Later.{ask_all, user_get_id-later}
use simple_dsp.UserMap.Identity.Inverse.{user_get_mac-user_get_id}
use simple_dsp.Examples.Memory.{env_with, counting, failing, start, memory-IsStore}

abbrev good : Env
good = env_with counting

abbrev bad : Env
bad = env_with failing

user_get_id-EndsWell_example : EndsWell good (user_get_id good 5 (start counting))
user_get_id-EndsWell_example = user_get_id-EndsWell good 5 (start counting) refl

user_get_id-blocks_example :
    user_get_id bad 6 (user_get_id bad 5 (start failing)).1
    ≡ (blocks, (user_get_id bad 5 (start failing)).1)
unfolding user_get_id register retry stoi scan_int scan_signed skip_spaces scan_nat
user_get_id-blocks_example = user_get_id-blocks bad 5 (start failing) refl refl 6

user_get_id-runs_example :
    (k : ℕ) × (k ≤ 10)
    × ((user_get_id good 5 (start counting)).1.sql ≡ runs good k (add_user_cmd good 5) 0)
user_get_id-runs_example = user_get_id-runs good 5 (start counting) refl

-- The number 1 comes from the second answer of the server; another address is numbered in between.
user_get_id-later_example :
    let w = ask_all good (6 ∷ 5 ∷ []) (user_get_id good 5 (start counting)).1 in
    ((user_get_id good 5 w).0 ≡ done (pos 1)) × ((user_get_id good 5 w).1.sql ≡ w.sql)
unfolding user_get_id register retry conclude stoi scan_int scan_signed skip_spaces scan_nat
    show_nat read_digits ask_all bytes_eq user_id_key entry get_value c_str get_data_entry
    get_data_entry_sstream
user_get_id-later_example =
    user_get_id-later good memory-IsStore 5 (start counting) (pos 1) (6 ∷ 5 ∷ []) refl refl refl
      refl

user_get_mac-user_get_id_example :
    let w = (user_get_id good 5 (start counting)).1 in
    ((user_get_mac good (pos 1) w).0 ≡ done 5) × ((user_get_mac good (pos 1) w).1.sql ≡ w.sql)
unfolding user_get_id register retry conclude stoi scan_int scan_signed skip_spaces scan_nat
    show_nat read_digits
user_get_mac-user_get_id_example =
    user_get_mac-user_get_id good memory-IsStore 5 (start counting) (pos 1) refl refl refl refl
      (λ z. absurd (omega (arith, z))) refl
