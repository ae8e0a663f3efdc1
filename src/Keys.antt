-- ===== src/Keys.antt =====
-- tair_common.h: `get_data_entry` builds a key by `<<` and stores it with a final NUL; `get_value`
-- reads it back. The dates in keys are printed from the local time.
pub mod Fields
use simple_dsp.Base.{
  ℕ, zero, suc, ◌+◌, ◌-◌, ◌%◌, ◌≡◌, List, [], ◌∷◌, ◌++◌, ltb, if◌then◌else◌, ℤ, pos, ◌+ℤ◌, Bool,
  length,
}
use simple_dsp.Text.{Bytes, show_nat, show_int, c_str}
use simple_dsp.World.{Tm}

-- `get_data_entry_sstream`: each argument is given as `<<` prints it.
unfoldable pub get_data_entry_sstream : List Bytes → Bytes
get_data_entry_sstream [] = []
get_data_entry_sstream (t ∷ args) = t ++ get_data_entry_sstream args

-- `entry.set_data(s.c_str(), s.size() + 1)`
unfoldable pub get_data_entry : List Bytes → Bytes
get_data_entry args = get_data_entry_sstream args ++ 0 ∷ []

-- `get_value<std::string>`: the text up to the NUL, which no entry lacks.
unfoldable pub get_value : Bytes → Bytes
get_value s = c_str s

unfoldable pub entry : List Bytes → Bytes
entry args = get_value (get_data_entry args)

-- `setfill('0') << setw(2) << n`
unfoldable pub two_digits : ℕ → Bytes
two_digits n = if ltb n 10 then 48 ∷ show_nat n else show_nat n

unfoldable pub get_date_str : Tm → Bytes
get_date_str now =
    show_int (now.tm_year +ℤ pos 1900) ++ (two_digits (now.tm_mon + 1) ++ two_digits now.tm_mday)

unfoldable pub get_date_time_str : Tm → ℕ → Bytes
get_date_time_str now time_slice =
    show_int (now.tm_year +ℤ pos 1900)
    ++ (two_digits (now.tm_mon + 1)
        ++ (two_digits now.tm_mday
            ++ (two_digits now.tm_hour ++ two_digits (now.tm_min - now.tm_min % time_slice))))
