-- ===== src/Redis/Store.antt =====
-- redisDB.hpp: texts of replies, read at a type.
use simple_dsp.Base.{ℕ, ◌≡◌, ◌≢◌, refl, ◌∙◌, true, ltb, ◌^◌, pos, [], ◌∷◌, ◌++◌, some, ℤ, arith}
use simple_dsp.Text.{
  Bytes, show_int, show_nat, skip_spaces, scan_int, scan_signed, take_word, c_str, in_range,
  int_min, int_max, llong_min, llong_max,
}
use simple_dsp.Text.Decimal.{All, All-mono, scan_int-show_int}
use simple_dsp.Store.{Double, Ty}
use simple_dsp.Store.Contract.{IsKey, IsPlain}
use simple_dsp.Keys.Fields.{show_int-IsKey}
use simple_dsp.Redis.{Server, print, extract, read_value, clamp, unless_blank}

module _ (d : Double) (r : Server d) where
  pub word : (x rest : Bytes) → IsKey x → take_word (x ++ (32 ∷ rest)) ≡ x
  unfolding take_word
  word [] rest h = refl
  word (c ∷ x) rest h = let q = word x rest h.1 in ground (arith, h.0)

  whole_text : (s : Bytes) → All (λ c. c ≢ 0) s → c_str s ≡ s
  unfolding c_str
  whole_text [] h = refl
  whole_text (c ∷ s) h = let q = whole_text s h.1 in ground (arith, h.0)

  skip_key : (s : Bytes) → IsKey s → skip_spaces s ≡ s
  unfolding skip_spaces
  skip_key [] h = refl
  skip_key (c ∷ s) h = ground (arith, h.0)

  no_nul : (s : Bytes) → IsKey s → All (λ c. c ≢ 0) s
  no_nul s h = All-mono IsPlain (λ c. c ≢ 0) (λ c p e. absurd (omega (arith, p.0, e))) s h

  -- A text that holds a number is not blank.
  scanned :
      {A : Type 0} (s : Bytes) (z : ℤ) (a b : A) → scan_int s ≡ some z → unless_blank s a b ≡ b
  unfolding scan_int scan_signed skip_spaces
  scanned [] z a b h = ground arith
  scanned (c ∷ s) z a b h = refl

  clamp_inside : (lo hi z : ℤ) → in_range lo hi z ≡ true → clamp lo hi z ≡ z
  clamp_inside lo hi z h = ground arith

  -- An `int` that was printed into a command is read back from the text as the same number.
  pub read_value-print_int :
      (z : ℤ) → in_range int_min int_max z ≡ true → read_value d r Ty.int (print d Ty.int z) ≡ z
  unfolding read_value extract print
  read_value-print_int z h =
      let k = show_int-IsKey z in
      rw
        (
          whole_text (show_int z) (no_nul (show_int z) k),
          skip_key (show_int z) k,
          scan_int-show_int z,
        )
        (scanned (show_int z) z _ _ (scan_int-show_int z) ∙ clamp_inside int_min int_max z h)

  -- The same for `time_t`.
  pub read_value-print_time :
      (z : ℤ)
      → in_range llong_min llong_max z ≡ true
      → read_value d r Ty.time (print d Ty.time z) ≡ z
  unfolding read_value extract print
  read_value-print_time z h =
      let k = show_int-IsKey z in
      rw
        (
          whole_text (show_int z) (no_nul (show_int z) k),
          skip_key (show_int z) k,
          scan_int-show_int z,
        )
        (scanned (show_int z) z _ _ (scan_int-show_int z) ∙ clamp_inside llong_min llong_max z h)

  -- The same for `unsigned long long`.
  pub read_value-print_ull :
      (n : ℕ) → ltb n (2 ^ 64) ≡ true → read_value d r Ty.ull (print d Ty.ull n) ≡ n
  unfolding read_value extract print show_int
  read_value-print_ull n h =
      let k = show_int-IsKey (pos n) in
      rw
        (
          whole_text (show_nat n) (no_nul (show_nat n) k),
          skip_key (show_nat n) k,
          scan_int-show_int (pos n),
          h,
        )
        (scanned (show_nat n) (pos n) _ _ (scan_int-show_int (pos n)))
