-- ===== src/Keys/Fields.antt =====
-- Keys of tair_common.h as sequences of fields between colons.
use simple_dsp.Base.{
  ℕ, suc, ◌≡◌, ◌≢◌, refl, sym, ◌∙◌, ap, inl, inr, Bool, true, false, List, [], ◌∷◌, ◌++◌, ltb, ◌==◌,
  ℤ, pos, negsuc, arith, Bool-cases, get_or, not, ◌&&◌,
}
use simple_dsp.Text.{Bytes, show_nat, show_int, c_str}
use simple_dsp.Text.Decimal.{All, All-append, All-mono, IsDigit, show_nat-digits}
use simple_dsp.Store.Contract.{IsPlain, IsKey}
use simple_dsp.World.{Tm}
use simple_dsp.Keys.{
  get_data_entry_sstream, get_data_entry, get_value, entry, two_digits, get_date_str,
  get_date_time_str,
}

abbrev pub AllKeys : List Bytes → Type 0
AllKeys [] = Unit {0}
AllKeys (t ∷ args) = IsKey t × AllKeys args

sstream-IsKey : (args : List Bytes) → AllKeys args → IsKey (get_data_entry_sstream args)
unfolding get_data_entry_sstream
sstream-IsKey [] h = tt
sstream-IsKey (t ∷ args) h =
    All-append IsPlain t (get_data_entry_sstream args) h.0 (sstream-IsKey args h.1)

c_str-IsKey : (x : Bytes) → IsKey x → c_str (x ++ 0 ∷ []) ≡ x
unfolding c_str
c_str-IsKey [] h = refl
c_str-IsKey (c ∷ cs) h =
    let e : (c == 0) ≡ false = ground arith in rw e (ap (◌∷◌ c) (c_str-IsKey cs h.1))

-- A key of plain texts has no NUL inside, so it is read back whole.
pub entry_lem : (args : List Bytes) → AllKeys args → entry args ≡ get_data_entry_sstream args
unfolding entry get_data_entry get_value
entry_lem args h = c_str-IsKey (get_data_entry_sstream args) (sstream-IsKey args h)

pub entry-IsKey : (args : List Bytes) → AllKeys args → IsKey (entry args)
entry-IsKey args h = rw (entry_lem args h) (sstream-IsKey args h)

-- A key that begins with a literal is not empty.
pub entry-nonempty :
    (args : List Bytes)
    → AllKeys args
    → get_or (get_data_entry_sstream args) 0 0 ≢ 0
    → entry args ≢ []
entry-nonempty args h n e = n (ap (λ s. get_or s 0 0) (sym (entry_lem args h) ∙ e))

digit-IsPlain : (c : ℕ) → IsDigit c → IsPlain c
digit-IsPlain c h = (omega arith, omega arith)

pub show_nat-IsKey : (n : ℕ) → IsKey (show_nat n)
show_nat-IsKey n = All-mono IsDigit IsPlain digit-IsPlain (show_nat n) (show_nat-digits n)

pub show_int-IsKey : (z : ℤ) → IsKey (show_int z)
unfolding show_int
show_int-IsKey (pos n) = show_nat-IsKey n
show_int-IsKey (negsuc n) = ((omega arith, omega arith), show_nat-IsKey (suc n))

two_digits-IsKey : (n : ℕ) → IsKey (two_digits n)
unfolding two_digits
two_digits-IsKey n = elim (Bool-cases (ltb n 10)) [
  | inl short ↦ rw short ((omega arith, omega arith), show_nat-IsKey n)
  | inr long ↦ rw long (show_nat-IsKey n)
]

pub get_date_str-IsKey : (now : Tm) → IsKey (get_date_str now)
unfolding get_date_str
get_date_str-IsKey now =
    All-append IsPlain _ _ (show_int-IsKey _)
      (All-append IsPlain _ _ (two_digits-IsKey _) (two_digits-IsKey _))

pub get_date_time_str-IsKey : (now : Tm) (slice : ℕ) → IsKey (get_date_time_str now slice)
unfolding get_date_time_str
get_date_time_str-IsKey now slice = All-append IsPlain _ _ (show_int-IsKey _) (
    All-append IsPlain _ _ (two_digits-IsKey _) (
      All-append IsPlain _ _ (two_digits-IsKey _)
        (All-append IsPlain _ _ (two_digits-IsKey _) (two_digits-IsKey _))))

-- A field holds no colon.
abbrev pub IsField : Bytes → Type 0
IsField = All (λ c. c ≢ 58)

pub show_nat-IsField : (n : ℕ) → IsField (show_nat n)
show_nat-IsField n =
    All-mono IsDigit (λ c. c ≢ 58) (λ c h. omega arith) (show_nat n) (show_nat-digits n)

pub show_int-IsField : (z : ℤ) → IsField (show_int z)
unfolding show_int
show_int-IsField (pos n) = show_nat-IsField n
show_int-IsField (negsuc n) = (omega arith, show_nat-IsField (suc n))

two_digits-IsField : (n : ℕ) → IsField (two_digits n)
unfolding two_digits
two_digits-IsField n = elim (Bool-cases (ltb n 10)) [
  | inl short ↦ rw short (omega arith, show_nat-IsField n)
  | inr long ↦ rw long (show_nat-IsField n)
]

pub get_date_str-IsField : (now : Tm) → IsField (get_date_str now)
unfolding get_date_str
get_date_str-IsField now =
    All-append (λ c. c ≢ 58) _ _ (show_int-IsField _)
      (All-append (λ c. c ≢ 58) _ _ (two_digits-IsField _) (two_digits-IsField _))

tail : Bytes → Bytes
tail [] = []
tail (c ∷ cs) = cs

head_or_zero : Bytes → ℕ
head_or_zero s = get_or s 0 0

-- The first field and the rest.
pub split_field :
    (x y r s : Bytes) → IsField x → IsField y → x ++ 58 ∷ r ≡ y ++ 58 ∷ s → (x ≡ y) × (r ≡ s)
unfolding tail head_or_zero
split_field [] [] r s fx fy e = (refl, ap tail e)
split_field [] (b ∷ y) r s fx fy e = absurd (fy.0 (cc (ap head_or_zero e)))
split_field (a ∷ x) [] r s fx fy e = absurd (fx.0 (ap head_or_zero e))
split_field (a ∷ x) (b ∷ y) r s fx fy e =
    let (p, q) = split_field x y r s fx.1 fy.1 (ap tail e) in (cc (p, ap head_or_zero e), q)

-- What follows a common prefix.
pub append_cancel_left : (p x y : Bytes) → p ++ x ≡ p ++ y → x ≡ y
unfolding tail
append_cancel_left [] x y e = e
append_cancel_left (c ∷ p) x y e = append_cancel_left p x y (ap tail e)

-- A literal is checked by running this.
abbrev pub all_plain : Bytes → Bool
all_plain [] = true
all_plain (c ∷ cs) = ltb 32 c && (not (c == 37) && all_plain cs)

pub literal-IsKey : (s : Bytes) → all_plain s ≡ true → IsKey s
literal-IsKey [] h = tt
literal-IsKey (c ∷ cs) h = ground (arith, literal-IsKey cs)
