-- ===== src/UserMap/Start/Letters.antt =====
-- user_map.cpp: the texts that `uuid` makes.
use Prim.Native.Nat.{bit_xor}
use simple_dsp.Base.{
  ℕ, zero, suc, ◌%◌, ◌<◌, ◌≡◌, refl, ap, ◌∙◌, true, Bool, ltb, ◌&&◌, ◌||◌, [], ◌∷◌, some, get_elem?,
  length, arith,
}
use simple_dsp.Text.{Bytes}
use simple_dsp.Text.Decimal.{All}
use simple_dsp.Prog.{done}
use simple_dsp.UserMap.Start.{uuid, uuid_from, chars, write_char}

-- A digit or a letter of ASCII.
abbrev is_alnum : ℕ → Bool
is_alnum c = (ltb 47 c && ltb c 58) || ((ltb 64 c && ltb c 91) || (ltb 96 c && ltb c 123))

abbrev pub IsAlnum : ℕ → Type 0
IsAlnum c = is_alnum c ≡ true

abbrev all_alnum : Bytes → Bool
all_alnum [] = true
all_alnum (c ∷ cs) = is_alnum c && all_alnum cs

all_alnum-All : (s : Bytes) → all_alnum s ≡ true → All IsAlnum s
all_alnum-All [] h = tt
all_alnum-All (c ∷ cs) h = (ground arith, all_alnum-All cs (ground arith))

element :
    {P : ℕ → Type 0} (s : Bytes) (i : ℕ)
    → All P s
    → i < length s
    → (c : ℕ) × ((get_elem? s i ≡ some c) × P c)
element [] i a h = absurd (omega arith)
element (c ∷ cs) zero a h = (c, (refl, a.0))
element (c ∷ cs) (suc i) a h = element cs i a.1 (omega arith)

char_found : (i : ℕ) → i < 62 → (c : ℕ) × ((get_elem? chars i ≡ some c) × IsAlnum c)
char_found i h = element chars i (all_alnum-All chars refl) h

uuid_from-letters :
    (rand : ℕ → ℕ) (n k factor : ℕ)
    → (s : Bytes) × ((uuid_from rand n k factor ≡ done s) × ((length s ≡ n) × All IsAlnum s))
unfolding uuid_from
uuid_from-letters rand zero k factor = ([], (refl, (refl, tt)))
uuid_from-letters rand (suc n) k factor =
    let next = bit_xor factor (rand k % 256) % 256 in
    let (s, (e, (l, a))) = uuid_from-letters rand n (suc k) next in
    let (c, (q, p)) = char_found (next % 62) (omega arith) in
    (
      c ∷ s,
      (
        ap (λ o. write_char o (uuid_from rand n (suc k) next)) q
            ∙ ap (λ r. write_char (some c) r) e,
        (ap suc l, (p, a)),
      ),
    )

-- Whatever `rand` gives, `uuid` never reads outside its table and returns a text of 20 characters, all
-- of them digits or letters.
pub uuid-letters :
    (rand : ℕ → ℕ) → (s : Bytes) × ((uuid rand ≡ done s) × ((length s ≡ 20) × All IsAlnum s))
unfolding uuid
uuid-letters rand = uuid_from-letters rand 20 0 0
