-- ===== src/Request.antt =====
-- What the FastCGI services user_op.cpp and ad_op.cpp share: the list of parameters of a request, as
-- the URI library cuts it, and the loop over it.
use simple_dsp.Base.{
  ◌≡◌, ap, subst, inl, inr, Bool, List, [], ◌∷◌, ◌||◌, false, Option, none, some, Bool-cases,
  if◌then◌else◌,
}
use simple_dsp.Text.{Bytes, bytes_eq}
use simple_dsp.Store.{Double}

-- Keys and values, up to their NUL. A key without `=` has no value, but a null pointer.
abbrev pub Query : Type 0
Query = List (Bytes × Option Bytes)

-- The type `float`: `>>` into a variable that holds the first argument, and the largest number.
pub record Floats (d : Double) : Type 0 where
  pub extract_float : d.W → Bytes → d.W
  pub flt_max : d.W

unfoldable pub mem_bytes : Bytes → List Bytes → Bool
mem_bytes k [] = false
mem_bytes k (j ∷ keys) = bytes_eq k j || mem_bytes k keys

from_some : {A : Type 0} → A → Option A → A
from_some a none = a
from_some a (some b) = b

pub some-injective : {A : Type 0} {a b : A} → some a ≡ some b → a ≡ b
unfolding from_some
some-injective {a = a} e = ap (from_some a) e

abbrev pub AllKeys : (Bytes → Type 0) → Query → Type 0
AllKeys Ok [] = Unit
AllKeys Ok ((k, v) ∷ rest) = Ok k × AllKeys Ok rest

module _ {P : Type 0} (keys : List Bytes) (set_param : Bytes → Bytes → P → P) where
  -- The loop over the parameters, each of which changes the variables. A null pointer as the value of
  -- one of the keys makes `std::string` throw, which is `none`.
  unfoldable pub read_params : Query → P → Option P
  read_params [] p = some p
  read_params ((k, some v) ∷ rest) p = read_params rest (set_param k v p)
  read_params ((k, none) ∷ rest) p =
      let more = read_params rest p in if mem_bytes k keys then none else more

  -- A property of the variables that each parameter of a request keeps holds after the loop.
  module _ (Ok : Bytes → Type 0) (Q : P → Type 0) where
    pub read_params-keeps :
        ((k v : Bytes) (p : P) → Ok k → Q p → Q (set_param k v p))
        → (q : Query) (p p' : P) → AllKeys Ok q
        → Q p
        → read_params q p ≡ some p'
        → Q p'
    unfolding read_params
    read_params-keeps h [] p p' o i e = subst Q (some-injective e) i
    read_params-keeps h ((k, some v) ∷ rest) p p' o i e =
        read_params-keeps h rest (set_param k v p) p' o.1 (h k v p o.0 i) e
    read_params-keeps h ((k, none) ∷ rest) p p' o i e = elim (Bool-cases (mem_bytes k keys)) [
      | inl known ↦ let n : none ≡ some p' = rw known at e in cc n
      | inr other ↦
          let n : read_params rest p ≡ some p' = rw other at e in
          read_params-keeps h rest p p' o.1 i n
    ]
