-- ===== src/AdMap/Slots/Reversed.antt =====
-- Lists seen from their far end, where the loop of `bidding` starts.
use simple_dsp.Base.{
  ℕ, zero, suc, ◌+◌, ◌≡◌, refl, ap, ◌∙◌, List, [], ◌∷◌, ◌++◌, get_or, set, length, take, arith,
}

-- `rev xs ys` is the reverse of `xs` in front of `ys`.
module _ {ℓ} {A : Type ℓ} where
  abbrev pub rev : List A → List A → List A
  rev [] ys = ys
  rev (x ∷ xs) ys = rev xs (x ∷ ys)

  get_or-rev_add :
      (xs ys : List A) (k : ℕ) (a : A) → get_or (rev xs ys) (length xs + k) a ≡ get_or ys k a
  get_or-rev_add [] ys k a = ap (λ (i : ℕ). get_or ys i a) (omega arith)
  get_or-rev_add (x ∷ xs) ys k a =
      ap (λ (i : ℕ). get_or (rev xs (x ∷ ys)) i a) (omega arith)
      ∙ get_or-rev_add xs (x ∷ ys) (suc k) a

  set-rev_add :
      (xs ys : List A) (k : ℕ) (a : A) → set (rev xs ys) (length xs + k) a ≡ rev xs (set ys k a)
  set-rev_add [] ys k a = ap (λ (i : ℕ). set ys i a) (omega arith)
  set-rev_add (x ∷ xs) ys k a =
      ap (λ (i : ℕ). set (rev xs (x ∷ ys)) i a) (omega arith) ∙ set-rev_add xs (x ∷ ys) (suc k) a

  pub get_or-rev :
      (xs : List A) (y : A) (ys : List A) (a : A) → get_or (rev xs (y ∷ ys)) (length xs) a ≡ y
  get_or-rev xs y ys a =
      ap (λ (i : ℕ). get_or (rev xs (y ∷ ys)) i a) (omega arith) ∙ get_or-rev_add xs (y ∷ ys) 0 a

  pub set-rev :
      (xs : List A) (y : A) (ys : List A) (a : A)
      → set (rev xs (y ∷ ys)) (length xs) a ≡ rev xs (a ∷ ys)
  set-rev xs y ys a =
      ap (λ (i : ℕ). set (rev xs (y ∷ ys)) i a) (omega arith) ∙ set-rev_add xs (y ∷ ys) 0 a

  pub set-rev-suc :
      (xs : List A) (y z : A) (ys : List A) (a : A)
      → set (rev xs (y ∷ z ∷ ys)) (suc (length xs)) a ≡ rev xs (y ∷ a ∷ ys)
  set-rev-suc xs y z ys a =
      ap (λ (i : ℕ). set (rev xs (y ∷ z ∷ ys)) i a) (omega arith) ∙ set-rev_add xs (y ∷ z ∷ ys) 1 a

  pub rev-append : (xs ys zs : List A) → rev xs ys ++ zs ≡ rev xs (ys ++ zs)
  rev-append [] ys zs = refl
  rev-append (x ∷ xs) ys zs = rev-append xs (x ∷ ys) zs

  pub rev-rev : (xs ys zs : List A) → rev (rev xs ys) zs ≡ rev ys (xs ++ zs)
  rev-rev [] ys zs = refl
  rev-rev (x ∷ xs) ys zs = rev-rev xs (x ∷ ys) zs

  pub length-rev : (xs ys : List A) → length (rev xs ys) ≡ length xs + length ys
  length-rev [] ys = omega arith
  length-rev (x ∷ xs) ys = omega (arith, length-rev xs (x ∷ ys))

  pub take_all : (n : ℕ) (xs ys : List A) → length xs ≡ n → take n (xs ++ ys) ≡ xs
  take_all zero [] ys e = refl
  take_all zero (x ∷ xs) ys e = absurd (omega arith)
  take_all (suc n) [] ys e = absurd (omega arith)
  take_all (suc n) (x ∷ xs) ys e = ap (◌∷◌ x) (take_all n xs ys (omega arith))
