-- ===== src/Prog.antt =====
-- Functions of the sources that change the state and may not return: an exception, a wait on a
-- mutex that nobody unlocks, and the undefined behaviour of a body that ends without `return`.
pub mod Laws
use simple_dsp.Base.{Bool, if◌then◌else◌}

pub data Outcome {ℓ} (A : Type ℓ) : Type ℓ where
  done : A → Outcome A
  throws : Outcome A
  blocks : Outcome A
  undefined : Outcome A

abbrev pub Prog {ℓ} : Type ℓ → Type ℓ → Type ℓ
Prog S A = S → Outcome A × S

module _ {ℓ} {S A : Type ℓ} where
  abbrev pub pure : A → Prog S A
  pure a s = (done a, s)

module _ {ℓ} {S A B : Type ℓ} where
  abbrev pub continue : Outcome A → (A → Prog S B) → Prog S B
  continue (done a) f s = f a s
  continue throws f s = (throws, s)
  continue blocks f s = (blocks, s)
  continue undefined f s = (undefined, s)

  infixl 10 ◌>>=◌ ◌>>◌
  abbrev pub ◌>>=◌ : Prog S A → (A → Prog S B) → Prog S B
  ◌>>=◌ m f s = let (r, s') = m s in continue r f s'

  abbrev pub ◌>>◌ : Prog S A → Prog S B → Prog S B
  m >> n = m >>= λ _. n

-- `if (b) { m }`
abbrev pub when : {S : Type 0} → Bool → Prog S (Unit {0}) → Prog S (Unit {0})
when b m s = if b then m s else (done tt, s)
