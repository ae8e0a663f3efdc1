-- ===== src/Prog/Laws.antt =====
-- Laws of the actions.
use simple_dsp.Base.{◌≡◌, refl}
use simple_dsp.Prog.{Prog, Outcome, done, throws, blocks, undefined, pure, continue, ◌>>=◌}

module _ {S A B : Type 0} where
  -- Where two actions agree on every state, so do they behind an action.
  pub continue-congr :
      (r : Outcome A) (f g : A → Prog S B)
      → ((a : A) (w : S) → f a w ≡ g a w)
      → (w : S) → continue r f w ≡ continue r g w
  continue-congr (done a) f g h w = h a w
  continue-congr throws f g h w = refl
  continue-congr blocks f g h w = refl
  continue-congr undefined f g h w = refl

  pub >>=-congr :
      (m : Prog S A) (f g : A → Prog S B)
      → ((a : A) (w : S) → f a w ≡ g a w)
      → (w : S) → (m >>= f) w ≡ (m >>= g) w
  >>=-congr m f g h w = continue-congr (m w).0 f g h (m w).1

  -- An action that returns a fixed value keeps the state.
  pub same_state :
      {C : Type 0} (r : Outcome A) (b : B) (c : C) (w : S)
      → (let (q, v) = continue r (λ a. pure b) w in continue q (λ u. pure c) v).1 ≡ w
  same_state (done a) b c w = refl
  same_state throws b c w = refl
  same_state blocks b c w = refl
  same_state undefined b c w = refl

module _ {S A B C : Type 0} where
  pub continue_assoc :
      (r : Outcome A) (f : A → Prog S B) (g : B → Prog S C) (w : S)
      → continue r (λ a. f a >>= g) w ≡ (let (q, v) = continue r f w in continue q g v)
  continue_assoc (done a) f g w = refl
  continue_assoc throws f g w = refl
  continue_assoc blocks f g w = refl
  continue_assoc undefined f g w = refl

  pub >>=_assoc :
      (m : Prog S A) (f : A → Prog S B) (g : B → Prog S C) (w : S)
      → (m >>= λ a. f a >>= g) w ≡ ((m >>= f) >>= g) w
  >>=_assoc m f g w = continue_assoc (m w).0 f g (m w).1

module _ {S A B : Type 0} where
  continue-done :
      (r : Outcome A) (f : A → Prog S B) (s : S) (b : B)
      → (continue r f s).0 ≡ done b
      → (a : A) × (continue r f s ≡ f a s)
  continue-done (done a) f s b h = (a, refl)
  continue-done throws f s b h = cc h
  continue-done blocks f s b h = cc h
  continue-done undefined f s b h = cc h

  -- Where two actions return, the first one has.
  pub >>=-done :
      (m : Prog S A) (f : A → Prog S B) (s : S) (b : B)
      → ((m >>= f) s).0 ≡ done b
      → (a : A) × ((m >>= f) s ≡ f a (m s).1)
  >>=-done m f s b h = continue-done (m s).0 f (m s).1 b h
