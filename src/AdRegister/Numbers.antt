-- ===== src/AdRegister/Numbers.antt =====
-- ad_register.cpp: the number of advertisements and the entries that count.
use simple_dsp.Base.{
  ℕ, zero, suc, ◌+◌, ◌^◌, ◌<◌, ◌≡◌, ◌≢◌, refl, sym, subst, ap, ◌∙◌, inl, inr, false≢true, List, [],
  ◌∷◌, Option, none, some, get_elem?, get_elem?-set_self, get_elem?-set_ne, set, length, ltb_ℤ, ℤ,
  pos, ◌+ℤ◌, pos_part, to_int32, ◌==◌, ==_iff, Bool-cases, arith,
}
use simple_dsp.Text.{Bytes}
use simple_dsp.Prog.{Prog, Outcome, done, throws, blocks, undefined, continue}
use simple_dsp.Store.{Double}
use simple_dsp.Request.{Query, Floats, some-injective}
use simple_dsp.AdRegister.{
  AdInfo, AdData, Entry, set_field, no_value, set_fields, finish, fill, fill_at, add_ad,
}

module _ (d : Double) (f : Floats d) where
  set_field-ad_id : (k v : Bytes) (s : Entry d f) → (set_field d f k v s).ad.ad_id ≡ s.ad.ad_id
  unfolding set_field
  set_field-ad_id k v s = ground arith

  set_field-valid : (k v : Bytes) (s : Entry d f) → (set_field d f k v s).ad.valid ≡ s.ad.valid
  unfolding set_field
  set_field-valid k v s = ground arith

  abbrev IsKept : AdInfo d.W → AdInfo d.W → Type 0
  IsKept a b = (a.ad_id ≡ b.ad_id) × (a.valid ≡ b.valid)

  continue-IsKept :
      (r : Outcome (Unit {0})) (m : Prog (Entry d f) (Unit {0})) (s : Entry d f)
      → IsKept (m s).1.ad s.ad
      → IsKept (continue r (λ u. m) s).1.ad s.ad
  continue-IsKept (done u) m s h = h
  continue-IsKept throws m s h = (refl, refl)
  continue-IsKept blocks m s h = (refl, refl)
  continue-IsKept undefined m s h = (refl, refl)

  -- The parameters of a request change neither the number of the entry nor whether it counts.
  set_fields-IsKept : (q : Query) (s : Entry d f) → IsKept (set_fields d f q s).1.ad s.ad
  unfolding set_fields
  set_fields-IsKept [] s = (refl, refl)
  set_fields-IsKept ((k, some v) ∷ q) s =
      let (a, b) = set_fields-IsKept q (set_field d f k v s) in
      (a ∙ set_field-ad_id k v s, b ∙ set_field-valid k v s)
  set_fields-IsKept ((k, none) ∷ q) s =
      continue-IsKept (no_value d f k) (set_fields d f q) s (set_fields-IsKept q s)

  finish-ad_id : (r : Outcome (Unit {0})) (a : AdInfo d.W) → (finish d f r a).1.ad_id ≡ a.ad_id
  finish-ad_id (done u) a = refl
  finish-ad_id throws a = refl
  finish-ad_id blocks a = refl
  finish-ad_id undefined a = refl

  fill-ad_id :
      (unset index : ℤ) (q : Query) (a : AdInfo d.W) → (fill d f unset q index a).1.ad_id ≡ index
  unfolding fill
  fill-ad_id unset index q a =
      finish-ad_id (set_fields d f q _).0 (set_fields d f q _).1.ad ∙ (set_fields-IsKept q _).0

  -- An entry of the list that counts has its place as its number, and lies below `number`.
  pub record IsValid (g : AdData d.W) : Type 0 where
    pub number_pos : g.number ≡ pos (pos_part g.number)
    pub counts :
        (i : ℕ) (a : AdInfo d.W)
        → get_elem? g.ad_list i ≡ some a
        → a.valid ≢ pos 0
        → (a.ad_id ≡ pos i) × (i < pos_part g.number)

  pub next_number : (n : ℕ) → n + 1 < 2 ^ 31 → to_int32 (pos n +ℤ pos 1) ≡ pos (n + 1)
  unfolding ◌+ℤ◌
  next_number n h = ground arith

  -- The list with an entry replaced by one that has its place as its number.
  set-IsValid :
      (g : AdData d.W) (n : ℕ) (a : AdInfo d.W)
      → IsValid g
      → g.number ≡ pos n
      → a.ad_id ≡ pos n
      → n < length g.ad_list
      → IsValid (record g { number = pos (n + 1); ad_list = set g.ad_list n a })
  set-IsValid g n a v e h l = record {
    number_pos = refl;
    counts = λ i b at on. elim (Bool-cases (n == i)) [
      | inl here ↦
          let q : n ≡ i = (==_iff n i).0 here in
          let r : some a ≡ some b =
            sym (get_elem?-set_self g.ad_list n a l) ∙ ap (get_elem? (set g.ad_list n a)) q ∙ at in
          (
            sym (ap (λ (z : AdInfo d.W). z.ad_id) (some-injective r)) ∙ h ∙ ap pos q,
            omega (arith, q),
          )
      | inr other ↦
          let r : n ≢ i = λ q. false≢true (sym other ∙ (==_iff n i).1 q) in
          let (p, b) = v.counts i b (sym (get_elem?-set_ne g.ad_list a r) ∙ at) on in
          let below : i < n = subst (λ z. i < pos_part z) e b in (p, omega (arith, below))
    ];
  }

  -- The same where only `number` is counted up.
  counted-IsValid :
      (g : AdData d.W) (n : ℕ)
      → IsValid g
      → g.number ≡ pos n
      → IsValid (record g { number = pos (n + 1) })
  counted-IsValid g n v e = record {
    number_pos = refl;
    counts = λ i b at on.
        let (p, l) = v.counts i b at on in
        let below : i < n = subst (λ z. i < pos_part z) e l in (p, omega (arith, below));
  }

  pub get_elem?-some :
      {A : Type 0} (xs : List A) (i : ℕ) (a : A) → get_elem? xs i ≡ some a → i < length xs
  get_elem?-some [] i a h = cc h
  get_elem?-some (x ∷ xs) zero a h = omega arith
  get_elem?-some (x ∷ xs) (suc i) a h = let q = get_elem?-some xs i a h in omega (arith, q)

  module _ (unset : ℤ) (q : Query) (g : AdData d.W) (n : ℕ) where
    abbrev counted : AdData d.W
    counted = record g { number = pos (n + 1) }

    fill_at-IsValid :
        (o : Option (AdInfo d.W))
        → get_elem? g.ad_list n ≡ o
        → IsValid g
        → g.number ≡ pos n
        → IsValid (fill_at d f unset q (pos n) n o counted).1
    fill_at-IsValid none h v e = counted-IsValid g n v e
    fill_at-IsValid (some a) h v e =
        set-IsValid g n (fill d f unset q (pos n) a).1 v e (fill-ad_id unset (pos n) q a)
          (get_elem?-some g.ad_list n a h)

    add_ad-numbered :
        g.number ≡ pos n → n + 1 < 2 ^ 31 → IsValid g → IsValid (add_ad d f unset q g).1
    unfolding add_ad
    add_ad-numbered e b v = elim (Bool-cases (ltb_ℤ g.number g.size)) [
      | inl room ↦ rw (room, e, next_number n b) (fill_at-IsValid (get_elem? g.ad_list n) refl v e)
      | inr full ↦ rw (full, e, next_number n b) (counted-IsValid g n v e)
    ]

  -- However `add_ad` ends, every entry that counts as an advertisement keeps its place as its number
  -- and lies below `number`, as long as `number` is in the range of an `int`.
  pub add_ad-IsValid :
      (unset : ℤ) (q : Query) (g : AdData d.W)
      → IsValid g
      → pos_part g.number + 1 < 2 ^ 31
      → IsValid (add_ad d f unset q g).1
  add_ad-IsValid unset q g v b = add_ad-numbered unset q g (pos_part g.number) v.number_pos b v
