-- ===== src/AdRequest/Never.antt =====
-- ad_request.cpp: no advertisement is ever shown.
use simple_dsp.Base.{
  ℕ, zero, suc, ◌+◌, ◌≤◌, ◌<◌, ◌≡◌, refl, inl, inr, true, List, [], ◌∷◌, some, get_elem?, length,
  pos, pos_part, eqb_ℤ, Bool-cases, arith,
}
use simple_dsp.Prog.{done}
use simple_dsp.Store.{Double}
use simple_dsp.AdRegister.{AdInfo, AdData}
use simple_dsp.AdRequest.{
  Place, Highest, no_valid_ad, is_far, enter_from, consider, consider_all, taken_length, show_one,
  none_yet, bidding,
}

get_elem?-inside :
    {A : Type 0} (xs : List A) (i : ℕ) → i < length xs → (a : A) × (get_elem? xs i ≡ some a)
get_elem?-inside [] i h = absurd (omega arith)
get_elem?-inside (x ∷ xs) zero h = (x, refl)
get_elem?-inside (x ∷ xs) (suc i) h = get_elem?-inside xs i (omega arith)

module _ (d : Double) (p : Place d.W) where
  consider-none : (i : ℕ) (ad : AdInfo d.W) (h : Highest d.W) → consider d p i ad h ≡ (done tt, h)
  unfolding enter_from
  consider-none i ad h = elim (Bool-cases (eqb_ℤ ad.valid (pos 0))) [
    | inl off ↦ rw off refl
    | inr on ↦ elim (Bool-cases (is_far d p ad)) [
      | inl far ↦ rw (on, far) refl
      | inr near ↦ rw (on, near) refl
    ]
  ]

  consider_all-none :
      (n i : ℕ) (l : List (AdInfo d.W)) (h : Highest d.W)
      → i + n ≤ length l
      → consider_all d p n i l h ≡ (done tt, h)
  unfolding consider_all
  consider_all-none zero i l h b = refl
  consider_all-none (suc n) i l h b =
      let (ad, found) = get_elem?-inside l i (omega arith) in
      rw (found, consider-none i ad h) (consider_all-none n (suc i) l h (omega arith))

  -- Whatever advertisements there are and wherever the user is, the answer is that there is no valid
  -- one, and nothing changes: the loop that would enter a value starts at 2 and runs while its
  -- variable is at most 0. The list has at least `number` entries, and 0 equals itself.
  pub bidding-none :
      (rand : ℕ) (g : AdData d.W)
      → pos_part g.number ≤ length g.ad_list
      → d.eq (d.of_int (pos 0)) (d.of_int (pos 0)) ≡ true
      → bidding d rand p g ≡ (done no_valid_ad, g)
  unfolding bidding show_one taken_length
  bidding-none rand g b z =
      rw (consider_all-none (pos_part g.number) 0 g.ad_list (none_yet d) (omega arith), z) refl
