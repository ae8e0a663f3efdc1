-- ===== src/AdRegister/Full.antt =====
-- ad_register.cpp: a request that finds no room.
use simple_dsp.Base.{
  ℕ, zero, suc, ◌+◌, ◌^◌, ◌≤◌, ◌<◌, ◌≡◌, refl, inl, inr, false, List, get_elem?, length, ltb_ℤ, ℤ,
  pos, negsuc, Option-cases, arith,
}
use simple_dsp.Prog.{done, undefined}
use simple_dsp.Store.{Double}
use simple_dsp.Request.{Query, Floats}
use simple_dsp.AdRegister.{AdInfo, AdData, add_ad, entries_from, print_ad_list}
use simple_dsp.AdRegister.Numbers.{next_number, get_elem?-some}

module _ (d : Double) (f : Floats d) where
  entries_from-behind :
      (n i : ℕ) (l : List (AdInfo d.W))
      → i ≤ length l
      → length l < i + n
      → entries_from d f n i l ≡ undefined
  unfolding entries_from
  entries_from-behind zero i l h b = absurd (omega arith)
  entries_from-behind (suc n) i l h b = elim (Option-cases (get_elem? l i)) [
    | inl missing ↦ rw (entries_from, missing) refl
    | inr (a, found) ↦
        let k = get_elem?-some d f l i a found in
        rw (entries_from, found, entries_from-behind n (suc i) l (omega (arith, k)) (omega arith))
          refl
  ]

  -- A request that finds the list full is refused with -1; after it `print_ad_list` reads behind the
  -- list, because `number` is counted up although nothing was added.
  pub add_ad-full :
      (unset : ℤ) (q : Query) (g : AdData d.W) (n : ℕ)
      → g.size ≡ pos (length g.ad_list)
      → g.number ≡ pos n
      → length g.ad_list ≤ n
      → n + 1 < 2 ^ 31
      → ((add_ad d f unset q g).0 ≡ done (negsuc 0))
        × (print_ad_list d f (add_ad d f unset q g).1 ≡ undefined)
  unfolding add_ad print_ad_list
  add_ad-full unset q g n s e h b =
      let full : ltb_ℤ (pos n) (pos (length g.ad_list)) ≡ false = ground arith in
      rw (s, e, full, next_number d f n b)
        (refl, entries_from-behind (n + 1) 0 g.ad_list (omega arith) (omega arith))
