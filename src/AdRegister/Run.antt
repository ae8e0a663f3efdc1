-- ===== src/AdRegister/Run.antt =====
-- ad_register.cpp: the list of advertisements over a run of the program.
use simple_dsp.Base.{
  ℕ, suc, ◌+◌, ◌^◌, ◌<◌, ◌≡◌, refl, sym, ◌∙◌, subst, inl, inr, List, ◌++◌, Option, none, some,
  get_elem?, length, ltb_ℤ, ℤ, pos, pos_part, Bool-cases, arith,
}
use simple_dsp.Text.{Bytes}
use simple_dsp.Prog.{Outcome, done, throws, blocks, undefined, continue, pure, ◌>>=◌}
use simple_dsp.Store.{Double}
use simple_dsp.Request.{Query, Floats}
use simple_dsp.Service.{Libraries, Served, parse_query_string}
use simple_dsp.Service.Keeps.{serve-keeps}
use simple_dsp.AdRegister.{AdInfo, AdData, fill_at, add_ad, print_ad_list}
use simple_dsp.AdRegister.Numbers.{IsValid, next_number, add_ad-IsValid}
use simple_dsp.AdRegister.Main.{
  FcgiRequest, Printing, list_page, request_string, head_texts, print_list, answer_text, with_text,
  answer, main,
}

module _ (d : Double) (f : Floats d) where
  fill_at-number :
      (unset : ℤ) (q : Query) (n : ℕ) (o : Option (AdInfo d.W)) (g : AdData d.W)
      → (fill_at d f unset q (pos n) n o g).1.number ≡ g.number
  fill_at-number unset q n none g = refl
  fill_at-number unset q n (some a) g = refl

  -- `add_ad` counts the number up, whether there is room or not.
  add_ad-number :
      (unset : ℤ) (q : Query) (g : AdData d.W) (n : ℕ)
      → g.number ≡ pos n
      → n + 1 < 2 ^ 31
      → (add_ad d f unset q g).1.number ≡ pos (n + 1)
  unfolding add_ad
  add_ad-number unset q g n e b = elim (Bool-cases (ltb_ℤ g.number g.size)) [
    | inl room ↦
        rw (room, e, next_number d f n b)
          (fill_at-number unset q n (get_elem? g.ad_list n) (record g { number = pos (n + 1) }))
    | inr full ↦ rw (full, e, next_number d f n b) refl
  ]

  -- The list is in order, and `k` more requests leave the number in the range of an `int`.
  abbrev HasRoom : ℕ → AdData d.W → Type 0
  HasRoom k g = IsValid d f g × (pos_part g.number + k < 2 ^ 31)

  HasRoom-add_ad :
      (unset : ℤ) (q : Query) (k : ℕ) (g : AdData d.W)
      → HasRoom (suc k) g
      → HasRoom k (add_ad d f unset q g).1
  HasRoom-add_ad unset q k g h =
      let b : pos_part g.number + 1 < 2 ^ 31 = omega (arith, h.1) in
      let n = add_ad-number unset q g (pos_part g.number) h.0.number_pos b in
      (add_ad-IsValid d f unset q g h.0 b, rw n (omega (arith, h.1)))

  fewer : (k : ℕ) (g : AdData d.W) → HasRoom (suc k) g → HasRoom k g
  fewer k g h = (h.0, omega (arith, h.1))

  module _ (lib : Libraries) (out : Printing d) where
    pure_keeps :
        {A B : Type 0} (o : Outcome A) (h : A → B) (g : AdData d.W)
        → (continue {B = B} o (λ a. pure (h a)) g).1 ≡ g
    pure_keeps (done a) h g = refl
    pure_keeps throws h g = refl
    pure_keeps blocks h g = refl
    pure_keeps undefined h g = refl

    list_page-keeps :
        (o : Outcome (List (AdInfo d.W))) (g : AdData d.W) → (list_page d f lib out o g).1 ≡ g
    list_page-keeps (done ads) g = refl
    list_page-keeps throws g = refl
    list_page-keeps blocks g = refl
    list_page-keeps undefined g = refl

    print_list-keeps : (g : AdData d.W) → (print_list d f lib out g).1 ≡ g
    unfolding print_list
    print_list-keeps g =
        pure_keeps (list_page d f lib out (print_ad_list d f g) g).0 _ _
        ∙ list_page-keeps (print_ad_list d f g) g

    after_add :
        (s : Bytes) (o : Outcome ℤ) (g : AdData d.W)
        → (continue o
            (λ z. print_list d f lib out >>= λ texts. pure (head_texts d f lib out s ++ texts))
            g).1
          ≡ g
    after_add s (done z) g = pure_keeps (print_list d f lib out g).0 _ _ ∙ print_list-keeps g
    after_add s throws g = refl
    after_add s blocks g = refl
    after_add s undefined g = refl

    HasRoom-with_text :
        (unset : ℤ) (k : ℕ) (o : Outcome Bytes) (g : AdData d.W)
        → HasRoom (suc k) g
        → HasRoom k (with_text d f lib out unset o g).1
    unfolding answer_text
    HasRoom-with_text unset k (done s) g h =
        elim (Bool-cases (ltb_ℤ (parse_query_string lib s).0 (pos 0))) [
          | inl failed ↦ rw failed (fewer k g h)
          | inr parsed ↦ rw parsed (
              let q = (parse_query_string lib s).1 in
              subst (HasRoom k)
                (sym (after_add s (add_ad d f unset q g).0 (add_ad d f unset q g).1))
                (HasRoom-add_ad unset q k g h))
        ]
    HasRoom-with_text unset k throws g h = fewer k g h
    HasRoom-with_text unset k blocks g h = fewer k g h
    HasRoom-with_text unset k undefined g h = fewer k g h

    -- However a run of the program over a list of requests ends, every entry that counts as an
    -- advertisement keeps its place as its number and lies below `number`, if that was so before and
    -- `number` with a place for each request stays in the range of an `int`.
    pub main-IsValid :
        (unset : ℤ) (requests : List FcgiRequest) (v : Served (AdData d.W))
        → IsValid d f v.state
        → pos_part v.state.number + length requests < 2 ^ 31
        → IsValid d f (main d f lib out unset requests v).1.state
    unfolding main answer
    main-IsValid unset requests v h b =
        (serve-keeps (answer d f lib out unset) HasRoom
          (λ k r g p. HasRoom-with_text unset k (request_string d f lib out r) g p) fewer requests v
          (h, b)).0
