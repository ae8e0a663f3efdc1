-- ===== src/Service/Skips.antt =====
-- The FastCGI services: requests that are no queries.
use simple_dsp.Base.{
  ◌≡◌, refl, ap, inl, inr, Bool, true, false, List, [], ◌∷◌, Option, none, some, if◌then◌else◌,
  Bool-cases, Option-cases,
}
use simple_dsp.Text.{Bytes}
use simple_dsp.Prog.{Prog, Outcome, done, throws, blocks, undefined, continue}
use simple_dsp.Service.{
  Libraries, Page, Served, serve, handle_request, parse_query_string, put_page,
}
use simple_dsp.Request.{Query}

-- What the URI library takes for a query: both calls succeed.
abbrev pub is_some : {A : Type 0} → Option A → Bool
is_some none = false
is_some (some a) = true

abbrev pub has_query : (lib : Libraries) → Option lib.Uri → Bool
has_query lib none = false
has_query lib (some uri) = is_some (lib.dissect_query uri)

abbrev pub is_query : (lib : Libraries) → Option Bytes → Bool
is_query lib none = true
is_query lib (some s) = has_query lib (lib.parse_uri s)

abbrev pub queries : Libraries → List (Option Bytes) → List (Option Bytes)
queries lib [] = []
queries lib (r ∷ rs) = let rest = queries lib rs in if is_query lib r then r ∷ rest else rest

abbrev pub not_empty : List Page → List Page
not_empty [] = []
not_empty ([] ∷ pages) = not_empty pages
not_empty ((text ∷ page) ∷ pages) = (text ∷ page) ∷ not_empty pages

-- Both ends agree but for empty pages.
abbrev pub SameBut :
    {S : Type 0} → Outcome (Unit {0}) × Served S → Outcome (Unit {0}) × Served S → Type 0
SameBut (r, v) (r', v') = (r ≡ r') × (v.state ≡ v'.state) × (not_empty v.pages ≡ not_empty v'.pages)

not_empty_cons :
    (page : Page) (p q : List Page)
    → not_empty p ≡ not_empty q
    → not_empty (page ∷ p) ≡ not_empty (page ∷ q)
not_empty_cons [] p q h = h
not_empty_cons (text ∷ page) p q h = ap (λ l. (text ∷ page) ∷ l) h

module _ (lib : Libraries) {S : Type 0} (handler : Query → Prog S Page) where
  no_query :
      (r : Option Bytes) (s : S)
      → is_query lib r ≡ false
      → handle_request lib handler r s ≡ (done [], s)
  unfolding handle_request parse_query_string
  no_query none s h = cc h
  no_query (some text) s h = elim (Option-cases (lib.parse_uri text)) [
    | inl failed ↦ rw failed refl
    | inr (uri, found) ↦ elim (Option-cases (lib.dissect_query uri)) [
      | inl failed ↦ rw (found, failed) refl
      | inr (q, list) ↦ let e : true ≡ false = rw (found, list) at h in cc e
    ]
  ]

  -- One more request on either side.
  after :
      (rs qs : List (Option Bytes)) (r : Outcome Page) (s : S) (p q : List Page)
      → ((s : S) (p q : List Page)
          → not_empty p ≡ not_empty q
          → SameBut
              (serve (handle_request lib handler) rs (record { state = s; pages = p }))
              (serve (handle_request lib handler) qs (record { state = s; pages = q })))
      → not_empty p ≡ not_empty q
      → (let (a, v) = put_page r s p in
          let (b, w) = put_page r s q in
          SameBut
            (continue a (λ u. serve (handle_request lib handler) rs) v)
            (continue b (λ u. serve (handle_request lib handler) qs) w))
  after rs qs (done page) s p q ih h = ih s (page ∷ p) (page ∷ q) (not_empty_cons page p q h)
  after rs qs throws s p q ih h = (refl, refl, h)
  after rs qs blocks s p q ih h = (refl, refl, h)
  after rs qs undefined s p q ih h = (refl, refl, h)

  same_from :
      (rs : List (Option Bytes)) (s : S) (p q : List Page)
      → not_empty p ≡ not_empty q
      → SameBut
          (serve (handle_request lib handler) rs (record { state = s; pages = p }))
          (serve (handle_request lib handler) (queries lib rs) (record { state = s; pages = q }))
  unfolding serve
  same_from [] s p q h = (refl, refl, h)
  same_from (r ∷ rs) s p q h = elim (Bool-cases (is_query lib r)) [
    | inl query ↦ rw query (
        let (o, s') = handle_request lib handler r s in
        after rs (queries lib rs) o s' p q (same_from rs) h)
    | inr other ↦ rw (other, no_query r s other) (same_from rs s ([] ∷ p) q h)
  ]

  -- Requests that are no queries do not matter to the others: leaving them out, the program ends the
  -- same way in the same state, and has printed the same pages, but for empty ones.
  pub serve-queries :
      (requests : List (Option Bytes)) (v : Served S)
      → SameBut
          (serve (handle_request lib handler) requests v)
          (serve (handle_request lib handler) (queries lib requests) v)
  serve-queries requests v = same_from requests v.state v.pages v.pages refl
