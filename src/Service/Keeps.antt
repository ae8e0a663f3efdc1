-- ===== src/Service/Keeps.antt =====
-- The FastCGI services: what every request keeps, a run keeps.
use simple_dsp.Base.{ℕ, zero, suc, List, [], ◌∷◌, length}
use simple_dsp.Prog.{Prog, Outcome, done, throws, blocks, undefined, continue}
use simple_dsp.Service.{Page, Served, put_page, serve}

-- `P k s` may speak of `k` requests that are still to come.
module _ {S R : Type 0} (answer : R → Prog S Page) (P : ℕ → S → Type 0)
    (step : (k : ℕ) (r : R) (s : S) → P (suc k) s → P k (answer r s).1)
    (fewer : (k : ℕ) (s : S) → P (suc k) s → P k s) where
  none_left : (k : ℕ) (s : S) → P k s → P 0 s
  none_left zero s h = h
  none_left (suc k) s h = none_left k s (fewer k s h)

  ended :
      (rs : List R) (o : Outcome Page) (s : S) (pages : List Page)
      → ((v : Served S) → P (length rs) v.state → P 0 (serve answer rs v).1.state)
      → P (length rs) s
      → (let (r, v) = put_page o s pages in P 0 (continue r (λ u. serve answer rs) v).1.state)
  ended rs (done page) s pages ih h = ih (record { state = s; pages = page ∷ pages }) h
  ended rs throws s pages ih h = none_left (length rs) s h
  ended rs blocks s pages ih h = none_left (length rs) s h
  ended rs undefined s pages ih h = none_left (length rs) s h

  pub serve-keeps :
      (rs : List R) (v : Served S) → P (length rs) v.state → P 0 (serve answer rs v).1.state
  unfolding serve
  serve-keeps [] v h = h
  serve-keeps (r ∷ rs) v h =
      ended rs (answer r v.state).0 (answer r v.state).1 v.pages (serve-keeps rs)
        (step (length rs) r v.state h)
