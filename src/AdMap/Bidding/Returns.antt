-- ===== src/AdMap/Bidding/Returns.antt =====
-- ad_map.cpp: operations that return from every state, and how they are composed.
use simple_dsp.Base.{◌≡◌, refl, ap, ◌∙◌, Bool, true, false, if◌then◌else◌}
use simple_dsp.Text.{Bytes}
use simple_dsp.Prog.{Prog, pure, done, continue, ◌>>=◌}
use simple_dsp.World.{Env, World, on_db, run_db, exec, time_now}
use simple_dsp.AdMap.Filters.{and_then}

abbrev pub Anything : {A : Type 0} → A → Type 0
Anything a = Unit {0}

module _ (e : Env) where
  -- `m` returns from every state, with a result that has a property.
  pub record Returns {A : Type 0} (P : A → Type 0) (m : Prog (World e) A) : Type 0 where
    pub run : (w : World e) → (a : A) × (P a) × ((m w).0 ≡ done a)

  pub Returns-pure : {A : Type 0} (P : A → Type 0) (a : A) → P a → Returns P (pure a)
  Returns-pure P a p = record { run = λ w. (a, p, refl) }

  -- An operation that is never refused.
  pub Returns-lift : {A : Type 0} (f : e.m.State → A × e.m.State) → Returns Anything (on_db e f)
  Returns-lift f = record { run = λ w. ((f w.db).0, tt, refl) }

  pub Returns-run : {A : Type 0} (f : e.m.State → A × e.m.State) → Returns Anything (run_db e f)
  Returns-run f = record { run = λ w. (tt, tt, refl) }

  pub Returns-bind :
      {A B : Type 0} (P : A → Type 0) (Q : B → Type 0) (m : Prog (World e) A)
      (f : A → Prog (World e) B)
      → Returns P m
      → ((a : A) → P a → Returns Q (f a))
      → Returns Q (m >>= f)
  Returns-bind P Q m f h k = record {
    run = λ w.
        let (a, p, q) = h.run w in
        let (b, r, q') = (k a p).run (m w).1 in (b, r, ap (λ o. (continue o f (m w).1).0) q ∙ q');
  }

  pub Returns-if :
      {A : Type 0} (P : A → Type 0) (b : Bool) (m n : Prog (World e) A)
      → Returns P m
      → Returns P n
      → Returns P (if b then m else n)
  Returns-if P true m n h k = h
  Returns-if P false m n h k = k

  pub Returns-time : Returns Anything (time_now e)
  Returns-time = record { run = λ w. (e.clock w.reads, tt, refl) }

  pub Returns-and :
      (m n : Prog (World e) Bool)
      → Returns Anything m
      → Returns Anything n
      → Returns Anything (and_then e m n)
  Returns-and m n h k =
      Returns-bind Anything Anything m (λ b. if b then n else pure false) h
        (λ b u. Returns-if Anything b n (pure false) k (Returns-pure Anything false tt))

  pub Returns-exec : (cmd : Bytes) → Returns Anything (exec e cmd)
  Returns-exec cmd = record { run = λ w. ((e.exec cmd w.sql).0, tt, refl) }

  pub Returns-weaken :
      {A : Type 0} (P Q : A → Type 0) (m : Prog (World e) A)
      → ((a : A) → P a → Q a)
      → Returns P m
      → Returns Q m
  Returns-weaken P Q m f h = record { run = λ w. let (a, p, q) = h.run w in (a, f a p, q) }
