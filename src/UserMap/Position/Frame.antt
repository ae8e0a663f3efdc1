-- ===== src/UserMap/Position/Frame.antt =====
-- What operations of user_map.cpp do to the position that `user_query` reads.
use simple_dsp.Base.{◌≡◌, refl, sym, subst, ◌∙◌, Bool, true, false, List, ℤ, get_or, if◌then◌else◌}
use simple_dsp.Text.{Bytes}
use simple_dsp.Prog.{Prog, Outcome, pure, when, done, throws, blocks, undefined, continue, ◌>>=◌}
use simple_dsp.Keys.{entry, get_data_entry_sstream}
use simple_dsp.Keys.Fields.{AllKeys, entry_lem}
use simple_dsp.Store.{Ty, Val}
use simple_dsp.Store.Contract.{IsStore, IsKey, IsNumber}
use simple_dsp.World.{Env, World, on_db, run_db, exec}

-- The keys of positions start `location:`, unlike those of logs, which start `location.log:`.
abbrev pub IsLocation : Bytes → Type 0
IsLocation j = (get_or j 0 0 ≡ 108) × (get_or j 8 0 ≡ 58)

-- Only the first bytes matter.
pub away :
    (args : List Bytes)
    → AllKeys args
    → ¬ (IsLocation (get_data_entry_sstream args))
    → ¬ (IsLocation (entry args))
away args h n l = n (subst IsLocation (entry_lem args h) l)

module _ (e : Env) (s : IsStore e.d e.m) where
  -- `m` changes nothing that is stored under such a key.
  pub record Keeps {A : Type 0} (m : Prog (World e) A) : Type 0 where
    pub same :
        (w : World e) (u : Ty) (j : Bytes) → IsLocation j → s.cell (m w).1.db u j ≡ s.cell w.db u j

  pub Keeps-continue :
      {A B : Type 0} (r : Outcome A) (f : A → Prog (World e) B)
      → ((a : A) → Keeps (f a))
      → Keeps (continue r f)
  Keeps-continue (done a) f h = record { same = λ w. (h a).same w }
  Keeps-continue throws f h = record { same = λ w u j l. refl }
  Keeps-continue blocks f h = record { same = λ w u j l. refl }
  Keeps-continue undefined f h = record { same = λ w u j l. refl }

  pub Keeps-bind :
      {A B : Type 0} (m : Prog (World e) A) (f : A → Prog (World e) B)
      → Keeps m
      → ((a : A) → Keeps (f a))
      → Keeps (m >>= f)
  Keeps-bind m f h k = record {
    same = λ w u j l. (Keeps-continue (m w).0 f k).same (m w).1 u j l ∙ h.same w u j l;
  }

  pub Keeps-pure : {A : Type 0} (a : A) → Keeps (pure a)
  Keeps-pure a = record { same = λ w u j l. refl }

  pub Keeps-when : (b : Bool) (m : Prog (World e) (Unit {0})) → Keeps m → Keeps (when b m)
  Keeps-when true m h = record { same = λ w. h.same w }
  Keeps-when false m h = record { same = λ w u j l. refl }

  pub Keeps-if :
      {A : Type 0} (b : Bool) (m n : Prog (World e) A)
      → Keeps m
      → Keeps n
      → Keeps (if b then m else n)
  Keeps-if true m n h k = h
  Keeps-if false m n h k = k

  pub Keeps-exec : (cmd : Bytes) → Keeps (exec e cmd)
  Keeps-exec cmd = record { same = λ w u j l. refl }

  pub Keeps-get : (t : Ty) (k : Bytes) (v : Val e.d t) → IsKey k → Keeps (on_db e (e.m.get t k v))
  Keeps-get t k v h = record { same = λ w u j l. s.cell-get t k v w.db u j h }

  pub Keeps-set :
      (t : Ty) (k : Bytes) (v : Val e.d t)
      → IsKey k
      → IsNumber t
      → ¬ (IsLocation k)
      → Keeps (run_db e (e.m.set t k v))
  Keeps-set t k v h n d = record {
    same = λ w u j l. s.cell-set_ne t k v w.db u j h n (λ q. d (subst IsLocation (sym q) l));
  }

  pub Keeps-zadd :
      (k : Bytes) (x : e.d.W) (v : Bytes)
      → IsKey k
      → IsKey v
      → Keeps (run_db e (e.m.zadd Ty.string k x v))
  Keeps-zadd k x v h g = record { same = λ w u j l. s.cell-zadd k x v w.db u j h g }

  pub Keeps-sadd :
      (k : Bytes) (v : Bytes) → IsKey k → IsKey v → Keeps (run_db e (e.m.sadd Ty.string k v))
  Keeps-sadd k v h g = record { same = λ w u j l. s.cell-sadd k v w.db u j h g }

  pub Keeps-incr :
      (k : Bytes) (n : ℤ) → IsKey k → ¬ (IsLocation k) → Keeps (run_db e (e.m.incr k n))
  Keeps-incr k n h d = record {
    same = λ w u j l. s.cell-incr_ne k n w.db u j h (λ q. d (subst IsLocation (sym q) l));
  }

  -- The same, where the result is used.
  pub Keeps-count :
      (k : Bytes) (n : ℤ) → IsKey k → ¬ (IsLocation k) → Keeps (on_db e (e.m.incr k n))
  Keeps-count k n h d = record { same = (Keeps-incr k n h d).same }
