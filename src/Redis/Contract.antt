-- ===== src/Redis/Contract.antt =====
-- `RedisDb` on a server that does what the commands document.
use simple_dsp.Base.{
  ◌≡◌, ◌≢◌, refl, sym, ap, ◌∙◌, ◌⊎◌, inl, inr, [], ◌∷◌, ◌++◌, Option, none, some, ℤ, pos,
  Option-cases, arith,
}
use simple_dsp.Text.{Bytes, codes, show_int, show_nat, scan_int, scan_signed, skip_spaces}
use simple_dsp.Text.Decimal.{scan_int-show_int}
use simple_dsp.Store.{Double, Ty, Val, int, ull, time, double, string}
use simple_dsp.Store.Contract.{IsStore, IsKey, IsNumber, or_default}
use simple_dsp.Keys.Fields.{show_int-IsKey}
use simple_dsp.Redis.{
  Server, str, num, nil, error, string_reply, read_value, print, get, set, zadd, sadd, smembers,
  incr, redis_mdb,
}
use simple_dsp.Redis.Store.{read_value-print_int, read_value-print_time, read_value-print_ull}

-- `data_of` is what a key holds as a text; a set or a hash is no text. A refused command changes
-- nothing. A command line drops an empty key or value, so SET is refused for those.
pub record IsServer (d : Double) (r : Server d) : Type 0 where
  pub data_of : r.State → Bytes → Option Bytes
  pub get_some :
      (k v : Bytes) (s : r.State)
      → IsKey k
      → data_of s k ≡ some v
      → (r.command (codes "GET %s") (str k ∷ []) s).0 ≡ some (string_reply v)
  pub get_none :
      (k : Bytes) (s : r.State)
      → IsKey k
      → data_of s k ≡ none
      → ((r.command (codes "GET %s") (str k ∷ []) s).0 ≡ some nil)
        ⊎ ((m : Bytes) × ((r.command (codes "GET %s") (str k ∷ []) s).0 ≡ some (error m)))
  pub data-get :
      (k j : Bytes) (s : r.State)
      → IsKey k
      → data_of (r.command (codes "GET %s") (str k ∷ []) s).1 j ≡ data_of s j
  pub data-set :
      (k v : Bytes) (s : r.State)
      → IsKey k
      → k ≢ []
      → IsKey v
      → v ≢ []
      → data_of (r.command (codes "SET " ++ (k ++ (32 ∷ v))) [] s).1 k ≡ some v
  pub data-set_ne :
      (k v j : Bytes) (s : r.State)
      → IsKey k
      → IsKey v
      → k ≢ j
      → data_of (r.command (codes "SET " ++ (k ++ (32 ∷ v))) [] s).1 j ≡ data_of s j
  pub data-zadd :
      (k x v j : Bytes) (s : r.State)
      → IsKey k
      → IsKey x
      → IsKey v
      → data_of (r.command (codes "ZADD " ++ (k ++ (32 ∷ x ++ (32 ∷ v)))) [] s).1 j ≡ data_of s j
  pub data-sadd :
      (k v j : Bytes) (s : r.State)
      → IsKey k
      → IsKey v
      → data_of (r.command (codes "SADD " ++ (k ++ (32 ∷ v))) [] s).1 j ≡ data_of s j
  pub data-smembers :
      (k j : Bytes) (s : r.State)
      → IsKey k
      → data_of (r.command (codes "SMEMBERS %s") (str k ∷ []) s).1 j ≡ data_of s j
  pub data-incrby_ne :
      (k j : Bytes) (n : ℤ) (s : r.State)
      → IsKey k
      → k ≢ j
      → data_of (r.command (codes "incrby %s %d") (str k ∷ num n ∷ []) s).1 j ≡ data_of s j

-- `double`s are printed as words.
pub record ShowsWords (d : Double) : Type 0 where
  pub plain : (x : d.W) → IsKey (d.show x)
  pub nonempty : (x : d.W) → d.show x ≢ []

pub show_int-nonempty : (z : ℤ) → show_int z ≢ []
unfolding scan_int scan_signed skip_spaces
show_int-nonempty z e =
    let q : none ≡ some z = ap scan_int (sym e) ∙ scan_int-show_int z in ground arith

module _ (d : Double) (r : Server d) (h : IsServer d r) (p : ShowsWords d) where
  abbrev read_data : (t : Ty) → Option Bytes → Option (Val d t)
  read_data t none = none
  read_data t (some v) = some (read_value d r t v)

  print-IsKey : (t : Ty) (v : Val d t) → IsNumber t → IsKey (print d t v)
  unfolding print show_int
  print-IsKey int v n = show_int-IsKey v
  print-IsKey ull v n = show_int-IsKey (pos v)
  print-IsKey time v n = show_int-IsKey v
  print-IsKey double v n = p.plain v
  print-IsKey string v n = absurd n

  get_value :
      (t : Ty) (k : Bytes) (v : Val d t) (s : r.State)
      → IsKey k
      → (get d r t k v s).0 ≡ or_default v (read_data t (h.data_of s k))
  unfolding get
  get_value t k v s g = elim (Option-cases (h.data_of s k)) [
    | inl missing ↦ elim (h.get_none k s g missing) [
      | inl q ↦ rw (missing, q) refl
      | inr (m, q) ↦ rw (missing, q) refl
    ]
    | inr (x, found) ↦ rw (found, h.get_some k x s g found) refl
  ]

  -- A server that does what its commands document makes `RedisDb` a memory database that keeps the
  -- contract, provided that `double`s are printed as words.
  pub redis_mdb-IsStore : IsStore d (redis_mdb d r)
  unfolding redis_mdb get set zadd sadd smembers incr print show_int
  redis_mdb-IsStore = record {
    cell = λ s t k. read_data t (h.data_of s k);
    rounded = λ v. read_value d r Ty.double (d.show v);
    get_value = get_value;
    cell-get = λ t k v s u j g. ap (read_data u) (h.data-get k j s g);
    cell-set_int = λ k v s g f b.
        ap (read_data int)
          (h.data-set k (show_int v) s g f (show_int-IsKey v) (show_int-nonempty v))
        ∙ ap some (read_value-print_int d r v b);
    cell-set_ull = λ k v s g f b.
        ap (read_data ull)
          (h.data-set k (show_nat v) s g f (show_int-IsKey (pos v)) (show_int-nonempty (pos v)))
        ∙ ap some (read_value-print_ull d r v b);
    cell-set_time = λ k v s g f b.
        ap (read_data time)
          (h.data-set k (show_int v) s g f (show_int-IsKey v) (show_int-nonempty v))
        ∙ ap some (read_value-print_time d r v b);
    cell-set_double = λ k v s g f.
        ap (read_data double) (h.data-set k (d.show v) s g f (p.plain v) (p.nonempty v));
    cell-set_ne = λ t k v s u j g n q.
        ap (read_data u) (h.data-set_ne k (print d t v) j s g (print-IsKey t v n) q);
    cell-zadd = λ k x v s u j g b.
        ap (read_data u) (h.data-zadd k (show_int (d.to_llong x)) v j s g (show_int-IsKey _) b);
    cell-sadd = λ k v s u j g b. ap (read_data u) (h.data-sadd k v j s g b);
    cell-smembers = λ t k s u j g. ap (read_data u) (h.data-smembers k j s g);
    cell-incr_ne = λ k n s u j g q. ap (read_data u) (h.data-incrby_ne k j n s g q);
  }
