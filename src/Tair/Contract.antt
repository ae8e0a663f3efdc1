-- ===== src/Tair/Contract.antt =====
-- `TairDb` on a client that does what its calls document.
use simple_dsp.Base.{
  ◌≡◌, ◌≢◌, refl, ap, ◌∙◌, inl, inr, true, false, Option, none, some, ℤ, ◌^◌, ltb, eqb_ℤ, eqb_ℤ_iff,
  Option-cases, low_word, arith,
}
use simple_dsp.Text.{Bytes}
use simple_dsp.Store.{Double, Ty, Val, int, ull, time, double}
use simple_dsp.Store.Contract.{IsStore, or_default}
use simple_dsp.UserMap.Position.{le_bytes, time_pattern}
use simple_dsp.Tair.{
  Client, text_entry, value_of, get_data_entry_of_value, signed, tair_get, tair_put, tair_zadd,
  tair_sadd, tair_smembers, get, set, zadd, sadd, smembers, incr, tair_mdb,
}
use simple_dsp.Tair.Memory.{
  of_le_bytes-le_bytes, signed-low_word, signed-time_pattern, low_word_lt, time_pattern_lt,
  text_entry-injective,
}

-- `data_of` is the entry that `put` left under a key of the area.
pub record IsClient (d : Double) (c : Client d) (area : ℤ) : Type 0 where
  pub data_of : c.State → Bytes → Option Bytes
  pub get_some :
      (k v : Bytes) (s : c.State)
      → data_of s k ≡ some v
      → (c.get area k s).0 ≡ (c.return_success, v)
  pub get_none :
      (k : Bytes) (s : c.State) → data_of s k ≡ none → (c.get area k s).0.0 ≢ c.return_success
  pub data-get : (k j : Bytes) (s : c.State) → data_of (c.get area k s).1 j ≡ data_of s j
  pub data-put : (k v : Bytes) (s : c.State) → data_of (c.put area k v s).1 k ≡ some v
  pub data-put_ne :
      (k v j : Bytes) (s : c.State) → k ≢ j → data_of (c.put area k v s).1 j ≡ data_of s j
  pub data-zadd :
      (k v j : Bytes) (x : d.W) (s : c.State) → data_of (c.zadd area k x v s).1 j ≡ data_of s j
  pub data-sadd : (k v j : Bytes) (s : c.State) → data_of (c.sadd area k v s).1 j ≡ data_of s j
  pub data-smembers : (k j : Bytes) (s : c.State) → data_of (c.smembers area k s).1 j ≡ data_of s j
  pub data-incr_ne :
      (k j : Bytes) (n : ℤ) (s : c.State) → k ≢ j → data_of (c.incr area k n s).1 j ≡ data_of s j

module _ (d : Double) (c : Client d) (area : ℤ) (h : IsClient d c area) where
  abbrev read_data : (t : Ty) → Option Bytes → Option (Val d t)
  read_data t none = none
  read_data t (some v) = some (value_of d c t v)

  abbrev cell_at : c.State → (t : Ty) → Bytes → Option (Val d t)
  cell_at s t k = read_data t (h.data_of s (text_entry k))

  refused :
      (k : Bytes) (s : c.State)
      → h.data_of s k ≡ none
      → eqb_ℤ (c.get area k s).0.0 c.return_success ≡ false
  refused k s missing =
      let n = h.get_none k s missing in
      let (to, back) = eqb_ℤ_iff (c.get area k s).0.0 c.return_success in ground arith

  succeeds : eqb_ℤ c.return_success c.return_success ≡ true
  succeeds = (eqb_ℤ_iff c.return_success c.return_success).1 refl

  get_value :
      (t : Ty) (k : Bytes) (v : Val d t) (s : c.State)
      → (get d c area t k v s).0 ≡ or_default v (cell_at s t k)
  unfolding get tair_get
  get_value t k v s = elim (Option-cases (h.data_of s (text_entry k))) [
    | inl missing ↦ rw (missing, refused (text_entry k) s missing) refl
    | inr (x, found) ↦ rw (found, h.get_some (text_entry k) x s found, succeeds) refl
  ]

  value_of_ull :
      (v : Val d ull)
      → ltb v (2 ^ 64) ≡ true
      → value_of d c ull (get_data_entry_of_value d c ull v) ≡ v
  unfolding value_of get_data_entry_of_value
  value_of_ull v b = of_le_bytes-le_bytes 8 v (ground arith)

  -- A client that does what its calls document makes `TairDb` a memory database that keeps the
  -- contract, for every area.
  pub tair_mdb-IsStore : IsStore d (tair_mdb d c area)
  unfolding tair_mdb get set zadd sadd smembers tair_smembers incr tair_get tair_put tair_zadd
      tair_sadd value_of get_data_entry_of_value
  tair_mdb-IsStore = record {
    cell = cell_at;
    rounded = λ v. c.of_raw (c.raw v);
    get_value = λ t k v s g. get_value t k v s;
    cell-get = λ t k v s u j g. ap (read_data u) (h.data-get (text_entry k) (text_entry j) s);
    cell-set_int = λ k v s g f b.
        ap (read_data int) (h.data-put (text_entry k) (le_bytes 4 (low_word v)) s)
        ∙ ap (λ n. some (signed 32 n)) (of_le_bytes-le_bytes 4 (low_word v) (low_word_lt v))
        ∙ ap some (signed-low_word v b);
    cell-set_ull = λ k v s g f b.
        ap (read_data ull) (h.data-put (text_entry k) (le_bytes 8 v) s)
        ∙ ap some (value_of_ull v b);
    cell-set_time = λ k v s g f b.
        ap (read_data time) (h.data-put (text_entry k) (le_bytes 8 (time_pattern v)) s)
        ∙ ap (λ n. some (signed 64 n))
            (of_le_bytes-le_bytes 8 (time_pattern v) (time_pattern_lt v b))
        ∙ ap some (signed-time_pattern v b);
    cell-set_double = λ k v s g f. ap (read_data double) (h.data-put (text_entry k) (c.raw v) s);
    cell-set_ne = λ t k v s u j g n q. ap (read_data u) (
        h.data-put_ne (text_entry k) (get_data_entry_of_value d c t v) (text_entry j) s
          (λ e. q (text_entry-injective k j e)));
    cell-zadd = λ k x v s u j g b.
        ap (read_data u) (h.data-zadd (text_entry k) (text_entry v) (text_entry j) x s);
    cell-sadd = λ k v s u j g b.
        ap (read_data u) (h.data-sadd (text_entry k) (text_entry v) (text_entry j) s);
    cell-smembers =
        λ t k s u j g. ap (read_data u) (h.data-smembers (text_entry k) (text_entry j) s);
    cell-incr_ne = λ k n s u j g q.
        ap (read_data u)
          (h.data-incr_ne (text_entry k) (text_entry j) n s (λ e. q (text_entry-injective k j e)));
  }
