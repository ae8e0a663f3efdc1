-- ===== src/Examples/Entries.antt =====
-- A tair client that keeps its entries in a list.
use simple_dsp.Base.{◌≡◌, ◌≢◌, refl, [], ◌∷◌, Option, none, some, ℤ, pos, negsuc, arith}
use simple_dsp.Text.{Bytes, show_int, scan_int}
use simple_dsp.Store.Contract.{IsStore, or_default}
use simple_dsp.Tair.{Client, tair_mdb}
use simple_dsp.Tair.Contract.{IsClient, tair_mdb-IsStore}
use simple_dsp.Examples.Memory.{whole, Table, look, look_self, look_ne}

abbrev answer : Option Bytes → ℤ × Bytes
answer none = (negsuc 3997, [])
answer (some v) = (pos 0, v)

abbrev entries : Client whole
entries = record {
  State = Table Bytes;
  return_success = pos 0;
  get = λ area k s. (answer (look k s), s);
  put = λ area k v s. (pos 0, (k, v) ∷ s);
  hset = λ area k f v s. (pos 0, s);
  hgetall = λ area k s. ([], s);
  zadd = λ area k x v s. (pos 0, s);
  zrangebyscore = λ area k lo hi s. ([], s);
  sadd = λ area k v s. (pos 0, s);
  smembers = λ area k s. ([], s);
  incr = λ area k n s. (pos 0, s);
  remove = λ area k s. (pos 0, s);
  raw = show_int;
  of_raw = λ s. or_default (pos 0) (scan_int s);
}

no_entry : (k : Bytes) (s : Table Bytes) → look k s ≡ none → (answer (look k s)).0 ≢ pos 0
no_entry k s missing = rw missing (λ e. ground (arith, e))

entries-IsClient : IsClient whole entries (pos 0)
entries-IsClient = record {
  data_of = λ s k. look k s;
  get_some = λ k v s q. rw q refl;
  get_none = no_entry;
  data-get = λ k j s. refl;
  data-put = λ k v s. look_self k v s;
  data-put_ne = λ k v j s n. look_ne k j v s n;
  data-zadd = λ k v j x s. refl;
  data-sadd = λ k v j s. refl;
  data-smembers = λ k j s. refl;
  data-incr_ne = λ k j n s q. refl;
}

tair_mdb-IsStore_example : IsStore whole (tair_mdb whole entries (pos 0))
tair_mdb-IsStore_example = tair_mdb-IsStore whole entries (pos 0) entries-IsClient
