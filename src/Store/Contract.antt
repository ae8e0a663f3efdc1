-- ===== src/Store/Contract.antt =====
-- The contract of the memory database while its server answers: what a key holds after each
-- operation.
use simple_dsp.Base.{ℕ, ◌^◌, ltb, ◌≤◌, ◌≡◌, ◌≢◌, true, Option, none, some, [], ℤ}
use simple_dsp.Text.{Bytes, in_range, int_min, int_max, llong_min, llong_max}
use simple_dsp.Text.Decimal.{All}
use simple_dsp.Store.{Double, Ty, Val, Mdb, int, ull, time, double, string}

-- A byte that a command line carries unchanged: no space, no `%`, no control character.
abbrev pub IsPlain : ℕ → Type 0
IsPlain c = (33 ≤ c) × (c ≢ 37)

abbrev pub IsKey : Bytes → Type 0
IsKey = All IsPlain

abbrev pub or_default {ℓ} : {A : Type ℓ} → A → Option A → A
or_default a none = a
or_default a (some b) = b

-- A value that comes back as it was stored; a `double` may be rounded on its way through text.
abbrev pub IsNumber : Ty → Type 0
IsNumber string = ⊥
IsNumber t = Unit {0}

-- `cell s t k` is what key `k` holds, read at type `t`; sets and hashes hold no such value.
pub record IsStore (d : Double) (m : Mdb d) : Type 1 where
  pub cell : m.State → (t : Ty) → Bytes → Option (Val d t)
  pub rounded : d.W → d.W
  pub get_value :
      (t : Ty) (k : Bytes) (v : Val d t) (s : m.State)
      → IsKey k
      → (m.get t k v s).0 ≡ or_default v (cell s t k)
  pub cell-get :
      (t : Ty) (k : Bytes) (v : Val d t) (s : m.State) (u : Ty) (j : Bytes)
      → IsKey k
      → cell (m.get t k v s).1 u j ≡ cell s u j
  pub cell-set_int :
      (k : Bytes) (v : ℤ) (s : m.State)
      → IsKey k
      → k ≢ []
      → in_range int_min int_max v ≡ true
      → cell (m.set int k v s).1 int k ≡ some v
  pub cell-set_ull :
      (k : Bytes) (v : ℕ) (s : m.State)
      → IsKey k
      → k ≢ []
      → ltb v (2 ^ 64) ≡ true
      → cell (m.set ull k v s).1 ull k ≡ some v
  pub cell-set_time :
      (k : Bytes) (v : ℤ) (s : m.State)
      → IsKey k
      → k ≢ []
      → in_range llong_min llong_max v ≡ true
      → cell (m.set time k v s).1 time k ≡ some v
  pub cell-set_double :
      (k : Bytes) (v : d.W) (s : m.State)
      → IsKey k
      → k ≢ []
      → cell (m.set double k v s).1 double k ≡ some (rounded v)
  pub cell-set_ne :
      (t : Ty) (k : Bytes) (v : Val d t) (s : m.State) (u : Ty) (j : Bytes)
      → IsKey k
      → IsNumber t
      → k ≢ j
      → cell (m.set t k v s).1 u j ≡ cell s u j
  pub cell-zadd :
      (k : Bytes) (x : d.W) (v : Bytes) (s : m.State) (u : Ty) (j : Bytes)
      → IsKey k
      → IsKey v
      → cell (m.zadd string k x v s).1 u j ≡ cell s u j
  pub cell-sadd :
      (k : Bytes) (v : Bytes) (s : m.State) (u : Ty) (j : Bytes)
      → IsKey k
      → IsKey v
      → cell (m.sadd string k v s).1 u j ≡ cell s u j
  pub cell-smembers :
      (t : Ty) (k : Bytes) (s : m.State) (u : Ty) (j : Bytes)
      → IsKey k
      → cell (m.smembers t k s).1 u j ≡ cell s u j
  pub cell-incr_ne :
      (k : Bytes) (n : ℤ) (s : m.State) (u : Ty) (j : Bytes)
      → IsKey k
      → k ≢ j
      → cell (m.incr k n s).1 u j ≡ cell s u j
