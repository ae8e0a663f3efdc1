-- ===== src/Examples/Memory.antt =====
-- A memory database in lists, with whole numbers for `double`, and services that run on it.
use simple_dsp.Base.{
  ℕ, zero, suc, ◌+◌, ◌/◌, ◌^◌, ◌≡◌, ◌≢◌, refl, ap, inl, inr, true, false, List, [], ◌∷◌, Option,
  none, some, ℤ, pos, negsuc, ◌+ℤ◌, ◌*ℤ◌, neg_ℤ, ltb_ℤ, leb_ℤ, eqb_ℤ, Bool-cases, if◌then◌else◌,
  ◌&&◌, pos_part, neg_part, sub_ℕ,
}
use simple_dsp.Text.{
  Bytes, codes, bytes_eq, bytes_eq_iff, bytes_eq_refl, show_nat, show_int, scan_int,
}
use simple_dsp.Store.{Double, Ty, Val, Mdb, int, ull, time, double, string}
use simple_dsp.Store.Contract.{IsStore, or_default, IsNumber}
use simple_dsp.World.{Env, World, Tm, Config}

abbrev ratio : ℤ → ℤ → ℤ
ratio a (pos n) = sub_ℕ (pos_part a / n) (neg_part a / n)
ratio a (negsuc n) = sub_ℕ (neg_part a / suc n) (pos_part a / suc n)

abbrev pub whole : Double
whole = record {
  W = ℤ;
  of_int = λ z. z;
  decimal = λ m k. pos (m / 10 ^ k);
  add = ◌+ℤ◌;
  mul = ◌*ℤ◌;
  div = ratio;
  neg = neg_ℤ;
  lt = ltb_ℤ;
  le = leb_ℤ;
  eq = eqb_ℤ;
  to_float = λ z. z;
  to_int = λ z. z;
  to_llong = λ z. z;
  lowest = negsuc (2 ^ 62);
  max = pos (2 ^ 62);
  show = show_int;
  scan = scan_int;
}

abbrev pub Table : Type 0 → Type 0
Table A = List (Bytes × A)

abbrev pub look : {A : Type 0} → Bytes → Table A → Option A
look k [] = none
look k ((j, a) ∷ rest) = let below = look k rest in if bytes_eq j k then some a else below

abbrev pub look_all : {A : Type 0} → Bytes → Table A → List A
look_all k [] = []
look_all k ((j, a) ∷ rest) =
    let below = look_all k rest in if bytes_eq j k then a ∷ below else below

pub look_self : {A : Type 0} (k : Bytes) (a : A) (t : Table A) → look k ((k, a) ∷ t) ≡ some a
look_self k a t = rw (bytes_eq_refl k) refl

pub look_ne :
    {A : Type 0} (k j : Bytes) (a : A) (t : Table A) → k ≢ j → look j ((k, a) ∷ t) ≡ look j t
look_ne k j a t h = elim (Bool-cases (bytes_eq k j)) [
  | inl same ↦ absurd (h ((bytes_eq_iff k j).0 same))
  | inr other ↦ rw other refl
]

pub record Tables : Type 0 where
  pub ints : Table ℤ
  pub ulls : Table ℕ
  pub times : Table ℤ
  pub reals : Table ℤ
  pub texts : Table Bytes
  pub ranked : Table (ℤ × Bytes)
  pub members : Table Bytes
  pub fields : Table (Bytes × Bytes)

abbrev pub empty_tables : Tables
empty_tables = record {
  ints = [];
  ulls = [];
  times = [];
  reals = [];
  texts = [];
  ranked = [];
  members = [];
  fields = [];
}

abbrev pub cell_of : Tables → (t : Ty) → Bytes → Option (Val whole t)
cell_of s int k = look k s.ints
cell_of s ull k = look k s.ulls
cell_of s time k = look k s.times
cell_of s double k = look k s.reals
cell_of s string k = look k s.texts

abbrev pub put : (t : Ty) → Bytes → Val whole t → Tables → ℤ × Tables
put int k v s = (pos 1, record s { ints = (k, v) ∷ s.ints })
put ull k v s = (pos 1, record s { ulls = (k, v) ∷ s.ulls })
put time k v s = (pos 1, record s { times = (k, v) ∷ s.times })
put double k v s = (pos 1, record s { reals = (k, v) ∷ s.reals })
put string k v s = (pos 1, record s { texts = (k, v) ∷ s.texts })

abbrev within_scores : ℤ → ℤ → List (ℤ × Bytes) → List Bytes
within_scores lo hi [] = []
within_scores lo hi ((x, v) ∷ rest) =
    let below = within_scores lo hi rest in if leb_ℤ lo x && leb_ℤ x hi then v ∷ below else below

abbrev insert_score : ℤ → Bytes → List (ℤ × Bytes) → List (ℤ × Bytes)
insert_score x v [] = (x, v) ∷ []
insert_score x v ((y, u) ∷ rest) =
    let below = insert_score x v rest in
    if leb_ℤ x y then (x, v) ∷ (y, u) ∷ rest else (y, u) ∷ below

abbrev by_score : List (ℤ × Bytes) → List (ℤ × Bytes)
by_score [] = []
by_score ((x, v) ∷ rest) = insert_score x v (by_score rest)

abbrev seconds : {A : Type 0} → List (ℤ × A) → List A
seconds [] = []
seconds ((x, v) ∷ rest) = v ∷ seconds rest

abbrev zput : (t : Ty) → Bytes → ℤ → Val whole t → Tables → ℤ × Tables
zput string k x v s = (pos 1, record s { ranked = (k, (x, v)) ∷ s.ranked })
zput t k x v s = (pos 0, s)

abbrev scores : (t : Ty) → Bytes → ℤ → ℤ → Tables → List (Val whole t) × Tables
scores string k lo hi s = (within_scores lo hi (by_score (look_all k s.ranked)), s)
scores t k lo hi s = ([], s)

abbrev zlist : (t : Ty) → Bytes → Tables → List (Val whole t) × Tables
zlist string k s = (seconds (by_score (look_all k s.ranked)), s)
zlist t k s = ([], s)

abbrev mput : (t : Ty) → Bytes → Val whole t → Tables → ℤ × Tables
mput string k v s = (pos 1, record s { members = (k, v) ∷ s.members })
mput t k v s = (pos 0, s)

abbrev mlist : (t : Ty) → Bytes → Tables → List (Val whole t) × Tables
mlist string k s = (look_all k s.members, s)
mlist t k s = ([], s)

abbrev fput : (t : Ty) → Bytes → Bytes → Val whole t → Tables → ℤ × Tables
fput string k f v s = (pos 1, record s { fields = (k, (f, v)) ∷ s.fields })
fput t k f v s = (pos 0, s)

abbrev flist : (t : Ty) → Bytes → Tables → List (Bytes × Val whole t) × Tables
flist string k s = (look_all k s.fields, s)
flist t k s = ([], s)

abbrev count : Bytes → ℤ → Tables → ℤ × Tables
count k n s =
    let z = or_default (pos 0) (look k s.ints) +ℤ n in (z, record s { ints = (k, z) ∷ s.ints })

abbrev pub memory : Mdb whole
memory = record {
  State = Tables;
  get = λ t k v s. (or_default v (cell_of s t k), s);
  set = put;
  hset = fput;
  hget = flist;
  zadd = zput;
  zrangebyscore = scores;
  zmembers = zlist;
  sadd = mput;
  smembers = mlist;
  incr = count;
}

pub put_ne :
    (t : Ty) (k : Bytes) (v : Val whole t) (s : Tables) (u : Ty) (j : Bytes)
    → IsNumber t
    → k ≢ j
    → cell_of (put t k v s).1 u j ≡ cell_of s u j
put_ne int k v s int j n h = look_ne k j v s.ints h
put_ne int k v s ull j n h = refl
put_ne int k v s time j n h = refl
put_ne int k v s double j n h = refl
put_ne int k v s string j n h = refl
put_ne ull k v s int j n h = refl
put_ne ull k v s ull j n h = look_ne k j v s.ulls h
put_ne ull k v s time j n h = refl
put_ne ull k v s double j n h = refl
put_ne ull k v s string j n h = refl
put_ne time k v s int j n h = refl
put_ne time k v s ull j n h = refl
put_ne time k v s time j n h = look_ne k j v s.times h
put_ne time k v s double j n h = refl
put_ne time k v s string j n h = refl
put_ne double k v s int j n h = refl
put_ne double k v s ull j n h = refl
put_ne double k v s time j n h = refl
put_ne double k v s double j n h = look_ne k j v s.reals h
put_ne double k v s string j n h = refl
put_ne string k v s u j n h = absurd n

pub same_cells_ranked :
    (s : Tables) (r : Table (ℤ × Bytes)) (u : Ty) (j : Bytes)
    → cell_of (record s { ranked = r }) u j ≡ cell_of s u j
same_cells_ranked s r int j = refl
same_cells_ranked s r ull j = refl
same_cells_ranked s r time j = refl
same_cells_ranked s r double j = refl
same_cells_ranked s r string j = refl

pub same_cells_members :
    (s : Tables) (r : Table Bytes) (u : Ty) (j : Bytes)
    → cell_of (record s { members = r }) u j ≡ cell_of s u j
same_cells_members s r int j = refl
same_cells_members s r ull j = refl
same_cells_members s r time j = refl
same_cells_members s r double j = refl
same_cells_members s r string j = refl

pub same_mlist : (t : Ty) (k : Bytes) (s : Tables) → (mlist t k s).1 ≡ s
same_mlist int k s = refl
same_mlist ull k s = refl
same_mlist time k s = refl
same_mlist double k s = refl
same_mlist string k s = refl

abbrev pub memory-IsStore : IsStore whole memory
memory-IsStore = record {
  cell = cell_of;
  rounded = λ x. x;
  get_value = λ t k v s h. refl;
  cell-get = λ t k v s u j h. refl;
  cell-set_int = λ k v s h f r. look_self k v s.ints;
  cell-set_ull = λ k v s h f r. look_self k v s.ulls;
  cell-set_time = λ k v s h f r. look_self k v s.times;
  cell-set_double = λ k v s h f. look_self k v s.reals;
  cell-set_ne = λ t k v s u j h n d. put_ne t k v s u j n d;
  cell-zadd = λ k x v s u j h g. same_cells_ranked s ((k, (x, v)) ∷ s.ranked) u j;
  cell-sadd = λ k v s u j h g. same_cells_members s ((k, v) ∷ s.members) u j;
  cell-smembers = λ t k s u j g. ap (λ v. cell_of v u j) (same_mlist t k s);
  cell-incr_ne = λ k n s u j h d. put_ne int k (or_default (pos 0) (look k s.ints) +ℤ n) s u j tt d;
}

-- A server whose first answer is empty; later ones are numbers counted from 1.
abbrev pub counting : Bytes → ℕ → Bytes × ℕ
counting cmd zero = ([], 1)
counting cmd (suc n) = (show_nat (suc n), suc (suc n))

-- A server that reports an error.
abbrev pub failing : Bytes → ℕ → Bytes × ℕ
failing cmd n = (codes "error", suc n)

abbrev pub some_config : Config
some_config = record {
  time_slice = 10;
  max_duration_gap = pos 300;
  max_in_shop_gap = pos 3600;
  check_vip = pos 1;
  user_tag_save_on_tair = true;
  add_user_sql = codes "add %1%";
  add_user_location_sql = codes "log";
  query_user_id_sql = codes "query";
  charge_ad_sql = codes "charge";
  pg_password = codes "pw";
  pg_server = codes "host";
  pg_user = codes "me";
  pg_database = codes "dsp";
  slice_x = pos 10;
  slice_y = pos 10;
}

abbrev pub noon : ℤ → Tm
noon t = record {
  tm_min = 34;
  tm_hour = 12;
  tm_mday = 7;
  tm_mon = 6;
  tm_year = pos 114;
  tm_wday = 1;
}

abbrev pub env_with : (Bytes → ℕ → Bytes × ℕ) → Env
env_with server = record {
  d = whole;
  m = memory;
  Sql = ℕ;
  exec = server;
  query = λ q n. (some [], suc n);
  escape = λ s. s;
  as_int = scan_int;
  format = λ f args. f;
  write_json = λ r. codes "json";
  localtime = noon;
  beyond = λ n. 0;
  clock = λ n. pos (1404709697 + n);
  config = some_config;
}

abbrev pub start : (server : Bytes → ℕ → Bytes × ℕ) → World (env_with server)
start server = record { db = empty_tables; sql = 0; reads = 0; locked = false; last_date_time = [] }
