-- ===== src/Tair.antt =====
-- tairDB.hpp and the `tair_*` functions of tair_common.h: `class TairDb`, over the tair client.
pub mod Connection
pub mod Contract
pub mod Memory
use simple_dsp.Base.{
  ℕ, zero, suc, ◌+◌, ◌-◌, ◌*◌, ◌^◌, List, [], ◌∷◌, ◌++◌, ℤ, pos, negsuc, ltb, eqb_ℤ, if◌then◌else◌,
  low_word,
}
use simple_dsp.Text.{Bytes}
use simple_dsp.Keys.{get_value}
use simple_dsp.Store.{Double, Ty, Val, Mdb, int, ull, time, double, string}
use simple_dsp.UserMap.Position.{le_bytes, time_pattern}
use simple_dsp.Redis.{insert_new}

-- The tair client. Data entries are bytes; every call gives a return code and the entries it fills
-- in. `raw` and `of_raw` are a `double` in memory.
pub record Client (d : Double) : Type 1 where
  pub State : Type 0
  pub return_success : ℤ
  pub get : ℤ → Bytes → State → (ℤ × Bytes) × State
  pub put : ℤ → Bytes → Bytes → State → ℤ × State
  pub hset : ℤ → Bytes → Bytes → Bytes → State → ℤ × State
  pub hgetall : ℤ → Bytes → State → List (Bytes × Bytes) × State
  pub zadd : ℤ → Bytes → d.W → Bytes → State → ℤ × State
  pub zrangebyscore : ℤ → Bytes → d.W → d.W → State → List Bytes × State
  pub sadd : ℤ → Bytes → Bytes → State → ℤ × State
  pub smembers : ℤ → Bytes → State → List Bytes × State
  pub incr : ℤ → Bytes → ℤ → State → ℤ × State
  pub remove : ℤ → Bytes → State → ℤ × State
  pub raw : d.W → Bytes
  pub of_raw : Bytes → d.W

-- `data_entry(key.c_str(), key.size() + 1)`
abbrev pub text_entry : Bytes → Bytes
text_entry s = s ++ 0 ∷ []

-- A number from its bytes, the lowest first.
unfoldable pub of_le_bytes : ℕ → Bytes → ℕ
of_le_bytes zero s = 0
of_le_bytes (suc k) [] = 0
of_le_bytes (suc k) (b ∷ s) = b + 256 * of_le_bytes k s

abbrev pub signed : ℕ → ℕ → ℤ
signed w n = if ltb n (2 ^ (w - 1)) then pos n else negsuc (2 ^ w - 1 - n)

module _ (d : Double) (c : Client d) where
  -- `get_data_entry_of_value`: the bytes of the value in memory, or a text with its NUL.
  unfoldable pub get_data_entry_of_value : (t : Ty) → Val d t → Bytes
  get_data_entry_of_value int v = le_bytes 4 (low_word v)
  get_data_entry_of_value ull v = le_bytes 8 v
  get_data_entry_of_value time v = le_bytes 8 (time_pattern v)
  get_data_entry_of_value double v = c.raw v
  get_data_entry_of_value string v = text_entry v

  -- `get_value<T>`
  unfoldable pub value_of : (t : Ty) → Bytes → Val d t
  value_of int s = signed 32 (of_le_bytes 4 s)
  value_of ull s = of_le_bytes 8 s
  value_of time s = signed 64 (of_le_bytes 8 s)
  value_of double s = c.of_raw s
  value_of string s = get_value s

  unfoldable pub values_of : (t : Ty) → List Bytes → List (Val d t)
  values_of t [] = []
  values_of t (s ∷ entries) = value_of t s ∷ values_of t entries

  abbrev pub got : (t : Ty) → Val d t → ℤ → Bytes → Val d t
  got t default_v ret s = if eqb_ℤ ret c.return_success then value_of t s else default_v

  unfoldable pub tair_get : (t : Ty) → ℤ → Bytes → Val d t → c.State → Val d t × c.State
  tair_get t area key default_v s =
      let (found, s') = c.get area key s in (got t default_v found.0 found.1, s')

  unfoldable pub tair_put : (t : Ty) → ℤ → Bytes → Val d t → c.State → ℤ × c.State
  tair_put t area key v = c.put area key (get_data_entry_of_value t v)

  unfoldable pub tair_hset : (t : Ty) → ℤ → Bytes → Bytes → Val d t → c.State → ℤ × c.State
  tair_hset t area key field v = c.hset area key field (get_data_entry_of_value t v)

  unfoldable pub tair_zadd : (t : Ty) → ℤ → Bytes → d.W → Val d t → c.State → ℤ × c.State
  tair_zadd t area key score v = c.zadd area key score (get_data_entry_of_value t v)

  unfoldable pub tair_sadd : (t : Ty) → ℤ → Bytes → Val d t → c.State → ℤ × c.State
  tair_sadd t area key v = c.sadd area key (get_data_entry_of_value t v)

  unfoldable pub tair_zrangebyscore :
      (t : Ty) → ℤ → Bytes → d.W → d.W → c.State → List (Val d t) × c.State
  tair_zrangebyscore t area key start end s =
      let (entries, s') = c.zrangebyscore area key start end s in (values_of t entries, s')

  unfoldable pub tair_zmembers : (t : Ty) → ℤ → Bytes → c.State → List (Val d t) × c.State
  tair_zmembers t area key = tair_zrangebyscore t area key d.lowest d.max

  unfoldable pub tair_smembers : (t : Ty) → ℤ → Bytes → c.State → List (Val d t) × c.State
  tair_smembers t area key s =
      let (entries, s') = c.smembers area key s in (values_of t entries, s')

  unfoldable pub insert_all :
      (t : Ty) → List (Bytes × Bytes) → List (Bytes × Val d t) → List (Bytes × Val d t)
  insert_all t [] members = members
  insert_all t ((f, v) ∷ rest) members =
      insert_all t rest (insert_new d t (get_value f) (value_of t v) members)

  unfoldable pub tair_hgetall : (t : Ty) → ℤ → Bytes → c.State → List (Bytes × Val d t) × c.State
  tair_hgetall t area key s =
      let (entries, s') = c.hgetall area key s in (insert_all t entries [], s')

  -- `if (0 != ret) return 0; return 1;`
  abbrev pub success : ℤ × c.State → ℤ × c.State
  success (ret, s) = (if eqb_ℤ (pos 0) ret then pos 1 else pos 0, s)

  module _ (tair_namespace : ℤ) where
    unfoldable pub set : (t : Ty) → Bytes → Val d t → c.State → ℤ × c.State
    set t key v s = success (tair_put t tair_namespace (text_entry key) v s)

    unfoldable pub get : (t : Ty) → Bytes → Val d t → c.State → Val d t × c.State
    get t key = tair_get t tair_namespace (text_entry key)

    unfoldable pub hset : (t : Ty) → Bytes → Bytes → Val d t → c.State → ℤ × c.State
    hset t key field v s =
        success (tair_hset t tair_namespace (text_entry key) (text_entry field) v s)

    unfoldable pub hget : (t : Ty) → Bytes → c.State → List (Bytes × Val d t) × c.State
    hget t key = tair_hgetall t tair_namespace (text_entry key)

    unfoldable pub zadd : (t : Ty) → Bytes → d.W → Val d t → c.State → ℤ × c.State
    zadd t key score v s = success (tair_zadd t tair_namespace (text_entry key) score v s)

    unfoldable pub zrangebyscore : (t : Ty) → Bytes → d.W → d.W → c.State → List (Val d t) × c.State
    zrangebyscore t key = tair_zrangebyscore t tair_namespace (text_entry key)

    unfoldable pub zmembers : (t : Ty) → Bytes → c.State → List (Val d t) × c.State
    zmembers t key = tair_zmembers t tair_namespace (text_entry key)

    unfoldable pub sadd : (t : Ty) → Bytes → Val d t → c.State → ℤ × c.State
    sadd t key v s = success (tair_sadd t tair_namespace (text_entry key) v s)

    unfoldable pub smembers : (t : Ty) → Bytes → c.State → List (Val d t) × c.State
    smembers t key = tair_smembers t tair_namespace (text_entry key)

    -- The new value goes to a variable that is not returned.
    unfoldable pub incr : Bytes → ℤ → c.State → ℤ × c.State
    incr key n s = success (c.incr tair_namespace (text_entry key) n s)

    unfoldable pub remove_key : ℤ → Bytes → c.State → ℤ × c.State
    remove_key area key = c.remove area (text_entry key)

    -- The operations together, as `CBaseMdb` offers them.
    unfoldable pub tair_mdb : Mdb d
    tair_mdb = record {
      State = c.State;
      get = get;
      set = set;
      hset = hset;
      hget = hget;
      zadd = zadd;
      zrangebyscore = zrangebyscore;
      zmembers = zmembers;
      sadd = sadd;
      smembers = smembers;
      incr = incr;
    }
