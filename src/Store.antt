-- ===== src/Store.antt =====
-- What the services ask of the memory database (the interface of CBaseMdb.hpp), and of `double`.
pub mod Contract
pub mod Link
pub mod Order
use simple_dsp.Base.{ℕ, Bool, List, Option, ℤ}
use simple_dsp.Text.{Bytes}

-- The arithmetic of `double`, with the conversions that the sources use. `scan` is `>>`,
-- `to_float` the rounding to a `float`, and
-- `decimal m k` the literal with the digits `m`, `k` of them after the point.
pub record Double : Type 1 where
  pub W : Type 0
  pub of_int : ℤ → W
  pub decimal : ℕ → ℕ → W
  pub add : W → W → W
  pub mul : W → W → W
  pub div : W → W → W
  pub neg : W → W
  pub lt : W → W → Bool
  pub le : W → W → Bool
  pub eq : W → W → Bool
  pub to_float : W → W
  pub to_int : W → ℤ
  pub to_llong : W → ℤ
  pub lowest : W
  pub max : W
  pub show : W → Bytes
  pub scan : Bytes → Option W

-- The types at which the templates are used.
pub data Ty : Type 0 where
  int ull time double string : Ty

abbrev pub Val : Double → Ty → Type 0
Val d int = ℤ
Val d ull = ℕ
Val d time = ℤ
Val d double = d.W
Val d string = Bytes

-- The operations of `class CBaseMdb`. An `int` result is nonzero on success. The callers pass an
-- empty container to be filled, which is the result here.
pub record Mdb (d : Double) : Type 1 where
  pub State : Type 0
  pub get : (t : Ty) → Bytes → Val d t → State → Val d t × State
  pub set : (t : Ty) → Bytes → Val d t → State → ℤ × State
  pub hset : (t : Ty) → Bytes → Bytes → Val d t → State → ℤ × State
  pub hget : (t : Ty) → Bytes → State → List (Bytes × Val d t) × State
  pub zadd : (t : Ty) → Bytes → d.W → Val d t → State → ℤ × State
  pub zrangebyscore : (t : Ty) → Bytes → d.W → d.W → State → List (Val d t) × State
  pub zmembers : (t : Ty) → Bytes → State → List (Val d t) × State
  pub sadd : (t : Ty) → Bytes → Val d t → State → ℤ × State
  pub smembers : (t : Ty) → Bytes → State → List (Val d t) × State
  pub incr : Bytes → ℤ → State → ℤ × State
