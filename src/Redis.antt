-- ===== src/Redis.antt =====
-- redisDB.hpp: `class RedisDb`, which writes command lines for the server and reads its replies.
pub mod Store
pub mod Connection
pub mod Contract
use simple_dsp.Base.{
  ℕ, ◌+◌, ◌-◌, ◌*◌, ◌^◌, ◌≡◌, Bool, true, false, ◌&&◌, ◌||◌, List, [], ◌∷◌, ◌++◌, Option, none,
  some, ℤ, pos, negsuc, ltb, leb, map, ltb_ℤ, if◌then◌else◌,
}
use simple_dsp.Text.{
  Bytes, codes, bytes_eq, show_nat, show_int, skip_spaces, scan_int, take_word, c_str, int_min,
  int_max, llong_min, llong_max,
}
use simple_dsp.Prog.{Outcome, done, undefined}
use simple_dsp.Store.{Double, Ty, Val, Mdb, int, ull, time, double, string}

-- struct redisReply. The elements of an array are given by their texts.
pub data Reply : Type 0 where
  status : Bytes → Reply
  error : Bytes → Reply
  integer : ℤ → Reply
  nil : Reply
  string_reply : Bytes → Reply
  array : List Bytes → Reply

-- An argument of a format: `%s`, or `%d` and `%lld`.
pub data FormatArg : Type 0 where
  str : Bytes → FormatArg
  num : ℤ → FormatArg

-- The server as hiredis shows it. `redisCommand` takes a format and its arguments; `none` is NULL.
-- `stale` is what the member `integer` of a reply reads after the reply was freed, and `unset` what an
-- uninitialised variable of a type holds.
pub record Server (d : Double) : Type 1 where
  pub State : Type 0
  pub command : Bytes → List FormatArg → State → Option Reply × State
  pub stale : Reply → ℤ
  pub unset : (t : Ty) → Val d t

-- `_reply->str`, which is NULL but for texts.
unfoldable pub reply_str : Reply → Option Bytes
reply_str (status s) = some s
reply_str (error s) = some s
reply_str (string_reply s) = some s
reply_str _ = none

abbrev pub to_lower : ℕ → ℕ
to_lower c = if leb 65 c && leb c 90 then c + 32 else c

-- `strcasecmp(s, "OK") == 0`
unfoldable pub is_ok_word : Bytes → Bool
is_ok_word s = bytes_eq (map to_lower s) (codes "ok")

unfoldable pub is_status : Reply → Bool
is_status (status s) = true
is_status _ = false

-- The tests of `set` on the reply, in their order.
unfoldable pub set_result : Option Reply → ℤ
set_result none = pos 0
set_result (some r) = elim (reply_str r) [
  | none ↦ pos 0
  | some s ↦
      if is_status r && is_ok_word s
      then (if bytes_eq (codes "OK") s then pos 1 else pos 0)
      else pos 0
]

-- `this->_reply->integer`, read before the reply is freed.
unfoldable pub integer_result : Option Reply → ℤ
integer_result (some (integer n)) = n
integer_result _ = pos 0

abbrev pub clamp : ℤ → ℤ → ℤ → ℤ
clamp lo hi z = if ltb_ℤ z lo then lo else if ltb_ℤ hi z then hi else z

abbrev pub clamp_ull : ℤ → ℕ
clamp_ull (pos n) = if ltb n (2 ^ 64) then n else 2 ^ 64 - 1
clamp_ull (negsuc n) = if ltb n (2 ^ 64 - 1) then 2 ^ 64 - 1 - n else 2 ^ 64 - 1

abbrev pub or_else {ℓ κ} : {A : Type ℓ} {B : Type κ} → B → (A → B) → Option A → B
or_else b f none = b
or_else b f (some a) = f a

-- A text with no word leaves the variable alone.
abbrev pub unless_blank {ℓ} : {A : Type ℓ} → Bytes → A → A → A
unless_blank [] before a = before
unless_blank (c ∷ cs) before a = a

module _ (d : Double) where
  -- `stream << value`
  unfoldable pub print : (t : Ty) → Val d t → Bytes
  print int v = show_int v
  print ull v = show_nat v
  print time v = show_int v
  print double v = d.show v
  print string v = v

  -- `T value; stream >> value`. A number out of range becomes the nearest one in range, and 0 where
  -- the word is no number.
  unfoldable pub extract : (t : Ty) → Val d t → Bytes → Val d t
  extract int before s =
      unless_blank (skip_spaces s) before (or_else (pos 0) (clamp int_min int_max) (scan_int s))
  extract ull before s = unless_blank (skip_spaces s) before (or_else 0 clamp_ull (scan_int s))
  extract time before s =
      unless_blank (skip_spaces s) before (or_else (pos 0) (clamp llong_min llong_max) (scan_int s))
  extract double before s =
      unless_blank (skip_spaces s) before (or_else (d.of_int (pos 0)) (λ x. x) (d.scan s))
  extract string before s = take_word (skip_spaces s)

  -- `members_set.insert(…)` keeps what is there. The order of the map is not modelled.
  unfoldable pub insert_new :
      (t : Ty) → Bytes → Val d t → List (Bytes × Val d t) → List (Bytes × Val d t)
  insert_new t k v [] = (k, v) ∷ []
  insert_new t k v ((j, w) ∷ rest) =
      if bytes_eq j k then (j, w) ∷ rest else (j, w) ∷ insert_new t k v rest

module _ (d : Double) (r : Server d) where
  -- A text of a reply, read at a type.
  unfoldable pub read_value : (t : Ty) → Bytes → Val d t
  read_value t s = extract d t (r.unset t) (c_str s)

  unfoldable pub read_values : (t : Ty) → List Bytes → List (Val d t)
  read_values t [] = []
  read_values t (s ∷ texts) = read_value t s ∷ read_values t texts

  -- Fields and values alternate. A last field without a value does not occur in a reply.
  unfoldable pub read_pairs :
      (t : Ty) → List Bytes → List (Bytes × Val d t) → List (Bytes × Val d t)
  read_pairs t [] members = members
  read_pairs t (f ∷ []) members = members
  read_pairs t (f ∷ s ∷ texts) members =
      read_pairs t texts (insert_new d t (c_str f) (read_value t s) members)

  abbrev pub array_values : (t : Ty) → Option Reply → List (Val d t)
  array_values t (some (array texts)) = read_values t texts
  array_values t _ = []

  abbrev pub array_pairs : (t : Ty) → Option Reply → List (Bytes × Val d t)
  array_pairs t (some (array texts)) = read_pairs t texts []
  array_pairs t _ = []

  abbrev pub string_value : (t : Ty) → Val d t → Option Reply → Val d t
  string_value t default_v (some (string_reply s)) = read_value t s
  string_value t default_v _ = default_v

  -- `freeReplyObject(this->_reply); return this->_reply->integer;`
  abbrev pub freed_integer : Option Reply → ℤ
  freed_integer (some (integer n)) = r.stale (integer n)
  freed_integer _ = pos 0

  -- Runs a command and reads its reply.
  abbrev pub call :
      {A : Type 0} → Bytes → List FormatArg → (Option Reply → A) → r.State → A × r.State
  call format args result s = let (reply, s') = r.command format args s in (result reply, s')

  unfoldable pub set : (t : Ty) → Bytes → Val d t → r.State → ℤ × r.State
  set t key value = call (codes "SET " ++ (key ++ (32 ∷ print d t value))) [] set_result

  unfoldable pub get : (t : Ty) → Bytes → Val d t → r.State → Val d t × r.State
  get t key default_v = call (codes "GET %s") (str key ∷ []) (string_value t default_v)

  unfoldable pub hset : (t : Ty) → Bytes → Bytes → Val d t → r.State → ℤ × r.State
  hset t key field value =
      call (codes "HSET " ++ (key ++ (32 ∷ field ++ (32 ∷ print d t value)))) [] freed_integer

  unfoldable pub hget : (t : Ty) → Bytes → r.State → List (Bytes × Val d t) × r.State
  hget t key = call (codes "HGETALL %s") (str key ∷ []) (array_pairs t)

  -- The score is cut to a whole number.
  unfoldable pub zadd : (t : Ty) → Bytes → d.W → Val d t → r.State → ℤ × r.State
  zadd t key score value =
      call (codes "ZADD " ++ (key ++ (32 ∷ show_int (d.to_llong score) ++ (32 ∷ print d t value))))
        [] integer_result

  unfoldable pub zrangebyscore : (t : Ty) → Bytes → d.W → d.W → r.State → List (Val d t) × r.State
  zrangebyscore t key min max =
      call (codes "ZRANGEBYSCORE %s %lld %lld")
        (str key ∷ num (d.to_llong min) ∷ num (d.to_llong max) ∷ []) (array_values t)

  unfoldable pub zmembers : (t : Ty) → Bytes → r.State → List (Val d t) × r.State
  zmembers t key =
      call (codes "ZRANGE %s 0 %lld") (str key ∷ num (d.to_llong d.max) ∷ []) (array_values t)

  unfoldable pub sadd : (t : Ty) → Bytes → Val d t → r.State → ℤ × r.State
  sadd t key value = call (codes "SADD " ++ (key ++ (32 ∷ print d t value))) [] integer_result

  unfoldable pub smembers : (t : Ty) → Bytes → r.State → List (Val d t) × r.State
  smembers t key = call (codes "SMEMBERS %s") (str key ∷ []) (array_values t)

  unfoldable pub remove_key : ℤ → Bytes → r.State → ℤ × r.State
  remove_key area key = call (codes "del %s") (str key ∷ []) freed_integer

  unfoldable pub incr : Bytes → ℤ → r.State → ℤ × r.State
  incr key n = call (codes "incrby %s %d") (str key ∷ num n ∷ []) freed_integer

  -- The reply is looked at before it is known that there is one.
  abbrev pub select_result : Option Reply → Outcome Bool
  select_result none = undefined
  select_result (some r) = elim (reply_str r) [
    | none ↦ done false
    | some s ↦ done (is_status r && is_ok_word s)
  ]

  unfoldable pub set_num_db : ℤ → r.State → Outcome Bool × r.State
  set_num_db n = call (codes "select %d") (num n ∷ []) select_result

  -- The operations together, as `CBaseMdb` offers them.
  unfoldable pub redis_mdb : Mdb d
  redis_mdb = record {
    State = r.State;
    get = get;
    set = set;
    hset = hset;
    hget = hget;
    zadd = zadd;
    zrangebyscore = zrangebyscore;
    zmembers = zmembers;
    sadd = sadd;
    smembers = smembers;
    incr = incr;
  }
