-- ===== src/RedisOp.antt =====
-- redis_op.cpp: the service that runs commands on Redis. It is not built: `RedisDb` has no member
-- `zrange`, which is a parameter here.
pub mod Stored
use simple_dsp.Base.{
  ℕ, ◌-◌, ◌^◌, Bool, ◌||◌, List, [], ◌∷◌, ◌++◌, Option, none, some, if◌then◌else◌, ℤ, pos, negsuc,
  ◌+ℤ◌, eqb_ℤ, to_int32,
}
use simple_dsp.Text.{Bytes, codes, bytes_eq, int_min, show_int}
use simple_dsp.Keys.{get_data_entry}
use simple_dsp.Prog.{Prog, Outcome, done, throws, undefined, pure, ◌>>=◌, ◌>>◌}
use simple_dsp.Store.{Double, Ty}
use simple_dsp.Redis.{Server, extract, get, set, zadd, sadd, smembers}
use simple_dsp.Request.{Query, Floats, read_params}
use simple_dsp.Service.{Libraries, Page, Served, print_reply, handle_request, serve}

-- The local variables of `Redis_op`; `shop_id` starts unset.
pub record Params (W : Type 0) : Type 0 where
  pub action : Bytes
  pub mac : ℕ
  pub x : W
  pub y : W
  pub z : ℤ
  pub start : W
  pub end : W
  pub mall_id : ℤ
  pub phone : Bytes
  pub shop_id : ℤ

abbrev pub keys : List Bytes
keys =
    codes "action"
    ∷ codes "x"
    ∷ codes "longitude"
    ∷ codes "y"
    ∷ codes "latitude"
    ∷ codes "z"
    ∷ codes "level"
    ∷ codes "mac"
    ∷ codes "start"
    ∷ codes "end"
    ∷ codes "mall_id"
    ∷ codes "key"
    ∷ codes "value"
    ∷ []

-- The member `result` of the JSON reply, which may be missing.
pub data OpReply : Type 0 where
  no_result : OpReply
  number : ℤ → OpReply
  text : Bytes → OpReply

-- `get_data_entry(value_str, user_list[i], " ")` for each in turn, so the last one stays.
unfoldable pub last_entry : Bytes → List ℤ → Bytes
last_entry entry [] = entry
last_entry entry (n ∷ rest) = last_entry (get_data_entry (show_int n ∷ codes " " ∷ [])) rest

-- What the program uses besides RedisDb: what the missing member finds, the text that memory shows at
-- an entry with a content, and `asString` of a number, which may throw.
pub record Extras (d : Double) (r : Server d) : Type 0 where
  pub zrange : Bytes → ℤ → ℤ → r.State → List ℤ × r.State
  pub text_at : Bytes → Bytes
  pub as_string : ℤ → Option Bytes

module _ (d : Double) (r : Server d) where
  -- The connection and `g_zaddCount`.
  pub record OpState : Type 0 where
    pub db : r.State
    pub zadd_count : ℤ

  abbrev pub on_redis : {A : Type 0} → (r.State → A × r.State) → Prog OpState A
  on_redis f s = let (a, db) = f s.db in (done a, record s { db = db })

module _ (d : Double) (r : Server d) (f : Floats d) (x : Extras d r) (unset_shop : ℤ) where
  abbrev pub defaults : Params d.W
  defaults = record {
    action = [];
    mac = 2 ^ 64 - 2 ^ 31;
    x = f.flt_max;
    y = f.flt_max;
    z = int_min;
    start = d.of_int (pos 0);
    end = d.of_int (pos (2 ^ 32 - 1));
    mall_id = pos 2;
    phone = [];
    shop_id = unset_shop;
  }

  unfoldable pub set_param : Bytes → Bytes → Params d.W → Params d.W
  set_param k v p =
      if bytes_eq k (codes "action")
      then record p { action = v }
      else if bytes_eq k (codes "x") || bytes_eq k (codes "longitude")
      then record p { x = f.extract_float p.x v }
      else if bytes_eq k (codes "y") || bytes_eq k (codes "latitude")
      then record p { y = f.extract_float p.y v }
      else if bytes_eq k (codes "z") || bytes_eq k (codes "level")
      then record p { z = extract d Ty.int p.z v }
      else if bytes_eq k (codes "mac")
      then record p { mac = extract d Ty.ull p.mac v }
      else if bytes_eq k (codes "start")
      then record p { start = extract d Ty.double p.start v }
      else if bytes_eq k (codes "end")
      then record p { end = extract d Ty.double p.end v }
      else if bytes_eq k (codes "mall_id")
      then record p { mall_id = extract d Ty.int p.mall_id v }
      else if bytes_eq k (codes "key")
      then record p { phone = v }
      else if bytes_eq k (codes "value")
      then record p { shop_id = extract d Ty.int p.shop_id v }
      else p

  -- `asString` for the log.
  abbrev pub logged : Option Bytes → ℤ → Prog (OpState d r) OpReply
  logged none n s = (throws, s)
  logged (some shown) n s = (done (number n), s)

  -- A result other than the value for a failure.
  abbrev pub unless : ℤ → ℤ → Prog (OpState d r) OpReply
  unless failure n = if eqb_ℤ failure n then pure no_result else logged (x.as_string n) n

  unfoldable pub op_set : Params d.W → Prog (OpState d r) OpReply
  op_set p = do n ← on_redis d r (set d r Ty.int p.phone p.shop_id); unless (pos 0) n

  unfoldable pub op_get : Params d.W → Prog (OpState d r) OpReply
  op_get p = do n ← on_redis d r (get d r Ty.int p.phone (negsuc 0)); unless (negsuc 0) n

  -- The score is a count of the calls.
  unfoldable pub op_zadd : Params d.W → Prog (OpState d r) OpReply
  op_zadd p s =
      let (n, db) = zadd d r Ty.int p.phone (d.of_int s.zadd_count) p.shop_id s.db in
      (done (number n), record { db = db; zadd_count = to_int32 (s.zadd_count +ℤ pos 1) })

  abbrev pub entries_reply : List ℤ → OpReply
  entries_reply [] = no_result
  entries_reply (n ∷ rest) = text (x.text_at (last_entry [] (n ∷ rest)))

  unfoldable pub op_zrangebyscore : Params d.W → Prog (OpState d r) OpReply
  op_zrangebyscore p = do
    user_list ← on_redis d r (x.zrange p.phone (pos 0) (pos 10))
    pure (entries_reply user_list)

  unfoldable pub op_sadd : Params d.W → Prog (OpState d r) OpReply
  op_sadd p = do n ← on_redis d r (sadd d r Ty.int p.phone p.shop_id); pure (number n)

  unfoldable pub op_smembers : Params d.W → Prog (OpState d r) OpReply
  op_smembers p = do
    user_list ← on_redis d r (smembers d r Ty.int p.phone)
    pure (entries_reply user_list)

  unfoldable pub run_action : Params d.W → Prog (OpState d r) OpReply
  run_action p =
      if bytes_eq (codes "set") p.action
      then op_set p
      else if bytes_eq (codes "get") p.action
      then op_get p
      else if bytes_eq (codes "zadd") p.action
      then op_zadd p
      else if bytes_eq (codes "zrangebyscore") p.action
      then op_zrangebyscore p
      else if bytes_eq (codes "sadd") p.action
      then op_sadd p
      else if bytes_eq (codes "smembers") p.action
      then op_smembers p
      else pure (text (codes "none"))

  abbrev pub with_params : Option (Params d.W) → Prog (OpState d r) OpReply
  with_params none s = (throws, s)
  with_params (some p) s = run_action p s

  unfoldable pub redis_op : Query → Prog (OpState d r) OpReply
  redis_op query_list = with_params (read_params keys set_param query_list defaults)

  module _ (lib : Libraries) (write : OpReply → Bytes) where
    unfoldable pub reply_page : Query → Prog (OpState d r) Page
    reply_page query_list = do ret ← redis_op query_list; print_reply lib write ret

    -- The loop, once the connection is open; each request is the text of its URI.
    unfoldable pub main : List (Option Bytes) → Prog (Served (OpState d r)) (Unit {0})
    main = serve (handle_request lib reply_page)
