-- ===== src/UserOp.antt =====
-- user_op.cpp: the service that adds, queries and lists users.
pub mod Added
pub mod Checked
pub mod Main
pub mod Malls
pub mod Numbers
use simple_dsp.Base.{
  ℕ, ◌-◌, ◌^◌, ◌==◌, Bool, ◌||◌, List, [], ◌∷◌, Option, none, some, if◌then◌else◌, ℤ, pos, negsuc,
  eqb_ℤ, to_int32,
}
use simple_dsp.Text.{Bytes, codes, bytes_eq, int_min}
use simple_dsp.Prog.{Prog, pure, throws, ◌>>=◌, ◌>>◌}
use simple_dsp.Store.{Ty}
use simple_dsp.World.{Env, World, or_throw}
use simple_dsp.Redis.{extract}
use simple_dsp.Request.{Query, Floats, read_params}
use simple_dsp.UserMap.Identity.{user_get_id, user_update}
use simple_dsp.UserMap.Position.{UserPosition, user_add, user_query}
use simple_dsp.UserMap.Listing.{UserList, UserNode, user_list, user_list_all}

-- `INT_MIN` as an `unsigned long long`.
abbrev pub no_mac : ℕ
no_mac = 2 ^ 64 - 2 ^ 31

-- The local variables of `user_op`.
pub record Params (W : Type 0) : Type 0 where
  pub action : Bytes
  pub mac : ℕ
  pub x : W
  pub y : W
  pub z : ℤ
  pub start : W
  pub end : W
  pub mall_id : ℤ
  pub phone : Bytes
  pub shop_id : ℤ

-- The members of the JSON reply.
pub data UserReply (W : Type 0) : Type 0 where
  result : Bytes → UserReply W
  position : W → W → ℤ → UserReply W
  identity : ℤ → UserReply W
  all_users : List (UserNode W) → ℕ → UserReply W
  some_users : UserList → UserReply W

-- `user_remove` of user_map.cpp does nothing.
unfoldable pub user_remove : ℤ → ℤ → ℤ
user_remove mac mall_id = negsuc 0

abbrev pub keys : List Bytes
keys =
    codes "action"
    ∷ codes "x"
    ∷ codes "longitude"
    ∷ codes "y"
    ∷ codes "latitude"
    ∷ codes "z"
    ∷ codes "level"
    ∷ codes "mac"
    ∷ codes "start"
    ∷ codes "end"
    ∷ codes "mall_id"
    ∷ codes "phone"
    ∷ codes "shop_id"
    ∷ []

module _ (e : Env) (f : Floats e.d) where
  abbrev pub defaults : Params e.d.W
  defaults = record {
    action = [];
    mac = no_mac;
    x = f.flt_max;
    y = f.flt_max;
    z = int_min;
    start = e.d.of_int (pos 0);
    end = e.d.of_int (pos (2 ^ 32 - 1));
    mall_id = pos 2;
    phone = [];
    shop_id = pos 0;
  }

  unfoldable pub set_param : Bytes → Bytes → Params e.d.W → Params e.d.W
  set_param k v p =
      if bytes_eq k (codes "action")
      then record p { action = v }
      else if bytes_eq k (codes "x") || bytes_eq k (codes "longitude")
      then record p { x = f.extract_float p.x v }
      else if bytes_eq k (codes "y") || bytes_eq k (codes "latitude")
      then record p { y = f.extract_float p.y v }
      else if bytes_eq k (codes "z") || bytes_eq k (codes "level")
      then record p { z = extract e.d Ty.int p.z v }
      else if bytes_eq k (codes "mac")
      then record p { mac = extract e.d Ty.ull p.mac v }
      else if bytes_eq k (codes "start")
      then record p { start = extract e.d Ty.double p.start v }
      else if bytes_eq k (codes "end")
      then record p { end = extract e.d Ty.double p.end v }
      else if bytes_eq k (codes "mall_id")
      then record p { mall_id = extract e.d Ty.int p.mall_id v }
      else if bytes_eq k (codes "phone")
      then record p { phone = v }
      else if bytes_eq k (codes "shop_id")
      then record p { shop_id = extract e.d Ty.int p.shop_id v }
      else p

  abbrev pub fail : UserReply e.d.W
  fail = result (codes "fail")

  abbrev pub success : UserReply e.d.W
  success = result (codes "success")

  abbrev pub no_position : Params e.d.W → Bool
  no_position p =
      (p.mac == no_mac) || (e.d.eq p.x f.flt_max || (e.d.eq p.y f.flt_max || eqb_ℤ p.z int_min))

  unfoldable pub op_add : Params e.d.W → Prog (World e) (UserReply e.d.W)
  op_add p =
      if no_position p
      then pure fail
      else (user_add e p.mac p.x p.y p.z (negsuc 0) p.mall_id >> pure success)

  unfoldable pub op_remove : Params e.d.W → Prog (World e) (UserReply e.d.W)
  op_remove p =
      if p.mac == no_mac
      then pure fail
      else (pure (user_remove (to_int32 (pos p.mac)) p.mall_id) >> pure success)

  unfoldable pub op_update : Params e.d.W → Prog (World e) (UserReply e.d.W)
  op_update p = if no_position p then pure fail else (user_update e p.mac p.phone >> pure success)

  -- The mall is left to the default of `user_query`, which is 0.
  unfoldable pub op_query : Params e.d.W → Prog (World e) (UserReply e.d.W)
  op_query p =
      if p.mac == no_mac
      then pure fail
      else (do found ← user_query e p.mac (pos 0); pure (position found.x found.y found.z))

  unfoldable pub op_list_all : Params e.d.W → Prog (World e) (UserReply e.d.W)
  op_list_all p = do
    found ← user_list_all e p.start p.end p.mall_id
    pure (all_users found.0 found.1)

  unfoldable pub op_list : Params e.d.W → Prog (World e) (UserReply e.d.W)
  op_list p = do found ← user_list e p.start p.end p.mall_id p.shop_id; pure (some_users found)

  unfoldable pub op_get_id : Params e.d.W → Prog (World e) (UserReply e.d.W)
  op_get_id p =
      if p.mac == no_mac then pure fail else (do id ← user_get_id e p.mac; pure (identity id))

  unfoldable pub run_action : Params e.d.W → Prog (World e) (UserReply e.d.W)
  run_action p =
      if bytes_eq (codes "add") p.action
      then op_add p
      else if bytes_eq (codes "remove") p.action
      then op_remove p
      else if bytes_eq (codes "update") p.action
      then op_update p
      else if bytes_eq (codes "query") p.action
      then op_query p
      else if bytes_eq (codes "list_all") p.action
      then op_list_all p
      else if bytes_eq (codes "list") p.action
      then op_list p
      else if bytes_eq (codes "get_id") p.action
      then op_get_id p
      else pure (result (codes "none"))

  unfoldable pub user_op : Query → Prog (World e) (UserReply e.d.W)
  user_op query = do p ← or_throw e (read_params keys set_param query defaults); run_action p
