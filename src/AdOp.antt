-- ===== src/AdOp.antt =====
-- ad_op.cpp: the service that requests and clicks advertisements.
pub mod Limits
pub mod Main
use simple_dsp.Base.{
  ℕ, ◌==◌, Bool, ◌&&◌, not, List, [], ◌∷◌, if◌then◌else◌, ℤ, pos, ltb_ℤ, eqb_ℤ, pos_part,
}
use simple_dsp.Text.{Bytes, codes, bytes_eq, int_min}
use simple_dsp.Prog.{Prog, pure, ◌>>=◌}
use simple_dsp.Store.{Ty}
use simple_dsp.World.{Env, World, or_throw}
use simple_dsp.Redis.{extract}
use simple_dsp.Request.{Query, read_params}
use simple_dsp.UserMap.Identity.{user_get_id, user_get_mac}
use simple_dsp.AdMap.Bidding.{Reply, ad_request}
use simple_dsp.AdMap.Charge.{ad_click}

-- The local variables of `ad_op`; `mall_id` is 2 in every request.
pub record Params : Type 0 where
  pub action : Bytes
  pub user_id : ℤ
  pub mac : ℕ
  pub ad_space : ℤ
  pub n : ℤ
  pub ad_id : ℤ

abbrev pub mall_id : ℤ
mall_id = pos 2

abbrev pub defaults : Params
defaults = record {
  action = [];
  user_id = int_min;
  mac = 0;
  ad_space = int_min;
  n = pos 1;
  ad_id = int_min;
}

abbrev pub keys : List Bytes
keys =
    codes "mac" ∷ codes "user_id" ∷ codes "ad_id" ∷ codes "space" ∷ codes "action" ∷ codes "n" ∷ []

pub data AdReply : Type 0 where
  shown_ads : Reply → AdReply
  clicked : Bytes → AdReply
  neither : AdReply

-- `if (n < 1) n = 1`
abbrev pub at_least_one : ℤ → ℤ
at_least_one n = if ltb_ℤ n (pos 1) then pos 1 else n

module _ (e : Env) where
  unfoldable pub set_param : Bytes → Bytes → Params → Params
  set_param k v p =
      if bytes_eq k (codes "mac")
      then record p { mac = extract e.d Ty.ull p.mac v }
      else if bytes_eq k (codes "user_id")
      then record p { user_id = extract e.d Ty.int p.user_id v }
      else if bytes_eq k (codes "ad_id")
      then record p { ad_id = extract e.d Ty.int p.ad_id v }
      else if bytes_eq k (codes "space")
      then record p { ad_space = extract e.d Ty.int p.ad_space v }
      else if bytes_eq k (codes "action")
      then record p { action = v }
      else if bytes_eq k (codes "n")
      then record p { n = at_least_one (extract e.d Ty.int p.n v) }
      else p

  -- The number of the user, looked up for an address where only that is given.
  unfoldable pub find_user : Params → Prog (World e) ℤ
  find_user p =
      if eqb_ℤ p.user_id int_min && not (p.mac == 0) then user_get_id e p.mac else pure p.user_id

  -- The address, looked up for a number.
  unfoldable pub find_mac : ℕ → ℤ → Prog (World e) ℕ
  find_mac mac user_id =
      if (mac == 0) && not (eqb_ℤ user_id int_min) then user_get_mac e user_id else pure mac

  unfoldable pub op_request : Params → Prog (World e) AdReply
  op_request p = do
    user_id ← find_user p
    mac ← find_mac p.mac user_id
    ret ← ad_request e mac user_id p.ad_space mall_id (pos_part p.n)
    pure (shown_ads ret.0)

  unfoldable pub op_click : Params → Prog (World e) AdReply
  op_click p = do ret ← ad_click e p.ad_id p.user_id mall_id; pure (clicked ret.0)

  unfoldable pub run_action : Params → Prog (World e) AdReply
  run_action p =
      if bytes_eq (codes "request") p.action
      then op_request p
      else if bytes_eq (codes "click") p.action
      then op_click p
      else pure neither

  unfoldable pub ad_op : Query → Prog (World e) AdReply
  ad_op query = do p ← or_throw e (read_params keys set_param query defaults); run_action p
