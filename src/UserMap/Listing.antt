-- ===== src/UserMap/Listing.antt =====
-- user_map.cpp: the lists of users that were seen between two times, as JSON.
pub mod Shown
use simple_dsp.Base.{
  ℕ, zero, suc, ◌-◌, ◌^◌, List, [], ◌∷◌, Option, none, some, ℤ, pos, negsuc, ltb, ltb_ℤ, length,
  if◌then◌else◌,
}
use simple_dsp.Text.{Bytes, codes, scan_int}
use simple_dsp.Prog.{Prog, pure, ◌>>=◌}
use simple_dsp.Store.{Ty}
use simple_dsp.World.{Env, World, on_db, time_now}
use simple_dsp.UserMap.Key.{update_time_key, shop_update_time_key}
use simple_dsp.UserMap.Visits.{date_of}
use simple_dsp.UserMap.Position.{tair_get_user_prop}

-- `sscanf(s, "%llu", &tmp)`: `none` leaves `tmp` as it was. Numbers too large become the largest,
-- and negative ones are taken modulo 2^64.
abbrev pub ull_of : Option ℤ → Option ℕ
ull_of none = none
ull_of (some (pos n)) = some (if ltb n (2 ^ 64) then n else 2 ^ 64 - 1)
ull_of (some (negsuc n)) = some (if ltb n (2 ^ 64 - 1) then 2 ^ 64 - 1 - n else 2 ^ 64 - 1)

-- An element of the JSON array `users`. The number is missing where `tmp` was never set.
pub data Item : Type 0 where
  user : Option ℕ → Item
  and_more : Item

pub record UserList : Type 0 where
  pub users : List Item
  pub size : ℕ

-- The loop over the members, with `room` members still to be written out in full.
unfoldable pub list_items : ℕ → List Bytes → List Item
list_items room [] = []
list_items zero (id ∷ ids) = and_more ∷ []
list_items (suc room) (id ∷ ids) = user (ull_of (scan_int id)) ∷ list_items room ids

pub record UserNode (W : Type 0) : Type 0 where
  pub id : Bytes
  pub x : W
  pub y : W
  pub z : ℤ

module _ (e : Env) where
  -- The key that `user_list` reads.
  unfoldable pub user_list_key : Bytes → ℤ → ℤ → Bytes
  user_list_key date mall_id shop_id =
      if ltb_ℤ (pos 0) shop_id
      then shop_update_time_key date mall_id shop_id
      else update_time_key date mall_id

  unfoldable pub user_list : e.d.W → e.d.W → ℤ → ℤ → Prog (World e) UserList
  user_list start end mall_id shop_id = do
    t_now ← time_now e
    users ←
        on_db e
          (e.m.zrangebyscore Ty.string (user_list_key (date_of e t_now) mall_id shop_id) start end)
    pure (record { users = list_items 50 users; size = length users })

  unfoldable pub user_node : ℤ → Bytes → Prog (World e) (UserNode e.d.W)
  user_node mall_id id = do
    x ← tair_get_user_prop e Ty.double mall_id id (codes "x") (e.d.of_int (pos 0))
    y ← tair_get_user_prop e Ty.double mall_id id (codes "y") (e.d.of_int (pos 0))
    z ← tair_get_user_prop e Ty.int mall_id id (codes "z") (pos 0)
    pure (record { id = id; x = x; y = y; z = z })

  unfoldable pub user_nodes : ℤ → List Bytes → Prog (World e) (List (UserNode e.d.W))
  user_nodes mall_id [] = pure []
  user_nodes mall_id (id ∷ ids) = do
    node ← user_node mall_id id
    rest ← user_nodes mall_id ids
    pure (node ∷ rest)

  -- The members are numbered from 1 in the order of the list, and `size` is their number.
  unfoldable pub user_list_all : e.d.W → e.d.W → ℤ → Prog (World e) (List (UserNode e.d.W) × ℕ)
  user_list_all start end mall_id = do
    t_now ← time_now e
    values ←
        on_db e (e.m.zrangebyscore Ty.string (update_time_key (date_of e t_now) mall_id) start end)
    nodes ← user_nodes mall_id values
    pure (nodes, length values)
