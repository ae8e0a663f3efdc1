-- ===== src/UserMap/Identity.antt =====
-- user_map.cpp: the numbering of users, `user_get_id` and `user_get_mac`, and `user_update`.
pub mod Mutex
pub mod Numbering
pub mod Later
pub mod Inverse
use simple_dsp.Base.{
  ℕ, zero, suc, Bool, true, false, List, [], ◌∷◌, ◌++◌, ℤ, pos, negsuc, ltb_ℤ, eqb_ℤ, ◌==◌, not,
  if◌then◌else◌,
}
use simple_dsp.Text.{Bytes, codes, show_int, stoi, stoull}
use simple_dsp.Prog.{Prog, pure, when, done, blocks, ◌>>=◌, ◌>>◌}
use simple_dsp.Store.{Ty}
use simple_dsp.World.{
  Env, World, number, text, on_db, run_db, exec, query, or_throw, catch_with, login,
}
use simple_dsp.UserMap.Key.{user_id_key, user_mac_key}

-- `s.empty()`
abbrev pub is_empty {ℓ} : {A : Type ℓ} → List A → Bool
is_empty [] = true
is_empty (c ∷ cs) = false

module _ (e : Env) where
  -- `pthread_mutex_lock`: a second lock by anyone waits for the unlock.
  abbrev pub lock : Prog (World e) (Unit {0})
  lock w = if w.locked then (blocks, w) else (done tt, record w { locked = true })

  abbrev pub unlock : Prog (World e) (Unit {0})
  unlock w = (done tt, record w { locked = false })

  -- The command line for a new user.
  unfoldable pub add_user_cmd : ℕ → Bytes
  add_user_cmd mac =
      e.format e.config.add_user_sql
        (number (pos mac) ∷ text (codes "guest") ∷ number (pos mac) ∷ login e)

  -- `for (int i = 0; i < 10; ++i) { s_id = exec(cmd); if (!s_id.empty()) break; }`
  unfoldable pub retry : ℕ → Bytes → Bytes → Prog (World e) Bytes
  retry zero cmd s_id w = (done s_id, w)
  retry (suc n) cmd s_id w =
      let (out, sql) = e.exec cmd w.sql in
      let rest = retry n cmd out (record w { sql = sql }) in
      if is_empty out then rest else (done out, record w { sql = sql })

  abbrev pub id_of_output : Bytes → Prog (World e) ℤ
  id_of_output s_id = if is_empty s_id then pure (pos 0) else or_throw e (stoi s_id)

  -- Both directions of the numbering.
  abbrev pub remember : ℕ → ℤ → Prog (World e) (Unit {0})
  remember mac user_id = do
    run_db e (e.m.set Ty.int (user_id_key mac) user_id)
    run_db e (e.m.set Ty.ull (user_mac_key user_id) mac)

  -- `if (user_id > 0) { … }`, the unlock and the return.
  unfoldable pub conclude : ℕ → ℤ → Prog (World e) ℤ
  conclude mac user_id = do
    when (ltb_ℤ (pos 0) user_id) (remember mac user_id)
    unlock
    pure user_id

  -- The body of `if (user_id == 0)`, and what follows it.
  unfoldable pub register : ℕ → Prog (World e) ℤ
  register mac = do
    s_id ← retry 10 (add_user_cmd mac) []
    user_id ← id_of_output s_id
    conclude mac user_id

  unfoldable pub user_get_id : ℕ → Prog (World e) ℤ
  user_get_id mac = do
    lock
    user_id ← on_db e (e.m.get Ty.int (user_id_key mac) (pos 0))
    if eqb_ℤ user_id (pos 0) then register mac else do unlock; pure user_id

  unfoldable pub query_mac_cmd : ℤ → Bytes
  query_mac_cmd user_id = e.format e.config.query_user_id_sql (number user_id ∷ login e)

  -- `mac = std::stoull(s_mac)` and the two writes.
  unfoldable pub remember_output : ℤ → Bytes → Prog (World e) ℕ
  remember_output user_id s_mac = do mac ← or_throw e (stoull s_mac); remember mac user_id; pure mac

  unfoldable pub user_get_mac : ℤ → Prog (World e) ℕ
  user_get_mac user_id = do
    mac ← on_db e (e.m.get Ty.ull (user_mac_key user_id) 0)
    if not (mac == 0) then pure mac else do
      s_mac ← exec e (query_mac_cmd user_id)
      if is_empty s_mac then pure 0 else remember_output user_id s_mac

  unfoldable pub update_phone_sql : ℤ → Bytes → Bytes
  update_phone_sql user_id phone =
      codes "update users set phone = '"
      ++ (e.escape phone ++ (codes "' where id=" ++ (show_int user_id ++ codes ";")))

  -- `user_update(mac, phone)`; `user_get_id` stands outside the `try`.
  unfoldable pub user_update : ℕ → Bytes → Prog (World e) ℤ
  user_update mac phone = do
    user_id ← user_get_id mac
    catch_with e (do query e (update_phone_sql user_id phone); pure (pos 0)) (negsuc 0)
