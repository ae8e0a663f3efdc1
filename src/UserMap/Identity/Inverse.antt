-- ===== src/UserMap/Identity/Inverse.antt =====
-- user_map.cpp: `user_get_mac` after `user_get_id`.
use simple_dsp.Base.{
  ℕ, ◌≡◌, ◌≢◌, refl, ap, ◌∙◌, inl, inr, true, false, ◌==◌, ltb, ◌^◌, some, ℤ, pos, ltb_ℤ,
  Bool-cases, Option-cases, arith,
}
use simple_dsp.Text.{Bytes, stoi}
use simple_dsp.Prog.{done, throws, continue}
use simple_dsp.Store.{Ty}
use simple_dsp.Store.Contract.{IsStore, or_default}
use simple_dsp.World.{Env, World}
use simple_dsp.UserMap.Key.{user_mac_key}
use simple_dsp.UserMap.Key.Plain.{user_mac_key-IsKey, user_mac_key-nonempty}
use simple_dsp.UserMap.Identity.{is_empty, register, conclude, user_get_id, user_get_mac}
use simple_dsp.UserMap.Identity.Mutex.{
  id_result, remembered, conclude_lem, register_lem, looked_up, after_lookup, user_get_id_lem,
}

module _ (e : Env) (s : IsStore e.d e.m) where
  -- A known number costs no command.
  known_mac :
      (id : ℤ) (w : World e) (mac : ℕ)
      → s.cell w.db Ty.ull (user_mac_key id) ≡ some mac
      → mac ≢ 0
      → ((user_get_mac e id w).0 ≡ done mac) × ((user_get_mac e id w).1.sql ≡ w.sql)
  unfolding user_get_mac
  known_mac id w mac c n =
      let g : (e.m.get Ty.ull (user_mac_key id) 0 w.db).0 ≡ mac =
        s.get_value Ty.ull _ 0 w.db (user_mac_key-IsKey id) ∙ ap (or_default 0) c in
      let t : (mac == 0) ≡ false = ground arith in rw (g, t) (refl, refl)

  remembered_mac :
      (mac : ℕ) (id : ℤ) (db : e.m.State)
      → ltb mac (2 ^ 64) ≡ true
      → ltb_ℤ (pos 0) id ≡ true
      → s.cell (remembered e mac id db) Ty.ull (user_mac_key id) ≡ some mac
  remembered_mac mac id db r n =
      rw n (s.cell-set_ull _ mac _ (user_mac_key-IsKey id) (user_mac_key-nonempty id) r)

  concluded_mac :
      (mac : ℕ) (out : Bytes) (w : World e) (id : ℤ)
      → ltb mac (2 ^ 64) ≡ true
      → (continue (id_result e out) (conclude e mac) w).0 ≡ done id
      → ltb_ℤ (pos 0) id ≡ true
      → s.cell (continue (id_result e out) (conclude e mac) w).1.db Ty.ull (user_mac_key id)
        ≡ some mac
  concluded_mac mac out w id m r n = elim (Bool-cases (is_empty out)) [
    | inl empty ↦
        let q : done (pos 0) ≡ done id = rw (empty, conclude_lem e mac (pos 0) w) at r in
        ground arith
    | inr found ↦ elim (Option-cases (stoi out)) [
      | inl bad ↦ let q : throws ≡ done id = rw (found, bad) at r in ground arith
      | inr (z, good) ↦
          let q : done z ≡ done id = rw (found, good, conclude_lem e mac z w) at r in
          let i : z ≡ id = cc q in
          rw (found, good, conclude_lem e mac z w, i) (remembered_mac mac id w.db m n)
    ]
  ]

  -- Where `user_get_id` has just numbered a MAC address that it did not know, `user_get_mac` gives
  -- that address back for the number, and asks the SQL server nothing.
  pub user_get_mac-user_get_id :
      (mac : ℕ) (w : World e) (id : ℤ)
      → w.locked ≡ false
      → looked_up e mac w ≡ pos 0
      → (user_get_id e mac w).0 ≡ done id
      → ltb_ℤ (pos 0) id ≡ true
      → mac ≢ 0
      → ltb mac (2 ^ 64) ≡ true
      → let w' = (user_get_id e mac w).1 in
        ((user_get_mac e id w').0 ≡ done mac) × ((user_get_mac e id w').1.sql ≡ w'.sql)
  user_get_mac-user_get_id mac w id h u r n z m =
      let step : user_get_id e mac w ≡ register e mac (after_lookup e mac w) =
        user_get_id_lem e mac w h ∙ (rw u refl) in
      let q = rw (step, register_lem e mac (after_lookup e mac w)) at r in
      known_mac id (user_get_id e mac w).1 mac
        (rw (step, register_lem e mac (after_lookup e mac w)) (concluded_mac mac _ _ id m q n)) z
