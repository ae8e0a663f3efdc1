-- ===== src/UserMap/Identity/Later.antt =====
-- user_map.cpp: `user_get_id` for an address after calls for others.
use simple_dsp.Base.{
  ℕ, ◌≡◌, ◌≢◌, refl, sym, ap, ◌∙◌, inl, inr, true, false, List, [], ◌∷◌, ℤ, pos, eqb_ℤ, eqb_ℤ_iff,
  ltb_ℤ, Bool-cases, Option-cases, false≢true,
}
use simple_dsp.Text.{Bytes, stoi}
use simple_dsp.Prog.{done, continue}
use simple_dsp.Store.{Ty}
use simple_dsp.Store.Contract.{IsStore, or_default}
use simple_dsp.World.{Env, World}
use simple_dsp.UserMap.Key.{user_id_key}
use simple_dsp.UserMap.Key.Plain.{user_id_key-IsKey, user_mac_key-IsKey}
use simple_dsp.UserMap.Key.Distinct.{user_id_key-user_mac_key, user_id_key-injective}
use simple_dsp.UserMap.Identity.{is_empty, conclude, user_get_id}
use simple_dsp.UserMap.Identity.Mutex.{
  id_result, remembered, conclude_lem, register_lem, looked_up, after_lookup, user_get_id_lem,
}
use simple_dsp.UserMap.Identity.Numbering.{
  locked-blocks, id_cell, looked_up_lem, user_get_id-known, stored_cell,
}

module _ (e : Env) where
  -- Calls for these addresses, one after the other.
  unfoldable pub ask_all : List ℕ → World e → World e
  ask_all [] w = w
  ask_all (mac ∷ macs) w = ask_all macs (user_get_id e mac w).1

  -- The mutex stays locked.
  ask_all-locked : (macs : List ℕ) (w : World e) → w.locked ≡ true → ask_all macs w ≡ w
  unfolding ask_all
  ask_all-locked [] w h = refl
  ask_all-locked (mac ∷ macs) w h = rw (locked-blocks e mac w h) (ask_all-locked macs w h)

  module _ (s : IsStore e.d e.m) where
    -- Numbering an address leaves the number of another one.
    remembered_other :
        (mac other : ℕ) (id : ℤ) (db : e.m.State)
        → other ≢ mac
        → id_cell e s mac (remembered e other id db) ≡ id_cell e s mac db
    remembered_other mac other id db n = elim (Bool-cases (ltb_ℤ (pos 0) id)) [
      | inl new ↦ rw new (
          ap (or_default (pos 0)) (
            s.cell-set_ne Ty.ull _ other _ Ty.int _ (user_mac_key-IsKey id) tt
              (λ q. user_id_key-user_mac_key mac id (sym q))
            ∙ s.cell-set_ne Ty.int _ id db Ty.int _ (user_id_key-IsKey other) tt
                (λ q. n (user_id_key-injective other mac q))))
      | inr failed ↦ rw failed refl
    ]

    concluded_other :
        (mac other : ℕ) (out : Bytes) (w : World e)
        → other ≢ mac
        → id_cell e s mac (continue (id_result e out) (conclude e other) w).1.db
          ≡ id_cell e s mac w.db
    concluded_other mac other out w n = elim (Bool-cases (is_empty out)) [
      | inl empty ↦
          rw (empty, conclude_lem e other (pos 0) w) (remembered_other mac other (pos 0) w.db n)
      | inr found ↦ elim (Option-cases (stoi out)) [
        | inl bad ↦ rw (found, bad) refl
        | inr (z, good) ↦
            rw (found, good, conclude_lem e other z w) (remembered_other mac other z w.db n)
      ]
    ]

    -- A call for any address leaves a number that is stored.
    kept_cell :
        (mac other : ℕ) (w : World e)
        → w.locked ≡ false
        → id_cell e s mac w.db ≢ pos 0
        → id_cell e s mac (user_get_id e other w).1.db ≡ id_cell e s mac w.db
    kept_cell mac other w h n =
        let looked =
          ap (or_default (pos 0))
            (s.cell-get Ty.int _ (pos 0) w.db Ty.int (user_id_key mac) (user_id_key-IsKey other)) in
        elim (Bool-cases (eqb_ℤ (looked_up e other w) (pos 0))) [
          | inl unknown ↦
              let zero = sym (looked_up_lem e s other w) ∙ (eqb_ℤ_iff _ (pos 0)).0 unknown in
              let differ : other ≢ mac = λ q. n (sym (ap (λ m. id_cell e s m w.db) q) ∙ zero) in
              rw
                (
                  user_get_id_lem e other w h,
                  unknown,
                  register_lem e other (after_lookup e other w),
                )
                (concluded_other mac other _ _ differ ∙ looked)
          | inr known ↦ rw (user_get_id_lem e other w h, known) looked
        ]

    ask_all-known :
        (mac : ℕ) (id : ℤ) (macs : List ℕ) (w : World e)
        → id ≢ pos 0
        → id_cell e s mac w.db ≡ id
        → (ask_all macs w).locked ≡ false
        → id_cell e s mac (ask_all macs w).db ≡ id
    unfolding ask_all
    ask_all-known mac id [] w n c h = c
    ask_all-known mac id (other ∷ macs) w n c h = elim (Bool-cases w.locked) [
      | inl locked ↦
          let stays = ask_all-locked (other ∷ macs) w locked in
          absurd (false≢true (sym h ∙ ap (λ v. v.locked) stays ∙ locked))
      | inr free ↦
          ask_all-known mac id macs (user_get_id e other w).1 n
            (kept_cell mac other w free (λ q. n (sym c ∙ q)) ∙ c) h
    ]

    -- A positive number that a call of `user_get_id` with the mutex free gave for an address is what a
    -- later call gives for it, with no SQL command, whatever calls of `user_get_id` for this address or
    -- for others stand between the two, if the mutex is free after them.
    pub user_get_id-later :
        (mac : ℕ) (w : World e) (id : ℤ) (macs : List ℕ)
        → w.locked ≡ false
        → (user_get_id e mac w).0 ≡ done id
        → ltb_ℤ (pos 0) id ≡ true
        → (ask_all macs (user_get_id e mac w).1).locked ≡ false
        → let w' = ask_all macs (user_get_id e mac w).1 in
          ((user_get_id e mac w').0 ≡ done id) × ((user_get_id e mac w').1.sql ≡ w'.sql)
    user_get_id-later mac w id macs h r n free =
        let some_id : id ≢ pos 0 = λ z. false≢true (ap (ltb_ℤ (pos 0)) (sym z) ∙ n) in
        user_get_id-known e s mac (ask_all macs (user_get_id e mac w).1) id free
          (ask_all-known mac id macs (user_get_id e mac w).1 some_id
            (stored_cell e s mac w id h r n) free)
          some_id
