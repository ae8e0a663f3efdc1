-- ===== src/UserMap/Identity/Numbering.antt =====
-- user_map.cpp: `user_get_id`, its mutex, and what it stores in a database with the contract.
use simple_dsp.Base.{
  ℕ, ◌≡◌, ◌≢◌, refl, sym, ap, ◌∙◌, ◌≤◌, inl, inr, true, false, [], Option, none, some, ℤ, pos,
  eqb_ℤ, ltb_ℤ, eqb_ℤ_iff, Bool-cases, Option-cases, arith, false≢true,
}
use simple_dsp.Text.{Bytes, stoi, in_range, int_min, int_max, within, scan_int}
use simple_dsp.Prog.{Outcome, done, throws, blocks, undefined, continue}
use simple_dsp.Store.{Ty}
use simple_dsp.Store.Contract.{IsStore, or_default}
use simple_dsp.World.{Env, World}
use simple_dsp.UserMap.Key.{user_id_key}
use simple_dsp.UserMap.Key.Plain.{user_id_key-IsKey, user_id_key-nonempty, user_mac_key-IsKey}
use simple_dsp.UserMap.Key.Distinct.{user_id_key-user_mac_key}
use simple_dsp.UserMap.Identity.{is_empty, conclude, user_get_id, add_user_cmd}
use simple_dsp.UserMap.Identity.Mutex.{
  runs, retry-IsRetried, id_result, remembered, conclude_lem, register_lem, looked_up, after_lookup,
  user_get_id_lem,
}

module _ (e : Env) where
  -- How a call ends: it returns with the mutex free, or throws and keeps it. It never waits.
  abbrev pub EndsWell : {A : Type 0} → Outcome A × World e → Type 0
  EndsWell (done a, w) = w.locked ≡ false
  EndsWell (throws, w) = w.locked ≡ true
  EndsWell (blocks, w) = ⊥
  EndsWell (undefined, w) = ⊥

  concluded-EndsWell :
      (mac : ℕ) (out : Bytes) (w : World e)
      → w.locked ≡ true
      → EndsWell (continue (id_result e out) (conclude e mac) w)
  concluded-EndsWell mac out w h = elim (Bool-cases (is_empty out)) [
    | inl empty ↦ rw (empty, conclude_lem e mac (pos 0) w) refl
    | inr found ↦ elim (Option-cases (stoi out)) [
      | inl bad ↦ rw (found, bad) h
      | inr (z, good) ↦ rw (found, good, conclude_lem e mac z w) refl
    ]
  ]

  -- Called with the mutex free, `user_get_id` does not wait: it returns with the mutex free, or it
  -- throws and leaves the mutex locked.
  pub user_get_id-EndsWell :
      (mac : ℕ) (w : World e) → w.locked ≡ false → EndsWell (user_get_id e mac w)
  user_get_id-EndsWell mac w h =
      rw (user_get_id_lem e mac w h) (elim (Bool-cases (eqb_ℤ (looked_up e mac w) (pos 0))) [
        | inl unknown ↦
            rw (unknown, register_lem e mac (after_lookup e mac w))
              (concluded-EndsWell mac _ _ refl)
        | inr known ↦ rw known refl
      ])

  throws_locked : (r : Outcome ℤ) (w : World e) → EndsWell (r, w) → r ≡ throws → w.locked ≡ true
  throws_locked (done a) w h t = ground arith
  throws_locked throws w h t = h
  throws_locked blocks w h t = absurd h
  throws_locked undefined w h t = absurd h

  pub done_free :
      (r : Outcome ℤ) (w : World e) (id : ℤ) → EndsWell (r, w) → r ≡ done id → w.locked ≡ false
  done_free (done a) w id h t = h
  done_free throws w id h t = ground arith
  done_free blocks w id h t = absurd h
  done_free undefined w id h t = absurd h

  pub locked-blocks : (mac : ℕ) (w : World e) → w.locked ≡ true → user_get_id e mac w ≡ (blocks, w)
  unfolding user_get_id
  locked-blocks mac w h = rw h refl

  concluded-sql :
      (mac : ℕ) (out : Bytes) (w : World e)
      → (continue (id_result e out) (conclude e mac) w).1.sql ≡ w.sql
  concluded-sql mac out w = elim (Bool-cases (is_empty out)) [
    | inl empty ↦ rw (empty, conclude_lem e mac (pos 0) w) refl
    | inr found ↦ elim (Option-cases (stoi out)) [
      | inl bad ↦ rw (found, bad) refl
      | inr (z, good) ↦ rw (found, good, conclude_lem e mac z w) refl
    ]
  ]

  -- After a call that threw, every further call waits for ever and changes nothing.
  pub user_get_id-blocks :
      (mac : ℕ) (w : World e)
      → w.locked ≡ false
      → (user_get_id e mac w).0 ≡ throws
      → (other : ℕ)
      → user_get_id e other (user_get_id e mac w).1 ≡ (blocks, (user_get_id e mac w).1)
  user_get_id-blocks mac w h t other =
      locked-blocks other (user_get_id e mac w).1
        (throws_locked (user_get_id e mac w).0 _ (user_get_id-EndsWell mac w h) t)

  -- The SQL server sees the command for a new user at most ten times in a call.
  pub user_get_id-runs :
      (mac : ℕ) (w : World e)
      → w.locked ≡ false
      → (k : ℕ) × (k ≤ 10) × ((user_get_id e mac w).1.sql ≡ runs e k (add_user_cmd e mac) w.sql)
  user_get_id-runs mac w h =
      rw (user_get_id_lem e mac w h) (elim (Bool-cases (eqb_ℤ (looked_up e mac w) (pos 0))) [
        | inl unknown ↦
            let r = retry-IsRetried e 10 (add_user_cmd e mac) [] (after_lookup e mac w) in
            (
              r.times,
              r.enough,
              rw (unknown, register_lem e mac (after_lookup e mac w)) (concluded-sql mac r.out _),
            )
        | inr known ↦ (0, omega arith, rw known refl)
      ])

  module _ (s : IsStore e.d e.m) where
    -- What `int` the database holds for a MAC address.
    abbrev pub id_cell : ℕ → e.m.State → ℤ
    id_cell mac db = or_default (pos 0) (s.cell db Ty.int (user_id_key mac))

    pub looked_up_lem : (mac : ℕ) (w : World e) → looked_up e mac w ≡ id_cell mac w.db
    looked_up_lem mac w = s.get_value Ty.int _ (pos 0) w.db (user_id_key-IsKey mac)

    -- A known MAC address costs no command.
    pub user_get_id-known :
        (mac : ℕ) (w : World e) (id : ℤ)
        → w.locked ≡ false
        → id_cell mac w.db ≡ id
        → id ≢ pos 0
        → ((user_get_id e mac w).0 ≡ done id) × ((user_get_id e mac w).1.sql ≡ w.sql)
    user_get_id-known mac w id h c n =
        let l : looked_up e mac w ≡ id = looked_up_lem mac w ∙ c in
        let known : eqb_ℤ id (pos 0) ≡ false = elim (Bool-cases (eqb_ℤ id (pos 0))) [
          | inl zero ↦ absurd (n ((eqb_ℤ_iff id (pos 0)).0 zero))
          | inr other ↦ other
        ] in
        rw (user_get_id_lem e mac w h, l, known) (refl, refl)

    -- What is stored for a MAC address and its number.
    remembered_id :
        (mac : ℕ) (id : ℤ) (db : e.m.State)
        → in_range int_min int_max id ≡ true
        → ltb_ℤ (pos 0) id ≡ true
        → id_cell mac (remembered e mac id db) ≡ id
    remembered_id mac id db r n = rw n (
        ap (or_default (pos 0)) (
          s.cell-set_ne Ty.ull _ mac _ Ty.int _ (user_mac_key-IsKey id) tt
            (λ q. user_id_key-user_mac_key mac id (sym q))
          ∙ s.cell-set_int _ id db (user_id_key-IsKey mac) (user_id_key-nonempty mac) r))

    within_range :
        (lo hi : ℤ) (o : Option ℤ) (id : ℤ) → within lo hi o ≡ some id → in_range lo hi id ≡ true
    within_range lo hi none id h = ground arith
    within_range lo hi (some z) id h = elim (Bool-cases (in_range lo hi z)) [
      | inl inside ↦ let q : some z ≡ some id = rw inside at h in cc (q, inside)
      | inr outside ↦ let q : none ≡ some id = rw outside at h in ground arith
    ]

    stoi_range : (out : Bytes) (id : ℤ) → stoi out ≡ some id → in_range int_min int_max id ≡ true
    unfolding stoi
    stoi_range out id h = within_range int_min int_max (scan_int out) id h

    -- A new number is stored under the MAC address.
    concluded_cell :
        (mac : ℕ) (out : Bytes) (w : World e) (id : ℤ)
        → (continue (id_result e out) (conclude e mac) w).0 ≡ done id
        → ltb_ℤ (pos 0) id ≡ true
        → id_cell mac (continue (id_result e out) (conclude e mac) w).1.db ≡ id
    concluded_cell mac out w id r n = elim (Bool-cases (is_empty out)) [
      | inl empty ↦
          let q : done (pos 0) ≡ done id = rw (empty, conclude_lem e mac (pos 0) w) at r in
          ground arith
      | inr found ↦ elim (Option-cases (stoi out)) [
        | inl bad ↦ let q : throws ≡ done id = rw (found, bad) at r in ground arith
        | inr (z, good) ↦
            let q : done z ≡ done id = rw (found, good, conclude_lem e mac z w) at r in
            let i : z ≡ id = cc q in
            rw (found, good, conclude_lem e mac z w, i)
              (remembered_id mac id w.db (stoi_range out id (good ∙ ap some i)) n)
      ]
    ]

    -- A number that a call gave is stored under the MAC address.
    pub stored_cell :
        (mac : ℕ) (w : World e) (id : ℤ)
        → w.locked ≡ false
        → (user_get_id e mac w).0 ≡ done id
        → ltb_ℤ (pos 0) id ≡ true
        → id_cell mac (user_get_id e mac w).1.db ≡ id
    stored_cell mac w id h r n = elim (Bool-cases (eqb_ℤ (looked_up e mac w) (pos 0))) [
      | inl unknown ↦
          let q =
            rw (user_get_id_lem e mac w h, unknown, register_lem e mac (after_lookup e mac w)) at
              r in
          rw (user_get_id_lem e mac w h, unknown, register_lem e mac (after_lookup e mac w))
            (concluded_cell mac _ _ id q n)
      | inr known ↦
          let q : done (looked_up e mac w) ≡ done id = rw (user_get_id_lem e mac w h, known) at r in
          let i : looked_up e mac w ≡ id = cc q in
          rw (user_get_id_lem e mac w h, known)
            (ap (or_default (pos 0))
                (s.cell-get Ty.int _ (pos 0) w.db Ty.int _ (user_id_key-IsKey mac))
              ∙ sym (looked_up_lem mac w)
              ∙ i)
    ]

    -- A positive number that a call gave is what the next call gives for the address, with no command.
    pub user_get_id-again :
        (mac : ℕ) (w : World e) (id : ℤ)
        → w.locked ≡ false
        → (user_get_id e mac w).0 ≡ done id
        → ltb_ℤ (pos 0) id ≡ true
        → let w' = (user_get_id e mac w).1 in
          ((user_get_id e mac w').0 ≡ done id) × ((user_get_id e mac w').1.sql ≡ w'.sql)
    user_get_id-again mac w id h r n =
        user_get_id-known mac (user_get_id e mac w).1 id
          (done_free (user_get_id e mac w).0 _ id (user_get_id-EndsWell mac w h) r)
          (stored_cell mac w id h r n) (λ z. false≢true (ap (ltb_ℤ (pos 0)) (sym z) ∙ n))
