-- ===== src/UserMap/Position/Parts.antt =====
-- user_map.cpp: the numbering and the visit in `user_add`, and the positions.
use simple_dsp.Base.{
  ℕ, refl, ap, inl, inr, true, [], Option, none, some, ℤ, pos, eqb_ℤ, ltb_ℤ, not, ◌-ℤ◌, arith,
  Bool-cases,
}
use simple_dsp.Text.{stoi, Bytes}
use simple_dsp.Prog.{pure, when, ◌>>=◌, ◌>>◌}
use simple_dsp.Keys.{get_data_entry_sstream}
use simple_dsp.Keys.Fields.{entry-IsKey, get_date_str-IsKey}
use simple_dsp.Store.{Ty}
use simple_dsp.Store.Contract.{IsStore, IsKey}
use simple_dsp.World.{Env, or_throw}
use simple_dsp.UserMap.Key.{user_id_key, user_mac_key, duration_key, mall_vip_key, vip_arrive_key}
use simple_dsp.UserMap.Key.Plain.{
  user_id_args, user_mac_args, duration_args, user_id_key-IsKey, user_mac_key-IsKey,
  daily_macs_key-IsKey, update_time_key-IsKey, mall_vip_key-IsKey, vip_arrive_key-IsKey,
  show_nat-entry-IsKey, show_int-entry-IsKey,
}
use simple_dsp.UserMap.Identity.{
  is_empty, lock, unlock, retry, id_of_output, remember, conclude, register, user_get_id,
  add_user_cmd,
}
use simple_dsp.UserMap.Identity.Mutex.{retry-IsRetried}
use simple_dsp.UserMap.Visits.{
  user_duration_add, is_mall_vip, vip_test, record_arrival, vip_arrive_time_record, mac_set_record,
  update_location_update_time,
}
use simple_dsp.UserMap.Position.{note_visit}
use simple_dsp.UserMap.Position.Frame.{
  IsLocation, Keeps, away, Keeps-bind, Keeps-pure, Keeps-when, Keeps-if, Keeps-get, Keeps-set,
  Keeps-zadd, Keeps-sadd, Keeps-incr,
}

away_id : (mac : ℕ) → ¬ (IsLocation (user_id_key mac))
unfolding user_id_key get_data_entry_sstream
away_id mac = away _ (user_id_args mac) (λ l. omega (arith, l.0))

away_mac : (id : ℤ) → ¬ (IsLocation (user_mac_key id))
unfolding user_mac_key get_data_entry_sstream
away_mac id = away _ (user_mac_args id) (λ l. omega (arith, l.0))

module _ (date : Bytes) (h : IsKey date) (mall id : ℤ) where
  away_duration : ¬ (IsLocation (duration_key date mall id))
  unfolding duration_key get_data_entry_sstream
  away_duration = away _ (duration_args date h mall id) (λ l. omega (arith, l.0))

  duration-IsKey : IsKey (duration_key date mall id)
  unfolding duration_key
  duration-IsKey = entry-IsKey _ (duration_args date h mall id)

module _ (e : Env) (s : IsStore e.d e.m) where
  Keeps-remember : (mac : ℕ) (id : ℤ) → Keeps e s (remember e mac id)
  Keeps-remember mac id =
      Keeps-bind e s _ _
        (Keeps-set e s Ty.int (user_id_key mac) id (user_id_key-IsKey mac) tt (away_id mac))
        (λ u. Keeps-set e s Ty.ull (user_mac_key id) mac (user_mac_key-IsKey id) tt (away_mac id))

  Keeps-conclude : (mac : ℕ) (id : ℤ) → Keeps e s (conclude e mac id)
  unfolding conclude
  Keeps-conclude mac id =
      Keeps-bind e s _ _
        (Keeps-when e s (ltb_ℤ (pos 0) id) (remember e mac id) (Keeps-remember mac id))
        (λ u. record { same = λ w v j l. refl })

  Keeps-or_throw : {A : Type 0} (o : Option A) → Keeps e s (or_throw e o)
  Keeps-or_throw none = record { same = λ w u j l. refl }
  Keeps-or_throw (some a) = record { same = λ w u j l. refl }

  Keeps-id_of_output : (out : Bytes) → Keeps e s (id_of_output e out)
  Keeps-id_of_output out =
      Keeps-if e s (is_empty out) (pure (pos 0)) (or_throw e (stoi out)) (Keeps-pure e s (pos 0))
        (Keeps-or_throw (stoi out))

  Keeps-retry : (n : ℕ) (cmd out : Bytes) → Keeps e s (retry e n cmd out)
  Keeps-retry n cmd out = record {
    same = λ w u j l. ap (λ r. s.cell r.1.db u j) (retry-IsRetried e n cmd out w).result;
  }

  Keeps-register : (mac : ℕ) → Keeps e s (register e mac)
  unfolding register
  Keeps-register mac =
      Keeps-bind e s _ _ (Keeps-retry 10 (add_user_cmd e mac) [])
        (λ out. Keeps-bind e s _ _ (Keeps-id_of_output out) (λ id. Keeps-conclude mac id))

  Keeps-lock : Keeps e s (lock e)
  Keeps-lock = record {
    same = λ w u j l. elim (Bool-cases w.locked) [
      | inl taken ↦ rw taken refl
      | inr free ↦ rw free refl
    ];
  }

  pub Keeps-user_get_id : (mac : ℕ) → Keeps e s (user_get_id e mac)
  unfolding user_get_id
  Keeps-user_get_id mac = Keeps-bind e s _ _ Keeps-lock (λ u.
      Keeps-bind e s _ _ (Keeps-get e s Ty.int (user_id_key mac) (pos 0) (user_id_key-IsKey mac))
        (λ id.
          Keeps-if e s (eqb_ℤ id (pos 0)) (register e mac) (unlock e >> pure id)
            (Keeps-register mac) (record { same = λ w v j l. refl })))

  Keeps-user_duration_add : (id mall pre now : ℤ) → Keeps e s (user_duration_add e id mall pre now)
  unfolding user_duration_add
  Keeps-user_duration_add id mall pre now =
      let h = get_date_str-IsKey (e.localtime now) in
      Keeps-incr e s _ _ (duration-IsKey _ h mall id) (away_duration _ h mall id)

  Keeps-vip_test : (id mall : ℤ) → Keeps e s (vip_test e id mall)
  unfolding vip_test is_mall_vip
  Keeps-vip_test id mall =
      Keeps-if e s (eqb_ℤ e.config.check_vip (pos 0)) (pure true) (is_mall_vip e id mall)
        (Keeps-pure e s true)
        (Keeps-bind e s _ _
          (Keeps-get e s Ty.int (mall_vip_key mall id) (pos 0) (mall_vip_key-IsKey mall id))
          (λ v. Keeps-pure e s (not (eqb_ℤ v (pos 0)))))

  pub Keeps-vip_arrive_time_record :
      (id mall now pre : ℤ) → Keeps e s (vip_arrive_time_record e id mall now pre)
  unfolding vip_arrive_time_record record_arrival
  Keeps-vip_arrive_time_record id mall now pre =
      Keeps-if e s (ltb_ℤ e.config.max_in_shop_gap (pre -ℤ now))
        (vip_test e id mall >>= λ vip. when vip (record_arrival e id mall pre)) (pure tt)
        (Keeps-bind e s _ _ (Keeps-vip_test id mall) (λ vip. Keeps-when e s vip _ (
          Keeps-zadd e s (vip_arrive_key mall) _ _ (vip_arrive_key-IsKey mall)
            (show_int-entry-IsKey id))))
        (Keeps-pure e s tt)

  Keeps-mac_set_record : (mac : ℕ) (mall now : ℤ) → Keeps e s (mac_set_record e mac mall now)
  unfolding mac_set_record
  Keeps-mac_set_record mac mall now =
      Keeps-sadd e s _ _ (daily_macs_key-IsKey _ (get_date_str-IsKey (e.localtime now)) mall)
        (show_nat-entry-IsKey mac)

  pub Keeps-note_visit : (mac : ℕ) (mall pre now : ℤ) → Keeps e s (note_visit e mac mall pre now)
  unfolding note_visit
  Keeps-note_visit mac mall pre now = Keeps-bind e s _ _ (Keeps-user_get_id mac) (λ id.
      Keeps-bind e s _ _ (Keeps-user_duration_add id mall pre now) (λ u.
        Keeps-bind e s _ _ (Keeps-vip_arrive_time_record id mall pre now)
          (λ v. Keeps-mac_set_record mac mall now)))

  pub Keeps-update_location :
      (mall : ℤ) (mac : ℕ) (t : ℤ) → Keeps e s (update_location_update_time e mall mac t)
  unfolding update_location_update_time
  Keeps-update_location mall mac t =
      Keeps-zadd e s _ _ _ (update_time_key-IsKey _ (get_date_str-IsKey (e.localtime t)) mall)
        (show_nat-entry-IsKey mac)
