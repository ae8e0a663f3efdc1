-- ===== src/UserMap/Position/Log.antt =====
-- user_map.cpp: `user_location_log_add` and the positions.
use simple_dsp.Base.{ℕ, refl, inl, inr, ℤ, pos, arith, Bool-cases}
use simple_dsp.Text.{Bytes, codes, bytes_eq}
use simple_dsp.Keys.{get_data_entry_sstream, get_date_time_str}
use simple_dsp.Keys.Fields.{entry-IsKey, literal-IsKey, get_date_time_str-IsKey}
use simple_dsp.Store.{Ty, Val}
use simple_dsp.Store.Contract.{IsStore, IsKey, IsNumber}
use simple_dsp.World.{Env}
use simple_dsp.UserMap.Key.{log_prop_key, log_counter_key, log_dates_key}
use simple_dsp.UserMap.Key.Plain.{
  log_prop_args, log_counter_args, log_macs_key-IsKey, log_set_key-IsKey, log_dates_key-IsKey,
  show_nat-entry-IsKey, show_int-entry-IsKey,
}
use simple_dsp.UserMap.Position.{
  add_location_cmd, time_value, last_date_time, tair_set_log_prop, note_date_time, set_log_props,
  user_location_log_add,
}
use simple_dsp.UserMap.Position.Frame.{
  IsLocation, Keeps, away, Keeps-count, Keeps-bind, Keeps-when, Keeps-exec, Keeps-set, Keeps-zadd,
  Keeps-sadd,
}

module _ (mall : ℤ) (date_time : Bytes) (h : IsKey date_time) where
  away_prop :
      (log_id : ℤ) (prop : Bytes)
      → IsKey prop
      → ¬ (IsLocation (log_prop_key mall date_time log_id prop))
  unfolding log_prop_key get_data_entry_sstream
  away_prop log_id prop k =
      away _ (log_prop_args mall date_time h log_id prop k) (λ l. omega (arith, l.1))

  prop-IsKey :
      (log_id : ℤ) (prop : Bytes) → IsKey prop → IsKey (log_prop_key mall date_time log_id prop)
  unfolding log_prop_key
  prop-IsKey log_id prop k = entry-IsKey _ (log_prop_args mall date_time h log_id prop k)

  away_counter : ¬ (IsLocation (log_counter_key mall date_time))
  unfolding log_counter_key get_data_entry_sstream
  away_counter = away _ (log_counter_args mall date_time h) (λ l. omega (arith, l.1))

  counter-IsKey : IsKey (log_counter_key mall date_time)
  unfolding log_counter_key
  counter-IsKey = entry-IsKey _ (log_counter_args mall date_time h)

module _ (e : Env) (s : IsStore e.d e.m) where
  Keeps-note_date_time :
      (mall : ℤ) (date_time : Bytes) (t : ℤ)
      → IsKey (time_value t)
      → Keeps e s (note_date_time e mall date_time t)
  unfolding note_date_time
  Keeps-note_date_time mall date_time t h = record {
    same = λ w u j l.
        elim (Bool-cases (bytes_eq (last_date_time mall w.last_date_time) date_time)) [
          | inl known ↦ rw known refl
          | inr new ↦
              rw new (s.cell-zadd (log_dates_key mall) _ _ w.db u j (log_dates_key-IsKey mall) h)
        ];
  }

  Keeps-log_prop :
      (t : Ty) (mall : ℤ) (date_time : Bytes) (log_id : ℤ) (prop : Bytes) (v : Val e.d t)
      → IsKey date_time
      → IsKey prop
      → IsNumber t
      → Keeps e s (tair_set_log_prop e t mall date_time log_id prop v)
  unfolding tair_set_log_prop
  Keeps-log_prop t mall date_time log_id prop v h k n =
      Keeps-set e s t _ v (prop-IsKey mall date_time h log_id prop k) n
        (away_prop mall date_time h log_id prop k)

  Keeps-set_log_props :
      (mall : ℤ) (date_time : Bytes) (log_id : ℤ) (mac : ℕ) (x y : e.d.W) (z t : ℤ)
      → IsKey date_time
      → Keeps e s (set_log_props e mall date_time log_id mac x y z t)
  unfolding set_log_props
  Keeps-set_log_props mall date_time log_id mac x y z t h =
      Keeps-bind e s _ _
        (Keeps-log_prop Ty.ull mall date_time log_id (codes "mac") mac h
          (literal-IsKey (codes "mac") refl) tt)
        (λ a.
          Keeps-bind e s _ _
            (Keeps-log_prop Ty.time mall date_time log_id (codes "time") t h
              (literal-IsKey (codes "time") refl) tt)
            (λ b.
              Keeps-bind e s _ _
                (Keeps-log_prop Ty.double mall date_time log_id (codes "x") x h
                  (literal-IsKey (codes "x") refl) tt)
                (λ c.
                  Keeps-bind e s _ _
                    (Keeps-log_prop Ty.double mall date_time log_id (codes "y") y h
                      (literal-IsKey (codes "y") refl) tt)
                    (λ d. Keeps-when e s _ _ (
                      Keeps-log_prop Ty.int mall date_time log_id (codes "z") z h
                        (literal-IsKey (codes "z") refl) tt)))))

  pub Keeps-user_location_log_add :
      (mac : ℕ) (x y : e.d.W) (z offset mall t : ℤ)
      → IsKey (time_value t)
      → Keeps e s (user_location_log_add e mac x y z offset mall t)
  unfolding user_location_log_add
  Keeps-user_location_log_add mac x y z offset mall t g =
      let date_time = get_date_time_str (e.localtime t) e.config.time_slice in
      let h = get_date_time_str-IsKey (e.localtime t) e.config.time_slice in
      Keeps-bind e s _ _
        (Keeps-count e s _ (pos 1) (counter-IsKey mall date_time h) (away_counter mall date_time h))
        (λ log_id. Keeps-bind e s _ _ (Keeps-exec e s (add_location_cmd e log_id mac x y z t)) (λ a.
          Keeps-bind e s _ _ (Keeps-note_date_time mall date_time t g) (λ b.
            Keeps-bind e s _ _
              (Keeps-sadd e s _ _ (log_macs_key-IsKey mall date_time h) (show_nat-entry-IsKey mac))
              (λ c.
                Keeps-bind e s _ _
                  (Keeps-zadd e s _ (e.d.of_int t) _ (log_set_key-IsKey mall date_time h mac)
                    (show_int-entry-IsKey log_id))
                  (λ d. Keeps-set_log_props mall date_time log_id mac x y z t h)))))
