-- ===== src/UserMap/Key/Plain.antt =====
-- The keys of user_map.cpp as texts without spaces, and as the concatenation of their fields.
use simple_dsp.Base.{arith, ◌≢◌, ℕ, ◌≡◌, refl, [], ◌∷◌, ℤ}
use simple_dsp.Text.{Bytes, codes, show_nat, show_int}
use simple_dsp.Store.Contract.{IsKey}
use simple_dsp.Keys.{entry, get_data_entry_sstream}
use simple_dsp.Keys.Fields.{
  AllKeys, entry_lem, entry-IsKey, entry-nonempty, literal-IsKey, show_nat-IsKey, show_int-IsKey,
}
use simple_dsp.UserMap.Key.{
  colon, user_id_key, user_mac_key, location_key, log_dates_key, log_macs_key, log_set_key,
  user_shop_key, daily_macs_key, update_time_key, mall_vip_key, vip_arrive_key,
}

colon-IsKey : IsKey colon
colon-IsKey = literal-IsKey colon refl

pub user_id_args : (mac : ℕ) → AllKeys (codes "mac:" ∷ show_nat mac ∷ codes ":user.id" ∷ [])
user_id_args mac = (
  literal-IsKey (codes "mac:") refl,
  (show_nat-IsKey mac, (literal-IsKey (codes ":user.id") refl, tt)),
)

pub user_mac_args : (id : ℤ) → AllKeys (codes "user:" ∷ show_int id ∷ codes ":mac" ∷ [])
user_mac_args id = (
  literal-IsKey (codes "user:") refl,
  (show_int-IsKey id, (literal-IsKey (codes ":mac") refl, tt)),
)

location_args :
    (mall : ℤ) (mac prop : Bytes)
    → IsKey mac
    → IsKey prop
    → AllKeys (codes "location:" ∷ show_int mall ∷ colon ∷ mac ∷ colon ∷ prop ∷ [])
location_args mall mac prop h k = (
  literal-IsKey (codes "location:") refl,
  (show_int-IsKey mall, (colon-IsKey, (h, (colon-IsKey, (k, tt))))),
)

user_shop_args :
    (date : Bytes) (id : ℤ)
    → IsKey date
    → AllKeys (codes "user:" ∷ date ∷ colon ∷ show_int id ∷ codes ":location.shop_id" ∷ [])
user_shop_args date id h = (
  literal-IsKey (codes "user:") refl,
  (h, (colon-IsKey, (show_int-IsKey id, (literal-IsKey (codes ":location.shop_id") refl, tt)))),
)

pub user_id_key-IsKey : (mac : ℕ) → IsKey (user_id_key mac)
unfolding user_id_key
user_id_key-IsKey mac = entry-IsKey _ (user_id_args mac)

pub user_mac_key-IsKey : (id : ℤ) → IsKey (user_mac_key id)
unfolding user_mac_key
user_mac_key-IsKey id = entry-IsKey _ (user_mac_args id)

pub location_key-IsKey :
    (mall : ℤ) (mac prop : Bytes) → IsKey mac → IsKey prop → IsKey (location_key mall mac prop)
unfolding location_key
location_key-IsKey mall mac prop h k = entry-IsKey _ (location_args mall mac prop h k)

pub user_shop_key-IsKey : (date : Bytes) (id : ℤ) → IsKey date → IsKey (user_shop_key date id)
unfolding user_shop_key
user_shop_key-IsKey date id h = entry-IsKey _ (user_shop_args date id h)

-- No key is empty.
pub user_id_key-nonempty : (mac : ℕ) → user_id_key mac ≢ []
unfolding user_id_key get_data_entry_sstream
user_id_key-nonempty mac = entry-nonempty _ (user_id_args mac) (λ q. omega (arith, q))

pub user_mac_key-nonempty : (id : ℤ) → user_mac_key id ≢ []
unfolding user_mac_key get_data_entry_sstream
user_mac_key-nonempty id = entry-nonempty _ (user_mac_args id) (λ q. omega (arith, q))

pub location_key-nonempty :
    (mall : ℤ) (mac prop : Bytes) → IsKey mac → IsKey prop → location_key mall mac prop ≢ []
unfolding location_key get_data_entry_sstream
location_key-nonempty mall mac prop h k =
    entry-nonempty _ (location_args mall mac prop h k) (λ q. omega (arith, q))

pub user_shop_key-nonempty : (date : Bytes) (id : ℤ) → IsKey date → user_shop_key date id ≢ []
unfolding user_shop_key get_data_entry_sstream
user_shop_key-nonempty date id h =
    entry-nonempty _ (user_shop_args date id h) (λ q. omega (arith, q))

-- The same keys, written out.
pub user_id_key_fields :
    (mac : ℕ)
    → user_id_key mac ≡ get_data_entry_sstream (codes "mac:" ∷ show_nat mac ∷ codes ":user.id" ∷ [])
unfolding user_id_key
user_id_key_fields mac = entry_lem _ (user_id_args mac)

pub user_mac_key_fields :
    (id : ℤ)
    → user_mac_key id ≡ get_data_entry_sstream (codes "user:" ∷ show_int id ∷ codes ":mac" ∷ [])
unfolding user_mac_key
user_mac_key_fields id = entry_lem _ (user_mac_args id)

pub location_key_fields :
    (mall : ℤ) (mac prop : Bytes)
    → IsKey mac
    → IsKey prop
    → location_key mall mac prop
      ≡ get_data_entry_sstream (codes "location:" ∷ show_int mall ∷ colon ∷ mac ∷ colon ∷ prop ∷ [])
unfolding location_key
location_key_fields mall mac prop h k = entry_lem _ (location_args mall mac prop h k)

pub user_shop_key_fields :
    (date : Bytes) (id : ℤ)
    → IsKey date
    → user_shop_key date id
      ≡ get_data_entry_sstream
          (codes "user:" ∷ date ∷ colon ∷ show_int id ∷ codes ":location.shop_id" ∷ [])
unfolding user_shop_key
user_shop_key_fields date id h = entry_lem _ (user_shop_args date id h)

-- The keys of a log.
module _ (mall : ℤ) (date_time : Bytes) (h : IsKey date_time) where
  pub log_prop_args :
      (log_id : ℤ) (prop : Bytes)
      → IsKey prop
      → AllKeys (
          codes "location.log:"
          ∷ show_int mall
          ∷ colon
          ∷ date_time
          ∷ colon
          ∷ show_int log_id
          ∷ colon
          ∷ prop
          ∷ [])
  log_prop_args log_id prop k = (
    literal-IsKey (codes "location.log:") refl,
    (
      show_int-IsKey mall,
      (colon-IsKey, (h, (colon-IsKey, (show_int-IsKey log_id, (colon-IsKey, (k, tt)))))),
    ),
  )

  pub log_counter_args :
      AllKeys (codes "location.log:" ∷ show_int mall ∷ colon ∷ date_time ∷ codes ":counter" ∷ [])
  log_counter_args = (
    literal-IsKey (codes "location.log:") refl,
    (show_int-IsKey mall, (colon-IsKey, (h, (literal-IsKey (codes ":counter") refl, tt)))),
  )

  pub log_macs_key-IsKey : IsKey (log_macs_key mall date_time)
  unfolding log_macs_key
  log_macs_key-IsKey = entry-IsKey _ (
    literal-IsKey (codes "location.log:") refl,
    (show_int-IsKey mall, (colon-IsKey, (h, (literal-IsKey (codes ":mac.set") refl, tt)))),
  )

  pub log_set_key-IsKey : (mac : ℕ) → IsKey (log_set_key mall date_time mac)
  unfolding log_set_key
  log_set_key-IsKey mac = entry-IsKey _ (
    literal-IsKey (codes "location.log:") refl,
    (
      show_int-IsKey mall,
      (
        colon-IsKey,
        (h, (colon-IsKey, (show_nat-IsKey mac, (literal-IsKey (codes ":loc.log.set") refl, tt)))),
      ),
    ),
  )

pub log_dates_key-IsKey : (mall : ℤ) → IsKey (log_dates_key mall)
unfolding log_dates_key
log_dates_key-IsKey mall = entry-IsKey _ (
  literal-IsKey (codes "location.log:") refl,
  (show_int-IsKey mall, (literal-IsKey (codes ":data.time.set") refl, tt)),
)

-- The keys of visits.
module _ (date : Bytes) (h : IsKey date) where
  pub duration_args :
      (mall id : ℤ)
      → AllKeys (
          codes "user:"
          ∷ date
          ∷ colon
          ∷ show_int mall
          ∷ colon
          ∷ show_int id
          ∷ codes ":duration"
          ∷ [])
  duration_args mall id = (
    literal-IsKey (codes "user:") refl,
    (
      h,
      (
        colon-IsKey,
        (
          show_int-IsKey mall,
          (colon-IsKey, (show_int-IsKey id, (literal-IsKey (codes ":duration") refl, tt))),
        ),
      ),
    ),
  )

  pub daily_macs_key-IsKey : (mall : ℤ) → IsKey (daily_macs_key date mall)
  unfolding daily_macs_key
  daily_macs_key-IsKey mall = entry-IsKey _ (
    literal-IsKey (codes "mac.set:") refl,
    (h, (colon-IsKey, (show_int-IsKey mall, (literal-IsKey (codes ":daily") refl, tt)))),
  )

  pub update_time_key-IsKey : (mall : ℤ) → IsKey (update_time_key date mall)
  unfolding update_time_key
  update_time_key-IsKey mall = entry-IsKey _ (
    literal-IsKey (codes "location.update.time:") refl,
    (h, (colon-IsKey, (show_int-IsKey mall, tt))),
  )

pub mall_vip_key-IsKey : (mall id : ℤ) → IsKey (mall_vip_key mall id)
unfolding mall_vip_key
mall_vip_key-IsKey mall id = entry-IsKey _ (
  literal-IsKey (codes "user:") refl,
  (
    show_int-IsKey mall,
    (colon-IsKey, (show_int-IsKey id, (literal-IsKey (codes ":is.mall.vip") refl, tt))),
  ),
)

pub vip_arrive_key-IsKey : (mall : ℤ) → IsKey (vip_arrive_key mall)
unfolding vip_arrive_key
vip_arrive_key-IsKey mall = entry-IsKey _ (
  literal-IsKey (codes "user.vip:") refl,
  (show_int-IsKey mall, (literal-IsKey (codes ":arrive.time") refl, tt)),
)

-- The members of sets.
pub show_nat-entry-IsKey : (n : ℕ) → IsKey (entry (show_nat n ∷ []))
show_nat-entry-IsKey n = entry-IsKey _ (show_nat-IsKey n, tt)

pub show_int-entry-IsKey : (z : ℤ) → IsKey (entry (show_int z ∷ []))
show_int-entry-IsKey z = entry-IsKey _ (show_int-IsKey z, tt)
