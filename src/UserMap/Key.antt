-- ===== src/UserMap/Key.antt =====
-- The keys that user_map.cpp builds by `get_data_entry` or by a `stringstream`.
pub mod Plain
pub mod Distinct
use simple_dsp.Base.{ℕ, [], ◌∷◌, ℤ}
use simple_dsp.Text.{Bytes, codes, show_nat, show_int}
use simple_dsp.Keys.{entry}

abbrev pub colon : Bytes
colon = codes ":"

-- mac:<mac>:user.id
unfoldable pub user_id_key : ℕ → Bytes
user_id_key mac = entry (codes "mac:" ∷ show_nat mac ∷ codes ":user.id" ∷ [])

-- user:<user_id>:mac
unfoldable pub user_mac_key : ℤ → Bytes
user_mac_key user_id = entry (codes "user:" ∷ show_int user_id ∷ codes ":mac" ∷ [])

-- location:<mall_id>:<mac>:<prop>
unfoldable pub location_key : ℤ → Bytes → Bytes → Bytes
location_key mall_id mac prop =
    entry (codes "location:" ∷ show_int mall_id ∷ colon ∷ mac ∷ colon ∷ prop ∷ [])

-- location.log:<mall_id>:<date_time>:<log_id>:<prop>
unfoldable pub log_prop_key : ℤ → Bytes → ℤ → Bytes → Bytes
log_prop_key mall_id date_time log_id prop = entry (
    codes "location.log:"
    ∷ show_int mall_id
    ∷ colon
    ∷ date_time
    ∷ colon
    ∷ show_int log_id
    ∷ colon
    ∷ prop
    ∷ [])

-- location.log:<mall_id>:<date_time>:counter
unfoldable pub log_counter_key : ℤ → Bytes → Bytes
log_counter_key mall_id date_time =
    entry (codes "location.log:" ∷ show_int mall_id ∷ colon ∷ date_time ∷ codes ":counter" ∷ [])

-- location.log:<mall_id>:data.time.set
unfoldable pub log_dates_key : ℤ → Bytes
log_dates_key mall_id =
    entry (codes "location.log:" ∷ show_int mall_id ∷ codes ":data.time.set" ∷ [])

-- location.log:<mall_id>:<date_time>:mac.set
unfoldable pub log_macs_key : ℤ → Bytes → Bytes
log_macs_key mall_id date_time =
    entry (codes "location.log:" ∷ show_int mall_id ∷ colon ∷ date_time ∷ codes ":mac.set" ∷ [])

-- location.log:<mall_id>:<date_time>:<mac>:loc.log.set
unfoldable pub log_set_key : ℤ → Bytes → ℕ → Bytes
log_set_key mall_id date_time mac = entry (
    codes "location.log:"
    ∷ show_int mall_id
    ∷ colon
    ∷ date_time
    ∷ colon
    ∷ show_nat mac
    ∷ codes ":loc.log.set"
    ∷ [])

-- user:<date>:<mall_id>:<user_id>:duration
unfoldable pub duration_key : Bytes → ℤ → ℤ → Bytes
duration_key date mall_id user_id = entry (
    codes "user:"
    ∷ date
    ∷ colon
    ∷ show_int mall_id
    ∷ colon
    ∷ show_int user_id
    ∷ codes ":duration"
    ∷ [])

-- user:<mall_id>:<user_id>:is.mall.vip
unfoldable pub mall_vip_key : ℤ → ℤ → Bytes
mall_vip_key mall_id user_id =
    entry (codes "user:" ∷ show_int mall_id ∷ colon ∷ show_int user_id ∷ codes ":is.mall.vip" ∷ [])

-- user.vip:<mall_id>:arrive.time
unfoldable pub vip_arrive_key : ℤ → Bytes
vip_arrive_key mall_id = entry (codes "user.vip:" ∷ show_int mall_id ∷ codes ":arrive.time" ∷ [])

-- mac.set:<date>:<mall_id>:daily
unfoldable pub daily_macs_key : Bytes → ℤ → Bytes
daily_macs_key date mall_id =
    entry (codes "mac.set:" ∷ date ∷ colon ∷ show_int mall_id ∷ codes ":daily" ∷ [])

-- location.update.time:<date>:<mall_id>
unfoldable pub update_time_key : Bytes → ℤ → Bytes
update_time_key date mall_id =
    entry (codes "location.update.time:" ∷ date ∷ colon ∷ show_int mall_id ∷ [])

-- location.update.time:<date>:<mall_id>:<shop_id>
unfoldable pub shop_update_time_key : Bytes → ℤ → ℤ → Bytes
shop_update_time_key date mall_id shop_id = entry (
    codes "location.update.time:" ∷ date ∷ colon ∷ show_int mall_id ∷ colon ∷ show_int shop_id ∷ [])

-- user:<user_id>:label.set
unfoldable pub label_set_key : ℤ → Bytes
label_set_key user_id = entry (codes "user:" ∷ show_int user_id ∷ codes ":label.set" ∷ [])

-- user.vip:<mall_id>:<shop_id>:arrive.time
unfoldable pub shop_vip_arrive_key : ℤ → ℤ → Bytes
shop_vip_arrive_key mall_id shop_id =
    entry
      (codes "user.vip:" ∷ show_int mall_id ∷ colon ∷ show_int shop_id ∷ codes ":arrive.time" ∷ [])

-- user:<mall_id>:<shop_id>:arrive.time
unfoldable pub shop_arrive_key : ℤ → ℤ → Bytes
shop_arrive_key mall_id shop_id =
    entry (codes "user:" ∷ show_int mall_id ∷ colon ∷ show_int shop_id ∷ codes ":arrive.time" ∷ [])

-- location:<mall_id>:<shop_id>:<mac>:time
unfoldable pub shop_time_key : ℤ → ℤ → ℕ → Bytes
shop_time_key mall_id shop_id mac = entry (
    codes "location:"
    ∷ show_int mall_id
    ∷ colon
    ∷ show_int shop_id
    ∷ colon
    ∷ show_nat mac
    ∷ codes ":time"
    ∷ [])

-- shop:<date>:<mall_id>:<shop_id>:users.duration
unfoldable pub shop_duration_key : Bytes → ℤ → ℤ → Bytes
shop_duration_key date mall_id shop_id = entry (
    codes "shop:"
    ∷ date
    ∷ colon
    ∷ show_int mall_id
    ∷ colon
    ∷ show_int shop_id
    ∷ codes ":users.duration"
    ∷ [])

-- mall:<date>:<mall_id>:users.duration
unfoldable pub mall_duration_key : Bytes → ℤ → Bytes
mall_duration_key date mall_id =
    entry (codes "mall:" ∷ date ∷ colon ∷ show_int mall_id ∷ codes ":users.duration" ∷ [])

-- user:<date>:<mall_id>:<shop_id>:<user_id>:duration
unfoldable pub shop_user_duration_key : Bytes → ℤ → ℤ → ℤ → Bytes
shop_user_duration_key date mall_id shop_id user_id = entry (
    codes "user:"
    ∷ date
    ∷ colon
    ∷ show_int mall_id
    ∷ colon
    ∷ show_int shop_id
    ∷ colon
    ∷ show_int user_id
    ∷ codes ":duration"
    ∷ [])

-- user:<date>:<user_id>:location.shop_id
unfoldable pub user_shop_key : Bytes → ℤ → Bytes
user_shop_key date user_id =
    entry (codes "user:" ∷ date ∷ colon ∷ show_int user_id ∷ codes ":location.shop_id" ∷ [])
