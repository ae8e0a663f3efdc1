-- ===== src/Examples/Positions.antt =====
-- Runs of `user_add` and of the helpers of user_map.cpp.
use simple_dsp.Base.{
  ◌+◌, ◌*◌, ◌/◌, ◌^◌, ◌≡◌, refl, pos, negsuc, List, [], ◌∷◌, some, map, arith, false, ltb_ℤ, ◌+ℤ◌,
  if◌then◌else◌,
}
use simple_dsp.Prog.{done}
use simple_dsp.Text.{show_nat, show_int, c_str, bytes_eq}
use simple_dsp.Store.Contract.{IsStore}
use simple_dsp.World.{Env, World}
use simple_dsp.Keys.{get_value, get_date_str, two_digits}
use simple_dsp.Keys.Fields.{literal-IsKey}
use simple_dsp.UserMap.MacAddress.{str_to_uint64, uint64_to_str}
use simple_dsp.UserMap.MacAddress.RoundTrip.{str_to_uint64-uint64_to_str}
use simple_dsp.UserMap.Listing.{list_items, user, and_more}
use simple_dsp.UserMap.Listing.Shown.{list_items-show_nat}
use simple_dsp.UserMap.Position.{user_query, user_add, time_value, le_bytes}
use simple_dsp.UserMap.Position.Query.{user_query-user_add}
use simple_dsp.UserMap.Visits.{get_shopid_of_user_location}
use simple_dsp.UserMap.Visits.Shop.{Sighting, update_all, last_shop, get_shopid-update_all}
use simple_dsp.BaseMdb.{tair}
use simple_dsp.BaseMdb.Dispatch.{typed_mdb, typed_mdb-IsStore}
use simple_dsp.Examples.Memory.{
  env_with, counting, start, memory-IsStore, memory, whole, noon, empty_tables,
}

abbrev good : Env
good = env_with counting

-- A position whose level is unknown.
user_query-user_add_example :
    (user_query good 5
      (pos 2)
      (user_add good 5 (pos 7) (pos 8) (negsuc 2147483647) (pos 0) (pos 2) (start counting)).1).0
    ≡ done (record { mac = 5; x = pos 7; y = pos 8; z = pos 0 })
unfolding time_value le_bytes get_value c_str
user_query-user_add_example =
    user_query-user_add good memory-IsStore 5 (pos 7) (pos 8) (negsuc 2147483647) (pos 0) (pos 2)
      (start counting) refl (literal-IsKey (time_value (pos 1404709697)) refl)

str_to_uint64-uint64_to_str_example :
    str_to_uint64 0x77770000000000aa (uint64_to_str 0xa0b1c2d3e4f5)
    ≡ 0x77770000000000aa / 2 ^ 48 * 2 ^ 48 + 0xa0b1c2d3e4f5
str_to_uint64-uint64_to_str_example =
    str_to_uint64-uint64_to_str 0x77770000000000aa 0xa0b1c2d3e4f5 (omega arith)

-- A clock that shows two days.
abbrev two_days : Env
two_days = record good {
  localtime = λ t. record (noon t) { tm_mday = if ltb_ℤ t (pos 1404770400) then 7 else 8 };
}

abbrev fresh : World two_days
fresh = record { db = empty_tables; sql = 0; reads = 0; locked = false; last_date_time = [] }

-- User 7 is seen in two shops today and in a third one tomorrow; user 8 in a fourth today.
abbrev seen : List Sighting
seen =
    record { user_id = pos 7; shop_id = pos 3; seen_at = pos 1404709697 }
    ∷ record { user_id = pos 7; shop_id = pos 5; seen_at = pos 1404709698 }
    ∷ record { user_id = pos 7; shop_id = pos 6; seen_at = pos 1404809698 }
    ∷ record { user_id = pos 8; shop_id = pos 4; seen_at = pos 1404709699 }
    ∷ []

get_shopid-update_all_example :
    (get_shopid_of_user_location two_days (pos 7) (update_all two_days seen fresh)).0 ≡ done (pos 5)
unfolding last_shop get_date_str two_digits bytes_eq show_int ◌+ℤ◌ show_nat
get_shopid-update_all_example =
    get_shopid-update_all two_days memory-IsStore (pos 7) seen fresh
      (refl, (refl, (refl, (refl, tt))))

list_items-show_nat_example :
    list_items 2 (map show_nat (5 ∷ 7 ∷ 6 ∷ [])) ≡ user (some 5) ∷ user (some 7) ∷ and_more ∷ []
list_items-show_nat_example = list_items-show_nat 2 (5 ∷ 7 ∷ 6 ∷ []) (refl, (refl, (refl, tt)))

typed_mdb-IsStore_example : IsStore whole (typed_mdb whole memory memory tair)
typed_mdb-IsStore_example = typed_mdb-IsStore whole memory memory tair memory-IsStore
