-- ===== src/Examples/Services.antt =====
-- Requests to the services.
use simple_dsp.Base.{
  ◌≡◌, ◌≤◌, refl, [], ◌∷◌, Option, some, pos, negsuc, length, eqb_ℤ, if◌then◌else◌, String, arith,
}
use simple_dsp.Text.{
  Bytes, codes, bytes_eq, c_str, scan_int, scan_signed, scan_nat, skip_spaces, read_digits,
}
use simple_dsp.Prog.{done}
use simple_dsp.Store.{Ty}
use simple_dsp.Keys.{get_value}
use simple_dsp.Keys.Fields.{literal-IsKey}
use simple_dsp.World.{Env, World}
use simple_dsp.Redis.{extract}
use simple_dsp.Request.{Query, Floats, read_params, mem_bytes}
use simple_dsp.UserMap.Position.{time_value, le_bytes}
use simple_dsp.UserOp
use simple_dsp.UserOp.Checked.{user_op-no_mac}
use simple_dsp.UserOp.Added.{user_op-query-added}
use simple_dsp.UserOp.Malls.{user_op-query-add}
use simple_dsp.AdMap.Bidding.{Reply}
use simple_dsp.AdMap.Key.{ad_key}
use simple_dsp.AdMap.Charge.{ad_click}
use simple_dsp.AdMap.Charge.Clicks.{group_of, charge_cmd, ad_click_lem}
use simple_dsp.AdOp
use simple_dsp.AdOp.Limits.{ad_op-length}
use simple_dsp.Examples.Memory.{whole, env_with, counting, start, memory-IsStore, put, empty_tables}

abbrev pub good : Env
good = env_with counting

abbrev pub wholes : Floats whole
wholes = record {
  extract_float = λ before s. extract whole Ty.double before s;
  flt_max = pos 1000000;
}

abbrev pub given : String → String → Bytes × Option Bytes
given k v = (codes k, some (codes v))

abbrev unnamed : UserOp.Params whole.W
unnamed = record (UserOp.defaults good wholes) { action = codes "add" }

user_op-no_mac_example :
    UserOp.user_op good wholes (given "action" "add" ∷ []) (start counting)
    ≡ (done (UserOp.fail good wholes), start counting)
unfolding read_params UserOp.set_param bytes_eq mem_bytes
user_op-no_mac_example =
    user_op-no_mac good wholes (given "action" "add" ∷ []) unnamed (start counting) (refl, tt) refl
      refl

abbrev add_five : Query
add_five =
    given "action" "add" ∷ given "mac" "5" ∷ given "x" "7" ∷ given "y" "8" ∷ given "z" "1" ∷ []

abbrev query_five : Query
query_five = given "action" "query" ∷ given "mac" "5" ∷ []

user_op-query-add_example :
    (UserOp.user_op good wholes query_five
      (UserOp.user_op good wholes add_five (start counting)).1).0
    ≡ (UserOp.user_op good wholes query_five (start counting)).0
unfolding time_value le_bytes get_value c_str read_params UserOp.set_param bytes_eq extract scan_int
    scan_signed scan_nat skip_spaces read_digits
user_op-query-add_example =
    user_op-query-add good wholes memory-IsStore add_five query_five
      (record (UserOp.defaults good wholes) {
        action = codes "add";
        mac = 5;
        x = pos 7;
        y = pos 8;
        z = pos 1;
      })
      (record (UserOp.defaults good wholes) { action = codes "query"; mac = 5 }) (start counting)
      (literal-IsKey (time_value (pos 1404709697)) refl) (refl, (refl, (refl, (refl, (refl, tt)))))
      refl refl refl refl

abbrev request_three : Query
request_three =
    given "action" "request"
    ∷ given "mac" "5"
    ∷ given "user_id" "1"
    ∷ given "space" "2"
    ∷ given "n" "3"
    ∷ []

abbrev three : AdOp.Params
three = record {
  action = codes "request";
  user_id = pos 1;
  mac = 5;
  ad_space = pos 2;
  n = pos 3;
  ad_id = negsuc 2147483647;
}

ad_op-length_example :
    (reply : Reply) × (length reply.ads ≤ 3)
    × (1 ≤ 3)
    × ((AdOp.ad_op good request_three (start counting)).0 ≡ done (AdOp.shown_ads reply))
unfolding read_params AdOp.set_param bytes_eq extract scan_int scan_signed scan_nat skip_spaces
    read_digits
ad_op-length_example =
    ad_op-length good request_three three (start counting) refl refl (λ q. cc q)
      (λ q. omega (arith, q))

abbrev add_in_zero : Query
add_in_zero = given "mall_id" "0" ∷ add_five

user_op-query-added_example :
    (UserOp.user_op good wholes query_five
      (UserOp.user_op good wholes add_in_zero (start counting)).1).0
    ≡ done (UserOp.position (pos 7) (pos 8) (pos 1))
unfolding time_value le_bytes get_value c_str read_params UserOp.set_param bytes_eq extract scan_int
    scan_signed scan_nat skip_spaces read_digits
user_op-query-added_example =
    user_op-query-added good wholes memory-IsStore add_in_zero query_five
      (record (UserOp.defaults good wholes) {
        action = codes "add";
        mac = 5;
        x = pos 7;
        y = pos 8;
        z = pos 1;
        mall_id = pos 0;
      })
      (record (UserOp.defaults good wholes) { action = codes "query"; mac = 5 }) (start counting)
      refl refl refl refl refl refl refl refl (literal-IsKey (time_value (pos 1404709697)) refl)

-- The advertisement 7 of mall 2 is in group 4.
abbrev grouped : World good
grouped = record (start counting) {
  db = (put Ty.int (ad_key (pos 2) (pos 7) (codes "group")) (pos 4) empty_tables).1;
}

ad_click_lem_example :
    ((ad_click good (pos 7) (pos 1) (pos 2) grouped).0
      ≡ done (
          if eqb_ℤ (group_of good memory-IsStore (pos 2) (pos 7) (pos 1) grouped.db) (negsuc 0)
          then (codes "no such ad", negsuc 0)
          else (codes "ok", pos 0)))
    × ((ad_click good (pos 7) (pos 1) (pos 2) grouped).1.sql ≡ (
        if eqb_ℤ (group_of good memory-IsStore (pos 2) (pos 7) (pos 1) grouped.db) (negsuc 0)
        then grouped.sql
        else (good.exec
            (charge_cmd good memory-IsStore
              (pos 2)
              (pos 7)
              (pos 1)
              grouped.db
              (group_of good memory-IsStore (pos 2) (pos 7) (pos 1) grouped.db))
            grouped.sql).1))
ad_click_lem_example = ad_click_lem good memory-IsStore (pos 2) (pos 7) (pos 1) grouped
