-- ===== src/Examples/Groups.antt =====
-- Runs of the bidding on a database with sorted sets of groups and sets of advertisements.
use simple_dsp.Base.{
  ◌≡◌, refl, ap, ℤ, pos, negsuc, List, [], ◌∷◌, ◌&&◌, not, ◌||◌, false, ltb_ℤ, ◌+ℤ◌, get_or, ◌==◌,
  arith, if◌then◌else◌,
}
use simple_dsp.Text.{
  Bytes, codes, c_str, show_int, show_nat, atoi, scan_int, scan_signed, skip_spaces, scan_nat,
  read_digits,
}
use simple_dsp.Prog.{done}
use simple_dsp.Store.{Ty, Val, Mdb, int, ull, time, double, string}
use simple_dsp.Store.Contract.{IsStore}
use simple_dsp.World.{Env, World}
use simple_dsp.Keys.{entry, get_value, get_data_entry, get_data_entry_sstream}
use simple_dsp.AdMap.Key.{space_groups_key, location_groups_key, group_key}
use simple_dsp.AdMap.Filters.{get_ad_group_set_of_space, get_ad_group_set_of_location}
use simple_dsp.UserMap.Position.{UserPosition}
use simple_dsp.AdMap.Sets.{listed}
use simple_dsp.AdMap.Ecpm.{get_e_cpm, show_weight}
use simple_dsp.AdMap.Ecpm.Stored.{stats_in, group_stats, income_in}
use simple_dsp.AdMap.Ecpm.Rotation.{IsLeast, get_e_cpm-IsLeast}
use simple_dsp.AdMap.Bidding.{candidates, bidding}
use simple_dsp.AdMap.Bidding.Ranked.{IsReply, IsEarned, bidding-IsReply}
use simple_dsp.AdMap.Bidding.Considered.{candidates-listed, bidding-head_above}
use simple_dsp.Examples.Memory.{
  env_with, counting, whole, Tables, empty_tables, memory, memory-IsStore,
}
use simple_dsp.Examples.Ads.{whole-IsOrdered}

-- The groups of a space, whose key goes on with the letter s, and of a place.
abbrev groups_of : List ℤ → List ℤ → (t : Ty) → Bytes → Tables → List (Val whole t) × Tables
groups_of here there int k s = (if get_or k 3 0 == 115 then here else there, s)
groups_of here there ull k s = ([], s)
groups_of here there time k s = ([], s)
groups_of here there double k s = ([], s)
groups_of here there string k s = ([], s)

-- The advertisements of every group; there are no shops.
abbrev ads_of : (t : Ty) → Bytes → Tables → List (Val whole t) × Tables
ads_of int k s = (if get_or k 13 0 == 97 then pos 11 ∷ pos 12 ∷ [] else [], s)
ads_of ull k s = ([], s)
ads_of time k s = ([], s)
ads_of double k s = ([], s)
ads_of string k s = ([], s)

same_ads_of : (t : Ty) (k : Bytes) (s : Tables) → (ads_of t k s).1 ≡ s
same_ads_of int k s = refl
same_ads_of ull k s = refl
same_ads_of time k s = refl
same_ads_of double k s = refl
same_ads_of string k s = refl

abbrev with_sets : List ℤ → List ℤ → Mdb whole
with_sets here there = record memory { zmembers = groups_of here there; smembers = ads_of }

abbrev with_sets-IsStore : (here there : List ℤ) → IsStore whole (with_sets here there)
with_sets-IsStore here there = record {
  cell = memory-IsStore.cell;
  rounded = memory-IsStore.rounded;
  get_value = memory-IsStore.get_value;
  cell-get = memory-IsStore.cell-get;
  cell-set_int = memory-IsStore.cell-set_int;
  cell-set_ull = memory-IsStore.cell-set_ull;
  cell-set_time = memory-IsStore.cell-set_time;
  cell-set_double = memory-IsStore.cell-set_double;
  cell-set_ne = memory-IsStore.cell-set_ne;
  cell-zadd = memory-IsStore.cell-zadd;
  cell-sadd = memory-IsStore.cell-sadd;
  cell-smembers = λ t k s u j h. ap (λ v. memory-IsStore.cell v u j) (same_ads_of t k s);
  cell-incr_ne = memory-IsStore.cell-incr_ne;
}

abbrev env_of : List ℤ → List ℤ → Env
env_of here there = record (env_with counting) { m = with_sets here there }

abbrev fresh : (here there : List ℤ) → World (env_of here there)
fresh here there = record {
  db = empty_tables;
  sql = 0;
  reads = 0;
  locked = false;
  last_date_time = [];
}

abbrev place : UserPosition ℤ
place = record { mac = 5; x = pos 7; y = pos 8; z = pos 0 }

abbrev four_nine : List ℤ
four_nine = pos 4 ∷ pos 9 ∷ []

abbrev nine_ten : List ℤ
nine_ten = pos 9 ∷ pos 10 ∷ []

candidates-listed_example :
    (groups : List ℤ) × ((candidates
        (env_of four_nine nine_ten)
        place
        (pos 1)
        (pos 3)
        (pos 2)
        (fresh four_nine nine_ten)).0
      ≡ done groups)
    × ((z : ℤ)
        → listed z groups
          ≡ (listed z four_nine && (not (ltb_ℤ (pos 0) (pos 1)) || listed z nine_ten)))
unfolding get_ad_group_set_of_space space_groups_key entry get_value c_str get_data_entry
    get_data_entry_sstream get_ad_group_set_of_location location_groups_key
candidates-listed_example =
    candidates-listed (env_of four_nine nine_ten) place (pos 1) (pos 3) (pos 2)
      (fresh four_nine nine_ten) four_nine nine_ten (record { here_lem = refl; there_lem = refl })
      ((omega arith, tt), (tt, tt)) ((omega arith, tt), (tt, tt))

-- The group 9 is in both sets, and is missed.
abbrev ten_nine : List ℤ
ten_nine = pos 10 ∷ pos 9 ∷ []

bidding-head_above_example :
    (bidding
      (env_of ten_nine (pos 9 ∷ []))
      place
      (pos 1)
      (pos 3)
      (pos 2)
      2
      (fresh ten_nine (pos 9 ∷ []))).0
    ≡ done (record { ads = []; result = codes "no valid ad" })
unfolding get_ad_group_set_of_space space_groups_key entry get_value c_str get_data_entry
    get_data_entry_sstream get_ad_group_set_of_location location_groups_key
bidding-head_above_example =
    bidding-head_above (env_of ten_nine (pos 9 ∷ [])) place (pos 1) (pos 3) (pos 2) 2
      (fresh ten_nine (pos 9 ∷ [])) (pos 10) (pos 9 ∷ []) (pos 9 ∷ []) refl
      (record { here_lem = refl; there_lem = refl }) refl (refl, tt)

abbrev both : Env
both = env_of four_nine four_nine

abbrev both-IsStore : IsStore whole (with_sets four_nine four_nine)
both-IsStore = with_sets-IsStore four_nine four_nine

get_e_cpm-IsLeast_example :
    let w = fresh four_nine four_nine in
    (chosen : ℤ) × ((get_e_cpm both (pos 2) (pos 4) (negsuc 0) w).0
      ≡ done (income_in both both-IsStore (pos 2) (pos 4) w.db, chosen))
    × IsLeast both both-IsStore
        (negsuc 0)
        (group_stats both both-IsStore (pos 2) (pos 4) w.db)
        chosen
unfolding stats_in group_key entry get_value c_str get_data_entry get_data_entry_sstream show_weight
    show_int show_nat ◌+ℤ◌ atoi scan_int scan_signed skip_spaces scan_nat read_digits
get_e_cpm-IsLeast_example =
    get_e_cpm-IsLeast both both-IsStore whole-IsOrdered (pos 2) (pos 4) (negsuc 0)
      (fresh four_nine four_nine) refl (refl, (refl, tt))

bidding-IsReply_example :
    IsReply both
      (IsEarned both both-IsStore (pos 2) (pos 1))
      place
      (pos 1)
      (pos 3)
      (pos 2)
      2
      (fresh four_nine four_nine)
bidding-IsReply_example =
    bidding-IsReply both both-IsStore place (pos 1) (pos 3) (pos 2) 2 (fresh four_nine four_nine)
