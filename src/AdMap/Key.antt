-- ===== src/AdMap/Key.antt =====
-- The keys that ad_map.cpp builds by `get_data_entry`.
use simple_dsp.Base.{[], ◌∷◌, ℤ}
use simple_dsp.Text.{Bytes, codes, show_int}
use simple_dsp.Keys.{entry}

-- ad.space:<mall_id>:<space_id>:ad.group.set
unfoldable pub space_groups_key : ℤ → ℤ → Bytes
space_groups_key mall_id space_id = entry (
    codes "ad.space:"
    ∷ show_int mall_id
    ∷ codes ":"
    ∷ show_int space_id
    ∷ codes ":ad.group.set"
    ∷ [])

-- ad.location:<mall_id>:<column>:<row>:<level>:ad.group.set
unfoldable pub location_groups_key : ℤ → ℤ → ℤ → ℤ → Bytes
location_groups_key mall_id column row level = entry (
    codes "ad.location:"
    ∷ show_int mall_id
    ∷ codes ":"
    ∷ show_int column
    ∷ codes ":"
    ∷ show_int row
    ∷ codes ":"
    ∷ show_int level
    ∷ codes ":ad.group.set"
    ∷ [])

-- ad:<mall_id>:<ad_id>:<prop>
unfoldable pub ad_key : ℤ → ℤ → Bytes → Bytes
ad_key mall_id ad_id prop =
    entry (codes "ad:" ∷ show_int mall_id ∷ codes ":" ∷ show_int ad_id ∷ codes ":" ∷ prop ∷ [])

-- ad.group:<mall_id>:<ad_group_id>:<prop>
unfoldable pub group_key : ℤ → ℤ → Bytes → Bytes
group_key mall_id ad_group_id prop = entry (
    codes "ad.group:" ∷ show_int mall_id ∷ codes ":" ∷ show_int ad_group_id ∷ codes ":" ∷ prop ∷ [])
