-- ===== src/UserMap/Key/Distinct.antt =====
-- The keys of user_map.cpp compared with each other.
use simple_dsp.Base.{ℕ, ◌≡◌, ◌≢◌, ap, sym, ◌∙◌, arith, ℤ, get_or, append-nil}
use simple_dsp.Text.{Bytes, codes, show_nat, show_int}
use simple_dsp.Text.Decimal.{show_nat-injective, show_int-injective}
use simple_dsp.Store.Contract.{IsKey}
use simple_dsp.Keys.{get_data_entry_sstream}
use simple_dsp.Keys.Fields.{
  IsField, show_nat-IsField, show_int-IsField, split_field, append_cancel_left,
}
use simple_dsp.UserMap.Key.{user_id_key, user_mac_key, location_key, user_shop_key}
use simple_dsp.UserMap.Key.Plain.{
  user_id_key_fields, user_mac_key_fields, location_key_fields, user_shop_key_fields,
}

-- The key of a MAC address is not the key of a user.
pub user_id_key-user_mac_key : (mac : ℕ) (id : ℤ) → user_id_key mac ≢ user_mac_key id
unfolding get_data_entry_sstream
user_id_key-user_mac_key mac id e =
    let q = sym (user_id_key_fields mac) ∙ e ∙ user_mac_key_fields id in
    let h : 109 ≡ 117 = ap (λ s. get_or s 0 0) q in absurd (omega (arith, h))

-- Different MAC addresses have different keys.
pub user_id_key-injective : (m n : ℕ) → user_id_key m ≡ user_id_key n → m ≡ n
unfolding get_data_entry_sstream
user_id_key-injective m n e =
    let q = sym (user_id_key_fields m) ∙ e ∙ user_id_key_fields n in
    let r = append_cancel_left (codes "mac:") _ _ q in
    show_nat-injective m n
      (split_field (show_nat m) (show_nat n) _ _ (show_nat-IsField m) (show_nat-IsField n) r).0

-- Different users have different keys.
pub user_mac_key-injective : (a b : ℤ) → user_mac_key a ≡ user_mac_key b → a ≡ b
unfolding get_data_entry_sstream
user_mac_key-injective a b e =
    let q = sym (user_mac_key_fields a) ∙ e ∙ user_mac_key_fields b in
    let r = append_cancel_left (codes "user:") _ _ q in
    show_int-injective a b
      (split_field (show_int a) (show_int b) _ _ (show_int-IsField a) (show_int-IsField b) r).0

-- A position's keys differ where the malls, the MAC addresses or the properties do, provided that
-- no MAC address and no property has a colon in it.
pub location_key-injective :
    (m n : ℤ) (mac mac' p q : Bytes)
    → IsKey mac
    → IsKey mac'
    → IsKey p
    → IsKey q
    → IsField mac
    → IsField mac'
    → location_key m mac p ≡ location_key n mac' q
    → (m ≡ n) × (mac ≡ mac') × (p ≡ q)
unfolding get_data_entry_sstream
location_key-injective m n mac mac' p q km km' kp kq fm fm' e =
    let e' = sym (location_key_fields m mac p km kp) ∙ e ∙ location_key_fields n mac' q km' kq in
    let r = append_cancel_left (codes "location:") _ _ e' in
    let (h, r') =
      split_field (show_int m) (show_int n) _ _ (show_int-IsField m) (show_int-IsField n) r in
    let (h', r'') = split_field mac mac' _ _ fm fm' r' in
    (show_int-injective m n h, h', sym (append-nil p) ∙ r'' ∙ append-nil q)

-- The keys for the shop of a user differ where the dates or the users do.
pub user_shop_key-injective :
    (c d : Bytes) (a b : ℤ)
    → IsKey c
    → IsKey d
    → IsField c
    → IsField d
    → user_shop_key c a ≡ user_shop_key d b
    → (c ≡ d) × (a ≡ b)
unfolding get_data_entry_sstream
user_shop_key-injective c d a b kc kd fc fd e =
    let q = sym (user_shop_key_fields c a kc) ∙ e ∙ user_shop_key_fields d b kd in
    let r = append_cancel_left (codes "user:") _ _ q in
    let (h, r') = split_field c d _ _ fc fd r in
    let (h', r'') =
      split_field (show_int a) (show_int b) _ _ (show_int-IsField a) (show_int-IsField b) r' in
    (h, show_int-injective a b h')
