-- ===== src/UserMap/Position/Stored.antt =====
-- user_map.cpp: what `set_position` writes and `user_query` reads.
use simple_dsp.Base.{
  ℕ, ◌≡◌, ◌≢◌, refl, ap, ◌∙◌, inl, inr, true, some, [], ℤ, pos, eqb_ℤ, not, get_or, arith,
  if◌then◌else◌, Bool-cases,
}
use simple_dsp.Text.{Bytes, codes, show_nat, int_min, int_max, in_range}
use simple_dsp.Prog.{done}
use simple_dsp.Keys.{get_data_entry_sstream}
use simple_dsp.Keys.Fields.{literal-IsKey, show_nat-IsKey, show_nat-IsField}
use simple_dsp.Store.{Ty}
use simple_dsp.Store.Contract.{IsStore, IsKey, or_default}
use simple_dsp.World.{Env, World}
use simple_dsp.UserMap.Key.{location_key}
use simple_dsp.UserMap.Key.Plain.{location_key-IsKey, location_key-nonempty, location_key_fields}
use simple_dsp.UserMap.Key.Distinct.{location_key-injective}
use simple_dsp.UserMap.Position.{
  UserPosition, tair_set_user_prop, tair_get_user_prop, user_query, set_position,
}
use simple_dsp.UserMap.Position.Frame.{IsLocation}

-- The key of a property of a position.
abbrev pub prop_key : ℤ → ℕ → Bytes → Bytes
prop_key mall mac p = location_key mall (show_nat mac) p

pub prop-IsKey : (mall : ℤ) (mac : ℕ) (p : Bytes) → IsKey p → IsKey (prop_key mall mac p)
prop-IsKey mall mac p h = location_key-IsKey mall (show_nat mac) p (show_nat-IsKey mac) h

prop-nonempty : (mall : ℤ) (mac : ℕ) (p : Bytes) → IsKey p → prop_key mall mac p ≢ []
prop-nonempty mall mac p h = location_key-nonempty mall (show_nat mac) p (show_nat-IsKey mac) h

prop_ne :
    (mall : ℤ) (mac : ℕ) (p q : Bytes)
    → IsKey p
    → IsKey q
    → get_or p 0 0 ≢ get_or q 0 0
    → prop_key mall mac p ≢ prop_key mall mac q
prop_ne mall mac p q h k n e =
    let m = show_nat-IsKey mac in
    let f = show_nat-IsField mac in
    let (a, b, c) =
      location_key-injective mall mall (show_nat mac) (show_nat mac) p q m m h k f f e in
    n (ap (λ s. get_or s 0 0) c)

pub prop-IsLocation : (mall : ℤ) (mac : ℕ) (p : Bytes) → IsKey p → IsLocation (prop_key mall mac p)
unfolding get_data_entry_sstream
prop-IsLocation mall mac p h =
    rw (location_key_fields mall (show_nat mac) p (show_nat-IsKey mac) h) (refl, refl)

pub IsKey-x : IsKey (codes "x")
IsKey-x = literal-IsKey (codes "x") refl

pub IsKey-y : IsKey (codes "y")
IsKey-y = literal-IsKey (codes "y") refl

pub IsKey-z : IsKey (codes "z")
IsKey-z = literal-IsKey (codes "z") refl

pub IsKey-time : IsKey (codes "time")
IsKey-time = literal-IsKey (codes "time") refl

module _ (e : Env) (s : IsStore e.d e.m) (mall : ℤ) (mac : ℕ) where
  -- What the database holds as the position.
  abbrev pub position_of : e.m.State → UserPosition e.d.W
  position_of db = record {
    mac = mac;
    x =
        e.d.to_float
          (or_default (e.d.of_int (pos 0)) (s.cell db Ty.double (prop_key mall mac (codes "x"))));
    y =
        e.d.to_float
          (or_default (e.d.of_int (pos 0)) (s.cell db Ty.double (prop_key mall mac (codes "y"))));
    z = or_default (pos 0) (s.cell db Ty.int (prop_key mall mac (codes "z")));
  }

  pub user_query_lem : (w : World e) → (user_query e mac mall w).0 ≡ done (position_of w.db)
  unfolding user_query
  user_query_lem w =
      let kx = prop-IsKey mall mac (codes "x") IsKey-x in
      let ky = prop-IsKey mall mac (codes "y") IsKey-y in
      let kz = prop-IsKey mall mac (codes "z") IsKey-z in
      let zero = e.d.of_int (pos 0) in
      let gx = s.get_value Ty.double _ zero w.db kx in
      let db = (e.m.get Ty.double (prop_key mall mac (codes "x")) zero w.db).1 in
      let gy =
        s.get_value Ty.double _ zero db ky
        ∙ ap (or_default zero)
            (s.cell-get Ty.double _ zero w.db Ty.double (prop_key mall mac (codes "y")) kx) in
      let db' = (e.m.get Ty.double (prop_key mall mac (codes "y")) zero db).1 in
      let gz =
        s.get_value Ty.int _ (pos 0) db' kz
        ∙ ap (or_default (pos 0)) (
            s.cell-get Ty.double _ zero db Ty.int (prop_key mall mac (codes "z")) ky
            ∙ s.cell-get Ty.double _ zero w.db Ty.int (prop_key mall mac (codes "z")) kx) in
      rw (gx, gy, gz) refl

  -- The database after each of the writes of a position.
  module _ (x y : e.d.W) (z t : ℤ) where
    abbrev pub with_x : e.m.State → e.m.State
    with_x db = (e.m.set Ty.double (prop_key mall mac (codes "x")) x db).1

    abbrev pub with_y : e.m.State → e.m.State
    with_y db = (e.m.set Ty.double (prop_key mall mac (codes "y")) y db).1

    abbrev pub with_z : e.m.State → e.m.State
    with_z db =
        if not (eqb_ℤ z int_min)
        then (e.m.set Ty.int (prop_key mall mac (codes "z")) z db).1
        else db

    abbrev pub with_time : e.m.State → e.m.State
    with_time db =
        (e.m.set Ty.time (prop_key mall mac (codes "time")) t
          (e.m.get Ty.time (prop_key mall mac (codes "time")) (pos 0) db).1).1

    abbrev pub written : e.m.State → e.m.State
    written db = with_time (with_z (with_y (with_x db)))

    pub set_position_db : (w : World e) → (set_position e mac x y z mall t w).1.db ≡ written w.db
    unfolding set_position tair_set_user_prop tair_get_user_prop
    set_position_db w = elim (Bool-cases (not (eqb_ℤ z int_min))) [
      | inl known ↦ rw known refl
      | inr unknown ↦ rw unknown refl
    ]

    set_position_ends : (w : World e) → (p : ℤ) × ((set_position e mac x y z mall t w).0 ≡ done p)
    unfolding set_position tair_set_user_prop tair_get_user_prop
    set_position_ends w = elim (Bool-cases (not (eqb_ℤ z int_min))) [
      | inl known ↦ rw known (_, refl)
      | inr unknown ↦ rw unknown (_, refl)
    ]

    time_cell :
        (u : Ty) (p : Bytes) (db : e.m.State)
        → IsKey p
        → 116 ≢ get_or p 0 0
        → s.cell (with_time db) u (prop_key mall mac p) ≡ s.cell db u (prop_key mall mac p)
    time_cell u p db h n =
        s.cell-set_ne Ty.time _ t _ u _ (prop-IsKey mall mac (codes "time") IsKey-time) tt
          (prop_ne mall mac (codes "time") p IsKey-time h n)
        ∙ s.cell-get Ty.time _ (pos 0) db u _ (prop-IsKey mall mac (codes "time") IsKey-time)

    z_cell :
        (u : Ty) (p : Bytes) (db : e.m.State)
        → IsKey p
        → 122 ≢ get_or p 0 0
        → s.cell (with_z db) u (prop_key mall mac p) ≡ s.cell db u (prop_key mall mac p)
    z_cell u p db h n = elim (Bool-cases (not (eqb_ℤ z int_min))) [
      | inl known ↦ rw known (
          s.cell-set_ne Ty.int _ z db u _ (prop-IsKey mall mac (codes "z") IsKey-z) tt
            (prop_ne mall mac (codes "z") p IsKey-z h n))
      | inr unknown ↦ rw unknown refl
    ]

    written_x :
        (db : e.m.State)
        → s.cell (written db) Ty.double (prop_key mall mac (codes "x")) ≡ some (s.rounded x)
    written_x db =
        time_cell Ty.double (codes "x") _ IsKey-x (λ q. omega (arith, q))
        ∙ z_cell Ty.double (codes "x") _ IsKey-x (λ q. omega (arith, q))
        ∙ s.cell-set_ne Ty.double _ y _ Ty.double _ (prop-IsKey mall mac (codes "y") IsKey-y) tt
            (prop_ne mall mac (codes "y") (codes "x") IsKey-y IsKey-x (λ q. omega (arith, q)))
        ∙ s.cell-set_double _ x db (prop-IsKey mall mac (codes "x") IsKey-x)
            (prop-nonempty mall mac (codes "x") IsKey-x)

    written_y :
        (db : e.m.State)
        → s.cell (written db) Ty.double (prop_key mall mac (codes "y")) ≡ some (s.rounded y)
    written_y db =
        time_cell Ty.double (codes "y") _ IsKey-y (λ q. omega (arith, q))
        ∙ z_cell Ty.double (codes "y") _ IsKey-y (λ q. omega (arith, q))
        ∙ s.cell-set_double _ y _ (prop-IsKey mall mac (codes "y") IsKey-y)
            (prop-nonempty mall mac (codes "y") IsKey-y)

    -- The level, which a caller may not know.
    abbrev pub level : e.m.State → ℤ
    level db =
        if eqb_ℤ z int_min
        then or_default (pos 0) (s.cell db Ty.int (prop_key mall mac (codes "z")))
        else z

    written_z :
        (db : e.m.State)
        → in_range int_min int_max z ≡ true
        → or_default (pos 0) (s.cell (written db) Ty.int (prop_key mall mac (codes "z"))) ≡ level db
    written_z db r =
        ap (or_default (pos 0)) (time_cell Ty.int (codes "z") _ IsKey-z (λ q. omega (arith, q)))
        ∙ elim (Bool-cases (eqb_ℤ z int_min)) [
          | inl unknown ↦ rw unknown (
              ap (or_default (pos 0)) (
                s.cell-set_ne Ty.double _ y _ Ty.int _ (prop-IsKey mall mac (codes "y") IsKey-y) tt
                  (prop_ne mall mac (codes "y") (codes "z") IsKey-y IsKey-z (λ q. omega (arith, q)))
                ∙ s.cell-set_ne Ty.double _ x db Ty.int _ (prop-IsKey mall mac (codes "x") IsKey-x)
                    tt
                    (prop_ne mall mac (codes "x") (codes "z") IsKey-x IsKey-z
                      (λ q. omega (arith, q)))))
          | inr known ↦ rw known (
              ap (or_default (pos 0)) (
                s.cell-set_int _ z _ (prop-IsKey mall mac (codes "z") IsKey-z)
                  (prop-nonempty mall mac (codes "z") IsKey-z) r))
        ]

    -- The position after the writes.
    pub position-written :
        (db : e.m.State)
        → in_range int_min int_max z ≡ true
        → position_of (written db) ≡ record {
          mac = mac;
          x = e.d.to_float (s.rounded x);
          y = e.d.to_float (s.rounded y);
          z = level db;
        }
    position-written db r = rw (written_x db, written_y db, written_z db r) refl
