-- ===== src/UserMap/Position/Query.antt =====
-- user_map.cpp: `user_query` after `user_add`.
use simple_dsp.Base.{ℕ, suc, ◌≡◌, refl, ap, ◌∙◌, true, ℤ, pos}
use simple_dsp.Text.{codes, int_min, int_max, in_range, Bytes}
use simple_dsp.Prog.{Prog, pure, done, ◌>>◌}
use simple_dsp.Store.{Ty}
use simple_dsp.Store.Contract.{IsStore, IsKey}
use simple_dsp.World.{Env, World}
use simple_dsp.UserMap.Position.{
  time_value, user_query, set_position, user_add, user_location_log_add, note_visit,
}
use simple_dsp.UserMap.Visits.{update_location_update_time}
use simple_dsp.UserMap.Position.Frame.{IsLocation, Keeps, Keeps-bind, Keeps-pure, Keeps-continue}
use simple_dsp.UserMap.Position.Parts.{Keeps-note_visit, Keeps-update_location}
use simple_dsp.UserMap.Position.Log.{Keeps-user_location_log_add}
use simple_dsp.UserMap.Position.Stored.{
  position_of, user_query_lem, set_position_db, written, level, position-written, prop_key,
  prop-IsLocation, IsKey-x, IsKey-y, IsKey-z,
}

module _ (e : Env) (s : IsStore e.d e.m) (mac : ℕ) (x y : e.d.W) (z offset mall : ℤ) where
  -- `user_add` behind the writes of the position.
  abbrev rest : ℤ → ℤ → Prog (World e) ℤ
  rest t t_pre = do
    update_location_update_time e mall mac t
    user_location_log_add e mac x y z offset mall t
    note_visit e mac mall t_pre t
    pure (pos 0)

  Keeps-rest : (t t_pre : ℤ) → IsKey (time_value t) → Keeps e s (rest t t_pre)
  Keeps-rest t t_pre h = Keeps-bind e s _ _ (Keeps-update_location e s mall mac t) (λ a.
      Keeps-bind e s _ _ (Keeps-user_location_log_add e s mac x y z offset mall t h) (λ b.
        Keeps-bind e s _ _ (Keeps-note_visit e s mac mall t_pre t) (λ c. Keeps-pure e s (pos 0))))

  pub user_add_cell :
      (w : World e) (u : Ty) (j : Bytes)
      → IsKey (time_value (e.clock w.reads))
      → IsLocation j
      → s.cell (user_add e mac x y z offset mall w).1.db u j
        ≡ s.cell (written e s mall mac x y z (e.clock w.reads) w.db) u j
  unfolding user_add
  user_add_cell w u j h l =
      let t = e.clock w.reads in
      let after = set_position e mac x y z mall t (record w { reads = suc w.reads }) in
      (Keeps-continue e s after.0 (rest t) (λ p. Keeps-rest t p h)).same after.1 u j l
      ∙ ap (λ db. s.cell db u j)
          (set_position_db e s mall mac x y z t (record w { reads = suc w.reads }))

  -- However `user_add` ends, `user_query` then gives the position that was added: the coordinates as
  -- they come back from the database, narrowed to `float`, and the level, or the one from before where
  -- the level is `INT_MIN`. The time of the call must be one whose bytes the database takes as a text.
  pub user_query-user_add :
      (w : World e)
      → in_range int_min int_max z ≡ true
      → IsKey (time_value (e.clock w.reads))
      → (user_query e mac mall (user_add e mac x y z offset mall w).1).0
        ≡ done (record {
          mac = mac;
          x = e.d.to_float (s.rounded x);
          y = e.d.to_float (s.rounded y);
          z = level e s mall mac x y z (e.clock w.reads) w.db;
        })
  user_query-user_add w r h =
      let cx =
        user_add_cell w Ty.double (prop_key mall mac (codes "x")) h
          (prop-IsLocation mall mac (codes "x") IsKey-x) in
      let cy =
        user_add_cell w Ty.double (prop_key mall mac (codes "y")) h
          (prop-IsLocation mall mac (codes "y") IsKey-y) in
      let cz =
        user_add_cell w Ty.int (prop_key mall mac (codes "z")) h
          (prop-IsLocation mall mac (codes "z") IsKey-z) in
      let same : position_of e s mall mac (user_add e mac x y z offset mall w).1.db
          ≡ position_of e s mall mac (written e s mall mac x y z (e.clock w.reads) w.db) =
        rw (cx, cy, cz) refl in
      user_query_lem e s mall mac _
      ∙ ap done (same ∙ position-written e s mall mac x y z (e.clock w.reads) w.db r)
