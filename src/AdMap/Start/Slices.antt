-- ===== src/AdMap/Start/Slices.antt =====
-- ad_map.cpp: the slice widths that `ad_map_init` takes from the database.
use simple_dsp.Base.{◌≡◌, refl, sym, ap, inl, inr, ◌⊎◌, ◌∙◌, subst, Option, true, false, ℤ, pos}
use simple_dsp.Text.{Bytes, codes}
use simple_dsp.Prog.{done, ◌>>◌}
use simple_dsp.Prog.Laws.{>>=-done}
use simple_dsp.Store.{Double, Ty, Mdb}
use simple_dsp.Store.Link.{Link}
use simple_dsp.Store.Contract.{IsStore, IsKey, or_default}
use simple_dsp.Keys.Fields.{literal-IsKey}
use simple_dsp.BaseMdb.{TypeDb, redis, tair, CBaseMdb, base_mdb, get}
use simple_dsp.AdMap.Start.{
  Config, Statics, update, as_string, load_config, choose_type, connect_mdb, slice_x_key,
  slice_y_key, read_slices, start_up, ad_map_init,
}

type_cases : (y : TypeDb) → (y ≡ redis) ⊎ (y ≡ tair)
type_cases redis = inl refl
type_cases tair = inr refl

module _ (d : Double) (r t : Mdb d) (a : IsStore d r) (b : IsStore d t) where
  -- What number a key holds in the database of the object's type.
  abbrev pub cell_at : CBaseMdb d r t → Bytes → Option ℤ
  cell_at db k = elim db.m_type [
    | redis ↦ a.cell db.m_redis_db Ty.int k
    | tair ↦ b.cell db.m_tair_db Ty.int k
  ]

  -- A number that is read, and what the object holds afterwards.
  read_int :
      (k : Bytes) (v : ℤ) (db : CBaseMdb d r t)
      → IsKey k
      → ((get d r t Ty.int k v db).0 ≡ or_default v (cell_at db k))
        × ((j : Bytes) → cell_at (get d r t Ty.int k v db).1 j ≡ cell_at db j)
  unfolding get
  read_int k v db h = elim (type_cases db.m_type) [
    | inl is_redis ↦ rw is_redis (
      a.get_value Ty.int k v db.m_redis_db h,
      λ j. a.cell-get Ty.int k v db.m_redis_db Ty.int j h,
    )
    | inr is_tair ↦
        rw is_tair (
          b.get_value Ty.int k v db.m_tair_db h,
          λ j. b.cell-get Ty.int k v db.m_tair_db Ty.int j h,
        )
  ]

  -- The service has started, with the widths that the database has, or 10.
  pub record HasSlices (s : Statics d r t) : Type 0 where
    pub started : s.b_started ≡ true
    pub x_lem : s.slice_x ≡ or_default (pos 10) (cell_at s.base_mdb_ad slice_x_key)
    pub y_lem : s.slice_y ≡ or_default (pos 10) (cell_at s.base_mdb_ad slice_y_key)

  HasSlices-read_slices : (s : Statics d r t) → s.b_started ≡ true → HasSlices (read_slices d r t s)
  unfolding read_slices base_mdb
  HasSlices-read_slices s h =
      let db = s.base_mdb_ad in
      let (x, after_x) = read_int slice_x_key (pos 10) db (literal-IsKey slice_x_key refl) in
      let db' = (get d r t Ty.int slice_x_key (pos 10) db).1 in
      let (y, after_y) = read_int slice_y_key (pos 10) db' (literal-IsKey slice_y_key refl) in
      record {
        started = h;
        x_lem = x ∙ ap (or_default (pos 10)) (sym (after_y slice_x_key ∙ after_x slice_x_key));
        y_lem = y ∙ ap (or_default (pos 10)) (sym (after_y slice_y_key));
      }

  module _ (rl : Link d r) (tl : Link d t) (c : Config) where
    -- A start that returns ends with the slice widths.
    reads_slices :
        (s : Statics d r t)
        → (start_up d r t rl tl c s).0 ≡ done tt
        → (v : Statics d r t) × (start_up d r t rl tl c s
            ≡ (done tt, read_slices d r t (record v { b_started = true })))
    unfolding start_up
    reads_slices s h =
        let put_slices =
          update d r t rl tl c (λ v. record v { b_started = true })
          >> update d r t rl tl c (read_slices d r t) in
        let file = as_string d r t rl tl c (c.get_string (codes "tair_rdb") (codes "log_file")) in
        let (name, first) =
          >>=-done file
            (λ n.
              update d r t rl tl c (choose_type d r t rl tl c)
              >> (connect_mdb d r t rl tl c >> put_slices))
            (load_config d r t rl tl c s) tt h in
        let (u, second) =
          >>=-done (connect_mdb d r t rl tl c) (λ u. put_slices)
            (choose_type d r t rl tl c (file (load_config d r t rl tl c s)).1) tt
            (sym (ap (λ x. x.0) first) ∙ h) in
        (
          (connect_mdb d r t rl tl c
              (choose_type d r t rl tl c (file (load_config d r t rl tl c s)).1)).1,
          first ∙ second,
        )

    ends_started :
        (v : Statics d r t) → v.b_started ≡ true → ad_map_init d r t rl tl c v ≡ (done tt, v)
    unfolding ad_map_init
    ends_started v h = rw h refl

    -- With Redis and Tair that keep the contract, if `ad_map_init` starts the service and returns, then the service
    -- has the slice widths that the database of the type it chose keeps under their keys, or 10 where there is none; and every further call of
    -- `ad_map_init` does nothing.
    pub ad_map_init-slices :
        (s : Statics d r t)
        → s.b_started ≡ false
        → (ad_map_init d r t rl tl c s).0 ≡ done tt
        → let s' = (ad_map_init d r t rl tl c s).1 in
          HasSlices s' × (ad_map_init d r t rl tl c s' ≡ (done tt, s'))
    unfolding ad_map_init
    ad_map_init-slices s h e =
        let runs : ad_map_init d r t rl tl c s ≡ start_up d r t rl tl c s = rw h refl in
        let (v, q) = reads_slices s (sym (ap (λ x. x.0) runs) ∙ e) in
        let slices = HasSlices-read_slices (record v { b_started = true }) refl in
        subst (λ z. HasSlices z.1 × (ad_map_init d r t rl tl c z.1 ≡ (done tt, z.1)))
          (sym (runs ∙ q)) (slices, ends_started _ slices.started)
