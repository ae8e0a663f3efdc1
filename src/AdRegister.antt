-- ===== src/AdRegister.antt =====
-- ad_register.cpp: the list of advertisements that several processes share, from ad_model.h and
-- init_data.h.
pub mod Numbers
pub mod Run
pub mod Full
pub mod Main
use simple_dsp.Base.{
  ℕ, zero, suc, ◌*◌, ◌+◌, Bool, ◌||◌, List, [], ◌∷◌, ◌++◌, Option, none, some, get_elem?, set, take,
  replicate, if◌then◌else◌, ltb, ltb_ℤ, leb_ℤ, ℤ, pos, negsuc, ◌+ℤ◌, to_int32, pos_part,
}
use simple_dsp.Text.{Bytes, codes, bytes_eq}
use simple_dsp.Prog.{Prog, Outcome, done, throws, blocks, undefined, pure, ◌>>=◌, ◌>>◌}
use simple_dsp.Store.{Double, Ty}
use simple_dsp.Redis.{extract}
use simple_dsp.Request.{Query, Floats}

-- The members that the programs read or write; `ad_content` and `jump_url` up to their NUL, which the
-- last byte of either array may lack.
pub record AdInfo (W : Type 0) : Type 0 where
  pub ad_id : ℤ
  pub ad_owner : ℤ
  pub ad_content : Bytes
  pub jump_url : Bytes
  pub ad_type : ℤ
  pub x : W
  pub y : W
  pub ad_radius : W
  pub show_price : W
  pub click_price : W
  pub show_counter : ℤ
  pub click_counter : ℤ
  pub valid : ℤ

-- The mapped file: `ad_list` has the entries that are mapped.
pub record AdData (W : Type 0) : Type 0 where
  pub size : ℤ
  pub number : ℤ
  pub ad_list : List (AdInfo W)

module _ (d : Double) (f : Floats d) where
  -- An entry of zero bytes.
  abbrev pub zero_ad : AdInfo d.W
  zero_ad = record {
    ad_id = pos 0;
    ad_owner = pos 0;
    ad_content = [];
    jump_url = [];
    ad_type = pos 0;
    x = d.of_int (pos 0);
    y = d.of_int (pos 0);
    ad_radius = d.of_int (pos 0);
    show_price = d.of_int (pos 0);
    click_price = d.of_int (pos 0);
    show_counter = pos 0;
    click_counter = pos 0;
    valid = pos 0;
  }

  abbrev pub new_size : ℕ → ℕ
  new_size number = (if ltb number 1000 then 1000 else number) * 2

  -- `load_shared_data` on the file as it was, with the entries that are in it. A file that has a size
  -- is mapped with an uninitialised length.
  unfoldable pub load_shared_data : AdData d.W → Outcome (AdData d.W)
  load_shared_data file =
      let n = new_size (pos_part file.number) in
      if leb_ℤ file.size (pos 0)
      then done (record {
        size = pos n;
        number = file.number;
        ad_list = take n (file.ad_list ++ replicate n zero_ad);
      })
      else undefined

  -- The new entry and `i_ad_type`, which starts unset.
  pub record Entry : Type 0 where
    pub ad : AdInfo d.W
    pub i_ad_type : ℤ

  abbrev pub text_size : ℕ
  text_size = 2048

  unfoldable pub set_field : Bytes → Bytes → Entry → Entry
  set_field k v s =
      let a = s.ad in
      let t = extract d Ty.int s.i_ad_type v in
      if bytes_eq k (codes "ad_owner")
      then record s { ad = record a { ad_owner = extract d Ty.int a.ad_owner v } }
      else if bytes_eq k (codes "jump_url")
      then record s { ad = record a { jump_url = take text_size v } }
      else if bytes_eq k (codes "ad_content")
      then record s { ad = record a { ad_content = take text_size v } }
      else if bytes_eq k (codes "ad_type")
      then record s { ad = record a { ad_type = t }; i_ad_type = t }
      else if bytes_eq k (codes "show_price")
      then record s { ad = record a { show_price = f.extract_float a.show_price v } }
      else if bytes_eq k (codes "click_price")
      then record s { ad = record a { click_price = f.extract_float a.click_price v } }
      else if bytes_eq k (codes "ad_point_x")
      then record s { ad = record a { x = f.extract_float a.x v } }
      else if bytes_eq k (codes "ad_point_y")
      then record s { ad = record a { y = f.extract_float a.y v } }
      else s

  -- A key whose value is a null pointer: `strncpy` reads through it, `std::string` throws.
  unfoldable pub no_value : Bytes → Outcome (Unit {0})
  no_value k =
      if bytes_eq k (codes "jump_url") || bytes_eq k (codes "ad_content")
      then undefined
      else if bytes_eq k (codes "ad_owner")
          || (bytes_eq k (codes "ad_type")
              || (bytes_eq k (codes "show_price")
                  || (bytes_eq k (codes "click_price")
                      || (bytes_eq k (codes "ad_point_x") || bytes_eq k (codes "ad_point_y")))))
      then throws
      else done tt

  -- The loop over the parameters, which writes into the entry.
  unfoldable pub set_fields : Query → Prog Entry (Unit {0})
  set_fields [] s = (done tt, s)
  set_fields ((k, some v) ∷ rest) s = set_fields rest (set_field k v s)
  set_fields ((k, none) ∷ rest) s = ((λ s. (no_value k, s)) >> set_fields rest) s

  -- What follows the loop, if it ends.
  abbrev pub finish : Outcome (Unit {0}) → AdInfo d.W → Outcome ℤ × AdInfo d.W
  finish (done u) a =
      (done (pos 0), record a { show_counter = pos 0; click_counter = pos 0; valid = pos 1 })
  finish throws a = (throws, a)
  finish blocks a = (blocks, a)
  finish undefined a = (undefined, a)

  -- The entry at the index is filled in its place.
  unfoldable pub fill : ℤ → Query → ℤ → AdInfo d.W → Outcome ℤ × AdInfo d.W
  fill unset query index a =
      let (r, s) =
        set_fields query (record { ad = record a { ad_id = index }; i_ad_type = unset }) in
      finish r s.ad

  abbrev pub fill_at : ℤ → Query → ℤ → ℕ → Option (AdInfo d.W) → Prog (AdData d.W) ℤ
  fill_at unset query index i none g = (undefined, g)
  fill_at unset query index i (some a) g =
      let (r, a') = fill unset query index a in (r, record g { ad_list = set g.ad_list i a' })

  abbrev pub fill_index : ℤ → Query → ℤ → Prog (AdData d.W) ℤ
  fill_index unset query (pos i) g = fill_at unset query (pos i) i (get_elem? g.ad_list i) g
  fill_index unset query (negsuc i) g = (undefined, g)

  -- `number` is counted up before the test, and stays so.
  unfoldable pub add_ad : ℤ → Query → Prog (AdData d.W) ℤ
  add_ad unset query g =
      let counted = record g { number = to_int32 (g.number +ℤ pos 1) } in
      if ltb_ℤ g.number g.size
      then fill_index unset query g.number counted
      else (done (negsuc 0), counted)

  -- `n` entries from the index `i` on; behind the mapping nothing may be read.
  unfoldable pub entries_from : ℕ → ℕ → List (AdInfo d.W) → Outcome (List (AdInfo d.W))
  entries_from zero i l = done []
  entries_from (suc n) i l =
      let rest = entries_from n (suc i) l in
      elim (get_elem? l i) [
        | none ↦ undefined
        | some a ↦ elim rest [
          | done as' ↦ done (a ∷ as')
          | throws ↦ throws
          | blocks ↦ blocks
          | undefined ↦ undefined
        ]
      ]

  -- The entries that `print_ad_list` prints.
  unfoldable pub print_ad_list : AdData d.W → Outcome (List (AdInfo d.W))
  print_ad_list g = entries_from (pos_part g.number) 0 g.ad_list
