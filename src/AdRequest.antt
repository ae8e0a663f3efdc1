-- ===== src/AdRequest.antt =====
-- ad_request.cpp: the service that showed an advertisement before ad_op.cpp.
pub mod Never
use simple_dsp.Base.{
  ℕ, zero, suc, ◌%◌, Bool, false, not, List, [], ◌∷◌, Option, none, some, get_elem?, get_or, set,
  replicate, if◌then◌else◌, ◌==◌, ltb_ℤ, eqb_ℤ, ℤ, pos, negsuc, ◌+ℤ◌, to_int32, pos_part,
}
use simple_dsp.Text.{Bytes, int_min}
use simple_dsp.Prog.{Prog, Outcome, done, throws, blocks, undefined, pure, ◌>>=◌, ◌>>◌}
use simple_dsp.Store.{Double}
use simple_dsp.AdRegister.{AdInfo, AdData}

abbrev pub none_int_data : ℤ
none_int_data = int_min

abbrev pub new_ad_min_show_count : ℤ
new_ad_min_show_count = pos 200

abbrev pub highest_n_ads : ℕ
highest_n_ads = 3

-- The place of a user; the level `none_int_data` stands for an unknown place.
pub record Place (W : Type 0) : Type 0 where
  pub x : W
  pub y : W
  pub z : ℤ

pub data Shown : Type 0 where
  ok : (content : Bytes) → (type id : ℤ) → Shown
  no_valid_ad : Shown

-- `highest_ad_index_list` and `highest_eCPM_list`
pub record Highest (W : Type 0) : Type 0 where
  pub indices : List ℕ
  pub ecpms : List W

module _ (d : Double) where
  abbrev thousand : d.W
  thousand = d.of_int (pos 1000)

  unfoldable pub get_e_cpm : AdInfo d.W → d.W
  get_e_cpm ad =
      let shows = d.mul thousand ad.show_price in
      let clicks = d.mul thousand ad.click_price in
      d.to_float (
        if ltb_ℤ ad.show_counter new_ad_min_show_count
        then d.add shows (d.mul clicks (d.decimal 5 2))
        else d.add shows
            (d.div (d.mul clicks (d.of_int ad.click_counter)) (d.of_int ad.show_counter)))

  -- `fabsf(a - b)`
  abbrev fabsf : d.W → d.W → d.W
  fabsf a b = let z = d.add a (d.neg b) in if d.lt z (d.of_int (pos 0)) then d.neg z else z

  unfoldable pub is_far : Place d.W → AdInfo d.W → Bool
  is_far p ad =
      if eqb_ℤ p.z none_int_data
      then false
      else d.lt ad.ad_radius (d.to_float (d.add (fabsf ad.x p.x) (fabsf ad.y p.y)))

  -- `for (int j = …; j <= 0; --j)` from an index on: a positive one ends the loop at once. At 0 a
  -- larger value is entered, and the round after it reads in front of the arrays.
  unfoldable pub enter_from : ℤ → ℕ → d.W → Prog (Highest d.W) (Unit {0})
  enter_from (pos (suc j)) i ecpm h = (done tt, h)
  enter_from (pos zero) i ecpm h =
      if d.lt (get_or h.ecpms 0 (d.of_int (pos 0))) ecpm then (undefined, h) else (done tt, h)
  enter_from (negsuc j) i ecpm h = (undefined, h)

  abbrev pub consider : Place d.W → ℕ → AdInfo d.W → Prog (Highest d.W) (Unit {0})
  consider p i ad =
      if eqb_ℤ ad.valid (pos 0)
      then pure tt
      else if is_far p ad
      then pure tt
      else enter_from (pos 2) i (get_e_cpm ad)

  abbrev pub consider_at : Place d.W → ℕ → Option (AdInfo d.W) → Prog (Highest d.W) (Unit {0})
  consider_at p i none h = (undefined, h)
  consider_at p i (some ad) h = consider p i ad h

  -- The loop over `n` advertisements from the index `i` on.
  unfoldable pub consider_all :
      Place d.W → ℕ → ℕ → List (AdInfo d.W) → Prog (Highest d.W) (Unit {0})
  consider_all p zero i l = pure tt
  consider_all p (suc n) i l = consider_at p i (get_elem? l i) >> consider_all p n (suc i) l

  -- The entries up to the first one that is zero.
  unfoldable pub taken_length : List d.W → ℕ
  taken_length [] = 0
  taken_length (x ∷ xs) =
      let rest = taken_length xs in if not (d.eq x (d.of_int (pos 0))) then suc rest else 0

  abbrev pub show_at : ℕ → Option (AdInfo d.W) → Prog (AdData d.W) Shown
  show_at i none g = (undefined, g)
  show_at i (some ad) g = (
    done (ok ad.ad_content ad.ad_type ad.ad_id),
    record g {
      ad_list = set g.ad_list i (record ad { show_counter = to_int32 (ad.show_counter +ℤ pos 1) });
    },
  )

  unfoldable pub show_one : ℕ → Highest d.W → Prog (AdData d.W) Shown
  show_one rand h g =
      let n = taken_length h.ecpms in
      let i = get_or h.indices (rand % n) 0 in
      if n == 0 then (done no_valid_ad, g) else show_at i (get_elem? g.ad_list i) g

  abbrev pub none_yet : Highest d.W
  none_yet = record {
    indices = replicate highest_n_ads 0;
    ecpms = replicate highest_n_ads (d.of_int (pos 0));
  }

  abbrev pub after_loop : Outcome (Unit {0}) → ℕ → Highest d.W → Prog (AdData d.W) Shown
  after_loop (done u) rand h g = show_one rand h g
  after_loop throws rand h g = (throws, g)
  after_loop blocks rand h g = (blocks, g)
  after_loop undefined rand h g = (undefined, g)

  -- `rand` is what `rand()` gives.
  unfoldable pub bidding : ℕ → Place d.W → Prog (AdData d.W) Shown
  bidding rand p g =
      let (r, h) = consider_all p (pos_part g.number) 0 g.ad_list none_yet in after_loop r rand h g
