-- ===== src/Examples/SharedAds.antt =====
-- The shared list of advertisements.
use simple_dsp.Base.{
  ℕ, zero, suc, ◌<◌, ◌≡◌, ◌≢◌, refl, sym, ap, get_elem?, [], ◌∷◌, none, some, ℤ, pos, negsuc, arith,
}
use simple_dsp.Text.{Bytes, codes, show_int}
use simple_dsp.Prog.{done, undefined}
use simple_dsp.Store.{Ty}
use simple_dsp.Redis.{extract}
use simple_dsp.Request.{Query, Floats, some-injective}
use simple_dsp.AdRegister.{AdData, AdInfo, zero_ad, add_ad, print_ad_list}
use simple_dsp.Service.{Libraries, Served}
use simple_dsp.AdRegister.Main.{FcgiRequest, Printing, main}
use simple_dsp.AdRegister.Numbers.{IsValid}
use simple_dsp.AdRegister.Run.{main-IsValid}
use simple_dsp.AdRegister.Full.{add_ad-full}
use simple_dsp.Examples.Memory.{whole}

abbrev wholes : Floats whole
wholes = record {
  extract_float = λ before s. extract whole Ty.double before s;
  flt_max = pos 1000000;
}

abbrev first_ad : AdInfo ℤ
first_ad = record (zero_ad whole wholes) { ad_content = codes "shoes"; valid = pos 1 }

-- One of two places is taken.
abbrev half : AdData ℤ
half = record { size = pos 2; number = pos 1; ad_list = first_ad ∷ zero_ad whole wholes ∷ [] }

abbrev whole_list : AdData ℤ
whole_list = record { size = pos 1; number = pos 1; ad_list = first_ad ∷ [] }

abbrev boots : Query
boots = (codes "ad_content", some (codes "boots")) ∷ []

half_counts :
    (i : ℕ) (a : AdInfo ℤ)
    → get_elem? half.ad_list i ≡ some a
    → a.valid ≢ pos 0
    → (a.ad_id ≡ pos i) × (i < 1)
half_counts zero a h v = (sym (ap (λ (z : AdInfo ℤ). z.ad_id) (some-injective h)), omega arith)
half_counts (suc zero) a h v = absurd (v (sym (ap (λ (z : AdInfo ℤ). z.valid) (some-injective h))))
half_counts (suc (suc i)) a h v = cc h

half-IsValid : IsValid whole wholes half
half-IsValid = record { number_pos = refl; counts = half_counts }

-- Every text is a query for boots.
abbrev lib : Libraries
lib = record {
  Uri = Bytes;
  parse_uri = λ text. some text;
  dissect_query = λ uri. some (boots, pos 1);
  print_format = λ text. some text;
}

abbrev printing : Printing whole
printing = record { pid = pos 7; show_f = show_int }

abbrev post : FcgiRequest
post = record { method = some (codes "POST"); uri = none; body = some (codes "ad_content=boots") }

abbrev from_half : Served (AdData ℤ)
from_half = record { state = half; pages = [] }

main-IsValid_example :
    IsValid whole wholes
      (main whole wholes lib printing (pos 0) (post ∷ post ∷ []) from_half).1.state
main-IsValid_example =
    main-IsValid whole wholes lib printing (pos 0) (post ∷ post ∷ []) from_half half-IsValid
      (omega arith)

add_ad-full_example :
    ((add_ad whole wholes (pos 0) boots whole_list).0 ≡ done (negsuc 0))
    × (print_ad_list whole wholes (add_ad whole wholes (pos 0) boots whole_list).1 ≡ undefined)
add_ad-full_example =
    add_ad-full whole wholes (pos 0) boots whole_list 1 refl refl (omega arith) (omega arith)
