-- ===== src/AdRegister/Main.antt =====
-- ad_register.cpp: what a request prints, and the loop of `main`.
use simple_dsp.Base.{
  Bool, List, [], ◌∷◌, ◌++◌, Option, none, some, if◌then◌else◌, ℤ, pos, ltb_ℤ, ltb, take, length,
  ◌&&◌,
}
use simple_dsp.Text.{Bytes, codes, bytes_eq, show_int}
use simple_dsp.Prog.{Prog, Outcome, done, throws, blocks, undefined, pure, ◌>>=◌, ◌>>◌}
use simple_dsp.Store.{Double}
use simple_dsp.Request.{Floats}
use simple_dsp.Service.{Libraries, Page, Served, content_type, parse_query_string, serve}
use simple_dsp.AdRegister.{AdInfo, AdData, text_size, add_ad, print_ad_list}

-- What the program reads of a request: null pointers are `none`.
pub record FcgiRequest : Type 0 where
  pub method : Option Bytes
  pub uri : Option Bytes
  pub body : Option Bytes

-- What it takes from outside: its process id, and `%f` of a number.
pub record Printing (d : Double) : Type 0 where
  pub pid : ℤ
  pub show_f : d.W → Bytes

module _ (d : Double) (f : Floats d) (lib : Libraries) (out : Printing d) where
  -- `%s` of an array of `text_size` bytes; one that is full has no NUL and is read behind its end.
  abbrev pub ends_inside : Bytes → Bool
  ends_inside s = ltb (length s) (text_size d f)

  unfoldable pub entry_texts : AdInfo d.W → List Bytes
  entry_texts a =
      (codes "<br /> ad_id : " ++ show_int a.ad_id)
      ∷ (codes "<br /> ad_content : " ++ a.ad_content)
      ∷ (codes "<br /> jump_url: " ++ a.jump_url)
      ∷ (codes "<br /> show_price: " ++ out.show_f a.show_price)
      ∷ (codes "<br /> click_price: " ++ out.show_f a.click_price)
      ∷ (codes "<br /> valid: " ++ show_int a.valid)
      ∷ codes "<br /> -----------------------------------------------"
      ∷ []

  unfoldable pub list_texts : List (AdInfo d.W) → Outcome Page
  list_texts [] = done []
  list_texts (a ∷ ads) =
      let rest = list_texts ads in
      if ends_inside a.ad_content && ends_inside a.jump_url
      then elim rest [
        | done page ↦ done (entry_texts a ++ page)
        | throws ↦ throws
        | blocks ↦ blocks
        | undefined ↦ undefined
      ]
      else undefined

  abbrev pub list_page : Outcome (List (AdInfo d.W)) → Prog (AdData d.W) Page
  list_page (done ads) g = (list_texts ads, g)
  list_page throws g = (throws, g)
  list_page blocks g = (blocks, g)
  list_page undefined g = (undefined, g)

  -- The text that is parsed: for POST the body behind `a?`, otherwise the URI.
  abbrev pub posted : Option Bytes → Outcome Bytes
  posted none = throws
  posted (some body) = done (codes "a?" ++ body)

  abbrev pub addressed : Option Bytes → Outcome Bytes
  addressed none = undefined
  addressed (some uri) = done uri

  abbrev pub by_method : Option Bytes → FcgiRequest → Outcome Bytes
  by_method none r = undefined
  by_method (some method) r =
      if bytes_eq (take 4 method) (codes "POST") then posted r.body else addressed r.uri

  unfoldable pub request_string : FcgiRequest → Outcome Bytes
  request_string r = by_method r.method r

  unfoldable pub head_texts : Bytes → Page
  head_texts s =
      content_type
      ∷ codes "<p> Hello FastCGI !  </ p>"
      ∷ codes "<br /> sizeof(number) = [4]"
      ∷ (codes "<br /> Process ID: " ++ (show_int out.pid ++ codes " "))
      ∷ (codes "<br /> Request String: " ++ (s ++ codes " "))
      ∷ []

  unfoldable pub print_list : Prog (AdData d.W) Page
  print_list g =
      (do
        texts ← list_page (print_ad_list d f g)
        pure ((codes "<br /> ad list length : " ++ show_int g.number) ∷ texts))
        g

  unfoldable pub answer_text : ℤ → Bytes → Prog (AdData d.W) Page
  answer_text unset s g =
      let (item_count, query_list) = parse_query_string lib s in
      if ltb_ℤ item_count (pos 0)
      then (done [], g)
      else (do add_ad d f unset query_list; texts ← print_list; pure (head_texts s ++ texts)) g

  abbrev pub with_text : ℤ → Outcome Bytes → Prog (AdData d.W) Page
  with_text unset (done s) g = answer_text unset s g
  with_text unset throws g = (throws, g)
  with_text unset blocks g = (blocks, g)
  with_text unset undefined g = (undefined, g)

  -- `unset` is what the variable `i_ad_type` holds at the start of `add_ad`.
  unfoldable pub answer : ℤ → FcgiRequest → Prog (AdData d.W) Page
  answer unset r = with_text unset (request_string r)

  unfoldable pub main : ℤ → List FcgiRequest → Prog (Served (AdData d.W)) (Unit {0})
  main unset = serve (answer unset)
