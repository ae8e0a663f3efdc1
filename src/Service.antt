-- ===== src/Service.antt =====
-- The loop that the FastCGI services share: `parseQueryString` and the `while` of `main`.
pub mod Keeps
pub mod Skips
use simple_dsp.Base.{List, [], ◌∷◌, Option, none, some, if◌then◌else◌, ℤ, pos, negsuc, ltb_ℤ}
use simple_dsp.Text.{Bytes, codes}
use simple_dsp.Prog.{Prog, Outcome, done, throws, blocks, undefined, pure, ◌>>=◌, ◌>>◌}
use simple_dsp.Request.{Query}

-- The URI library, `uriParseUriA` and `uriDissectQueryMallocA` on the query of a URI with the number
-- of items, and `FCGX_FPrintF` on a format without arguments: `none` where it asks for one.
pub record Libraries : Type 1 where
  pub Uri : Type 0
  pub parse_uri : Bytes → Option Uri
  pub dissect_query : Uri → Option (Query × ℤ)
  pub print_format : Bytes → Option Bytes

-- The texts that are printed for a request, in their order.
abbrev pub Page : Type 0
Page = List Bytes

abbrev pub content_type : Bytes
content_type = codes "Content-type:text/html\r\n\r\n"

-- The state of the program and the pages of the requests so far, the newest first.
pub record Served (S : Type 0) : Type 0 where
  pub state : S
  pub pages : List Page

module _ (lib : Libraries) where
  abbrev pub dissected : Option (Query × ℤ) → ℤ × Query
  dissected none = (negsuc 1, [])
  dissected (some (query_list, item_count)) = (item_count, query_list)

  abbrev pub parsed : Option lib.Uri → ℤ × Query
  parsed none = (negsuc 0, [])
  parsed (some uri) = dissected (lib.dissect_query uri)

  -- The number of items, negative for a failure, and the list.
  unfoldable pub parse_query_string : Bytes → ℤ × Query
  parse_query_string request_string = parsed (lib.parse_uri request_string)

  module _ {S : Type 0} where
    abbrev pub printed : Option Bytes → Prog S Page
    printed none s = (undefined, s)
    printed (some text) s = (done (content_type ∷ text ∷ []), s)

    -- The page of a reply that the JSON writer made a text, which is printed as a format.
    unfoldable pub print_reply : {R : Type 0} → (R → Bytes) → R → Prog S Page
    print_reply write ret = printed (lib.print_format (write ret))

    -- A request whose text is no query gets an empty page; a null pointer is read by the library.
    unfoldable pub handle_request : (Query → Prog S Page) → Option Bytes → Prog S Page
    handle_request handler none s = (undefined, s)
    handle_request handler (some request_string) s =
        let (item_count, query_list) = parse_query_string request_string in
        if ltb_ℤ item_count (pos 0) then (done [], s) else handler query_list s

abbrev pub put_page : {S : Type 0} → Outcome Page → S → List Page → Outcome (Unit {0}) × Served S
put_page (done page) s pages = (done tt, record { state = s; pages = page ∷ pages })
put_page throws s pages = (throws, record { state = s; pages = pages })
put_page blocks s pages = (blocks, record { state = s; pages = pages })
put_page undefined s pages = (undefined, record { state = s; pages = pages })

abbrev pub add_page : {S : Type 0} → Prog S Page → Prog (Served S) (Unit {0})
add_page m v = let (r, s) = m v.state in put_page r s v.pages

-- `while (FCGX_Accept_r(&request) >= 0)`, on the requests that are accepted. What leaves `main` by an
-- exception ends the program, without a page for that request.
unfoldable pub serve : {S R : Type 0} → (R → Prog S Page) → List R → Prog (Served S) (Unit {0})
serve answer [] = pure tt
serve answer (request ∷ requests) = add_page (answer request) >> serve answer requests
