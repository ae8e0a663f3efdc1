-- ===== src/Examples/Pages.antt =====
-- Requests to the loops of the FastCGI services.
use simple_dsp.Base.{ℕ, ◌≡◌, refl, List, [], ◌∷◌, Option, none, some, pos}
use simple_dsp.Text.{
  Bytes, codes, bytes_eq, scan_int, scan_signed, scan_nat, skip_spaces, show_nat, read_digits, stoi,
}
use simple_dsp.Prog.{done}
use simple_dsp.World.{World}
use simple_dsp.Redis.{extract}
use simple_dsp.Request.{read_params}
use simple_dsp.Service.{Libraries, Served, content_type, handle_request, parse_query_string, serve}
use simple_dsp.Service.Skips.{queries, not_empty, SameBut, serve-queries}
use simple_dsp.UserMap.Identity.{user_get_id, register, retry, conclude}
use simple_dsp.UserOp.{UserReply, defaults, set_param}
use simple_dsp.UserOp.Main.{main, reply_page}
use simple_dsp.UserOp.Numbers.{AsksNumber, main-get_id}
use simple_dsp.Examples.Memory.{whole, counting, start, memory-IsStore}
use simple_dsp.Examples.Services.{good, wholes, given}

-- Every text but the empty one is a request for the number of the user 5.
abbrev uri_of : Bytes → Option Bytes
uri_of [] = none
uri_of (c ∷ s) = some (c ∷ s)

abbrev lib : Libraries
lib = record {
  Uri = Bytes;
  parse_uri = uri_of;
  dissect_query = λ uri. some (given "action" "get_id" ∷ given "mac" "5" ∷ [], pos 2);
  print_format = λ text. some text;
}

abbrev page_text : UserReply whole.W → Bytes
page_text ret = codes "user 1"

abbrev asked : List (Option Bytes)
asked = some [] ∷ some (codes "/a") ∷ some [] ∷ some [] ∷ some (codes "/b") ∷ []

abbrev from_start : Served (World good)
from_start = record { state = start counting; pages = [] }

Asks-number : (c : ℕ) (s : Bytes) → AsksNumber lib good wholes page_text (c ∷ s) 5
unfolding parse_query_string read_params set_param bytes_eq extract scan_int scan_signed scan_nat
    skip_spaces read_digits
Asks-number c s = record {
  query_list = given "action" "get_id" ∷ given "mac" "5" ∷ [];
  item_count = pos 2;
  params = record (defaults good wholes) { action = codes "get_id"; mac = 5 };
  is_parsed = refl;
  counted = refl;
  is_read = refl;
  action_lem = refl;
  mac_lem = refl;
  named = refl;
}

serve-queries_example :
    SameBut (serve (handle_request lib (reply_page lib good wholes page_text)) asked from_start) (
      serve
        (handle_request lib (reply_page lib good wholes page_text))
        (queries lib asked)
        from_start)
serve-queries_example = serve-queries lib (reply_page lib good wholes page_text) asked from_start

main-get_id_example :
    let (r, v) = main lib good wholes page_text asked from_start in
    (r ≡ done tt)
    × (not_empty v.pages
        ≡ (content_type ∷ codes "user 1" ∷ []) ∷ (content_type ∷ codes "user 1" ∷ []) ∷ [])
unfolding user_get_id register retry conclude stoi scan_int scan_signed skip_spaces scan_nat
    show_nat read_digits
main-get_id_example =
    main-get_id lib good wholes page_text 5 (pos 1) (codes "user 1") refl memory-IsStore asked
      (codes "/a") (codes "/b") (start counting) refl (Asks-number 47 (codes "a"))
      (Asks-number 47 (codes "b")) refl refl refl
