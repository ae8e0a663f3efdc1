-- ===== src/UserOp/Numbers.antt =====
-- user_op.cpp: requests for the number of a user, through the loop of `main`.
use simple_dsp.Base.{
  ℕ, ◌≡◌, refl, ap, ◌∙◌, true, false, List, [], ◌∷◌, Option, some, ◌==◌, ℤ, pos, ltb_ℤ,
}
use simple_dsp.Text.{Bytes, codes, bytes_eq}
use simple_dsp.Prog.{done, pure, ◌>>=◌}
use simple_dsp.Store.Contract.{IsStore}
use simple_dsp.World.{Env, World}
use simple_dsp.Request.{Query, Floats, read_params}
use simple_dsp.Service.{
  Libraries, Page, Served, print_reply, handle_request, parse_query_string, serve, content_type,
}
use simple_dsp.Service.Skips.{queries, not_empty, serve-queries}
use simple_dsp.UserMap.Identity.{user_get_id}
use simple_dsp.UserMap.Identity.Numbering.{user_get_id-again}
use simple_dsp.UserOp.{
  Params, UserReply, no_mac, keys, defaults, set_param, user_op, run_action, op_get_id, identity,
}
use simple_dsp.UserOp.Main.{reply_page, main}

module _ (lib : Libraries) (e : Env) (f : Floats e.d) (write : UserReply e.d.W → Bytes) where
  -- A request for the number of the user with an address.
  pub record AsksNumber (text : Bytes) (mac : ℕ) : Type 0 where
    pub query_list : Query
    pub item_count : ℤ
    pub params : Params e.d.W
    pub is_parsed : parse_query_string lib text ≡ (item_count, query_list)
    pub counted : ltb_ℤ item_count (pos 0) ≡ false
    pub is_read : read_params keys (set_param e f) query_list (defaults e f) ≡ some params
    pub action_lem : params.action ≡ codes "get_id"
    pub mac_lem : params.mac ≡ mac
    pub named : (mac == no_mac) ≡ false

  number_asked :
      (text : Bytes) (mac : ℕ)
      → AsksNumber text mac
      → (w : World e)
      → handle_request lib (reply_page lib e f write) (some text) w
        ≡ ((do id ← user_get_id e mac; pure (identity id)) >>= print_reply lib write) w
  unfolding handle_request reply_page user_op run_action bytes_eq op_get_id
  number_asked text mac a w =
      rw
        (
          a.is_parsed,
          a.counted,
          a.is_read,
          ap (bytes_eq (codes "add")) a.action_lem,
          ap (bytes_eq (codes "remove")) a.action_lem,
          ap (bytes_eq (codes "update")) a.action_lem,
          ap (bytes_eq (codes "query")) a.action_lem,
          ap (bytes_eq (codes "list_all")) a.action_lem,
          ap (bytes_eq (codes "list")) a.action_lem,
          ap (bytes_eq (codes "get_id")) a.action_lem,
          a.mac_lem,
          a.named,
        )
        refl

  module _ (mac : ℕ) (id : ℤ) (out : Bytes)
      (printed : lib.print_format (write (identity id)) ≡ some out) where
    abbrev pub number_page : Page
    number_page = content_type ∷ out ∷ []

    answered :
        (text : Bytes) (w : World e)
        → AsksNumber text mac
        → (user_get_id e mac w).0 ≡ done id
        → handle_request lib (reply_page lib e f write) (some text) w
          ≡ (done number_page, (user_get_id e mac w).1)
    unfolding print_reply
    answered text w a r = number_asked text mac a w ∙ rw (r, printed) refl

    two_pages :
        (t t' : Bytes) (w w' w'' : World e)
        → handle_request lib (reply_page lib e f write) (some t) w ≡ (done number_page, w')
        → handle_request lib (reply_page lib e f write) (some t') w' ≡ (done number_page, w'')
        → serve
            (handle_request lib (reply_page lib e f write))
            (some t ∷ some t' ∷ [])
            (record { state = w; pages = [] })
          ≡ (done tt, record { state = w''; pages = number_page ∷ number_page ∷ [] })
    unfolding serve
    two_pages t t' w w' w'' a b = rw (a, b) refl

    -- Two requests for the number of one user, with any requests that are no queries around them, get
    -- the same page, which shows the number, provided that the mutex is free and that the first of
    -- them gets a positive number.
    pub main-get_id :
        (s : IsStore e.d e.m) (requests : List (Option Bytes)) (t t' : Bytes) (w : World e)
        → queries lib requests ≡ some t ∷ some t' ∷ []
        → AsksNumber t mac
        → AsksNumber t' mac
        → w.locked ≡ false
        → (user_get_id e mac w).0 ≡ done id
        → ltb_ℤ (pos 0) id ≡ true
        → let (r, v) = main lib e f write requests (record { state = w; pages = [] }) in
          (r ≡ done tt) × (not_empty v.pages ≡ number_page ∷ number_page ∷ [])
    unfolding main serve
    main-get_id s requests t t' w q a a' free r n =
        let first = answered t w a r in
        let again = user_get_id-again e s mac w id free r n in
        let second = answered t' (user_get_id e mac w).1 a' again.0 in
        let from : Served (World e) = record { state = w; pages = [] } in
        let same = serve-queries lib (reply_page lib e f write) requests from in
        let two =
          ap (λ l. serve (handle_request lib (reply_page lib e f write)) l from) q
          ∙ two_pages t t' w _ _ first second in
        (same.0 ∙ ap (λ x. x.0) two, same.2 ∙ ap (λ x. not_empty x.1.pages) two)
