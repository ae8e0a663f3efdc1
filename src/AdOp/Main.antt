-- ===== src/AdOp/Main.antt =====
-- ad_op.cpp: the loop of `main`.
use simple_dsp.Base.{List, Option}
use simple_dsp.Text.{Bytes}
use simple_dsp.Prog.{Prog, ◌>>=◌}
use simple_dsp.World.{Env, World}
use simple_dsp.Request.{Query}
use simple_dsp.Service.{Libraries, Page, Served, print_reply, handle_request, serve}
use simple_dsp.AdOp.{AdReply, ad_op}

module _ (lib : Libraries) (e : Env) (write : AdReply → Bytes) where
  unfoldable pub reply_page : Query → Prog (World e) Page
  reply_page query_list = do ret ← ad_op e query_list; print_reply lib write ret

  -- Behind the start; each request is the text of its URI.
  unfoldable pub main : List (Option Bytes) → Prog (Served (World e)) (Unit {0})
  main = serve (handle_request lib reply_page)
