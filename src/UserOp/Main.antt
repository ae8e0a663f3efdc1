-- ===== src/UserOp/Main.antt =====
-- user_op.cpp: the loop of `main`. What `user_op` is logged with gives a text for each reply, so it
-- throws nothing.
use simple_dsp.Base.{List, Option}
use simple_dsp.Text.{Bytes}
use simple_dsp.Prog.{Prog, ◌>>=◌}
use simple_dsp.World.{Env, World}
use simple_dsp.Request.{Query, Floats}
use simple_dsp.Service.{Libraries, Page, Served, print_reply, handle_request, serve}
use simple_dsp.UserOp.{UserReply, user_op}

module _ (lib : Libraries) (e : Env) (f : Floats e.d) (write : UserReply e.d.W → Bytes) where
  unfoldable pub reply_page : Query → Prog (World e) Page
  reply_page query_list = do ret ← user_op e f query_list; print_reply lib write ret

  -- Behind the start; each request is the text of its URI.
  unfoldable pub main : List (Option Bytes) → Prog (Served (World e)) (Unit {0})
  main = serve (handle_request lib reply_page)
