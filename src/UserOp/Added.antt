-- ===== src/UserOp/Added.antt =====
-- user_op.cpp: `query` after `add` in the mall where it looks.
use simple_dsp.Base.{◌≡◌, refl, ap, ◌∙◌, true, false, ◌==◌, some, pos, negsuc, eqb_ℤ, arith}
use simple_dsp.Text.{codes, int_min, int_max, in_range}
use simple_dsp.Prog.{done}
use simple_dsp.Store.Contract.{IsStore, IsKey}
use simple_dsp.World.{Env, World}
use simple_dsp.UserMap.Position.{user_add, user_query, time_value}
use simple_dsp.UserMap.Position.Query.{user_query-user_add}
use simple_dsp.Request.{Query, Floats, read_params}
use simple_dsp.UserOp.{
  Params, no_mac, no_position, keys, defaults, set_param, user_op, op_add, op_query, position,
}
use simple_dsp.UserOp.Malls.{user_op-add, user_op-query, same_end, reply_of, replied}

module _ (e : Env) (f : Floats e.d) where
  named_lem :
      (p : Params e.d.W)
      → no_position e f p ≡ false
      → ((p.mac == no_mac) ≡ false) × (eqb_ℤ p.z int_min ≡ false)
  named_lem p h = (ground arith, ground arith)

  -- A request for `add` that names mall 0 and a whole position, and a request for `query` with the same
  -- address after it: the reply has the level that was added and the coordinates as the database gives
  -- them back. The time of the call must be one whose bytes the database takes as a text.
  pub user_op-query-added :
      (s : IsStore e.d e.m) (q q' : Query) (p p' : Params e.d.W) (w : World e)
      → read_params keys (set_param e f) q (defaults e f) ≡ some p
      → p.action ≡ codes "add"
      → p.mall_id ≡ pos 0
      → no_position e f p ≡ false
      → in_range int_min int_max p.z ≡ true
      → read_params keys (set_param e f) q' (defaults e f) ≡ some p'
      → p'.action ≡ codes "query"
      → p'.mac ≡ p.mac
      → IsKey (time_value (e.clock w.reads))
      → (user_op e f q' (user_op e f q w).1).0
        ≡ done (position (e.d.to_float (s.rounded p.x)) (e.d.to_float (s.rounded p.y)) p.z)
  unfolding op_add op_query
  user_op-query-added s q q' p p' w r a m n b r' a' same k =
      let (mac, z) = named_lem p n in
      let v = (user_add e p.mac p.x p.y p.z (negsuc 0) (pos 0) w).1 in
      let added : (user_op e f q w).1 ≡ v =
        ap (λ t. t.1) (user_op-add e f q p r a w)
        ∙ rw (n, m) (same_end e f (user_add e p.mac p.x p.y p.z (negsuc 0) (pos 0) w).0 v) in
      let found : (user_query e p.mac (pos 0) v).0
          ≡ done (record {
            mac = p.mac;
            x = e.d.to_float (s.rounded p.x);
            y = e.d.to_float (s.rounded p.y);
            z = p.z;
          }) =
        user_query-user_add e s p.mac p.x p.y p.z (negsuc 0) (pos 0) w b k ∙ rw z refl in
      ap (λ t. (user_op e f q' t).0) added
      ∙ ap (λ t. t.0) (user_op-query e f q' p' r' a' v)
      ∙ rw (same, mac)
          (replied e f (user_query e p.mac (pos 0) v).0 (user_query e p.mac (pos 0) v).1)
      ∙ ap (reply_of e f) found
