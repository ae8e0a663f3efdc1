-- ===== src/UserOp/Malls.antt =====
-- user_op.cpp: `query` looks in mall 0, whatever mall `add` was for.
use simple_dsp.Base.{
  ℕ, ◌≡◌, ◌≢◌, refl, sym, ap, ◌∙◌, inl, inr, false, ◌==◌, some, ℤ, pos, negsuc, eqb_ℤ, not,
  Bool-cases, arith, if◌then◌else◌,
}
use simple_dsp.Text.{Bytes, codes, bytes_eq, int_min, show_nat}
use simple_dsp.Prog.{Outcome, done, throws, blocks, undefined, continue, pure}
use simple_dsp.Store.{Ty, Val}
use simple_dsp.Store.Contract.{IsStore, IsKey, IsNumber}
use simple_dsp.Keys.Fields.{show_nat-IsKey, show_nat-IsField}
use simple_dsp.World.{Env, World}
use simple_dsp.UserMap.Key.Distinct.{location_key-injective}
use simple_dsp.UserMap.Position.{UserPosition, user_add, user_query, time_value}
use simple_dsp.UserMap.Position.Stored.{
  position_of, user_query_lem, written, prop_key, prop-IsKey, prop-IsLocation, IsKey-x, IsKey-y,
  IsKey-z, IsKey-time,
}
use simple_dsp.UserMap.Position.Query.{user_add_cell}
use simple_dsp.Request.{Query, Floats, AllKeys, read_params, read_params-keeps}
use simple_dsp.UserOp.{
  Params, UserReply, no_mac, no_position, success, keys, defaults, set_param, user_op, run_action,
  op_add, op_query, position,
}

-- The keys of two malls are apart.
prop_key-malls :
    (m n : ℤ) (mac mac' : ℕ) (p q : Bytes)
    → m ≢ n
    → IsKey p
    → IsKey q
    → prop_key m mac p ≢ prop_key n mac' q
prop_key-malls m n mac mac' p q d h k e =
    d
      (location_key-injective m n (show_nat mac) (show_nat mac') p q (show_nat-IsKey mac)
        (show_nat-IsKey mac') h k (show_nat-IsField mac) (show_nat-IsField mac') e).0

module _ (e : Env) (s : IsStore e.d e.m) where
  -- The writes of a position leave the keys of another mall alone.
  module _ (mall other : ℤ) (mac mac' : ℕ) (d : mall ≢ other) (q : Bytes) (kq : IsKey q)
      (u : Ty) where
    one_apart :
        (t : Ty) (p : Bytes) (v : Val e.d t) (db : e.m.State)
        → IsNumber t
        → IsKey p
        → s.cell (e.m.set t (prop_key mall mac p) v db).1 u (prop_key other mac' q)
          ≡ s.cell db u (prop_key other mac' q)
    one_apart t p v db n kp =
        s.cell-set_ne t (prop_key mall mac p) v db u (prop_key other mac' q)
          (prop-IsKey mall mac p kp) n (prop_key-malls mall other mac mac' p q d kp kq)

    z_apart :
        (z : ℤ) (db : e.m.State)
        → s.cell
            (if not (eqb_ℤ z int_min)
              then (e.m.set Ty.int (prop_key mall mac (codes "z")) z db).1
              else db)
            u
            (prop_key other mac' q)
          ≡ s.cell db u (prop_key other mac' q)
    z_apart z db = elim (Bool-cases (not (eqb_ℤ z int_min))) [
      | inl known ↦ rw known (one_apart Ty.int (codes "z") z db tt IsKey-z)
      | inr unknown ↦ rw unknown refl
    ]

    written_apart :
        (x y : e.d.W) (z t : ℤ) (db : e.m.State)
        → s.cell (written e s mall mac x y z t db) u (prop_key other mac' q)
          ≡ s.cell db u (prop_key other mac' q)
    written_apart x y z t db =
        one_apart Ty.time (codes "time") t _ tt IsKey-time
        ∙ s.cell-get Ty.time (prop_key mall mac (codes "time")) (pos 0) _ u (prop_key other mac' q)
            (prop-IsKey mall mac (codes "time") IsKey-time)
        ∙ z_apart z _
        ∙ one_apart Ty.double (codes "y") y _ tt IsKey-y
        ∙ one_apart Ty.double (codes "x") x db tt IsKey-x

  -- `user_query` in a mall gives the same before and after `user_add` in another one.
  user_query_apart :
      (mall other : ℤ) (mac mac' : ℕ) (x y : e.d.W) (z offset : ℤ) (w : World e)
      → mall ≢ other
      → IsKey (time_value (e.clock w.reads))
      → (user_query e mac' other (user_add e mac x y z offset mall w).1).0
        ≡ (user_query e mac' other w).0
  user_query_apart mall other mac mac' x y z offset w d k =
      let same : (u : Ty) (q : Bytes)
          → IsKey q
          → s.cell (user_add e mac x y z offset mall w).1.db u (prop_key other mac' q)
            ≡ s.cell w.db u (prop_key other mac' q) =
        λ u q kq.
          user_add_cell e s mac x y z offset mall w u (prop_key other mac' q) k
            (prop-IsLocation other mac' q kq)
          ∙ written_apart mall other mac mac' d q kq u x y z (e.clock w.reads) w.db in
      let p : position_of e s other mac' (user_add e mac x y z offset mall w).1.db
          ≡ position_of e s other mac' w.db =
        rw
          (
            same Ty.double (codes "x") IsKey-x,
            same Ty.double (codes "y") IsKey-y,
            same Ty.int (codes "z") IsKey-z,
          )
          refl in
      user_query_lem e s other mac' _ ∙ ap done p ∙ sym (user_query_lem e s other mac' w)

abbrev pub NotMall : Bytes → Type 0
NotMall k = bytes_eq k (codes "mall_id") ≡ false

module _ (e : Env) (f : Floats e.d) where
  set_param-mall :
      (k v : Bytes) (p : Params e.d.W)
      → NotMall k
      → p.mall_id ≡ pos 2
      → (set_param e f k v p).mall_id ≡ pos 2
  unfolding set_param
  set_param-mall k v p n h = ground arith

  -- The reply does not depend on the state that the query leaves.
  abbrev pub reply_of : Outcome (UserPosition e.d.W) → Outcome (UserReply e.d.W)
  reply_of (done found) = done (position found.x found.y found.z)
  reply_of throws = throws
  reply_of blocks = blocks
  reply_of undefined = undefined

  pub replied :
      (r : Outcome (UserPosition e.d.W)) (w : World e)
      → (continue {B = UserReply e.d.W} r (λ found. pure (position found.x found.y found.z)) w).0
        ≡ reply_of r
  replied (done found) w = refl
  replied throws w = refl
  replied blocks w = refl
  replied undefined w = refl

  op_query-same :
      (p : Params e.d.W) (v w : World e)
      → (user_query e p.mac (pos 0) v).0 ≡ (user_query e p.mac (pos 0) w).0
      → (op_query e f p v).0 ≡ (op_query e f p w).0
  unfolding op_query
  op_query-same p v w h = elim (Bool-cases (p.mac == no_mac)) [
    | inl missing ↦ rw missing refl
    | inr named ↦ rw named (
        replied (user_query e p.mac (pos 0) v).0 (user_query e p.mac (pos 0) v).1
        ∙ ap reply_of h
        ∙ sym (replied (user_query e p.mac (pos 0) w).0 (user_query e p.mac (pos 0) w).1))
  ]

  module _ (q : Query) (p : Params e.d.W)
      (r : read_params keys (set_param e f) q (defaults e f) ≡ some p) where
    user_op-runs : (w : World e) → user_op e f q w ≡ run_action e f p w
    unfolding user_op
    user_op-runs w = rw r refl

    pub user_op-add : p.action ≡ codes "add" → (w : World e) → user_op e f q w ≡ op_add e f p w
    unfolding run_action bytes_eq
    user_op-add a w = user_op-runs w ∙ rw (ap (bytes_eq (codes "add")) a) refl

    pub user_op-query :
        p.action ≡ codes "query" → (w : World e) → user_op e f q w ≡ op_query e f p w
    unfolding run_action bytes_eq
    user_op-query a w =
        user_op-runs w
        ∙ rw
            (
              ap (bytes_eq (codes "add")) a,
              ap (bytes_eq (codes "remove")) a,
              ap (bytes_eq (codes "update")) a,
              ap (bytes_eq (codes "query")) a,
            )
            refl

  pub same_end :
      (r : Outcome ℤ) (w : World e)
      → (continue {B = UserReply e.d.W} r (λ z. pure (success e f)) w).1 ≡ w
  same_end (done z) w = refl
  same_end throws w = refl
  same_end blocks w = refl
  same_end undefined w = refl

  op_add_apart :
      (s : IsStore e.d e.m) (p : Params e.d.W) (mac' : ℕ) (w : World e)
      → IsKey (time_value (e.clock w.reads))
      → p.mall_id ≡ pos 2
      → (user_query e mac' (pos 0) (op_add e f p w).1).0 ≡ (user_query e mac' (pos 0) w).0
  unfolding op_add
  op_add_apart s p mac' w k m = elim (Bool-cases (no_position e f p)) [
    | inl missing ↦ rw missing refl
    | inr named ↦ rw named (
        ap (λ v. (user_query e mac' (pos 0) v).0)
          (same_end (user_add e p.mac p.x p.y p.z (negsuc 0) p.mall_id w).0
            (user_add e p.mac p.x p.y p.z (negsuc 0) p.mall_id w).1)
        ∙ user_query_apart e s p.mall_id (pos 0) p.mac mac' p.x p.y p.z (negsuc 0) w
            (λ z. apart (sym m ∙ z)) k)
  ]
    where
      apart : pos 2 ≢ pos 0
      apart h = ground arith

  -- A request for `query` is answered after a request for `add` that names no mall as it is before it:
  -- the position that `add` stored is not found, and neither is any other change. The time of the
  -- call must be one whose bytes the database takes as a text.
  pub user_op-query-add :
      (s : IsStore e.d e.m) (q q' : Query) (p p' : Params e.d.W) (w : World e)
      → IsKey (time_value (e.clock w.reads))
      → AllKeys NotMall q
      → read_params keys (set_param e f) q (defaults e f) ≡ some p
      → p.action ≡ codes "add"
      → read_params keys (set_param e f) q' (defaults e f) ≡ some p'
      → p'.action ≡ codes "query"
      → (user_op e f q' (user_op e f q w).1).0 ≡ (user_op e f q' w).0
  user_op-query-add s q q' p p' w k n r a r' a' =
      let m : p.mall_id ≡ pos 2 =
        read_params-keeps keys (set_param e f) NotMall (λ p. p.mall_id ≡ pos 2) set_param-mall q
          (defaults e f) p n refl r in
      ap (λ x. x.0) (user_op-query q' p' r' a' (user_op e f q w).1)
      ∙ ap (λ v. (op_query e f p' v.1).0) (user_op-add q p r a w)
      ∙ op_query-same p' (op_add e f p w).1 w (op_add_apart s p p'.mac w k m)
      ∙ ap (λ x. x.0) (sym (user_op-query q' p' r' a' w))
