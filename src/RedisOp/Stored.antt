-- ===== src/RedisOp/Stored.antt =====
-- redis_op.cpp: `get` after `set`.
use simple_dsp.Base.{
  ◌≡◌, ◌≢◌, [], refl, ap, ◌∙◌, inl, inr, true, some, Bool-cases, Option-cases, ℤ, pos, negsuc,
  eqb_ℤ, if◌then◌else◌,
}
use simple_dsp.Text.{Bytes, codes, bytes_eq, in_range, int_min, int_max}
use simple_dsp.Prog.{done}
use simple_dsp.Store.{Double, Ty}
use simple_dsp.Store.Contract.{IsStore, IsKey, or_default}
use simple_dsp.Redis.{Server, redis_mdb, get, set}
use simple_dsp.Request.{Query, Floats, read_params}
use simple_dsp.RedisOp.{
  Params, OpState, Extras, no_result, number, keys, defaults, set_param, unless, op_set, op_get,
  run_action, redis_op,
}

module _ (d : Double) (r : Server d) (f : Floats d) (x : Extras d r) (unset_shop : ℤ) where
  -- A query with an action, a key and a value.
  pub record Asks (query_list : Query) (action key : Bytes) (v : ℤ) : Type 0 where
    pub params : Params d.W
    pub is_read :
        read_params keys (set_param d r f x unset_shop) query_list (defaults d r f x unset_shop)
        ≡ some params
    pub action_lem : params.action ≡ action
    pub key_lem : params.phone ≡ key
    pub value_lem : params.shop_id ≡ v

  unless_state : (failure n : ℤ) (s : OpState d r) → (unless d r f x unset_shop failure n s).1 ≡ s
  unless_state failure n s = elim (Bool-cases (eqb_ℤ failure n)) [
    | inl failed ↦ rw failed refl
    | inr well ↦ elim (Option-cases (x.as_string n)) [
      | inl unshown ↦ rw (well, unshown) refl
      | inr (shown, e) ↦ rw (well, e) refl
    ]
  ]

  set_runs :
      (q : Query) (k : Bytes) (v : ℤ) (s : OpState d r)
      → Asks q (codes "set") k v
      → (redis_op d r f x unset_shop q s).1 ≡ record s { db = (set d r Ty.int k v s.db).1 }
  unfolding redis_op run_action op_set bytes_eq
  set_runs q k v s a =
      rw (a.is_read, ap (bytes_eq (codes "set")) a.action_lem, a.key_lem, a.value_lem)
        (unless_state (pos 0) (set d r Ty.int k v s.db).0
          (record s { db = (set d r Ty.int k v s.db).1 }))

  get_runs :
      (q : Query) (k : Bytes) (v : ℤ) (s : OpState d r)
      → Asks q (codes "get") k v
      → (redis_op d r f x unset_shop q s).0
        ≡ (let (n, db) = get d r Ty.int k (negsuc 0) s.db in
            unless d r f x unset_shop (negsuc 0) n (record s { db = db })).0
  unfolding redis_op run_action op_get bytes_eq
  get_runs q k v s a =
      rw
        (
          a.is_read,
          ap (bytes_eq (codes "set")) a.action_lem,
          ap (bytes_eq (codes "get")) a.action_lem,
          a.key_lem,
        )
        refl

  replied :
      (v : ℤ) (shown : Bytes) (s : OpState d r)
      → x.as_string v ≡ some shown
      → (unless d r f x unset_shop (negsuc 0) v s).0
        ≡ done (if eqb_ℤ (negsuc 0) v then no_result else number v)
  replied v shown s h = elim (Bool-cases (eqb_ℤ (negsuc 0) v)) [
    | inl failed ↦ rw failed refl
    | inr well ↦ rw (well, h) refl
  ]

  -- On a Redis that keeps the contract of a memory database, a query for `get` after a query for `set`
  -- with the same key, which is not empty, replies with the number that was set, if it is an `int` other than -1 that
  -- `asString` can show; -1 is taken for a failure and gets no result.
  pub redis_op-get-set :
      (h : IsStore d (redis_mdb d r)) (q q' : Query) (k : Bytes) (v v' : ℤ) (shown : Bytes)
      (s : OpState d r)
      → IsKey k
      → k ≢ []
      → in_range int_min int_max v ≡ true
      → x.as_string v ≡ some shown
      → Asks q (codes "set") k v
      → Asks q' (codes "get") k v'
      → (redis_op d r f x unset_shop q' (redis_op d r f x unset_shop q s).1).0
        ≡ done (if eqb_ℤ (negsuc 0) v then no_result else number v)
  unfolding redis_mdb
  redis_op-get-set h q q' k v v' shown s key ne b e a a' =
      let db = (set d r Ty.int k v s.db).1 in
      let found : (get d r Ty.int k (negsuc 0) db).0 ≡ v =
        h.get_value Ty.int k (negsuc 0) db key
        ∙ ap (or_default (negsuc 0)) (h.cell-set_int k v s.db key ne b) in
      ap (λ t. (redis_op d r f x unset_shop q' t).0) (set_runs q k v s a)
      ∙ get_runs q' k v' (record s { db = db }) a'
      ∙ rw found (replied v shown _ e)
