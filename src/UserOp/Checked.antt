-- ===== src/UserOp/Checked.antt =====
-- user_op.cpp: requests that name no address.
use simple_dsp.Base.{
  List, String, ◌⊎◌, ◌≡◌, refl, ap, inl, inr, true, false, [], ◌∷◌, some, Bool-cases, arith,
}
use simple_dsp.Text.{Bytes, codes, bytes_eq, bytes_eq_iff}
use simple_dsp.Prog.{done, pure}
use simple_dsp.World.{Env, World}
use simple_dsp.Request.{Query, Floats, AllKeys, read_params, read_params-keeps, mem_bytes}
use simple_dsp.UserOp.{
  Params, no_mac, keys, defaults, set_param, user_op, run_action, op_add, op_remove, op_update,
  op_query, op_get_id, fail,
}

abbrev pub NotMac : Bytes → Type 0
NotMac k = bytes_eq k (codes "mac") ≡ false

module _ (e : Env) (f : Floats e.d) where
  set_param-mac :
      (k v : Bytes) (p : Params e.d.W)
      → NotMac k
      → p.mac ≡ no_mac
      → (set_param e f k v p).mac ≡ no_mac
  unfolding set_param
  set_param-mac k v p n h = ground arith

  -- The five actions that need an address.
  abbrev pub for_one_user : List Bytes
  for_one_user = codes "add" ∷ codes "remove" ∷ codes "update" ∷ codes "query" ∷ codes "get_id" ∷ []

  refused :
      (p : Params e.d.W)
      → p.mac ≡ no_mac
      → (op_add e f p ≡ pure (fail e f))
        × (op_remove e f p ≡ pure (fail e f))
        × (op_update e f p ≡ pure (fail e f))
        × (op_query e f p ≡ pure (fail e f))
        × (op_get_id e f p ≡ pure (fail e f))
  unfolding op_add op_remove op_update op_query op_get_id
  refused p h = rw h (refl, refl, refl, refl, refl)

  member :
      (a : Bytes) (l : List Bytes) (x : Bytes)
      → mem_bytes a (x ∷ l) ≡ true
      → (a ≡ x) ⊎ (mem_bytes a l ≡ true)
  unfolding mem_bytes
  member a l x h = elim (Bool-cases (bytes_eq a x)) [
    | inl same ↦ inl ((bytes_eq_iff a x).0 same)
    | inr other ↦ let q : mem_bytes a l ≡ true = rw other at h in inr q
  ]

  none_left : (a : Bytes) → mem_bytes a [] ≡ true → ⊥
  unfolding mem_bytes
  none_left a h = cc h

  -- What a test gives for a known action.
  test : (s : String) {a b : Bytes} → a ≡ b → bytes_eq (codes s) a ≡ bytes_eq (codes s) b
  test s q = ap (bytes_eq (codes s)) q

  -- Each of the five actions is refused.
  run_action-refused :
      (p : Params e.d.W)
      → p.mac ≡ no_mac
      → mem_bytes p.action for_one_user ≡ true
      → run_action e f p ≡ pure (fail e f)
  unfolding run_action bytes_eq
  run_action-refused p h m =
      let (add, remove, update, query, get_id) = refused p h in
      elim (member p.action (codes "remove" ∷ codes "update" ∷ codes "query" ∷ codes "get_id" ∷ [])
        (codes "add") m) [
          | inl a ↦ rw (test "add" a) add
          | inr m1 ↦
              elim (member p.action (codes "update" ∷ codes "query" ∷ codes "get_id" ∷ [])
                (codes "remove") m1) [
                  | inl a ↦ rw (test "add" a, test "remove" a) remove
                  | inr m2 ↦
                      elim (member p.action (codes "query" ∷ codes "get_id" ∷ []) (codes "update")
                        m2) [
                          | inl a ↦ rw (test "add" a, test "remove" a, test "update" a) update
                          | inr m3 ↦
                              elim (member p.action (codes "get_id" ∷ []) (codes "query") m3) [
                                | inl a ↦
                                    rw
                                      (
                                        test "add" a,
                                        test "remove" a,
                                        test "update" a,
                                        test "query" a,
                                      )
                                      query
                                | inr m4 ↦ elim (member p.action ([]) (codes "get_id") m4) [
                                  | inl a ↦
                                      rw
                                        (
                                          test "add" a,
                                          test "remove" a,
                                          test "update" a,
                                          test "query" a,
                                          test "list_all" a,
                                          test "list" a,
                                          test "get_id" a,
                                        )
                                        get_id
                                  | inr m5 ↦ absurd (none_left p.action m5)
                                ]
                              ]
                        ]
                ]
        ]

  -- A request without a parameter `mac` for one of the actions that concern one user is answered with
  -- `fail`, and changes nothing.
  pub user_op-no_mac :
      (q : Query) (p : Params e.d.W) (w : World e)
      → AllKeys NotMac q
      → read_params keys (set_param e f) q (defaults e f) ≡ some p
      → mem_bytes p.action for_one_user ≡ true
      → user_op e f q w ≡ (done (fail e f), w)
  unfolding user_op
  user_op-no_mac q p w n r m =
      let h : p.mac ≡ no_mac =
        read_params-keeps keys (set_param e f) NotMac (λ p. p.mac ≡ no_mac) set_param-mac q
          (defaults e f) p n refl r in
      rw r (ap (λ m. m w) (run_action-refused p h m))
