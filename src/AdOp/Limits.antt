-- ===== src/AdOp/Limits.antt =====
-- ad_op.cpp: how many advertisements a request is answered with.
use simple_dsp.Base.{
  ℕ, zero, suc, ◌≤◌, ◌≡◌, ◌≢◌, refl, sym, ap, ◌∙◌, inl, inr, ◌==◌, ==_iff, List, [], ◌∷◌, some,
  get_or, length, length-set, length-map, length-replicate, ℤ, pos, ◌≤ℤ◌, negsuc, eqb_ℤ, eqb_ℤ_iff,
  pos_part, Bool-cases, arith,
}
use simple_dsp.Text.{Bytes, codes, bytes_eq, int_min}
use simple_dsp.Prog.{done, continue, pure, ◌>>=◌}
use simple_dsp.Store.{Double}
use simple_dsp.World.{Env, World}
use simple_dsp.Request.{Query, AllKeys, read_params, read_params-keeps}
use simple_dsp.UserMap.Position.{UserPosition, user_query}
use simple_dsp.AdMap.Slots.{Slot, empty_slot, empty_slots, move_down, place_from, place}
use simple_dsp.AdMap.Slots.Best.{place_all}
use simple_dsp.AdMap.Bidding.{Reply, bidding, ad_request}
use simple_dsp.AdMap.Bidding.Ranked.{taken, shown, entered, bidding-replies}
use simple_dsp.AdOp.{
  Params, shown_ads, defaults, keys, mall_id, set_param, ad_op, run_action, op_request, find_user,
  find_mac,
}

module _ (d : Double) where
  length-move_down :
      (n j : ℕ) (slots : List (Slot d.W)) (s : Slot d.W)
      → length (move_down d n j slots s) ≡ length slots
  unfolding move_down
  length-move_down n j slots s = elim (Bool-cases (suc j == n)) [
    | inl last ↦ rw last (length-set slots j s)
    | inr inner ↦
        rw inner (length-set _ j s ∙ length-set slots (suc j) (get_or slots j (empty_slot d)))
  ]

  length-place_from :
      (n j : ℕ) (slots : List (Slot d.W)) (s : Slot d.W)
      → length (place_from d n j slots s) ≡ length slots
  unfolding place_from
  length-place_from n zero slots s = refl
  length-place_from n (suc j) slots s =
      elim (Bool-cases (d.lt (get_or slots j (empty_slot d)).ecpm s.ecpm)) [
        | inl larger ↦
            rw larger
              (length-place_from n j (move_down d n j slots s) s ∙ length-move_down n j slots s)
        | inr other ↦ rw other refl
      ]

  length-place_all :
      (n : ℕ) (slots bids : List (Slot d.W)) → length (place_all d n slots bids) ≡ length slots
  unfolding place_all place
  length-place_all n slots [] = refl
  length-place_all n slots (s ∷ bids) =
      length-place_all n (place d n slots s) bids ∙ length-place_from n n slots s

length-taken : (e : Env) (slots : List (Slot e.d.W)) → length (taken e slots) ≤ length slots
length-taken e [] = omega arith
length-taken e (s ∷ slots) = let q = length-taken e slots in ground arith

module _ (e : Env) where
  set_param-n :
      (k v : Bytes) (p : Params) → Unit {0} → pos 1 ≤ℤ p.n → pos 1 ≤ℤ (set_param e k v p).n
  unfolding set_param
  set_param-n k v p u h = ground arith

  AllKeys-any : (q : Query) → AllKeys (λ k. Unit) q
  AllKeys-any [] = tt
  AllKeys-any ((k, v) ∷ q) = (tt, AllKeys-any q)

  -- Whatever the parameters of a request, the number of advertisements that is asked for is positive.
  pub read_params-n :
      (q : Query) (p : Params) → read_params keys (set_param e) q defaults ≡ some p → pos 1 ≤ℤ p.n
  read_params-n q p r =
      read_params-keeps keys (set_param e) (λ k. Unit) (λ p. pos 1 ≤ℤ p.n) set_param-n q defaults p
        (AllKeys-any q) (omega arith) r

  query_done :
      (mac : ℕ) (mall : ℤ) (w : World e)
      → (p : UserPosition e.d.W) × ((user_query e mac mall w).0 ≡ done p)
  unfolding user_query
  query_done mac mall w = (_, refl)

  replied_length :
      (p : UserPosition e.d.W) (id space mall : ℤ) (n : ℕ) (w : World e)
      → length
          (bidding-replies e (λ l v b. Unit {0}) p id space mall n w (λ l v b a q. tt)).reply.ads
        ≤ n
  unfolding empty_slots
  replied_length p id space mall n w =
      let r = bidding-replies e (λ l v b. Unit {0}) p id space mall n w (λ l v b a q. tt) in
      let slots = place_all e.d n (empty_slots e.d n) r.bids in
      let a : length r.reply.ads ≡ length (taken e slots) =
        sym (length-map r.reply.ads shown)
        ∙ ap length r.best
        ∙ length-map (taken e slots) entered in
      let b = length-taken e slots in
      let c : length slots ≡ n =
        length-place_all e.d n (empty_slots e.d n) r.bids ∙ length-replicate n (empty_slot e.d) in
      omega (arith, a, b, c)

  -- `ad_request` returns, with at most `n` advertisements.
  ad_request-length :
      (mac : ℕ) (user_id space mall : ℤ) (n : ℕ) (w : World e)
      → (reply : Reply) × (length reply.ads ≤ n)
        × ((ad_request e mac user_id space mall n w).0 ≡ done (reply, negsuc 0))
  unfolding ad_request
  ad_request-length mac user_id space mall n w =
      let (p, q) = query_done mac mall w in
      let r =
        bidding-replies e (λ l v b. Unit {0}) p user_id space mall n (user_query e mac mall w).1
          (λ l v b a q. tt) in
      (
        r.reply,
        replied_length p user_id space mall n (user_query e mac mall w).1,
        ap
              (λ o.
                (continue {B = Reply × ℤ} o
                  (λ p. do ret ← bidding e p user_id space mall n; pure (ret, negsuc 0))
                  (user_query e mac mall w).1).0)
              q
            ∙ ap
                (λ o.
                  (continue {B = Reply × ℤ} o (λ ret. pure (ret, negsuc 0))
                    (bidding e p user_id space mall n (user_query e mac mall w).1).1).0)
                r.replied,
      )

  find_user_given :
      (p : Params) (w : World e) → p.user_id ≢ int_min → find_user e p w ≡ (done p.user_id, w)
  unfolding find_user
  find_user_given p w h = elim (Bool-cases (eqb_ℤ p.user_id int_min)) [
    | inl same ↦ absurd (h ((eqb_ℤ_iff _ _).0 same))
    | inr other ↦ rw other refl
  ]

  find_mac_given :
      (mac : ℕ) (user_id : ℤ) (w : World e) → mac ≢ 0 → find_mac e mac user_id w ≡ (done mac, w)
  unfolding find_mac
  find_mac_given mac user_id w h = elim (Bool-cases (mac == 0)) [
    | inl same ↦ absurd (h ((==_iff _ _).0 same))
    | inr other ↦ rw other refl
  ]

  -- A request that gives both an address and a user is answered from every state, with no more
  -- advertisements than it asks for, and it asks for one at least.
  pub ad_op-length :
      (q : Query) (p : Params) (w : World e)
      → read_params keys (set_param e) q defaults ≡ some p
      → p.action ≡ codes "request"
      → p.user_id ≢ int_min
      → p.mac ≢ 0
      → (reply : Reply) × (length reply.ads ≤ pos_part p.n)
        × (1 ≤ pos_part p.n)
        × ((ad_op e q w).0 ≡ done (shown_ads reply))
  unfolding ad_op run_action op_request bytes_eq
  ad_op-length q p w r a u m =
      let (reply, l, d) = ad_request-length p.mac p.user_id p.ad_space mall_id (pos_part p.n) w in
      let n = read_params-n q p r in
      (
        reply,
        l,
        ground arith,
        rw
            (
              r,
              ap (bytes_eq (codes "request")) a,
              find_user_given p w u,
              find_mac_given p.mac p.user_id w m,
              d,
            )
            refl,
      )
