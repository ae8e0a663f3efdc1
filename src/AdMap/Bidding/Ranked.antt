-- ===== src/AdMap/Bidding/Ranked.antt =====
-- The reply of `bidding` in ad_map.cpp, against the bids of the groups.
use simple_dsp.Base.{
  ℕ, ◌≡◌, refl, sym, ap, ◌∙◌, inl, inr, Bool-cases, List, [], ◌∷◌, ℤ, negsuc, map, if◌then◌else◌,
  true, false,
}
use simple_dsp.Text.{Bytes}
use simple_dsp.Prog.{done}
use simple_dsp.Store.Contract.{IsStore}
use simple_dsp.World.{Env, World}
use simple_dsp.UserMap.Position.{UserPosition}
use simple_dsp.AdMap.Filters.{user_labels, passes}
use simple_dsp.AdMap.Ecpm.{get_e_cpm}
use simple_dsp.AdMap.Ecpm.Stored.{income_in, get_e_cpm_lem}
use simple_dsp.AdMap.Slots.{Slot, place, empty_slots}
use simple_dsp.AdMap.Slots.Best.{place_all}
use simple_dsp.AdMap.Charge.{Ad, get_ad, increase_ad_time, charge_ad, get_charge_cmd}
use simple_dsp.AdMap.Bidding.{
  Reply, candidates, bid, bid_all, is_taken, show_ad, show_all, reply_of, bidding,
}
use simple_dsp.AdMap.Bidding.Returns.{Returns, Returns-pure, Returns-bind, Returns-weaken}
use simple_dsp.AdMap.Bidding.Total.{Total-passes, Total-ecpm, Total-candidates, Total-user_labels}
use simple_dsp.AdMap.Bidding.Accepted.{Accepts, passes-Accepts}

-- The entries up to the first one that is not taken.
abbrev pub taken : (e : Env) → List (Slot e.d.W) → List (Slot e.d.W)
taken e [] = []
taken e (s ∷ slots) = let rest = taken e slots in if is_taken e s then s ∷ rest else []

-- The group and the advertisement of a reply and of an entry.
abbrev pub shown : Ad → ℤ × ℤ
shown a = (a.group_id, a.id)

abbrev pub entered : {W : Type 0} → Slot W → ℤ × ℤ
entered s = (s.group, s.next_ad)

module _ (e : Env) where
  -- The bids of the groups, from a state to a state: a group that does not pass makes none; one that
  -- passes makes one, with what `get_eCPM` gives. `Good` is what else is known of a bid and of the state
  -- before its group was tested.
  pub data Bids (mall id : ℤ) (labels : List Bytes) (Good : World e → Slot e.d.W → Type 0)
      : World e → List ℤ → List (Slot e.d.W) → World e → Type 0 where
    stop : (w : World e) → Bids mall id labels Good w [] [] w
    skip :
        (g : ℤ) (groups : List ℤ) (bids : List (Slot e.d.W)) (w end : World e)
        → (passes e mall id labels g w).0 ≡ done false
        → Bids mall id labels Good (passes e mall id labels g w).1 groups bids end
        → Bids mall id labels Good w (g ∷ groups) bids end
    enter :
        (b : Slot e.d.W) (groups : List ℤ) (bids : List (Slot e.d.W)) (w end : World e)
        → (passes e mall id labels b.group w).0 ≡ done true
        → (get_e_cpm e mall b.group (negsuc 0) (passes e mall id labels b.group w).1).0
          ≡ done (b.ecpm, b.next_ad)
        → Good w b
        → Bids mall id labels Good
            (get_e_cpm e mall b.group (negsuc 0) (passes e mall id labels b.group w).1).1
            groups
            bids
            end
        → Bids mall id labels Good w (b.group ∷ groups) (b ∷ bids) end

  -- What holds of every bid of a group that passes.
  abbrev pub Holds : ℤ → ℤ → List Bytes → (World e → Slot e.d.W → Type 0) → Type 0
  Holds mall id labels Good =
      (w : World e) (b : Slot e.d.W)
      → (passes e mall id labels b.group w).0 ≡ done true
      → (get_e_cpm e mall b.group (negsuc 0) (passes e mall id labels b.group w).1).0
        ≡ done (b.ecpm, b.next_ad)
      → Good w b

  -- What the loop over the groups leaves.
  pub record IsEntered (n : ℕ) (mall id : ℤ) (labels : List Bytes)
      (Good : World e → Slot e.d.W → Type 0) (groups : List ℤ) (slots : List (Slot e.d.W))
      (w : World e) : Type 0 where
    pub bids : List (Slot e.d.W)
    pub end : World e
    pub from : Bids mall id labels Good w groups bids end
    pub entered_lem :
        bid_all e n mall id labels groups slots w ≡ (done (place_all e.d n slots bids), end)

  bid_all-IsEntered :
      (n : ℕ) (mall id : ℤ) (labels : List Bytes) (Good : World e → Slot e.d.W → Type 0)
      (groups : List ℤ) (slots : List (Slot e.d.W)) (w : World e)
      → Holds mall id labels Good
      → IsEntered n mall id labels Good groups slots w
  unfolding bid_all bid place_all
  bid_all-IsEntered n mall id labels Good [] slots w h = record {
    bids = [];
    end = w;
    from = Bids.stop w;
    entered_lem = refl;
  }
  bid_all-IsEntered n mall id labels Good (g ∷ groups) slots w h =
      let (ok, u, p) = (Total-passes e mall id labels g).run w in
      let v = (passes e mall id labels g w).1 in
      elim (Bool-cases ok) [
        | inl passed ↦
            let a = p ∙ ap done passed in
            let (offer, u', q) = (Total-ecpm e mall g (negsuc 0)).run v in
            let b : Slot e.d.W = record { ecpm = offer.0; group = g; next_ad = offer.1 } in
            let r =
              bid_all-IsEntered n mall id labels Good groups (place e.d n slots b)
                (get_e_cpm e mall g (negsuc 0) v).1 h in
            record {
              bids = b ∷ r.bids;
              end = r.end;
              from = Bids.enter b groups r.bids w r.end a q (h w b a q) r.from;
              entered_lem = rw (a, q) r.entered_lem;
            }
        | inr failed ↦
            let a = p ∙ ap done failed in
            let r = bid_all-IsEntered n mall id labels Good groups slots v h in
            record {
              bids = r.bids;
              end = r.end;
              from = Bids.skip g groups r.bids w r.end a r.from;
              entered_lem = rw a r.entered_lem;
            }
      ]

  abbrev IsShown : List (Slot e.d.W) → List Ad → Type 0
  IsShown slots ads = map shown ads ≡ map entered (taken e slots)

  Returns-show :
      (mall : ℤ) (s : Slot e.d.W) → Returns e (λ a. shown a ≡ entered s) (show_ad e mall s)
  unfolding show_ad get_ad increase_ad_time charge_ad get_charge_cmd
  Returns-show mall s = record { run = λ w. (_, refl, refl) }

  Returns-show_all :
      (mall : ℤ) (slots : List (Slot e.d.W)) → Returns e (IsShown slots) (show_all e mall slots)
  unfolding show_all
  Returns-show_all mall [] = Returns-pure e (IsShown []) [] refl
  Returns-show_all mall (s ∷ slots) = elim (Bool-cases (is_taken e s)) [
    | inl yes_taken ↦
        let P : List Ad → Type 0 = λ ads. map shown ads ≡ entered s ∷ map entered (taken e slots) in
        let r =
          Returns-bind e (λ a. shown a ≡ entered s) P _ _ (Returns-show mall s)
            (λ ad p.
              Returns-bind e (IsShown slots) P _ _ (Returns-show_all mall slots)
                (λ ads q. Returns-pure e P (ad ∷ ads) (cc (p, q)))) in
        Returns-weaken e P (IsShown (s ∷ slots)) _ (λ ads q. rw yes_taken q) (rw yes_taken r)
    | inr not_taken ↦
        Returns-weaken e (λ ads. map shown ads ≡ []) (IsShown (s ∷ slots)) _
          (λ ads q. rw not_taken q)
          (rw not_taken (Returns-pure e (λ ads. map shown ads ≡ []) [] refl))
  ]

  -- What `bidding` replies from a state: the groups that it considers, the labels of the user, the
  -- bids of the groups, and the entries of the arrays that these fill.
  pub record IsReply (Good : List Bytes → World e → Slot e.d.W → Type 0) (p : UserPosition e.d.W)
      (id space mall : ℤ) (n : ℕ) (w : World e) : Type 0 where
    pub groups : List ℤ
    pub labels : List Bytes
    pub bids : List (Slot e.d.W)
    pub end : World e
    pub reply : Reply
    pub considered : (candidates e p id space mall w).0 ≡ done groups
    pub labelled : (user_labels e id (candidates e p id space mall w).1).0 ≡ done labels
    pub from :
        Bids mall id labels
          (Good labels)
          (user_labels e id (candidates e p id space mall w).1).1
          groups
          bids
          end
    pub replied : (bidding e p id space mall n w).0 ≡ done reply
    pub best :
        map shown reply.ads ≡ map entered (taken e (place_all e.d n (empty_slots e.d n) bids))

  pub bidding-replies :
      (Good : List Bytes → World e → Slot e.d.W → Type 0) (p : UserPosition e.d.W)
      (id space mall : ℤ) (n : ℕ) (w : World e)
      → ((labels : List Bytes) → Holds mall id labels (Good labels))
      → IsReply Good p id space mall n w
  unfolding bidding reply_of
  bidding-replies Good p id space mall n w h =
      let (groups, u, q) = (Total-candidates e p id space mall).run w in
      let w1 = (candidates e p id space mall w).1 in
      let (labels, u', q') = (Total-user_labels e id).run w1 in
      let b =
        bid_all-IsEntered n mall id labels (Good labels) groups (empty_slots e.d n)
          (user_labels e id w1).1 (h labels) in
      let (ads, shown_lem, q'') =
        (Returns-show_all mall (place_all e.d n (empty_slots e.d n) b.bids)).run b.end in
      record {
        groups = groups;
        labels = labels;
        bids = b.bids;
        end = b.end;
        reply = reply_of e ads;
        considered = q;
        labelled = q';
        from = b.from;
        replied = rw (q, q', b.entered_lem, q'') refl;
        best = shown_lem;
      }

  module _ (s : IsStore e.d e.m) where
    -- A bid of an accepted group, with the mean income that the database holds for it.
    abbrev pub IsEarned : ℤ → ℤ → List Bytes → World e → Slot e.d.W → Type 0
    IsEarned mall id labels w b =
        Accepts e s mall id labels b.group w
        × (b.ecpm ≡ income_in e s mall b.group (passes e mall id labels b.group w).1.db)

    Holds-IsEarned :
        (mall id : ℤ) (labels : List Bytes) → Holds mall id labels (IsEarned mall id labels)
    Holds-IsEarned mall id labels w b a q = (
      passes-Accepts e s mall b.group id labels w a,
      (let c =
            sym q
            ∙ get_e_cpm_lem e s mall b.group (negsuc 0) (passes e mall id labels b.group w).1 in
          cc c),
    )

    -- On a database that keeps its contract, `bidding` returns. Each group that it considers and that
    -- passes the tests makes one bid, with the mean income of its valid advertisements by the
    -- database and the advertisement that `get_eCPM` chooses, and fits by its shops, its flag, its range
    -- of time and its labels; a group that does not pass makes none. The bids are entered into the
    -- empty arrays in the order of the groups, and the reply has the group and the advertisement of
    -- each entry up to the first one that is zero, in the order of the arrays.
    pub bidding-IsReply :
        (p : UserPosition e.d.W) (id space mall : ℤ) (n : ℕ) (w : World e)
        → IsReply (IsEarned mall id) p id space mall n w
    bidding-IsReply p id space mall n w =
        bidding-replies (IsEarned mall id) p id space mall n w (Holds-IsEarned mall id)
