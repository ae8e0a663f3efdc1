-- ===== src/UserMap/Identity/Mutex.antt =====
-- user_map.cpp: the steps of `user_get_id`, and the mutex.
use simple_dsp.Base.{
  ℕ, zero, suc, ◌≡◌, refl, inl, inr, true, false, [], Option, none, some, ℤ, pos, arith, eqb_ℤ,
  ltb_ℤ, Bool-cases, if◌then◌else◌, Option-cases, ◌≤◌,
}
use simple_dsp.Text.{Bytes, stoi}
use simple_dsp.Prog.{Outcome, done, throws, continue, ◌>>=◌}
use simple_dsp.Store.{Ty}
use simple_dsp.World.{Env, World}
use simple_dsp.UserMap.Key.{user_id_key, user_mac_key}
use simple_dsp.UserMap.Identity.{
  is_empty, retry, register, conclude, user_get_id, add_user_cmd, id_of_output,
}

module _ (e : Env) where
  -- The SQL server after some runs of a command.
  abbrev pub runs : ℕ → Bytes → e.Sql → e.Sql
  runs zero cmd sql = sql
  runs (suc k) cmd sql = runs k cmd (e.exec cmd sql).1

  -- What the retries leave: they always end, after as many runs as were allowed at most, and
  -- touch nothing but the SQL server.
  pub record IsRetried (n : ℕ) (cmd before : Bytes) (w : World e) : Type 0 where
    pub out : Bytes
    pub times : ℕ
    pub enough : times ≤ n
    pub result : retry e n cmd before w ≡ (done out, record w { sql = runs times cmd w.sql })

  pub retry-IsRetried : (n : ℕ) (cmd before : Bytes) (w : World e) → IsRetried n cmd before w
  unfolding retry
  retry-IsRetried zero cmd before w = record {
    out = before;
    times = 0;
    enough = omega arith;
    result = refl;
  }
  retry-IsRetried (suc n) cmd before w = elim (Bool-cases (is_empty (e.exec cmd w.sql).0)) [
    | inl again ↦
        let r =
          retry-IsRetried n cmd (e.exec cmd w.sql).0 (record w { sql = (e.exec cmd w.sql).1 }) in
        record {
          out = r.out;
          times = suc r.times;
          enough = let h = r.enough in omega arith;
          result = rw again r.result;
        }
    | inr found ↦ record {
      out = (e.exec cmd w.sql).0;
      times = 1;
      enough = omega arith;
      result = rw found refl;
    }
  ]

  -- The number that an output stands for.
  abbrev pub of_stoi : Option ℤ → Outcome ℤ
  of_stoi none = throws
  of_stoi (some z) = done z

  abbrev pub id_result : Bytes → Outcome ℤ
  id_result out = if is_empty out then done (pos 0) else of_stoi (stoi out)

  -- Both directions of the numbering, where there is a number.
  abbrev pub remembered : ℕ → ℤ → e.m.State → e.m.State
  remembered mac id db =
      if ltb_ℤ (pos 0) id
      then (e.m.set Ty.ull (user_mac_key id) mac (e.m.set Ty.int (user_id_key mac) id db).1).1
      else db

  pub conclude_lem :
      (mac : ℕ) (id : ℤ) (w : World e)
      → conclude e mac id w ≡ (done id, record w { db = remembered mac id w.db; locked = false })
  unfolding conclude
  conclude_lem mac id w = elim (Bool-cases (ltb_ℤ (pos 0) id)) [
    | inl new ↦ rw new refl
    | inr failed ↦ rw failed refl
  ]

  -- The number that the output stands for, or its exception.
  pub settle_lem :
      (mac : ℕ) (out : Bytes) (w : World e)
      → (id_of_output e out >>= conclude e mac) w ≡ continue (id_result out) (conclude e mac) w
  settle_lem mac out w = elim (Bool-cases (is_empty out)) [
    | inl empty ↦ rw empty refl
    | inr found ↦ elim (Option-cases (stoi out)) [
      | inl bad ↦ rw (found, bad) refl
      | inr (z, good) ↦ rw (found, good) refl
    ]
  ]

  pub register_lem :
      (mac : ℕ) (w : World e)
      → let r = retry-IsRetried 10 (add_user_cmd e mac) [] w in
        register e mac w
        ≡ continue
            (id_result r.out)
            (conclude e mac)
            (record w { sql = runs r.times (add_user_cmd e mac) w.sql })
  unfolding register
  register_lem mac w =
      let r = retry-IsRetried 10 (add_user_cmd e mac) [] w in
      rw r.result
        (settle_lem mac r.out (record w { sql = runs r.times (add_user_cmd e mac) w.sql }))

  -- The first lookup, of a call that finds the mutex free.
  abbrev pub looked_up : ℕ → World e → ℤ
  looked_up mac w = (e.m.get Ty.int (user_id_key mac) (pos 0) w.db).0

  abbrev pub after_lookup : ℕ → World e → World e
  after_lookup mac w = record w {
    db = (e.m.get Ty.int (user_id_key mac) (pos 0) w.db).1;
    locked = true;
  }

  pub user_get_id_lem :
      (mac : ℕ) (w : World e)
      → w.locked ≡ false
      → user_get_id e mac w ≡ (
          if eqb_ℤ (looked_up mac w) (pos 0)
          then register e mac (after_lookup mac w)
          else (done (looked_up mac w), record (after_lookup mac w) { locked = false }))
  unfolding user_get_id
  user_get_id_lem mac w h = elim (Bool-cases (eqb_ℤ (looked_up mac w) (pos 0))) [
    | inl unknown ↦ rw (h, unknown) refl
    | inr known ↦ rw (h, known) refl
  ]
