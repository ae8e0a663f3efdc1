-- ===== src/UserMap/Start/Sound.antt =====
-- user_map.cpp: when the service has started.
use simple_dsp.Base.{
  ◌≡◌, refl, sym, subst, ◌∙◌, inl, inr, Bool, true, false, Option, none, some, Bool-cases,
  if◌then◌else◌,
}
use simple_dsp.Text.{Bytes, codes, bytes_eq}
use simple_dsp.Prog.{Prog, Outcome, done, throws, blocks, undefined, continue, ◌>>=◌}
use simple_dsp.UserMap.Start.{
  Surroundings, Statics, or_text, as_string, as_c_text, hostname_to_ip, update, load_config,
  choose_type, section_of, connect_mdb, init_mdb, conn_text, open_with, connect_sql, start_up,
  user_map_init,
}

abbrev pub is_done : {A : Type 0} → Outcome A → Bool
is_done (done a) = true
is_done r = false

-- A service that has started has an SQL connection that is open.
abbrev pub HasConn : (c : Surroundings) → Bool → Option Bytes → Type 0
HasConn c true conn = (text : Bytes) × (conn ≡ some text) × (c.is_open text ≡ some true)
HasConn c false conn = Unit

abbrev pub IsSound : Surroundings → Statics → Type 0
IsSound c s = HasConn c s.b_started s.conn

module _ (c : Surroundings) where
  -- An action does not start the service.
  record IsQuiet {A : Type 0} (m : Prog Statics A) : Type 0 where
    same : (s : Statics) → (m s).1.b_started ≡ s.b_started

  -- An action starts it exactly if it returns.
  abbrev IsEnd : Outcome (Unit {0}) × Statics → Type 0
  IsEnd (r, s) = IsSound c s × (s.b_started ≡ is_done r)

  record Starts (m : Prog Statics (Unit {0})) : Type 0 where
    ends : (s : Statics) → s.b_started ≡ false → IsEnd (m s)

  not_started : (s : Statics) → s.b_started ≡ false → IsSound c s
  not_started s h = subst (λ b. HasConn c b s.conn) (sym h) tt

  Starts-continue :
      {A : Type 0} (r : Outcome A) (f : A → Prog Statics (Unit {0})) (s : Statics)
      → ((a : A) → Starts (f a))
      → s.b_started ≡ false
      → IsEnd (continue r f s)
  Starts-continue (done a) f s k h = (k a).ends s h
  Starts-continue throws f s k h = (not_started s h, h)
  Starts-continue blocks f s k h = (not_started s h, h)
  Starts-continue undefined f s k h = (not_started s h, h)

  Starts-bind :
      {A : Type 0} (m : Prog Statics A) (f : A → Prog Statics (Unit {0}))
      → IsQuiet m
      → ((a : A) → Starts (f a))
      → Starts (m >>= f)
  Starts-bind m f q k = record { ends = λ s h. Starts-continue (m s).0 f (m s).1 k (q.same s ∙ h) }

  IsQuiet-as_string : (o : Option Bytes) → IsQuiet (as_string c o)
  IsQuiet-as_string none = record { same = λ s. refl }
  IsQuiet-as_string (some t) = record { same = λ s. refl }

  IsQuiet-as_c_text : (o : Option Bytes) → IsQuiet (as_c_text c o)
  IsQuiet-as_c_text none = record { same = λ s. refl }
  IsQuiet-as_c_text (some t) = record { same = λ s. refl }

  IsQuiet-hostname_to_ip : (h : Bytes) → IsQuiet (hostname_to_ip c h)
  unfolding hostname_to_ip
  IsQuiet-hostname_to_ip h = record { same = λ s. refl }

  IsQuiet-load_config : IsQuiet (update c (load_config c))
  unfolding load_config
  IsQuiet-load_config = record { same = λ s. refl }

  IsQuiet-continue :
      {A B : Type 0} (r : Outcome A) (f : A → Prog Statics B) (s : Statics)
      → ((a : A) → IsQuiet (f a))
      → (continue r f s).1.b_started ≡ s.b_started
  IsQuiet-continue (done a) f s k = (k a).same s
  IsQuiet-continue throws f s k = refl
  IsQuiet-continue blocks f s k = refl
  IsQuiet-continue undefined f s k = refl

  IsQuiet-bind :
      {A B : Type 0} (m : Prog Statics A) (f : A → Prog Statics B)
      → IsQuiet m
      → ((a : A) → IsQuiet (f a))
      → IsQuiet (m >>= f)
  IsQuiet-bind m f q k = record { same = λ s. IsQuiet-continue (m s).0 f (m s).1 k ∙ q.same s }

  IsQuiet-choose_type : IsQuiet (update c (choose_type c))
  unfolding choose_type
  IsQuiet-choose_type = record {
    same = λ s.
        let mdb = or_text (codes "redis") (c.get_string (codes "tair_rdb") (codes "mdb")) in
        elim (Bool-cases (bytes_eq mdb (codes "redis"))) [
          | inl first ↦ rw first refl
          | inr other ↦ elim (Bool-cases (bytes_eq mdb (codes "tair"))) [
            | inl second ↦ rw (other, second) refl
            | inr neither ↦ rw (other, neither) refl
          ]
        ];
  }

  IsQuiet-connect_mdb : IsQuiet (connect_mdb c)
  unfolding connect_mdb init_mdb
  IsQuiet-connect_mdb = record {
    same = λ s.
        (IsQuiet-bind _ _
            (IsQuiet-as_c_text (c.get_string (section_of c s.m_type) (codes "master_addr_port")))
            (λ port.
              IsQuiet-bind _ _
                (IsQuiet-as_string (c.get_string (section_of c s.m_type) (codes "master_addr_ip")))
                (λ ip. record { same = λ v. refl }))).same
          s;
  }

  Starts-open_with :
      (text : Bytes) (o : Option Bool) → c.is_open text ≡ o → Starts (open_with c text o)
  Starts-open_with text none q = record { ends = λ s h. (not_started s h, h) }
  Starts-open_with text (some false) q = record {
    ends = λ s h. (not_started (record s { conn = some text }) h, h);
  }
  Starts-open_with text (some true) q = record { ends = λ s h. ((text, refl, q), refl) }

  Starts-connect_sql : Starts (connect_sql c)
  unfolding connect_sql
  Starts-connect_sql =
      Starts-bind _ _ (IsQuiet-as_c_text (c.get_string (codes "user_map") (codes "pg_database")))
        (λ database.
          Starts-bind _ _ (IsQuiet-as_c_text (c.get_string (codes "user_map") (codes "pg_user")))
            (λ user.
              Starts-bind _ _
                (IsQuiet-as_c_text (c.get_string (codes "user_map") (codes "pg_password")))
                (λ password.
                  Starts-bind _ _
                    (IsQuiet-as_c_text (c.get_string (codes "user_map") (codes "pg_server")))
                    (λ server.
                      Starts-bind _ _ (IsQuiet-hostname_to_ip server)
                        (λ ip. Starts-open_with (conn_text c database user password ip) _ refl)))))

  Starts-start_up : Starts (start_up c)
  unfolding start_up
  Starts-start_up = Starts-bind _ _ IsQuiet-load_config (λ u.
      Starts-bind _ _ (IsQuiet-as_string (c.get_string (codes "tair_rdb") (codes "log_file")))
        (λ file. Starts-bind _ _ IsQuiet-choose_type (λ v. Starts-bind _ _ IsQuiet-connect_mdb (λ w.
          Starts-bind (update c (λ s. record s { locked = false })) (λ z. connect_sql c)
            (record { same = λ s. refl }) (λ z. Starts-connect_sql)))))

  by_flag :
      (b : Bool) (s : Statics)
      → s.b_started ≡ b
      → IsSound c s
      → IsEnd (if b then (done tt, s) else start_up c s)
  by_flag true s q h = (h, q)
  by_flag false s q h = Starts-start_up.ends s q

  -- However `user_map_init` ends, a service that has started has an open SQL connection if that was
  -- so before; and the service has started after the call exactly if the call returned.
  pub user_map_init-IsSound :
      (s : Statics)
      → IsSound c s
      → IsSound c (user_map_init c s).1
        × ((user_map_init c s).1.b_started ≡ is_done (user_map_init c s).0)
  unfolding user_map_init
  user_map_init-IsSound s h = by_flag s.b_started s refl h
