-- ===== src/UserMap/Start.antt =====
-- user_map.cpp: `user_map_init` and its helpers.
pub mod Letters
pub mod Sound
use Prim.Native.Nat.{bit_xor}
use simple_dsp.Base.{
  ℕ, zero, suc, ◌%◌, Bool, true, false, List, [], ◌∷◌, ◌++◌, Option, none, some, get_elem?,
  if◌then◌else◌, ℤ, pos,
}
use simple_dsp.Text.{Bytes, codes, bytes_eq, atoi}
use simple_dsp.Prog.{Prog, Outcome, done, throws, blocks, undefined, pure, ◌>>=◌, ◌>>◌}
use simple_dsp.BaseMdb.{TypeDb, redis, tair}

-- The configuration file, the resolver and the SQL client. A string that is missing and has no default
-- is a null pointer. `resolve` gives the addresses of a host as texts, in their order, and `is_open`
-- opens a connection: `none` for an exception. `init_db` is how `initDb` of the chosen database ends.
pub record Surroundings : Type 0 where
  pub get_string : Bytes → Bytes → Option Bytes
  pub get_int : Bytes → Bytes → ℤ → ℤ
  pub resolve : Bytes → Option (List Bytes)
  pub unset_ip : Bytes
  pub is_open : Bytes → Option Bool
  pub init_db : TypeDb → Bytes → ℤ → Outcome Bool

-- The static variables: what `set_TypeDb` chose, the databases that were connected, the newest first,
-- the mutex, the SQL connection with the text it was opened by, and the numbers of the configuration;
-- its texts are read where they are used.
pub record Statics : Type 0 where
  pub b_started : Bool
  pub m_type : TypeDb
  pub connected : List (TypeDb × Bytes × ℤ)
  pub locked : Bool
  pub conn : Option Bytes
  pub check_vip : ℤ
  pub time_slice : ℤ
  pub max_duration_gap : ℤ
  pub max_in_shop_gap : ℤ

abbrev pub or_text : Bytes → Option Bytes → Bytes
or_text default none = default
or_text default (some s) = s

-- `strcpy` of each address in turn, so the last one stays; none leaves the array unset.
unfoldable pub last_of : Bytes → List Bytes → Bytes
last_of ip [] = ip
last_of ip (a ∷ rest) = last_of a rest

-- `chars` of `uuid`
abbrev pub chars : Bytes
chars = codes "0123456789ABCDEFGHIJKLMNOPQRSTUVWXYZabcdefghijklmnopqrstuvwxyz"

-- `stream << c`, before what the later rounds write; `none` is a read outside the table.
abbrev pub write_char : Option ℕ → Outcome Bytes → Outcome Bytes
write_char none rest = undefined
write_char (some c) (done s) = done (c ∷ s)
write_char (some c) rest = rest

-- The loop of `uuid` with `n` rounds left; `rand k` is what the call number `k` of `rand()` gives.
unfoldable pub uuid_from : (ℕ → ℕ) → ℕ → ℕ → ℕ → Outcome Bytes
uuid_from rand zero k factor = done []
uuid_from rand (suc n) k factor =
    let next = bit_xor factor (rand k % 256) % 256 in
    let rest = uuid_from rand n (suc k) next in write_char (get_elem? chars (next % 62)) rest

unfoldable pub uuid : (ℕ → ℕ) → Outcome Bytes
uuid rand = uuid_from rand 20 0 0

module _ (c : Surroundings) where
  -- A value that must not be a null pointer: as a `std::string`, and as a C text.
  abbrev pub as_string : Option Bytes → Prog Statics Bytes
  as_string none s = (throws, s)
  as_string (some t) s = (done t, s)

  abbrev pub as_c_text : Option Bytes → Prog Statics Bytes
  as_c_text none s = (undefined, s)
  as_c_text (some t) s = (done t, s)

  unfoldable pub hostname_to_ip : Bytes → Prog Statics Bytes
  hostname_to_ip hostname s = (
    elim (c.resolve hostname) [
      | none ↦ throws
      | some addr_list ↦ done (last_of c.unset_ip addr_list)
    ],
    s,
  )

  abbrev pub update : (Statics → Statics) → Prog Statics (Unit {0})
  update f s = (done tt, f s)

  unfoldable pub load_config : Statics → Statics
  load_config s = record s {
    time_slice = c.get_int (codes "tair_rdb") (codes "time_slice") (pos 10);
    max_duration_gap = c.get_int (codes "user_map") (codes "max_duration_gap") (pos 120);
    max_in_shop_gap = c.get_int (codes "user_map") (codes "max_in_shop_gap") (pos 300);
    check_vip = c.get_int (codes "tair_rdb") (codes "check_vip") (pos 1);
  }

  -- Another name than the two leaves the choice as it is.
  unfoldable pub choose_type : Statics → Statics
  choose_type s =
      let mdb = or_text (codes "redis") (c.get_string (codes "tair_rdb") (codes "mdb")) in
      if bytes_eq mdb (codes "redis")
      then record s { m_type = redis }
      else if bytes_eq mdb (codes "tair")
      then record s { m_type = tair }
      else s

  abbrev pub section_of : TypeDb → Bytes
  section_of redis = codes "redis_rdb"
  section_of tair = codes "tair_rdb"

  -- The end of a call whose result is not looked at.
  abbrev pub dropped : Outcome Bool → Outcome (Unit {0})
  dropped (done b) = done tt
  dropped throws = throws
  dropped blocks = blocks
  dropped undefined = undefined

  -- `g_baseMdb.initDb(std::string(master_addr_ip),port)`
  unfoldable pub init_mdb : Bytes → ℤ → Prog Statics (Unit {0})
  init_mdb ip port s = (
    dropped (c.init_db s.m_type ip port),
    record s { connected = (s.m_type, ip, port) ∷ s.connected },
  )

  -- `initDb` for the type that was chosen.
  unfoldable pub connect_mdb : Prog Statics (Unit {0})
  connect_mdb s =
      let section = section_of s.m_type in
      (do
        port ← as_c_text (c.get_string section (codes "master_addr_port"))
        ip ← as_string (c.get_string section (codes "master_addr_ip"))
        init_mdb ip (atoi port))
        s

  unfoldable pub conn_text : Bytes → Bytes → Bytes → Bytes → Bytes
  conn_text database user password ip =
      codes "dbname="
      ++ (database
          ++ (codes " user="
              ++ (user
                  ++ (codes " password="
                      ++ (password ++ (codes " hostaddr=" ++ (ip ++ codes " port=5432")))))))

  -- `conn` is set where no exception comes, also to a connection that is not open.
  abbrev pub open_with : Bytes → Option Bool → Prog Statics (Unit {0})
  open_with text none s = (throws, s)
  open_with text (some false) s = (throws, record s { conn = some text })
  open_with text (some true) s = (done tt, record s { conn = some text; b_started = true })

  unfoldable pub connect_sql : Prog Statics (Unit {0})
  connect_sql = do
    database ← as_c_text (c.get_string (codes "user_map") (codes "pg_database"))
    user ← as_c_text (c.get_string (codes "user_map") (codes "pg_user"))
    password ← as_c_text (c.get_string (codes "user_map") (codes "pg_password"))
    server ← as_c_text (c.get_string (codes "user_map") (codes "pg_server"))
    ip ← hostname_to_ip server
    let text = conn_text database user password ip
    open_with text (c.is_open text)

  unfoldable pub start_up : Prog Statics (Unit {0})
  start_up = do
    update load_config
    tb_log_file ← as_string (c.get_string (codes "tair_rdb") (codes "log_file"))
    update choose_type
    connect_mdb
    update (λ s. record s { locked = false })
    connect_sql

  unfoldable pub user_map_init : Prog Statics (Unit {0})
  user_map_init s = if s.b_started then (done tt, s) else start_up s
