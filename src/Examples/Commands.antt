-- ===== src/Examples/Commands.antt =====
-- A server for the commands of redisDB.hpp that keeps texts in a list.
use simple_dsp.Base.{
  ◌≡◌, refl, inl, List, [], ◌∷◌, ◌++◌, Option, none, some, pos, negsuc, ◌==◌, take, drop,
  if◌then◌else◌, arith,
}
use simple_dsp.Text.{Bytes, codes, bytes_eq, take_word}
use simple_dsp.Store.{Ty, Val, int, ull, time, double, string}
use simple_dsp.Store.Contract.{IsStore, IsKey}
use simple_dsp.Keys.Fields.{show_int-IsKey}
use simple_dsp.Redis.{
  Server, Reply, FormatArg, str, num, nil, error, status, integer, string_reply, redis_mdb,
}
use simple_dsp.Redis.Store.{word}
use simple_dsp.Redis.Contract.{IsServer, ShowsWords, show_int-nonempty, redis_mdb-IsStore}
use simple_dsp.Examples.Memory.{whole, Table, look, look_self, look_ne}

-- The text behind the first space.
abbrev after_word : Bytes → Bytes
after_word [] = []
after_word (c ∷ cs) = let rest = after_word cs in if c == 32 then cs else rest

after : (x rest : Bytes) → IsKey x → after_word (x ++ (32 ∷ rest)) ≡ rest
after [] rest h = refl
after (c ∷ x) rest h = let q = after x rest h.1 in ground (arith, h.0)

abbrev reply_of : Option Bytes → Option Reply
reply_of none = some nil
reply_of (some v) = some (string_reply v)

abbrev run_line : Bytes → Table Bytes → Option Reply × Table Bytes
run_line f s =
    if bytes_eq (take 4 f) (codes "SET ")
    then (some (status (codes "OK")), (take_word (drop 4 f), after_word (drop 4 f)) ∷ s)
    else (some (integer (pos 1)), s)

abbrev run_format : FormatArg → Bytes → Table Bytes → Option Reply × Table Bytes
run_format (str k) f s =
    if bytes_eq f (codes "GET %s") then (reply_of (look k s), s) else (some (integer (pos 1)), s)
run_format (num n) f s = (some (error []), s)

abbrev run : Bytes → List FormatArg → Table Bytes → Option Reply × Table Bytes
run f [] s = run_line f s
run f (a ∷ args) s = run_format a f s

abbrev unset_value : (t : Ty) → Val whole t
unset_value int = negsuc 0
unset_value ull = 7
unset_value time = negsuc 0
unset_value double = negsuc 0
unset_value string = []

abbrev pub texts : Server whole
texts = record { State = Table Bytes; command = run; stale = λ r. pos 0; unset = unset_value }

pub texts-IsServer : IsServer whole texts
unfolding bytes_eq
texts-IsServer = record {
  data_of = λ s k. look k s;
  get_some = λ k v s g q. rw q refl;
  get_none = λ k s g q. inl (rw q refl);
  data-get = λ k j s g. refl;
  data-set = λ k v s g f b n. rw (word whole texts k v g, after k v g) (look_self k v s);
  data-set_ne = λ k v j s g b n. rw (word whole texts k v g, after k v g) (look_ne k j v s n);
  data-zadd = λ k x v j s g a b. refl;
  data-sadd = λ k v j s g b. refl;
  data-smembers = λ k j s g. refl;
  data-incrby_ne = λ k j n s g q. refl;
}

pub whole-ShowsWords : ShowsWords whole
whole-ShowsWords = record { plain = show_int-IsKey; nonempty = show_int-nonempty }

redis_mdb-IsStore_example : IsStore whole (redis_mdb whole texts)
redis_mdb-IsStore_example = redis_mdb-IsStore whole texts texts-IsServer whole-ShowsWords
