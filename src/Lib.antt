-- ===== src/Lib.antt =====
-- simple_dsp: positions of users in malls, and the advertisements that are shown to them.
--
-- The program keeps everything in a memory database, Redis or Tair, behind one class. user_map.cpp
-- numbers the users by their MAC addresses, stores where they are and logs it, and keeps counters of
-- their visits. ad_map.cpp lets the advertisement groups of a place bid for a user and replies with
-- the best ones. Both also run statements on an SQL server, through a shell command or pqxx.
-- Around them stand receivers of Kafka messages and FastCGI services, which call them, and an older
-- service that keeps its advertisements in a mapped file.
--
-- The files:
--   Base, Text: shared names, integers, lists, and texts as bytes with the conversions of C++.
--   Prog: functions that change a state and may throw, wait for ever or end without `return`.
--   Store: the interface of CBaseMdb.hpp and of `double`, with Store/Contract, which states what the
--     operations of a memory database promise, and Store/Order, which states what `<` and `<=`
--     promise.
--   World: the state that the services share, and their surroundings: database, SQL server, clock,
--     local time and configuration.
--   Keys, Keys/Fields: `get_data_entry` and the dates of tair_common.h.
--   UserMap: user_map.cpp, with its keys (Key), the numbering of users (Identity: `user_get_id`,
--     `user_get_mac`, `user_update`), durations and arrivals (Visits), `user_add` and `user_query`
--     (Position), `user_list` (Listing), MacAddress, Tags, and `user_map_init`
--     with its helpers (Start). Every function has its name; the bodies are cut into parts where
--     they are long.
--   Cron: cron_timing.h, cron_timing.cpp and the macros of bitstring.h that they use.
--   AdMap: ad_map.cpp, with its keys (Key), the sets of groups (Sets), the tests of a group
--     (Filters), `get_eCPM` (Ecpm), the arrays of `bidding` (Slots), charges and clicks (Charge),
--     `bidding` with `ad_request` (Bidding), and `ad_map_init` (Start).
--   Redis, Tair, BaseMdb: redisDB.hpp, tairDB.hpp with the `tair_*` functions of tair_common.h, and
--     CBaseMdb.hpp. Redis/Contract and Tair/Contract state what the server and the client document. The
--     modules Connection have `connect`, `close` and `set_NumDb`, with loadConf.cpp in that of Tair.
--     BaseMdb/Dispatch makes the objects of `CBaseMdb` with a type a memory database.
--   Kafka: the start of a consumer and the loop over its messages, which the three receivers share.
--   Receiver: ap_signal_receiver.cpp, `msg_consume` with its three kinds of messages, and `main`.
--     Text/Scanf has the conversions of its `sscanf`.
--   TagReceiver, PhoneReceiver: `msg_consume` and `main` of user_tag_receiver.cpp and
--     user_phone_receiver.cpp.
--   Sender: the loops of ap_signal_sender.cpp and ap_signal_dock.cpp, a state machine whose steps are
--     the ends of `zmq::poll`.
--   Request, Service: what the FastCGI programs share, the loop over the parameters of a request, and
--     `parseQueryString` with the loop of `main`.
--   UserOp, AdOp, RedisOp: user_op.cpp, ad_op.cpp and redis_op.cpp, each with its loop as `main`.
--   AdRegister, AdRequest: `add_ad`, `print_ad_list` and the loop of `main` (Main) of ad_register.cpp on
--     the data of ad_model.h, `load_shared_data` of init_data.h, and `bidding` of ad_request.cpp.
--   Examples: a memory database and a server in lists, and runs on them.
--
-- How state corresponds: the static variables of user_map.cpp are the fields of `World`; each call of
-- `g_baseMdb` or `g_baseMdb_ad` is one operation of the record `Mdb` on the field `db`, which both
-- share, as both connect to one server. The three arrays of `bidding` are one list of records, since
-- they are read and written together. Integers of the source are integers here, narrowed to 32 bits
-- where the code stores a difference of times in an `int`; the sum of the weights in `get_eCPM` is not
-- narrowed. `double` is a parameter, with the order laws that hold for numbers and leave NaN out.
--
-- Loops are recursion on the list or the number that the source counts; there is no fuel but in
-- the decimal printer of Text, which is given more than the digits of its number.
--
-- Payloads and parameters are texts up to their NUL. What a program reads behind a text, or before it
-- was set, is a field of the message or a parameter; what it writes or reads outside of an array ends
-- the action as `undefined`. A null pointer of the URI library is `none`.
--
-- Not modelled: what the `main` functions of the other programs do before their loops (sockets, FastCGI, files),
-- logging, hiredis, the tair client, the JSON and URI libraries, and the order of the map that HGETALL
-- fills. `zrange` of redis_op.cpp is a parameter, since RedisDb does not have it, and `ad_request` of
-- ad_request.cpp uses a member that ad_model.h does not have; robot_commander.cpp is a test program of
-- random walks that connects to no database. Other processes do not change the mapped file between
-- the steps of one, and `load_shared_data` has opened the file and read its head.
pub mod Base
pub mod Text
pub mod Prog
pub mod Store
pub mod World
pub mod Keys
pub mod UserMap
pub mod Cron
pub mod AdMap
pub mod Redis
pub mod Tair
pub mod BaseMdb
pub mod Kafka
pub mod Receiver
pub mod TagReceiver
pub mod PhoneReceiver
pub mod Sender
pub mod Request
pub mod Service
pub mod RedisOp
pub mod UserOp
pub mod AdOp
pub mod AdRegister
pub mod AdRequest
pub mod Examples
