-- ===== src/Kafka.antt =====
-- What the receivers share: the start of a Kafka consumer in `main` and the loop behind it.
use simple_dsp.Base.{ℕ, Bool, true, false, List, [], ◌∷◌, if◌then◌else◌, ℤ, pos, not}
use simple_dsp.Text.{Bytes, codes}
use simple_dsp.Prog.{Prog, pure, ◌>>=◌}

-- The Kafka library: whether the consumer is created with these settings, the topic with its settings,
-- and the consumer started at an offset of a partition; then what `consume` gives, call by call.
pub record Broker (M : Type 0) : Type 0 where
  pub creates_consumer : List (Bytes × Bytes) → Bool
  pub creates_topic : Bytes → List (Bytes × Bytes) → Bool
  pub starts : Bytes → ℤ → ℤ → Bool
  pub offset_beginning : ℤ
  pub offset_end : ℤ
  pub messages : List M

-- `exit(n)` or the return of `main`; `waits` where the messages are used up and the loop goes on.
pub data Status : Type 0 where
  exits : ℕ → Status
  waits : Status

abbrev pub conf_settings : Bytes → List (Bytes × Bytes)
conf_settings client_id =
    (codes "client.id", client_id)
    ∷ (codes "metadata.broker.list", codes "kafka")
    ∷ (codes "group.id", codes "tair-rdb-group1")
    ∷ []

abbrev pub tconf_settings : List (Bytes × Bytes)
tconf_settings =
    (codes "auto.commit.enable", codes "true") ∷ (codes "auto.commit.interval.ms", codes "200") ∷ []

module _ {S M : Type 0} (msg_consume : M → Bool → Prog S Bool) where
  -- `while (run)`, on the messages that `consume` gives: the value of `run` and the messages that are
  -- left over.
  unfoldable pub consume_while : Bool → List M → Prog S (Bool × List M)
  consume_while run [] = pure (run, [])
  consume_while run (m ∷ ms) =
      if run then (do again ← msg_consume m run; consume_while again ms) else pure (false, m ∷ ms)

  abbrev pub status_of : Bool → Status
  status_of true = waits
  status_of false = exits 0

  -- `main`, with the client's id, the topic's name and the offset; the partition is 0. The calls of `poll`
  -- and `stop` give nothing that is used.
  unfoldable pub run_consumer : Broker M → Bytes → Bytes → ℤ → Prog S Status
  run_consumer b client_id s_topic start_offset =
      if not (b.creates_consumer (conf_settings client_id))
      then pure (exits 1)
      else if not (b.creates_topic s_topic tconf_settings)
      then pure (exits 1)
      else if not (b.starts s_topic (pos 0) start_offset)
      then pure (exits 1)
      else (do ended ← consume_while true b.messages; pure (status_of ended.0))
