-- ===== src/Sender.antt =====
-- ap_signal_sender.cpp: a client that numbers its requests and sends each up to three times, and
-- ap_signal_dock.cpp: the server that sends each request back.
pub mod Invariant
pub mod Silence
pub mod Dock
use simple_dsp.Base.{
  ℕ, suc, ◌-◌, Bool, List, [], ◌∷◌, ℤ, pos, ◌+ℤ◌, eqb_ℤ, to_int32, ◌==◌, if◌then◌else◌,
}
use simple_dsp.Text.{Bytes, show_int, atoi, c_str}

-- What `zmq::poll` ends with: a reply that can be received, or the timeout.
pub data Poll : Type 0 where
  replied : Bytes → Poll
  timed_out : Poll

-- The client stands in the inner loop, or behind both loops.
pub data Phase : Type 0 where
  waiting : Phase
  over : Phase

-- The variables of `main`, the messages that were sent, the newest first, and the number of sockets
-- that were opened. `retries_left` is an `int` that is counted down from a positive number only.
pub record Sender : Type 0 where
  pub sequence : ℤ
  pub retries_left : ℕ
  pub sent : List Bytes
  pub connections : ℕ
  pub phase : Phase

abbrev pub request_retries : ℕ
request_retries = 3

abbrev pub s_send : Bytes → Sender → Sender
s_send string s = record s { sent = string ∷ s.sent }

-- A socket is counted; the old one is deleted before.
abbrev pub s_client_socket : Sender → Sender
s_client_socket s = record s { connections = suc s.connections }

-- The head of the outer loop: its test, and the next request.
unfoldable pub next_request : Sender → Sender
next_request s =
    let n = to_int32 (s.sequence +ℤ pos 1) in
    if s.retries_left == 0
    then record s { phase = over }
    else s_send (show_int n) (record s { sequence = n; phase = waiting })

unfoldable pub on_reply : Bytes → Sender → Sender
on_reply reply s =
    if eqb_ℤ (atoi (c_str reply)) s.sequence
    then next_request (record s { retries_left = request_retries })
    else s

unfoldable pub on_timeout : Sender → Sender
on_timeout s =
    let left = s.retries_left - 1 in
    if left == 0
    then next_request (record s { retries_left = left })
    else s_send (show_int s.sequence) (s_client_socket (record s { retries_left = left }))

-- A round of the inner loop.
unfoldable pub on_poll : Poll → Sender → Sender
on_poll (replied reply) s = on_reply reply s
on_poll timed_out s = on_timeout s

abbrev pub if_waiting : Phase → (Sender → Sender) → Sender → Sender
if_waiting waiting f s = f s
if_waiting over f s = s

-- `main` on what its polls end with.
unfoldable pub run : List Poll → Sender → Sender
run [] s = s
run (p ∷ ps) s = run ps (if_waiting s.phase (on_poll p) s)

unfoldable pub start : Sender
start = next_request (
    s_client_socket (record {
      sequence = pos 0;
      retries_left = request_retries;
      sent = [];
      connections = 0;
      phase = waiting;
    }))

-- The body of the loop of ap_signal_dock.cpp: the reply to a request.
unfoldable pub serve : Bytes → Bytes
serve request = request

abbrev pub newest : List Bytes → Bytes
newest [] = []
newest (x ∷ xs) = x

-- The two programs together: each poll brings the server's reply in time, or does not.
unfoldable pub with_server : List Bool → Sender → Sender
with_server [] s = s
with_server (arrives ∷ rest) s = with_server rest (
    if_waiting s.phase (on_poll (if arrives then replied (serve (newest s.sent)) else timed_out)) s)
