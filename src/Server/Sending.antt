-- ===== src/Server/Sending.antt =====
-- NetworkLibrary/CNetServer/CNetServer/CNetServer.cpp, `SendPacket`, `SendPost` and `SendProc`: at most
-- one send of a session is under way, and `isSending` says whether there is one.
-- A step is one access of a thread to what the threads share; other threads may run between two
-- steps. Next to the fields the state counts the threads that stand at each point of the code. The
-- queue is a parameter of the code here: its calls take effect at once, first in, first out.
pub mod Order
mod Tests
use iocp_model_server.Base.{
  ℕ, ◌+◌, ◌-◌, ◌<◌, ◌≤◌, ◌≡◌, ◌⊎◌, Bool, true, false, List, [], ◌∷◌, ◌++◌, ltb, if◌then◌else◌,
  length,
}

-- `MAX_SEND_PACKET`
abbrev pub max_send_packet : ℕ
max_send_packet = 100

-- `send_q`, `sending_packets` (as far as it is filled) and `is_sending` are fields of `Session`;
-- `queued` and `sent` are all packets that were put in the queue and all whose send was completed.
-- The threads: `entering` at the head of the loop of `SendPost`, `checking` before its test of the
-- size, `clearing` after it, `rechecking` before the second test, `filling` in the loop that fills
-- the array, `completing` in `SendProc` before the flag is cleared. `posted` sends are with the
-- system, and `failed` ones will not be completed.
pub record Sender : Type 0 where
  pub send_q : List ℕ
  pub sending_packets : List ℕ
  pub is_sending : Bool
  pub queued : List ℕ
  pub sent : List ℕ
  pub entering : ℕ
  pub checking : ℕ
  pub clearing : ℕ
  pub rechecking : ℕ
  pub filling : ℕ
  pub posted : ℕ
  pub failed : ℕ
  pub completing : ℕ

-- `Session::Init`, with an empty queue.
abbrev pub start : Sender
start = record {
  send_q = [];
  sending_packets = [];
  is_sending = false;
  queued = [];
  sent = [];
  entering = 0;
  checking = 0;
  clearing = 0;
  rechecking = 0;
  filling = 0;
  posted = 0;
  failed = 0;
  completing = 0;
}

-- `SendPacket`, up to its call of `SendPost`.
unfoldable pub enqueue_packet : ℕ → Sender → Sender
enqueue_packet packet s = record s {
  send_q = s.send_q ++ packet ∷ [];
  queued = s.queued ++ packet ∷ [];
  entering = s.entering + 1;
}

-- The first `InterlockedExchange` of the loop, and the return of a thread that finds the flag set.
unfoldable pub raise_flag : Sender → Sender
raise_flag s =
    if s.is_sending
    then record s { entering = s.entering - 1 }
    else record s { is_sending = true; entering = s.entering - 1; checking = s.checking + 1 }

-- `GetSize() > 0`
unfoldable pub check_size : Sender → Sender
check_size s =
    if ltb 0 (length s.send_q)
    then record s { checking = s.checking - 1; filling = s.filling + 1 }
    else record s { checking = s.checking - 1; clearing = s.clearing + 1 }

unfoldable pub clear_flag : Sender → Sender
clear_flag s = record s {
  is_sending = false;
  clearing = s.clearing - 1;
  rechecking = s.rechecking + 1;
}

-- `GetSize() == 0`
unfoldable pub recheck_size : Sender → Sender
recheck_size s =
    if ltb 0 (length s.send_q)
    then record s { rechecking = s.rechecking - 1; entering = s.entering + 1 }
    else record s { rechecking = s.rechecking - 1 }

-- A round of the loop that fills `sendingPackets`, or `WSASend` after its end; `accepted` says
-- whether the system takes the send.
unfoldable pub post : Bool → Sender → Sender
post true s = record s { filling = s.filling - 1; posted = s.posted + 1 }
post false s = record s { filling = s.filling - 1; failed = s.failed + 1 }

unfoldable pub fill_with : List ℕ → Bool → Sender → Sender
fill_with [] accepted s = post accepted s
fill_with (packet ∷ rest) accepted s = record s {
  send_q = rest;
  sending_packets = s.sending_packets ++ packet ∷ [];
}

unfoldable pub fill : Bool → Sender → Sender
fill accepted s =
    if ltb (length s.sending_packets) max_send_packet
    then fill_with s.send_q accepted s
    else post accepted s

-- `SendProc`: the packets are given back, the flag is cleared, and `SendPost` begins.
unfoldable pub free_sent : Sender → Sender
free_sent s = record s {
  sent = s.sent ++ s.sending_packets;
  sending_packets = [];
  posted = s.posted - 1;
  completing = s.completing + 1;
}

unfoldable pub end_send : Sender → Sender
end_send s = record s {
  is_sending = false;
  completing = s.completing - 1;
  entering = s.entering + 1;
}

-- The system reports that a send has failed, and the worker thread gives the session back.
unfoldable pub lose_send : Sender → Sender
lose_send s = record s { posted = s.posted - 1; failed = s.failed + 1 }

pub data Step (s : Sender) : Sender → Type 0 where
  enqueues : (packet : ℕ) → Step s (enqueue_packet packet s)
  raises : 0 < s.entering → Step s (raise_flag s)
  checks : 0 < s.checking → Step s (check_size s)
  clears : 0 < s.clearing → Step s (clear_flag s)
  rechecks : 0 < s.rechecking → Step s (recheck_size s)
  fills : (accepted : Bool) → 0 < s.filling → Step s (fill accepted s)
  frees : 0 < s.posted → Step s (free_sent s)
  ends : 0 < s.completing → Step s (end_send s)
  loses : 0 < s.posted → Step s (lose_send s)

pub data Reach : Sender → Type 0 where
  initially : Reach start
  later : {s t : Sender} → Reach s → Step s t → Reach t
