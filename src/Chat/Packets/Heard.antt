-- ===== src/Chat/Packets/Heard.antt =====
-- Who gets a message: the loops at the end of `PacketProcMessage`.
use iocp_model_server.Base.{ℕ, ◌+◌, ◌≤◌, ◌≢◌, List, [], ◌∷◌, ◌++◌, map}
use iocp_model_server.Packet.{Packet}
use iocp_model_server.Chat.{Player, Chat, invalid_sector}
use iocp_model_server.Chat.Sectors.Placed.{Live}

-- What the lists of a family hold, one list after the other.
abbrev pub gather : (ℕ → List ℕ) → List ℕ → List ℕ
gather f [] = []
gather f (x ∷ xs) = f x ++ gather f xs

-- Next to each other, or the same.
abbrev pub Near : ℕ → ℕ → Type 0
Near a b = (a ≤ b + 1) × (b ≤ a + 1)

-- The players in the sectors of some rows and columns.
abbrev pub hearers : Chat → List ℕ → List ℕ → List ℕ
hearers s ys xs = gather (λ y. gather (s.sectors y) xs) ys

-- Packets for the sessions of the players `ts`.
abbrev pub told : Chat → Packet → List ℕ → List (ℕ × Packet)
told s packet ts = map (λ t. ((s.heap t).session_id, packet)) ts

-- A state with more packets sent.
abbrev tell : Chat → Packet → List ℕ → Chat
tell s packet ts = record s { sent = s.sent ++ told s packet ts }

-- The players that a message of `q` is for: connected, in a sector, and at most one row and one
-- column away.
abbrev pub Hears : Chat → Player → ℕ → Type 0
Hears s q t =
    Live s t
    × ((s.heap t).sector_x ≢ invalid_sector)
    × Near (s.heap t).sector_x q.sector_x
    × Near (s.heap t).sector_y q.sector_y
