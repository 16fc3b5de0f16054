-- ===== src/Chat/Reach.antt =====
-- The states that the contents thread comes to: `ContentsThreadMain` handles jobs and looks for
-- sessions that are late, in any order.
use iocp_model_server.Base.{
  ℕ, ◌≡◌, sym, ◌∙◌, subst, false, List, [], Option, none, some, length, arith,
}
use iocp_model_server.Chat.{Player, Chat, check_timeout}
use iocp_model_server.Chat.Sectors.Vector.{get_elem?}
use iocp_model_server.Chat.Sectors.Release.{IsValid, Safe}
use iocp_model_server.Chat.Sectors.Unmoved.{check_timeout-IsValid}
use iocp_model_server.Chat.Packets.{Env, Job, handle_job}
use iocp_model_server.Chat.Packets.Safety.{IsReady}
use iocp_model_server.Chat.Packets.Jobs.{Promised, handle_job-Safe}

-- The server before its first job; `heap` is the memory of the player pool.
abbrev pub initial : (ℕ → Player) → Chat
initial heap = record {
  heap = heap;
  session_map = λ k. none;
  account_map = λ k. none;
  sectors = λ y x. [];
  sent = [];
  disconnects = [];
  stopped = false;
}

pub data Reach : Chat → Type 0 where
  start :
      (heap : ℕ → Player)
      → ((r : ℕ) → length (heap r).id ≡ 40)
      → ((r : ℕ) → length (heap r).nickname ≡ 40)
      → Reach (initial heap)
  handle :
      (env : Env) (job : Job) {s t : Chat}
      → Reach s
      → s.stopped ≡ false
      → IsReady env
      → Promised env job s
      → handle_job env job s ≡ some t
      → Reach t
  timeout : (now : ℕ) (ks : List ℕ) {s : Chat} → Reach s → Reach (check_timeout now ks s)

pub initial-IsValid :
    (heap : ℕ → Player)
    → ((r : ℕ) → length (heap r).id ≡ 40)
    → ((r : ℕ) → length (heap r).nickname ≡ 40)
    → IsValid (initial heap)
unfolding get_elem?
initial-IsValid heap id nickname = record {
  is_placed = record {
    sessions = λ k p e. absurd (ground arith);
    placed = λ p live inside ne. absurd (ground arith);
    listed = λ y x i p e. absurd (ground arith);
  };
  has_accounts = record {
    live = λ a p e. absurd (ground arith);
    login = λ a p e. absurd (ground arith);
    account_no = λ a p e. absurd (ground arith);
  };
  has_names = record { id = id; nickname = nickname };
}

some-same : (s t : Chat) → some s ≡ some t → s ≡ t
some-same s t e = ground arith

handled-IsValid : {t : Chat} {o : Option Chat} → Safe o → o ≡ some t → IsValid t
handled-IsValid {t = t} safe e =
    subst (λ z. IsValid z) (some-same safe.state t (sym safe.result ∙ e)) safe.is_valid

-- In every state that the contents thread comes to, the maps, the sectors and the players agree.
pub Reach-IsValid : {s : Chat} → Reach s → IsValid s
Reach-IsValid (start heap id nickname) = initial-IsValid heap id nickname
Reach-IsValid (handle env job r on ready promised e) =
    handled-IsValid (handle_job-Safe env job (Reach-IsValid r) ready promised) e
Reach-IsValid (timeout now ks r) = check_timeout-IsValid now ks (Reach-IsValid r)
