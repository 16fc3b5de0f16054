-- ===== src/Chat/Sectors/Enter.antt =====
-- Moving a player from one sector to another.
use iocp_model_server.Base.{
  ℕ, ◌<◌, ◌≡◌, ◌≢◌, refl, sym, ◌∙◌, ap, ap₂, Option, none, some, ◌==◌, arith, Bool-cases, inl, inr,
  set_same,
}
use iocp_model_server.Chat.{Chat, invalid_sector}
use iocp_model_server.Chat.Sectors.{enter_sector, leave_if_placed, change_sector}
use iocp_model_server.Chat.Sectors.Placed.{Live, IsPlaced, some-inj}
use iocp_model_server.Chat.Sectors.Leave.{Kept, Left, leave_sector-Left}
use iocp_model_server.Chat.Sectors.Added.{new, entered, itself, entered-IsPlaced}

-- A player that stands in no sector is in no vector.
outside-IsPlaced :
    {s : Chat} (p : ℕ)
    → IsPlaced none s
    → (s.heap p).sector_x ≡ invalid_sector
    → IsPlaced (some p) s
outside-IsPlaced {s} p w out = record {
  sessions = w.sessions;
  placed = λ r live inside ne. w.placed r live inside (λ e. absurd (ground arith));
  listed = λ y x i r e.
      let (live, _, rx, ry, ri, hx, hy) = w.listed y x i r e in
      (live, λ same. outside r x (some-inj _ _ same) rx hx refl, rx, ry, ri, hx, hy);
}
  where
    outside : (r x : ℕ) → r ≡ p → (s.heap r).sector_x ≡ x → x < 50 → some r ≢ some r
    outside r x same rx hx =
        let far : x ≡ invalid_sector = sym rx ∙ ap (λ v. (s.heap v).sector_x) same ∙ out in
        absurd (omega arith)

-- After `leave_if_placed` a player is in no vector.
pub leave_if_placed-Left :
    {s : Chat} (p : ℕ) → IsPlaced none s → Live s p → Left p s (leave_if_placed p s)
unfolding leave_if_placed
leave_if_placed-Left {s} p w live = elim (Bool-cases ((s.heap p).sector_x == invalid_sector)) [
  | inl out ↦ record {
    state = s;
    result = rw out refl;
    is_placed = outside-IsPlaced p w (ground arith);
    kept = record {
      session_map = refl;
      account_map = refl;
      players = λ r. record {
        session_id = refl;
        account_no = refl;
        is_login = refl;
        id = refl;
        nickname = refl;
      };
    };
  }
  | inr inside ↦
      let left = leave_sector-Left p w live (ground arith) in
      record {
        state = left.state;
        result = rw inside left.result;
        is_placed = left.is_placed;
        kept = left.kept;
      }
]

pub Kept-Live : {s s' : Chat} → Kept s s' → (r : ℕ) → Live s r → Live s' r
Kept-Live k r live = ap₂ (λ f i. f i) k.session_map (k.players r).session_id ∙ live

pub record Changed (p x y : ℕ) (s : Chat) (o : Option Chat) : Type 0 where
  pub state : Chat
  pub result : o ≡ some state
  pub is_placed : IsPlaced none state
  pub kept : Kept s state
  pub at_x : (state.heap p).sector_x ≡ x
  pub at_y : (state.heap p).sector_y ≡ y

entered-Kept :
    {s t : Chat} (p x y : ℕ) (w : IsPlaced (some p) t) (live : Live t p) (hx : x < 50) (hy : y < 50)
    → Kept s t
    → Kept s (entered p x y w live hx hy)
unfolding entered new
entered-Kept {s} {t} p x y w live hx hy k = record {
  session_map = k.session_map;
  account_map = k.account_map;
  players = λ r. record {
    session_id = set_same (λ q. q.session_id) t.heap p _ refl r ∙ (k.players r).session_id;
    account_no = set_same (λ q. q.account_no) t.heap p _ refl r ∙ (k.players r).account_no;
    is_login = set_same (λ q. q.is_login) t.heap p _ refl r ∙ (k.players r).is_login;
    id = set_same (λ q. q.id) t.heap p _ refl r ∙ (k.players r).id;
    nickname = set_same (λ q. q.nickname) t.heap p _ refl r ∙ (k.players r).nickname;
  };
}

-- A live player moves to any sector of the map without a fault: the vectors and the players' places
-- agree again, and who is connected and logged in is as before.
pub change_sector-Changed :
    {s : Chat} (p x y : ℕ)
    → IsPlaced none s
    → Live s p
    → x < 50
    → y < 50
    → Changed p x y s (change_sector p x y s)
unfolding change_sector enter_sector entered new
change_sector-Changed p x y w live hx hy =
    let left = leave_if_placed-Left p w live in
    let live' = Kept-Live left.kept p live in
    let here = itself p x y left.is_placed live' hx hy in
    record {
      state = entered p x y left.is_placed live' hx hy;
      result = rw left.result refl;
      is_placed = entered-IsPlaced p x y left.is_placed live' hx hy;
      kept = entered-Kept p x y left.is_placed live' hx hy left.kept;
      at_x = ap (λ q. q.sector_x) here;
      at_y = ap (λ q. q.sector_y) here;
    }
