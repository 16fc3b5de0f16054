-- ===== src/Chat/Sectors/Unmoved.antt =====
-- Steps that leave everyone where they are: `DisconnectPlayer`, `CheckTimeout`, and what the handlers
-- write into a player's other fields.
use iocp_model_server.Base.{
  ℕ, ◌≡◌, refl, sym, ◌∙◌, ap, ap₂, true, Option, List, none, some, ◌∷◌, [], Bool-cases, inl, inr,
  length, set, set_same,
}
use iocp_model_server.Chat.{Player, Chat, disconnect_player, check_player, check_timeout, is_late}
use iocp_model_server.Chat.Sectors.Vector.{get_elem?}
use iocp_model_server.Chat.Sectors.Placed.{Live, IsPlaced}
use iocp_model_server.Chat.Sectors.Release.{HasNames, IsValid}

-- A player's session and place.
pub record SamePlace (p q : Player) : Type 0 where
  pub session_id : p.session_id ≡ q.session_id
  pub sector_x : p.sector_x ≡ q.sector_x
  pub sector_y : p.sector_y ≡ q.sector_y
  pub sector_index : p.sector_index ≡ q.sector_index

pub record Unmoved (s s' : Chat) : Type 0 where
  pub session_map : s'.session_map ≡ s.session_map
  pub sectors : s'.sectors ≡ s.sectors
  pub players : (r : ℕ) → SamePlace (s'.heap r) (s.heap r)

pub Unmoved-Live : {s s' : Chat} → Unmoved s s' → (r : ℕ) → Live s r → Live s' r
Unmoved-Live u r live = ap₂ (λ f i. f i) u.session_map (u.players r).session_id ∙ live

was_Live : {s s' : Chat} → Unmoved s s' → (r : ℕ) → Live s' r → Live s r
was_Live u r live = ap₂ (λ f i. f i) (sym u.session_map) (sym (u.players r).session_id) ∙ live

at_place :
    {p q : Player} (f g : ℕ → ℕ → List ℕ) (r : ℕ)
    → SamePlace p q
    → f ≡ g
    → get_elem? (g q.sector_y q.sector_x) q.sector_index ≡ some r
    → get_elem? (f p.sector_y p.sector_x) p.sector_index ≡ some r
at_place f g r same e at = rw (e, same.sector_x, same.sector_y, same.sector_index) at

pub Unmoved-IsPlaced : {s s' : Chat} → Unmoved s s' → IsPlaced none s → IsPlaced none s'
Unmoved-IsPlaced {s} {s'} u w = record {
  sessions =
      λ k r e. (u.players r).session_id ∙ w.sessions k r (ap (λ f. f k) (sym u.session_map) ∙ e);
  placed = λ r live inside ne.
      at_place s'.sectors s.sectors r (u.players r) u.sectors
        (w.placed r (was_Live u r live) (λ e. inside ((u.players r).sector_x ∙ e)) ne);
  listed = λ y x i r e.
      let (live, ne, rx, ry, ri, hx, hy) =
        w.listed y x i r (ap (λ f. get_elem? (f y x) i) (sym u.sectors) ∙ e) in
      let same = u.players r in
      (
        Unmoved-Live u r live,
        ne,
        same.sector_x ∙ rx,
        same.sector_y ∙ ry,
        same.sector_index ∙ ri,
        hx,
        hy,
      );
}

-- A write to one player that does not touch its session and place.
pub set-Unmoved :
    {s s' : Chat} (p : ℕ) (q : Player)
    → SamePlace q (s.heap p)
    → s'.heap ≡ set s.heap p q
    → s'.session_map ≡ s.session_map
    → s'.sectors ≡ s.sectors
    → Unmoved s s'
set-Unmoved {s} {s'} p q same e maps sectors = record {
  session_map = maps;
  sectors = sectors;
  players = λ r. record {
    session_id =
        ap (λ h. (h r).session_id) e ∙ set_same (λ v. v.session_id) s.heap p q same.session_id r;
    sector_x = ap (λ h. (h r).sector_x) e ∙ set_same (λ v. v.sector_x) s.heap p q same.sector_x r;
    sector_y = ap (λ h. (h r).sector_y) e ∙ set_same (λ v. v.sector_y) s.heap p q same.sector_y r;
    sector_index =
        ap (λ h. (h r).sector_index) e
        ∙ set_same (λ v. v.sector_index) s.heap p q same.sector_index r;
  };
}

-- A length is that of the old value where the new value has it.
length-set :
    (g : Player → List ℕ) (f : ℕ → Player) (k : ℕ) (q : Player)
    → length (g q) ≡ length (g (f k))
    → (r : ℕ) → length (g (set f k q r)) ≡ length (g (f r))
length-set g f k q e r = set_same (λ v. length (g v)) f k q e r

pub set-HasNames :
    {s s' : Chat} (p : ℕ) (q : Player)
    → HasNames s
    → length q.id ≡ length (s.heap p).id
    → length q.nickname ≡ length (s.heap p).nickname
    → s'.heap ≡ set s.heap p q
    → HasNames s'
set-HasNames {s} {s'} p q h id nickname e = record {
  id = λ r. ap (λ f. length (f r).id) e ∙ length-set (λ v. v.id) s.heap p q id r ∙ h.id r;
  nickname = λ r.
      ap (λ f. length (f r).nickname) e
      ∙ length-set (λ v. v.nickname) s.heap p q nickname r
      ∙ h.nickname r;
}

-- The same, when the account and the login are not touched either.
pub set-IsValid :
    {s s' : Chat} (p : ℕ) (q : Player)
    → IsValid s
    → SamePlace q (s.heap p)
    → q.account_no ≡ (s.heap p).account_no
    → q.is_login ≡ (s.heap p).is_login
    → q.id ≡ (s.heap p).id
    → q.nickname ≡ (s.heap p).nickname
    → s'.heap ≡ set s.heap p q
    → s'.session_map ≡ s.session_map
    → s'.sectors ≡ s.sectors
    → s'.account_map ≡ s.account_map
    → IsValid s'
set-IsValid {s} {s'} p q v same acc log id nickname e maps sectors accounts =
    let u = set-Unmoved p q same e maps sectors in
    let h = v.has_accounts in
    record {
      is_placed = Unmoved-IsPlaced u v.is_placed;
      has_accounts = record {
        live = λ a r at. Unmoved-Live u r (h.live a r (ap (λ f. f a) (sym accounts) ∙ at));
        login = λ a r at.
            ap (λ f. (f r).is_login) e
            ∙ set_same (λ v. v.is_login) s.heap p q log r
            ∙ h.login a r (ap (λ f. f a) (sym accounts) ∙ at);
        account_no = λ a r at.
            ap (λ f. (f r).account_no) e
            ∙ set_same (λ v. v.account_no) s.heap p q acc r
            ∙ h.account_no a r (ap (λ f. f a) (sym accounts) ∙ at);
      };
      has_names = set-HasNames p q v.has_names (ap length id) (ap length nickname) e;
    }

pub disconnect_player-IsValid : {s : Chat} (p : ℕ) → IsValid s → IsValid (disconnect_player p s)
unfolding disconnect_player
disconnect_player-IsValid {s} p v = elim (Bool-cases (s.heap p).is_disconnecting) [
  | inl e ↦ rw e v
  | inr e ↦ rw e (
      set-IsValid p (record (s.heap p) { is_disconnecting = true }) v
        (record { session_id = refl; sector_x = refl; sector_y = refl; sector_index = refl }) refl
        refl refl refl refl refl refl refl)
]

check_player-IsValid :
    {s : Chat} (now : ℕ) (o : Option ℕ) → IsValid s → IsValid (check_player now o s)
unfolding check_player
check_player-IsValid now none v = v
check_player-IsValid {s} now (some p) v = elim (Bool-cases (is_late now (s.heap p))) [
  | inl e ↦ rw e (disconnect_player-IsValid p v)
  | inr e ↦ rw e v
]

-- `CheckTimeout` keeps the state valid, whatever order the sessions come in.
pub check_timeout-IsValid :
    (now : ℕ) (ks : List ℕ) {s : Chat} → IsValid s → IsValid (check_timeout now ks s)
unfolding check_timeout
check_timeout-IsValid now [] v = v
check_timeout-IsValid now (k ∷ ks) {s} v =
    check_timeout-IsValid now ks (check_player-IsValid now (s.session_map k) v)
