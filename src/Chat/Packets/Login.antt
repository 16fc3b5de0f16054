-- ===== src/Chat/Packets/Login.antt =====
-- The end of `PacketProcLogin`: the account changes hands.
use iocp_model_server.Base.{
  ℕ, ◌≡◌, ◌≢◌, refl, sym, ◌∙◌, ap, ap₂, subst, true, false, Option, none, some, ◌==◌, arith, length,
  Bool-cases, inl, inr, set, set_here, set_same, set_there,
}
use iocp_model_server.Chat.{Player, Chat, disconnect_player}
use iocp_model_server.Chat.Sectors.Placed.{Live, some-inj}
use iocp_model_server.Chat.Sectors.Release.{IsValid}
use iocp_model_server.Chat.Sectors.Unmoved.{
  SamePlace, Unmoved-Live, Unmoved-IsPlaced, set-Unmoved, set-HasNames, disconnect_player-IsValid,
}
use iocp_model_server.Chat.Packets.{cut_off_other, take_account}

-- A write to a player that has not logged in, which no account leads to.
pub set-IsValid_login :
    {s s' : Chat} (p : ℕ) (q : Player)
    → IsValid s
    → (s.heap p).is_login ≡ false
    → SamePlace q (s.heap p)
    → length q.id ≡ length (s.heap p).id
    → length q.nickname ≡ length (s.heap p).nickname
    → s'.heap ≡ set s.heap p q
    → s'.session_map ≡ s.session_map
    → s'.sectors ≡ s.sectors
    → s'.account_map ≡ s.account_map
    → IsValid s'
set-IsValid_login {s} {s'} p q v out same id nickname e maps sectors accounts =
    let u = set-Unmoved p q same e maps sectors in
    record {
      is_placed = Unmoved-IsPlaced u v.is_placed;
      has_accounts = record {
        live = λ a r at. Unmoved-Live u r (v.has_accounts.live a r (old a r at));
        login = λ a r at.
            ap (λ z. z.is_login) (kept a r (old a r at)) ∙ v.has_accounts.login a r (old a r at);
        account_no = λ a r at.
            ap (λ z. z.account_no) (kept a r (old a r at))
            ∙ v.has_accounts.account_no a r (old a r at);
      };
      has_names = set-HasNames p q v.has_names id nickname e;
    }
  where
    old : (a r : ℕ) → s'.account_map a ≡ some r → s.account_map a ≡ some r
    old a r at = ap (λ f. f a) (sym accounts) ∙ at

    kept : (a r : ℕ) → s.account_map a ≡ some r → s'.heap r ≡ s.heap r
    kept a r at =
        let other : r ≢ p = λ is_p.
          let both : true ≡ false =
            sym (v.has_accounts.login a r at) ∙ ap (λ z. (s.heap z).is_login) is_p ∙ out in
          absurd (ground arith) in
        ap (λ f. f r) e ∙ set_there s.heap p q r other

-- `DisconnectPlayer` changes one field.
disconnect_player_same :
    {A : Type 0} (g : Player → A) (o : ℕ) (s : Chat) (r : ℕ)
    → ((q : Player) → g (record q { is_disconnecting = true }) ≡ g q)
    → g ((disconnect_player o s).heap r) ≡ g (s.heap r)
unfolding disconnect_player
disconnect_player_same g o s r same = elim (Bool-cases (s.heap o).is_disconnecting) [
  | inl e ↦ rw e refl
  | inr e ↦ rw e (set_same g s.heap o _ (same (s.heap o)) r)
]

disconnect_player_maps : (o : ℕ) (s : Chat) → ((disconnect_player o s).session_map ≡ s.session_map)
unfolding disconnect_player
disconnect_player_maps o s = elim (Bool-cases (s.heap o).is_disconnecting) [
  | inl e ↦ rw e refl
  | inr e ↦ rw e refl
]

cut_off_other_same :
    {A : Type 0} (g : Player → A) (o : Option ℕ) (s : Chat) (r : ℕ)
    → ((q : Player) → g (record q { is_disconnecting = true }) ≡ g q)
    → g ((cut_off_other o s).heap r) ≡ g (s.heap r)
unfolding cut_off_other
cut_off_other_same g none s r same = refl
cut_off_other_same g (some o) s r same = disconnect_player_same g o s r same

cut_off_other_maps : (o : Option ℕ) (s : Chat) → (cut_off_other o s).session_map ≡ s.session_map
unfolding cut_off_other
cut_off_other_maps none s = refl
cut_off_other_maps (some o) s = disconnect_player_maps o s

cut_off_other-IsValid : {s : Chat} (o : Option ℕ) → IsValid s → IsValid (cut_off_other o s)
unfolding cut_off_other
cut_off_other-IsValid none v = v
cut_off_other-IsValid (some o) v = disconnect_player-IsValid o v

owned :
    {s : Chat} (p a : ℕ)
    → IsValid s
    → Live s p
    → (s.heap p).is_login ≡ true
    → (s.heap p).account_no ≡ a
    → IsValid (record s { account_map = set s.account_map a (some p) })
owned {s} p a v live on owner = record {
  is_placed = record {
    sessions = v.is_placed.sessions;
    placed = v.is_placed.placed;
    listed = v.is_placed.listed;
  };
  has_accounts = record {
    live = λ b r at. (entry b r at).0;
    login = λ b r at. (entry b r at).1;
    account_no = λ b r at. (entry b r at).2;
  };
  has_names = record { id = v.has_names.id; nickname = v.has_names.nickname };
}
  where
    Entry : ℕ → ℕ → Type 0
    Entry b r = Live s r × ((s.heap r).is_login ≡ true) × ((s.heap r).account_no ≡ b)

    entry : (b r : ℕ) → set s.account_map a (some p) b ≡ some r → Entry b r
    entry b r at = elim (Bool-cases (b == a)) [
      | inl e ↦
          let is_a : b ≡ a = ground arith in
          let is_p : p ≡ r = some-inj _ _ (
            sym (set_here s.account_map a (some p))
            ∙ ap (set s.account_map a (some p)) (sym is_a)
            ∙ at) in
          subst (λ z. Entry b z) is_p (live, on, owner ∙ sym is_a)
      | inr e ↦
          let old : s.account_map b ≡ some r =
            sym (set_there s.account_map a (some p) b (ground arith)) ∙ at in
          (
            v.has_accounts.live b r old,
            v.has_accounts.login b r old,
            v.has_accounts.account_no b r old,
          )
    ]

pub take_account-IsValid :
    {s : Chat} (p a : ℕ)
    → IsValid s
    → Live s p
    → (s.heap p).is_login ≡ true
    → (s.heap p).account_no ≡ a
    → IsValid (take_account p a s)
unfolding take_account
take_account-IsValid {s} p a v live on owner =
    let o = s.account_map a in
    owned p a (cut_off_other-IsValid o v)
      (ap₂ (λ f i. f i) (cut_off_other_maps o s)
          (cut_off_other_same (λ q. q.session_id) o s p (λ q. refl))
        ∙ live)
      (cut_off_other_same (λ q. q.is_login) o s p (λ q. refl) ∙ on)
      (cut_off_other_same (λ q. q.account_no) o s p (λ q. refl) ∙ owner)
