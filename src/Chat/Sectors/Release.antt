-- ===== src/Chat/Sectors/Release.antt =====
-- `ProcessRelease` and `ProcessAccept` with respect to the sectors and the accounts.
use iocp_model_server.Base.{
  ℕ, ◌≡◌, ◌≢◌, refl, sym, ◌∙◌, ap, Bool, true, false, Option, none, some, arith, if◌then◌else◌,
  length, set, set_here, set_there,
}
use iocp_model_server.Chat.{Chat}
use iocp_model_server.Chat.Sectors.{forget_account, release_player, release_found, process_release}
use iocp_model_server.Chat.Sectors.Placed.{Live, IsPlaced, some-inj}
use iocp_model_server.Chat.Sectors.Leave.{Kept}
use iocp_model_server.Chat.Sectors.Enter.{leave_if_placed-Left, Kept-Live}

-- Every entry of the accounts' map is a connected player that has logged in to that account.
pub record HasAccounts (s : Chat) : Type 0 where
  pub live : (a p : ℕ) → s.account_map a ≡ some p → Live s p
  pub login : (a p : ℕ) → s.account_map a ≡ some p → (s.heap p).is_login ≡ true
  pub account_no : (a p : ℕ) → s.account_map a ≡ some p → (s.heap p).account_no ≡ a

-- The two names of each player's memory fill their arrays of twenty characters.
pub record HasNames (s : Chat) : Type 0 where
  pub id : (r : ℕ) → length (s.heap r).id ≡ 40
  pub nickname : (r : ℕ) → length (s.heap r).nickname ≡ 40

pub record IsValid (s : Chat) : Type 0 where
  pub is_placed : IsPlaced none s
  pub has_accounts : HasAccounts s
  pub has_names : HasNames s

pub HasNames-Kept : {s s' : Chat} → HasNames s → Kept s s' → HasNames s'
HasNames-Kept h k = record {
  id = λ r. ap length (k.players r).id ∙ h.id r;
  nickname = λ r. ap length (k.players r).nickname ∙ h.nickname r;
}

pub HasAccounts-Kept : {s s' : Chat} → HasAccounts s → Kept s s' → HasAccounts s'
HasAccounts-Kept h k = record {
  live = λ a p e. Kept-Live k p (h.live a p (ap (λ f. f a) (sym k.account_map) ∙ e));
  login = λ a p e. (k.players p).is_login ∙ h.login a p (ap (λ f. f a) (sym k.account_map) ∙ e);
  account_no =
      λ a p e. (k.players p).account_no ∙ h.account_no a p (ap (λ f. f a) (sym k.account_map) ∙ e);
}

-- The player's entry is gone, and every other entry that is left was there before.
pub record Forgotten (s : Chat) (p : ℕ) (s' : Chat) : Type 0 where
  pub accounts : ℕ → Option ℕ
  pub result : s' ≡ record s { account_map = accounts }
  pub fewer : (a r : ℕ) → accounts a ≡ some r → s.account_map a ≡ some r
  pub gone : (a r : ℕ) → accounts a ≡ some r → r ≢ p
  pub erased : (s.heap p).is_login ≡ true → accounts (s.heap p).account_no ≡ none

erased_there : (m : ℕ → Option ℕ) (k a r : ℕ) → set m k none a ≡ some r → a ≢ k
erased_there m k a r e same =
    let nothing : none ≡ some r = sym (set_here m k none) ∙ ap (set m k none) (sym same) ∙ e in
    absurd (ground arith)

erased_old : (m : ℕ → Option ℕ) (k a r : ℕ) → set m k none a ≡ some r → m a ≡ some r
erased_old m k a r e = sym (set_there m k none a (erased_there m k a r e)) ∙ e

if-Forgotten :
    {s : Chat} (p : ℕ) (b : Bool)
    → HasAccounts s
    → (s.heap p).is_login ≡ b
    → Forgotten s p
        (if b then record s { account_map = set s.account_map (s.heap p).account_no none } else s)
if-Forgotten {s} p true h e = record {
  accounts = set s.account_map (s.heap p).account_no none;
  result = refl;
  fewer = erased_old s.account_map (s.heap p).account_no;
  gone = λ a r at same.
      let old = erased_old s.account_map (s.heap p).account_no a r at in
      erased_there s.account_map (s.heap p).account_no a r at
        (sym (h.account_no a r old) ∙ ap (λ v. (s.heap v).account_no) same);
  erased = λ on. set_here s.account_map (s.heap p).account_no none;
}
if-Forgotten {s} p false h e = record {
  accounts = s.account_map;
  result = refl;
  fewer = λ a r at. at;
  gone = λ a r at same.
      let both : true ≡ false = sym (h.login a r at) ∙ ap (λ v. (s.heap v).is_login) same ∙ e in
      absurd (ground arith);
  erased = λ on. absurd (ground arith);
}

pub forget_account-Forgotten :
    {s : Chat} (p : ℕ) → HasAccounts s → Forgotten s p (forget_account p s)
unfolding forget_account
forget_account-Forgotten {s} p h = if-Forgotten p (s.heap p).is_login h refl

module _ {t : Chat} (p id : ℕ) (accounts : ℕ → Option ℕ) (w : IsPlaced (some p) t)
    (h : HasAccounts t) (named : HasNames t) (at_p : t.session_map id ≡ some p)
    (fewer : (a r : ℕ) → accounts a ≡ some r → t.account_map a ≡ some r)
    (gone : (a r : ℕ) → accounts a ≡ some r → r ≢ p) where
  unfoldable pub released : Chat
  released = record t { account_map = accounts; session_map = set t.session_map id none }

  pub still_Live : (r : ℕ) → Live t r → r ≢ p → Live released r
  unfolding released
  still_Live r live ne =
      set_there t.session_map id none (t.heap r).session_id
        (λ same. ne (some-inj _ _ (sym live ∙ ap t.session_map same ∙ at_p)))
      ∙ live

  was_Live : (r : ℕ) → Live released r → Live t r
  unfolding released
  was_Live r = erased_old t.session_map id (t.heap r).session_id r

  not_released : (r : ℕ) → Live released r → r ≢ p
  unfolding released
  not_released r live same =
      erased_there t.session_map id (t.heap r).session_id r live
        (ap (λ v. (t.heap v).session_id) same ∙ w.sessions id p at_p)

  released-IsPlaced : IsPlaced none released
  unfolding released
  released-IsPlaced = record {
    sessions = λ k r e. w.sessions k r (erased_old t.session_map id k r e);
    placed = λ r live inside ne.
        w.placed r (was_Live r live) inside (λ e. not_released r live (some-inj _ _ e));
    listed = λ y x i r e.
        let (live, ne, rx, ry, ri, hx, hy) = w.listed y x i r e in
        (
          still_Live r live (λ same. ne (ap some same)),
          λ e. absurd (ground arith),
          rx,
          ry,
          ri,
          hx,
          hy,
        );
  }

  released-IsValid : IsValid released
  unfolding released
  released-IsValid = record {
    is_placed = released-IsPlaced;
    has_accounts = record {
      live = λ a r e. still_Live r (h.live a r (fewer a r e)) (gone a r e);
      login = λ a r e. h.login a r (fewer a r e);
      account_no = λ a r e. h.account_no a r (fewer a r e);
    };
    has_names = record { id = named.id; nickname = named.nickname };
  }

-- What a step leaves: it does not fault, and the state is valid again.
pub record Safe (o : Option Chat) : Type 0 where
  pub state : Chat
  pub result : o ≡ some state
  pub is_valid : IsValid state

release_player-Safe :
    {s : Chat} (id p : ℕ) → IsValid s → s.session_map id ≡ some p → Safe (release_player id p s)
unfolding release_player released
release_player-Safe {s} id p v at_p =
    let live : Live s p = ap s.session_map (v.is_placed.sessions id p at_p) ∙ at_p in
    let left = leave_if_placed-Left p v.is_placed live in
    let t = left.state in
    let h = HasAccounts-Kept v.has_accounts left.kept in
    let named = HasNames-Kept v.has_names left.kept in
    let f = forget_account-Forgotten {s = t} p h in
    let there : t.session_map id ≡ some p = ap (λ m. m id) left.kept.session_map ∙ at_p in
    record {
      state = released p id f.accounts left.is_placed h named there f.fewer f.gone;
      result = rw (left.result, f.result) refl;
      is_valid = released-IsValid p id f.accounts left.is_placed h named there f.fewer f.gone;
    }

release_found-Safe :
    {s : Chat} (id : ℕ) (o : Option ℕ)
    → IsValid s
    → s.session_map id ≡ o
    → Safe (release_found id o s)
unfolding release_found
release_found-Safe {s} id none v e = record { state = s; result = refl; is_valid = v }
release_found-Safe id (some p) v e = release_player-Safe id p v e

-- `ProcessRelease` of any session, connected or not, does not fault and keeps the state valid.
pub process_release-Safe : {s : Chat} (id : ℕ) → IsValid s → Safe (process_release id s)
unfolding process_release
process_release-Safe {s} id v = release_found-Safe id (s.session_map id) v refl
