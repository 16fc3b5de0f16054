-- ===== src/Chat/Sectors/Forget.antt =====
-- What `ProcessRelease` does to an account that another player has taken over.
use iocp_model_server.Base.{ℕ, ◌≡◌, ◌≢◌, refl, sym, ◌∙◌, ap, true, Option, none, some}
use iocp_model_server.Chat.{Chat}
use iocp_model_server.Chat.Sectors.{release_player, release_found, process_release}
use iocp_model_server.Chat.Sectors.Placed.{Live}
use iocp_model_server.Chat.Sectors.Enter.{leave_if_placed-Left, Kept-Live}
use iocp_model_server.Chat.Sectors.Release.{
  IsValid, HasAccounts-Kept, HasNames-Kept, forget_account-Forgotten, released, still_Live,
}

-- The account has no entry any more, though a connected player is logged in to it.
pub record Lost (account_no r : ℕ) (o : Option Chat) : Type 0 where
  pub state : Chat
  pub result : o ≡ some state
  pub no_entry : state.account_map account_no ≡ none
  pub live : Live state r
  pub login : (state.heap r).is_login ≡ true
  pub same_account : (state.heap r).account_no ≡ account_no

release_player-Lost :
    {s : Chat} (id p r : ℕ)
    → IsValid s
    → s.session_map id ≡ some p
    → (s.heap p).is_login ≡ true
    → s.account_map (s.heap p).account_no ≡ some r
    → r ≢ p
    → Lost (s.heap p).account_no r (release_player id p s)
unfolding release_player released
release_player-Lost {s} id p r v at_p on taken ne =
    let live : Live s p = ap s.session_map (v.is_placed.sessions id p at_p) ∙ at_p in
    let left = leave_if_placed-Left p v.is_placed live in
    let t = left.state in
    let k = left.kept in
    let h = HasAccounts-Kept v.has_accounts k in
    let named = HasNames-Kept v.has_names k in
    let f = forget_account-Forgotten {s = t} p h in
    let there : t.session_map id ≡ some p = ap (λ m. m id) k.session_map ∙ at_p in
    record {
      state = released p id f.accounts left.is_placed h named there f.fewer f.gone;
      result = rw (left.result, f.result) refl;
      no_entry =
          ap f.accounts (sym (k.players p).account_no) ∙ f.erased ((k.players p).is_login ∙ on);
      live =
          still_Live p id f.accounts left.is_placed h named there f.fewer f.gone r
            (Kept-Live k r (v.has_accounts.live _ r taken)) ne;
      login = (k.players r).is_login ∙ v.has_accounts.login _ r taken;
      same_account = (k.players r).account_no ∙ v.has_accounts.account_no _ r taken;
    }

-- When a player is released after another one has logged in to its account, `ProcessRelease` erases
-- the other one's entry: it is connected and logged in, and the map does not know of it.
pub process_release-Lost :
    {s : Chat} (id p r : ℕ)
    → IsValid s
    → s.session_map id ≡ some p
    → (s.heap p).is_login ≡ true
    → s.account_map (s.heap p).account_no ≡ some r
    → r ≢ p
    → Lost (s.heap p).account_no r (process_release id s)
unfolding process_release release_found
process_release-Lost id p r v at_p on taken ne =
    rw at_p (release_player-Lost id p r v at_p on taken ne)
