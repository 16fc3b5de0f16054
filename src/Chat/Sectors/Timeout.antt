-- ===== src/Chat/Sectors/Timeout.antt =====
-- `CheckTimeout`: whom it disconnects.
use iocp_model_server.Base.{
  ℕ, ◌+◌, ◌-◌, ◌%◌, ◌^◌, ◌≤◌, ◌<◌, ◌≡◌, ◌≢◌, refl, sym, ap, ap₂, subst, ◌∙◌, Bool, true, false, not,
  ◌&&◌, ◌||◌, Bool-cases, inl, inr, Option, none, some, List, [], ◌∷◌, ◌++◌, append-nil,
  append_assoc, In, arith, leb, ◌==◌, if◌then◌else◌, set, set_all,
}
use iocp_model_server.Chat.{Player, Chat, disconnect_player, check_player, check_timeout, is_late}

-- A player from whom nothing has come for 40 seconds.
abbrev pub is_silent : ℕ → Player → Bool
is_silent now q = leb (q.last_recv_time + 40000) now

abbrev pub marked : ℕ → Player → Player
marked now q = if is_silent now q then record q { is_disconnecting = true } else q

abbrev leads : Option ℕ → ℕ → Bool
leads none r = false
leads (some p) r = r == p

-- Whether one of the sessions has the player.
abbrev pub leads_any : (ℕ → Option ℕ) → List ℕ → ℕ → Bool
leads_any m [] r = false
leads_any m (k ∷ ks) r = leads (m k) r || leads_any m ks r

abbrev due_player : ℕ → Chat → Option ℕ → Bool
due_player now s none = false
due_player now s (some p) = is_silent now (s.heap p) && not (s.heap p).is_disconnecting

-- The sessions with a silent player that is not being disconnected.
abbrev pub due_sessions : ℕ → Chat → List ℕ → List ℕ
due_sessions now s [] = []
due_sessions now s (k ∷ ks) =
    let rest = due_sessions now s ks in
    if due_player now s (s.session_map k) then k ∷ rest else rest

unfoldable pub IsDistinct : List ℕ → Type 0
IsDistinct [] = Unit {0}
IsDistinct (k ∷ ks) = ((j : ℕ) → In j ks → j ≢ k) × IsDistinct ks

-- Each session has a player of its own, whose time of the last packet is not after `now`.
pub record IsTimely (now : ℕ) (s : Chat) : Type 0 where
  pub sessions : (k p : ℕ) → s.session_map k ≡ some p → (s.heap p).session_id ≡ k
  pub times : (k p : ℕ) → s.session_map k ≡ some p → (s.heap p).last_recv_time ≤ now
  pub ticks : now < 2 ^ 64

is_late-is_silent :
    (now : ℕ) (q : Player) → q.last_recv_time ≤ now → now < 2 ^ 64 → is_late now q ≡ is_silent now q
is_late-is_silent now q h t =
    let e : (now + 2 ^ 64 - q.last_recv_time) % 2 ^ 64 ≡ now - q.last_recv_time = omega arith in
    ground (arith, e)

-- What the loop's body does for the session `k`.
record Checked (now k : ℕ) (s s' : Chat) : Type 0 where
  pub heap :
      (r : ℕ) → s'.heap r ≡ (if leads (s.session_map k) r then marked now (s.heap r) else s.heap r)
  pub disconnects :
      s'.disconnects ≡ s.disconnects ++ (if due_player now s (s.session_map k) then k ∷ [] else [])
  pub session_map : s'.session_map ≡ s.session_map
  pub others :
      (s'.account_map ≡ s.account_map)
      × (s'.sectors ≡ s.sectors)
      × (s'.sent ≡ s.sent)
      × (s'.stopped ≡ s.stopped)

module _ (now : ℕ) (s : Chat) (p : ℕ) where
  unmarked :
      marked now (s.heap p) ≡ s.heap p
      → (r : ℕ) → s.heap r ≡ (if r == p then marked now (s.heap r) else s.heap r)
  unmarked same r = elim (Bool-cases (r == p)) [
    | inl e ↦
        let here : r ≡ p = ground arith in
        rw e (ap s.heap here ∙ sym same ∙ ap (λ i. marked now (s.heap i)) (sym here))
    | inr e ↦ rw e refl
  ]

  newly_marked :
      is_silent now (s.heap p) ≡ true
      → (r : ℕ)
      → set s.heap p (record (s.heap p) { is_disconnecting = true }) r
        ≡ (if r == p then marked now (s.heap r) else s.heap r)
  newly_marked silent =
      set_all (λ r x. x ≡ (if r == p then marked now (s.heap r) else s.heap r)) s.heap p
        (record (s.heap p) { is_disconnecting = true })
        (let same : (p == p) ≡ true = ground arith in rw (same, silent) refl)
        (λ j differ. let no : (j == p) ≡ false = ground arith in rw no refl)

  -- The branches of the loop's body with a player.
  check_player-some :
      (k : ℕ)
      → s.session_map k ≡ some p
      → IsTimely now s
      → Checked now k s (check_player now (some p) s)
  unfolding check_player disconnect_player
  check_player-some k at h =
      let late : is_late now (s.heap p) ≡ is_silent now (s.heap p) =
        is_late-is_silent now (s.heap p) (h.times k p at) h.ticks in
      elim (Bool-cases (is_silent now (s.heap p))) [
        | inl silent ↦ elim (Bool-cases (s.heap p).is_disconnecting) [
          | inl e ↦
              let same : marked now (s.heap p) ≡ s.heap p =
                rw silent (ap (λ b. record (s.heap p) { is_disconnecting = b }) (sym e)) in
              rw (late ∙ silent, e)
                (record {
                  heap = rw at (unmarked same);
                  disconnects = rw (at, silent, e) (sym (append-nil s.disconnects));
                  session_map = refl;
                  others = (refl, refl, refl, refl);
                })
          | inr e ↦
              rw (late ∙ silent, e)
                (record {
                  heap = rw at (newly_marked silent);
                  disconnects =
                      rw (at, silent, e) (ap (λ i. s.disconnects ++ i ∷ []) (h.sessions k p at));
                  session_map = refl;
                  others = (refl, refl, refl, refl);
                })
        ]
        | inr silent ↦
            let same : marked now (s.heap p) ≡ s.heap p = rw silent refl in
            rw (late ∙ silent) (record {
              heap = rw at (unmarked same);
              disconnects = rw (at, silent) (sym (append-nil s.disconnects));
              session_map = refl;
              others = (refl, refl, refl, refl);
            })
      ]

check_player-Checked :
    (now k : ℕ) (s : Chat) → IsTimely now s → Checked now k s (check_player now (s.session_map k) s)
unfolding check_player
check_player-Checked now k s h = of_player (s.session_map k) refl
  where
    of_player : (o : Option ℕ) → s.session_map k ≡ o → Checked now k s (check_player now o s)
    of_player none at = record {
      heap = λ r. rw at refl;
      disconnects = rw at (sym (append-nil s.disconnects));
      session_map = refl;
      others = (refl, refl, refl, refl);
    }
    of_player (some p) at = check_player-some now s p k at h

-- Marking leaves what the later rounds look at, and marking twice is marking once.
marked-kept :
    (now : ℕ) (b : Bool) (q : Player)
    → ((if b then marked now q else q).session_id ≡ q.session_id)
      × ((if b then marked now q else q).last_recv_time ≡ q.last_recv_time)
marked-kept now true q = elim (Bool-cases (is_silent now q)) [
  | inl e ↦ rw e (refl, refl)
  | inr e ↦ rw e (refl, refl)
]
marked-kept now false q = (refl, refl)

marked_twice : (now : ℕ) (q : Player) → marked now (marked now q) ≡ marked now q
marked_twice now q = elim (Bool-cases (is_silent now q)) [
  | inl e ↦ rw e (rw e refl)
  | inr e ↦ rw e (rw e refl)
]

merged :
    (now : ℕ) (a b : Bool) (q : Player)
    → (let r = if a then marked now q else q in if b then marked now r else r)
      ≡ (if a || b then marked now q else q)
merged now true true q = marked_twice now q
merged now true false q = refl
merged now false true q = refl
merged now false false q = refl

leads-eq-some : (o : Option ℕ) (r : ℕ) → leads o r ≡ true → o ≡ some r
leads-eq-some none r e = absurd (ground arith)
leads-eq-some (some p) r e = let same : r ≡ p = ground arith in ap some (sym same)

Checked-IsTimely : {now k : ℕ} {s s' : Chat} → Checked now k s s' → IsTimely now s → IsTimely now s'
Checked-IsTimely {now} {k} {s} {s'} c h = record {
  sessions = λ j p e.
      ap (λ x. x.session_id) (c.heap p)
      ∙ (marked-kept now (leads (s.session_map k) p) (s.heap p)).0
      ∙ h.sessions j p (ap (λ f. f j) (sym c.session_map) ∙ e);
  times = λ j p e.
      subst (λ t. t ≤ now)
        (sym (
          ap (λ x. x.last_recv_time) (c.heap p)
          ∙ (marked-kept now (leads (s.session_map k) p) (s.heap p)).1))
        (h.times j p (ap (λ f. f j) (sym c.session_map) ∙ e));
  ticks = h.ticks;
}

-- A round does not change what is to be done for another session.
due_player-Checked :
    {now k : ℕ} {s s' : Chat}
    → Checked now k s s'
    → IsTimely now s
    → (j : ℕ) → j ≢ k
    → due_player now s' (s'.session_map j) ≡ due_player now s (s.session_map j)
due_player-Checked {now} {k} {s} {s'} c h j differ =
    ap (λ f. due_player now s' (f j)) c.session_map ∙ of_player (s.session_map j) refl
  where
    of_player : (o : Option ℕ) → s.session_map j ≡ o → due_player now s' o ≡ due_player now s o
    of_player none at = refl
    of_player (some p) at =
        ap (λ (x : Player). is_silent now x && not x.is_disconnecting) {x = s'.heap p}
          {y = s.heap p}
          (elim (Bool-cases (leads (s.session_map k) p)) [
            | inl e ↦ absurd (
                differ
                  (sym (h.sessions j p at) ∙ h.sessions k p (leads-eq-some (s.session_map k) p e)))
            | inr e ↦ c.heap p ∙ rw e refl
          ])

due_sessions-Checked :
    {now k : ℕ} {s s' : Chat}
    → Checked now k s s'
    → IsTimely now s
    → (ks : List ℕ) → ((j : ℕ) → In j ks → j ≢ k)
    → due_sessions now s' ks ≡ due_sessions now s ks
due_sessions-Checked c h [] out = refl
due_sessions-Checked {now} c h (j ∷ ks) out =
    ap₂ (λ b xs. if b then j ∷ xs else xs) (due_player-Checked c h j (out j (inl refl)))
      (due_sessions-Checked c h ks (λ i e. out i (inr e)))

joined :
    (k : ℕ) (xs ys : List ℕ) (b : Bool)
    → (xs ++ (if b then k ∷ [] else [])) ++ ys ≡ xs ++ (if b then k ∷ ys else ys)
joined k xs ys true = append_assoc xs (k ∷ []) ys
joined k xs ys false = ap (λ l. l ++ ys) (append-nil xs)

-- What the whole loop does.
pub record TimedOut (now : ℕ) (ks : List ℕ) (s s' : Chat) : Type 0 where
  pub heap :
      (r : ℕ)
      → s'.heap r ≡ (if leads_any s.session_map ks r then marked now (s.heap r) else s.heap r)
  pub disconnects : s'.disconnects ≡ s.disconnects ++ due_sessions now s ks
  pub session_map : s'.session_map ≡ s.session_map
  pub others :
      (s'.account_map ≡ s.account_map)
      × (s'.sectors ≡ s.sectors)
      × (s'.sent ≡ s.sent)
      × (s'.stopped ≡ s.stopped)

-- `CheckTimeout` at a time that is not before the last packets of the players, with each session
-- once in whatever order the map hands them out, disconnects the sessions from which nothing has
-- come for 40 seconds: it marks their players, calls `Disconnect` once for each one that was not
-- marked before, and changes nothing else.
pub check_timeout-TimedOut :
    (now : ℕ) (ks : List ℕ) {s : Chat}
    → IsTimely now s
    → IsDistinct ks
    → TimedOut now ks s (check_timeout now ks s)
unfolding check_timeout IsDistinct
check_timeout-TimedOut now [] {s} h distinct = record {
  heap = λ r. refl;
  disconnects = sym (append-nil s.disconnects);
  session_map = refl;
  others = (refl, refl, refl, refl);
}
check_timeout-TimedOut now (k ∷ ks) {s} h (out, distinct) =
    let c = check_player-Checked now k s h in
    let rest = check_timeout-TimedOut now ks (Checked-IsTimely c h) distinct in
    record {
      heap = λ r.
          rest.heap r
          ∙ ap₂ (λ f x. if leads_any f ks r then marked now x else x) c.session_map (c.heap r)
          ∙ merged now (leads (s.session_map k) r) (leads_any s.session_map ks r) (s.heap r);
      disconnects =
          rest.disconnects
          ∙ ap₂ ◌++◌ c.disconnects (due_sessions-Checked c h ks out)
          ∙ joined k s.disconnects (due_sessions now s ks) (due_player now s (s.session_map k));
      session_map = rest.session_map ∙ c.session_map;
      others = (
        rest.others.0 ∙ c.others.0,
        rest.others.1 ∙ c.others.1,
        rest.others.2 ∙ c.others.2,
        rest.others.3 ∙ c.others.3,
      );
    }
