-- ===== src/Server/Sessions/Acquire.antt =====
-- A number belongs to one session: it is found while the session lives, and never again.
use iocp_model_server.Base.{
  ℕ, ◌+◌, ◌^◌, ◌≤◌, ◌<◌, ◌≡◌, ◌≢◌, inl, inr, refl, sym, ap, subst, ◌∙◌, Bool, true, false, ◌&&◌,
  Bool-cases, List, [], ◌∷◌, In, none, some, ltb, ◌==◌, if◌then◌else◌, arith, set_here, set_all,
  set_both,
}
use iocp_model_server.Server.Sessions.{
  index_of, make_id, Server, start, accept_from, init_session, accept, acquire_session, release,
  Step, accepts, releases, Later, now, later,
}
use iocp_model_server.Server.Sessions.Numbers.{
  generator_of, generator_of-make_id, IsNumbered, release-IsNumbered, Later-IsNumbered,
  start-IsNumbered,
}

-- A step that a number outlives, once its session is released.
record IsStale (id index : ℕ) (s : Server) : Type 0 where
  place : index_of id ≡ index
  before : generator_of id ≤ s.session_id_generator
  gone : s.live index ≡ true → s.session_ids index ≢ id

init_session-IsStale :
    (id index i : ℕ) (rest : List ℕ) (s : Server)
    → i < 2 ^ 16
    → s.session_id_generator + 1 < 2 ^ 48
    → IsStale id index s
    → IsStale id index (init_session i rest s)
unfolding init_session
init_session-IsStale id index i rest s small room h =
    let g = s.session_id_generator + 1 in
    record {
      place = h.place;
      before = omega (arith, h.before);
      gone =
          set_both (λ j v b. j ≡ index → b ≡ true → v ≢ id) s.session_ids s.live i (make_id g i)
            true
            (λ same e made.
              absurd (
                omega (arith, h.before, ap generator_of made, generator_of-make_id g i small room)))
            (λ j differ same e.
              subst (λ k. s.session_ids k ≢ id) (sym same)
                (h.gone (subst (λ k. s.live k ≡ true) same e)))
            index refl;
    }

accept_from-IsStale :
    (id index : ℕ) (allowed : Bool) (stack : List ℕ) (s : Server)
    → IsNumbered s
    → s.index_stack ≡ stack
    → s.session_id_generator + 1 < 2 ^ 48
    → IsStale id index s
    → IsStale id index (accept_from allowed stack s)
unfolding accept_from
accept_from-IsStale id index allowed [] s n e room h = h
accept_from-IsStale id index true (i ∷ rest) s n e room h =
    let found = n.unused i (subst (In i) (sym e) (inl refl)) in
    init_session-IsStale id index i rest s (omega (arith, found.0, n.few)) room h
accept_from-IsStale id index false (i ∷ rest) s n e room h = record {
  place = h.place;
  before = h.before;
  gone = h.gone;
}

Step-IsStale :
    (id index : ℕ) {s s' : Server}
    → IsNumbered s
    → IsStale id index s
    → Step s s'
    → IsStale id index s'
unfolding accept release
Step-IsStale id index {s} n h (accepts allowed room) =
    accept_from-IsStale id index allowed s.index_stack s n refl room h
Step-IsStale id index {s} n h (releases i alive) = record {
  place = h.place;
  before = h.before;
  gone =
      set_all (λ j b. j ≡ index → b ≡ true → s.session_ids j ≢ id) s.live i false
        (λ same e. absurd (ground arith))
        (λ j differ same e.
          subst (λ k. s.session_ids k ≢ id) (sym same)
            (h.gone (subst (λ k. s.live k ≡ true) same e)))
        index refl;
}

Later-IsStale :
    (id index : ℕ) {s s' : Server}
    → IsNumbered s
    → IsStale id index s
    → Later s s'
    → IsStale id index s'
Later-IsStale id index n h now = h
Later-IsStale id index n h (later before step) =
    Step-IsStale id index (Later-IsNumbered n before) (Later-IsStale id index n h before) step

release-IsStale :
    (i : ℕ) (s : Server)
    → IsNumbered s
    → s.live i ≡ true
    → IsStale (s.session_ids i) i (release i s)
unfolding release
release-IsStale i s n alive = record {
  place = (n.made i alive).1;
  before = n.past i;
  gone = λ e. absurd (ground (arith, set_here s.live i false, e));
}

acquire_session-place :
    (id i : ℕ) (s : Server)
    → index_of id ≡ i
    → acquire_session id s
      ≡ (if ltb i s.max_session_count && s.live i && (s.session_ids i == id) then some i else none)
unfolding acquire_session
acquire_session-place id i s e = rw e refl

unmatched :
    (id i : ℕ) (s : Server)
    → (s.live i ≡ true → s.session_ids i ≢ id)
    → s.live i && (s.session_ids i == id) ≡ false
unmatched id i s gone = elim (Bool-cases (s.live i)) [
  | inl e ↦ let differ = gone e in ground (arith, e)
  | inr e ↦ ground (arith, e)
]

-- While a session lives, `AcquireSession` finds it by its number, whatever was accepted and released
-- before; fewer than 2^48 sessions are accepted.
pub acquire_session-some :
    (max i : ℕ) {s s' : Server}
    → start max ≡ some s
    → Later s s'
    → s'.live i ≡ true
    → acquire_session (s'.session_ids i) s' ≡ some i
acquire_session-some max i {s} {s'} begun before alive =
    let n = Later-IsNumbered (start-IsNumbered max s begun) before in
    let made = n.made i alive in
    let found : ltb i s'.max_session_count && s'.live i && (s'.session_ids i == s'.session_ids i)
        ≡ true =
      ground (arith, made.0, alive) in
    acquire_session-place (s'.session_ids i) i s' made.1 ∙ rw found refl

-- The number of a session that was released is never found again, although its place in the array is
-- used for other sessions; fewer than 2^48 sessions are accepted.
pub acquire_session-none :
    (max i : ℕ) {s s' s'' : Server}
    → start max ≡ some s
    → Later s s'
    → s'.live i ≡ true
    → Later (release i s') s''
    → acquire_session (s'.session_ids i) s'' ≡ none
acquire_session-none max i {s} {s'} {s''} begun before alive after =
    let n = Later-IsNumbered (start-IsNumbered max s begun) before in
    let id = s'.session_ids i in
    let h =
      Later-IsStale id i (release-IsNumbered i s' n alive) (release-IsStale i s' n alive) after in
    let gone : s''.live i && (s''.session_ids i == id) ≡ false = unmatched id i s'' h.gone in
    let found : ltb i s''.max_session_count && s''.live i && (s''.session_ids i == id) ≡ false =
      ground (arith, gone) in
    acquire_session-place id i s'' h.place ∙ rw found refl
