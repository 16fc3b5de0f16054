-- ===== src/Server/Sessions/Numbers.antt =====
-- The numbers and the places of sessions, in every state of the server.
use iocp_model_server.Base.{
  ℕ, zero, suc, ◌+◌, ◌/◌, ◌^◌, ◌≤◌, ◌<◌, ◌≡◌, ◌⊎◌, inl, inr, refl, sym, ap, subst, ◌∙◌, Bool, true,
  false, ◌||◌, Bool-cases, List, [], ◌∷◌, In, none, some, ltb, ◌==◌, arith, set, set_here,
  set_there, set_all, set_both,
}
use iocp_model_server.Server.Sessions.{
  index_of, make_id, Server, push_indices, started, start, accept_from, init_session, accept,
  release, Step, accepts, releases, Later, now, later,
}

-- The generator that a number was made from.
pub generator_of : ℕ → ℕ
generator_of id = id / 2 ^ 16

index_of-make_id : (g i : ℕ) → i < 2 ^ 16 → index_of (make_id g i) ≡ i
unfolding index_of make_id
index_of-make_id g i small = omega (arith, small)

pub generator_of-make_id : (g i : ℕ) → i < 2 ^ 16 → g < 2 ^ 48 → generator_of (make_id g i) ≡ g
unfolding generator_of make_id
generator_of-make_id g i small few = omega (arith, small, few)

pub IsApart : List ℕ → Type 0
IsApart [] = In 0 [] → ⊥
IsApart (x ∷ xs) = (In x xs → ⊥) × IsApart xs

-- The places in the stack are free ones, each there once, and the numbers are made as they should.
pub record IsNumbered (s : Server) : Type 0 where
  pub few : s.max_session_count ≤ 2 ^ 16
  pub made :
      (i : ℕ) → s.live i ≡ true → (i < s.max_session_count) × (index_of (s.session_ids i) ≡ i)
  pub past : (i : ℕ) → generator_of (s.session_ids i) ≤ s.session_id_generator
  pub unused : (i : ℕ) → In i s.index_stack → (i < s.max_session_count) × (s.live i ≡ false)
  pub apart : IsApart s.index_stack

init_session-IsNumbered :
    (index : ℕ) (rest : List ℕ) (s : Server)
    → IsNumbered s
    → s.index_stack ≡ index ∷ rest
    → s.session_id_generator + 1 < 2 ^ 48
    → IsNumbered (init_session index rest s)
unfolding init_session IsApart
init_session-IsNumbered index rest s h stack room =
    let g = s.session_id_generator + 1 in
    let id = make_id g index in
    let found = h.unused index (subst (In index) (sym stack) (inl refl)) in
    let small : index < 2 ^ 16 = omega (arith, found.0, h.few) in
    let there = subst IsApart stack h.apart in
    record {
      few = h.few;
      made =
          set_both (λ i v b. b ≡ true → (i < s.max_session_count) × (index_of v ≡ i)) s.session_ids
            s.live index id true (λ e. (found.0, index_of-make_id g index small))
            (λ i differ. h.made i);
      past =
          set_all (λ i v. generator_of v ≤ g) s.session_ids index id
            (omega (arith, generator_of-make_id g index small room))
            (λ i differ. omega (arith, h.past i));
      unused = λ i e.
          let was = h.unused i (subst (In i) (sym stack) (inr e)) in
          (
            was.0,
            set_there s.live index true i (λ same. there.0 (subst (λ k. In k rest) same e)) ∙ was.1,
          );
      apart = there.1;
    }

accept_from-IsNumbered :
    (allowed : Bool) (stack : List ℕ) (s : Server)
    → IsNumbered s
    → s.index_stack ≡ stack
    → s.session_id_generator + 1 < 2 ^ 48
    → IsNumbered (accept_from allowed stack s)
unfolding accept_from
accept_from-IsNumbered allowed [] s h e room = h
accept_from-IsNumbered true (index ∷ rest) s h e room =
    init_session-IsNumbered index rest s h e room
accept_from-IsNumbered false (index ∷ rest) s h e room =
    subst (λ k. IsNumbered (record s { index_stack = k })) e h

pub release-IsNumbered :
    (index : ℕ) (s : Server) → IsNumbered s → s.live index ≡ true → IsNumbered (release index s)
unfolding release IsApart
release-IsNumbered index s h alive = record {
  few = h.few;
  made =
      set_all (λ i b. b ≡ true → (i < s.max_session_count) × (index_of (s.session_ids i) ≡ i))
        s.live index false (λ e. absurd (ground arith)) (λ i differ. h.made i);
  past = h.past;
  unused = λ i e. freed i e;
  apart = (λ e. absurd (ground (arith, (h.unused index e).1, alive)), h.apart);
}
  where
    freed :
        (i : ℕ)
        → In i (index ∷ s.index_stack)
        → (i < s.max_session_count) × (set s.live index false i ≡ false)
    freed i (inl e) = (
      subst (λ k. k < s.max_session_count) (sym e) (h.made index alive).0,
      ap (set s.live index false) e ∙ set_here s.live index false,
    )
    freed i (inr e) = (
      (h.unused i e).0,
      set_all (λ j b. s.live j ≡ false → b ≡ false) s.live index false (λ z. refl) (λ j differ z. z)
          i (h.unused i e).1,
    )

Step-IsNumbered : {s s' : Server} → IsNumbered s → Step s s' → IsNumbered s'
unfolding accept
Step-IsNumbered {s} h (accepts allowed room) =
    accept_from-IsNumbered allowed s.index_stack s h refl room
Step-IsNumbered {s} h (releases index alive) = release-IsNumbered index s h alive

pub Later-IsNumbered : {s s' : Server} → IsNumbered s → Later s s' → IsNumbered s'
Later-IsNumbered h now = h
Later-IsNumbered h (later before step) = Step-IsNumbered (Later-IsNumbered h before) step

-- The places that `Start` pushes.
push_indices-In :
    (n i : ℕ) (indices : List ℕ) → In i (push_indices n indices) → (i < n) ⊎ In i indices
unfolding push_indices
push_indices-In zero i indices e = inr e
push_indices-In (suc n) i indices e = elim (push_indices-In n i (n ∷ indices) e) [
  | inl below ↦ inl (omega (arith, below))
  | inr (inl same) ↦ inl (omega (arith, same))
  | inr (inr there) ↦ inr there
]

push_indices-IsApart :
    (n : ℕ) (indices : List ℕ)
    → IsApart indices
    → ((i : ℕ) → In i indices → n ≤ i)
    → IsApart (push_indices n indices)
unfolding push_indices IsApart
push_indices-IsApart zero indices h above = h
push_indices-IsApart (suc n) indices h above =
    push_indices-IsApart n (n ∷ indices) ((λ e. absurd (omega (arith, above n e))), h) over
  where
    over : (i : ℕ) → In i (n ∷ indices) → n ≤ i
    over i (inl same) = omega (arith, same)
    over i (inr there) = omega (arith, above i there)

started-IsNumbered : (max : ℕ) → max ≤ 2 ^ 16 → IsNumbered (started max)
unfolding started IsApart generator_of
started-IsNumbered max few = record {
  few = few;
  made = λ i e. absurd (ground arith);
  past = λ i. omega arith;
  unused = λ i e. elim (push_indices-In max i [] e) [
    | inl below ↦ (below, refl)
    | inr nothing ↦ elim nothing [ ]
  ];
  apart = push_indices-IsApart max [] (λ e. e) (λ i e. elim e [ ]);
}

pub start-IsNumbered : (max : ℕ) (s : Server) → start max ≡ some s → IsNumbered s
unfolding start
start-IsNumbered max s e = elim (Bool-cases ((max == 0) || ltb (2 ^ 16) max)) [
  | inl refused ↦ absurd (ground (arith, rw refused at e))
  | inr fits ↦
      let same : some (started max) ≡ some s = rw fits at e in
      subst IsNumbered (ap (λ o. elim o [ none ↦ started max | some x ↦ x ]) same)
        (started-IsNumbered max (ground (arith, fits)))
]
