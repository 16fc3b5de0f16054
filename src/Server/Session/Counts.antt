-- ===== src/Server/Session/Counts.antt =====
-- What the count is worth, in every order of the threads' steps.
use iocp_model_server.Base.{
  ℕ, ◌+◌, ◌-◌, ◌^◌, ◌<◌, ◌≤◌, ◌≡◌, refl, false, ◌==◌, arith, Bool-cases, ◌⊎◌, inl, inr,
}
use iocp_model_server.Server.Session.{
  increment, decrement, is_released, Phase, unused, opening, active, Slot, start, acquire,
  return_session, release_session, take_place, open_session, post, Room, Step, acquires, gets,
  finishes, differs, gives_up, closes, takes, opens, posts, Reach, initially, later,
}

-- The word is the number of references, with the flag unless the session is in use. Nobody uses a
-- session that is not; one that nobody refers to has someone who is about to release it; and each
-- accepted session but the one in use has been released once.
pub record IsCounted (s : Slot) : Type 0 where
  pub while_unused :
      s.phase ≡ unused
      → (s.users ≡ 0) × (s.seen ≡ 0) × (s.io_count ≡ 2 ^ 31 + s.refused) × (s.accepts ≡ s.releases)
  pub while_opening :
      s.phase ≡ opening
      → (s.users ≡ 0)
        × (s.seen ≡ 0)
        × (s.io_count ≡ 2 ^ 31 + s.refused + 1)
        × (s.accepts ≡ s.releases)
        × (s.refused + 1 < 2 ^ 31 - 1)
  pub while_active :
      s.phase ≡ active
      → (s.io_count ≡ s.users + s.seen + s.refused)
        × (s.io_count ≡ 0 → 0 < s.closers)
        × (s.accepts ≡ s.releases + 1)
  pub bound : s.users + s.seen + s.refused < 2 ^ 31 - 1

start-IsCounted : IsCounted start
start-IsCounted = record {
  while_unused = λ e. ground arith;
  while_opening = λ e. absurd (ground arith);
  while_active = λ e. absurd (ground arith);
  bound = omega arith;
}

gets-IsCounted :
    {s : Slot}
    → IsCounted s
    → 0 < s.seen
    → IsCounted (record s { seen = s.seen - 1; users = s.users + 1 })
gets-IsCounted {s} c h = record {
  while_unused = λ e. let (a, b, d, f) = c.while_unused e in absurd (omega arith);
  while_opening = λ e. let (a, b, d, f, _) = c.while_opening e in absurd (omega arith);
  while_active = λ e. let (a, b, d) = c.while_active e in (omega arith, b, d);
  bound = let k = c.bound in omega arith;
}

post-IsCounted : {s : Slot} → IsCounted s → 0 < s.users → Room s → IsCounted (post s)
unfolding post
post-IsCounted {s} c h k = record {
  while_unused = λ e. let (a, b, d, f) = c.while_unused e in absurd (omega arith);
  while_opening = λ e. let (a, b, d, f, _) = c.while_opening e in absurd (omega arith);
  while_active =
      λ e. let (a, b, d) = c.while_active e in (omega arith, λ z. absurd (omega arith), d);
  bound = omega arith;
}

open_session-IsCounted : {s : Slot} → IsCounted s → s.phase ≡ opening → IsCounted (open_session s)
unfolding open_session
open_session-IsCounted {s} c h =
    let (a, b, d, f, k) = c.while_opening h in
    record {
      while_unused = λ e. absurd (ground arith);
      while_opening = λ e. absurd (ground arith);
      while_active = λ e. (omega arith, λ z. absurd (omega arith), omega arith);
      bound = omega arith;
    }

take_place-IsCounted :
    {s : Slot} → IsCounted s → s.phase ≡ unused → Room s → IsCounted (take_place s)
unfolding take_place
take_place-IsCounted {s} c h k =
    let (a, b, d, f) = c.while_unused h in
    record {
      while_unused = λ e. absurd (ground arith);
      while_opening = λ e. (a, b, omega arith, f, omega arith);
      while_active = λ e. absurd (ground arith);
      bound = omega arith;
    }

acquire-IsCounted : {s : Slot} → IsCounted s → Room s → IsCounted (acquire s)
unfolding acquire
acquire-IsCounted {s} c k = elim (Bool-cases (is_released (increment s.io_count))) [
  | inl e ↦ rw e (record {
    while_unused = λ h. let (a, b, d, f) = c.while_unused h in (a, b, omega arith, f);
    while_opening =
        λ h. let (a, b, d, f, g) = c.while_opening h in (a, b, omega arith, f, omega arith);
    while_active = λ h. let (a, b, d) = c.while_active h in absurd (ground arith);
    bound = omega arith;
  })
  | inr e ↦ rw e (record {
    while_unused = λ h. let (a, b, d, f) = c.while_unused h in absurd (ground arith);
    while_opening = λ h. let (a, b, d, f, g) = c.while_opening h in absurd (ground arith);
    while_active =
        λ h. let (a, b, d) = c.while_active h in (omega arith, λ z. absurd (omega arith), d);
    bound = omega arith;
  })
]

-- A reference less than before.
return_session-IsCounted :
    {s : Slot} (u v r : ℕ)
    → IsCounted s
    → u ≤ s.users
    → v ≤ s.seen
    → u + v + r + 1 ≡ s.users + s.seen + s.refused
    → r ≤ s.refused
    → IsCounted (return_session (record s { users = u; seen = v; refused = r }))
unfolding return_session
return_session-IsCounted {s} u v r c hu hv total hr =
    elim (Bool-cases (decrement s.io_count == 0)) [
      | inl e ↦ rw e (record {
        while_unused = λ h. let (a, b, d, f) = c.while_unused h in absurd (ground arith);
        while_opening = λ h. let (a, b, d, f, g) = c.while_opening h in absurd (ground arith);
        while_active = λ h. let (a, b, d) = c.while_active h in (omega arith, λ z. omega arith, d);
        bound = let k = c.bound in omega arith;
      })
      | inr e ↦ rw e (record {
        while_unused =
            λ h. let (a, b, d, f) = c.while_unused h in (omega arith, omega arith, omega arith, f);
        while_opening = λ h.
            let (a, b, d, f, g) = c.while_opening h in
            (omega arith, omega arith, omega arith, f, omega arith);
        while_active =
            λ h. let (a, b, d) = c.while_active h in (omega arith, λ z. absurd (ground arith), d);
        bound = let k = c.bound in omega arith;
      })
    ]

Phase-cases : (p : Phase) → (p ≡ unused) ⊎ (p ≡ opening) ⊎ (p ≡ active)
Phase-cases unused = inl refl
Phase-cases opening = inr (inl refl)
Phase-cases active = inr (inr refl)

-- Only a session in use has the count 0, and then nobody refers to it.
at_zero :
    {s : Slot}
    → IsCounted s
    → s.io_count ≡ 0
    → (s.users ≡ 0) × (s.seen ≡ 0) × (2 ^ 31 ≡ 2 ^ 31 + s.refused) × (s.accepts ≡ s.releases + 1)
at_zero {s} c z = elim (Phase-cases s.phase) [
  | inl h ↦ let (a, b, d, f) = c.while_unused h in absurd (omega arith)
  | inr rest ↦ elim rest [
    | inl h ↦ let (a, b, d, f, g) = c.while_opening h in absurd (omega arith)
    | inr h ↦ let (a, b, d) = c.while_active h in (omega arith, omega arith, omega arith, d)
  ]
]

release_session-IsCounted : {s : Slot} → IsCounted s → 0 < s.closers → IsCounted (release_session s)
unfolding release_session
release_session-IsCounted {s} c h = elim (Bool-cases (s.io_count == 0)) [
  | inl e ↦ rw e (record {
    while_unused = λ h. at_zero c (ground arith);
    while_opening = λ h. absurd (ground arith);
    while_active = λ h. absurd (ground arith);
    bound = c.bound;
  })
  | inr e ↦ rw e (record {
    while_unused = c.while_unused;
    while_opening = c.while_opening;
    while_active = λ h. let (a, b, d) = c.while_active h in (a, λ z. absurd (ground arith), d);
    bound = c.bound;
  })
]

Step-IsCounted : {s t : Slot} → Step s t → IsCounted s → IsCounted t
Step-IsCounted (acquires k) c = acquire-IsCounted c k
Step-IsCounted (gets h) c = gets-IsCounted c h
Step-IsCounted {s} (finishes h) c =
    return_session-IsCounted (s.users - 1) s.seen s.refused c (omega arith) (omega arith)
      (omega arith) (omega arith)
Step-IsCounted {s} (differs h) c =
    return_session-IsCounted s.users (s.seen - 1) s.refused c (omega arith) (omega arith)
      (omega arith) (omega arith)
Step-IsCounted {s} (gives_up h) c =
    return_session-IsCounted s.users s.seen (s.refused - 1) c (omega arith) (omega arith)
      (omega arith) (omega arith)
Step-IsCounted (closes h) c = release_session-IsCounted c h
Step-IsCounted (takes h k) c = take_place-IsCounted c h k
Step-IsCounted (opens h) c = open_session-IsCounted c h
Step-IsCounted (posts h k) c = post-IsCounted c h k

-- In every order of the threads' steps the word counts the references, nobody uses a session that
-- is not in use, one that nobody refers to has someone who is about to release it, and each
-- accepted session but the one in use has been released once.
pub Reach-IsCounted : {s : Slot} → Reach s → IsCounted s
Reach-IsCounted initially = start-IsCounted
Reach-IsCounted (later r step) = Step-IsCounted step (Reach-IsCounted r)

-- A session that someone has is in use, and is not released: whoever compares its count with 0 then
-- gives nothing back.
pub Reach-users :
    {s : Slot}
    → Reach s
    → 0 < s.users
    → (s.phase ≡ active) × (release_session s ≡ record s { closers = s.closers - 1 })
unfolding release_session
Reach-users {s} r h =
    let c = Reach-IsCounted r in
    elim (Phase-cases s.phase) [
      | inl e ↦ let (a, b, d, f) = c.while_unused e in absurd (omega arith)
      | inr rest ↦ elim rest [
        | inl e ↦ let (a, b, d, f, g) = c.while_opening e in absurd (omega arith)
        | inr e ↦
            let (a, b, d) = c.while_active e in
            let taken : (s.io_count == 0) ≡ false = ground arith in (e, rw taken refl)
      ]
    ]
