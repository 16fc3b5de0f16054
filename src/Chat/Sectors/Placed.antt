-- ===== src/Chat/Sectors/Placed.antt =====
-- When the sectors and the players agree on who stands where.
use iocp_model_server.Base.{
  ℕ, List, ◌<◌, ◌≡◌, ◌≢◌, refl, Option, some, ◌==◌, arith, Bool-cases, ◌⊎◌, inl, inr,
}
use iocp_model_server.Chat.{Player, Chat, invalid_sector, set_sector}
use iocp_model_server.Chat.Sectors.Vector.{get_elem?}

-- A player that the map of the sessions leads to.
abbrev pub Live : Chat → ℕ → Type 0
Live s p = s.session_map (s.heap p).session_id ≡ some p

-- Each session leads to a player of its own. A player that is in a sector stands in that sector's
-- vector at its `sectorIndex`, and there is no one else in the vectors; `out` is a player that has just left.
pub record IsPlaced (out : Option ℕ) (s : Chat) : Type 0 where
  pub sessions : (k p : ℕ) → s.session_map k ≡ some p → (s.heap p).session_id ≡ k
  pub placed :
      (p : ℕ)
      → Live s p
      → (s.heap p).sector_x ≢ invalid_sector
      → some p ≢ out
      → get_elem? (s.sectors (s.heap p).sector_y (s.heap p).sector_x) (s.heap p).sector_index
        ≡ some p
  pub listed :
      (y x i p : ℕ)
      → get_elem? (s.sectors y x) i ≡ some p
      → Live s p
        × (some p ≢ out)
        × ((s.heap p).sector_x ≡ x)
        × ((s.heap p).sector_y ≡ y)
        × ((s.heap p).sector_index ≡ i)
        × (x < 50)
        × (y < 50)

-- What identifies a player, and stays the same in moves.
pub record SamePlayer (p q : Player) : Type 0 where
  pub session_id : p.session_id ≡ q.session_id
  pub account_no : p.account_no ≡ q.account_no
  pub is_login : p.is_login ≡ q.is_login
  pub id : p.id ≡ q.id
  pub nickname : p.nickname ≡ q.nickname

pub set_sector_here : (f : ℕ → ℕ → List ℕ) (y x : ℕ) (v : List ℕ) → set_sector f y x v y x ≡ v
unfolding set_sector
set_sector_here f y x v = ground arith

pub set_sector_there :
    (f : ℕ → ℕ → List ℕ) (y x : ℕ) (v : List ℕ) (j i : ℕ)
    → ((j ≡ y) → (i ≡ x) → j ≢ j)
    → set_sector f y x v j i ≡ f j i
unfolding set_sector
set_sector_there f y x v j i h = elim (Bool-cases (j == y)) [
  | inr e ↦ rw e refl
  | inl e ↦ elim (Bool-cases (i == x)) [
    | inr e' ↦ rw (e, e') refl
    | inl e' ↦ absurd (h (ground arith) (ground arith) refl)
  ]
]

pub same_sector : (y x j i : ℕ) → ((j ≡ y) × (i ≡ x)) ⊎ ((j ≡ y) → (i ≡ x) → j ≢ j)
same_sector y x j i = elim (Bool-cases (j == y)) [
  | inr e ↦ inr (λ same. absurd (ground arith))
  | inl e ↦ elim (Bool-cases (i == x)) [
    | inr e' ↦ inr (λ same same'. absurd (ground arith))
    | inl e' ↦ inl (ground arith, ground arith)
  ]
]

pub some-inj : (a b : ℕ) → some a ≡ some b → a ≡ b
some-inj a b e = ground arith
