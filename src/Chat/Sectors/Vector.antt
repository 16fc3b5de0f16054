-- ===== src/Chat/Sectors/Vector.antt =====
-- `std::vector<Player*>` as far as the chat server uses it.
use iocp_model_server.Base.{
  ℕ, zero, suc, ◌-◌, ◌<◌, ◌≡◌, refl, ap, List, [], ◌∷◌, ◌++◌, Option, none, some, ltb, ◌==◌,
  if◌then◌else◌, arith, length, take, ◌>>=◌,
}

unfoldable pub get_elem? : List ℕ → ℕ → Option ℕ
get_elem? [] i = none
get_elem? (x ∷ xs) zero = some x
get_elem? (x ∷ xs) (suc i) = get_elem? xs i

-- `back`
abbrev pub back : List ℕ → Option ℕ
back xs = get_elem? xs (length xs - 1)

-- An assignment to an element.
unfoldable pub put_elem : List ℕ → ℕ → ℕ → Option (List ℕ)
put_elem [] i v = none
put_elem (x ∷ xs) zero v = some (v ∷ xs)
put_elem (x ∷ xs) (suc i) v = do rest ← put_elem xs i v; some (x ∷ rest)

-- `pop_back`
abbrev pub pop_back : List ℕ → List ℕ
pop_back xs = take (length xs - 1) xs

pub get_elem?-lt : (xs : List ℕ) (i : ℕ) {v : ℕ} → get_elem? xs i ≡ some v → i < length xs
unfolding get_elem?
get_elem?-lt [] i e = ground arith
get_elem?-lt (x ∷ xs) zero e = omega arith
get_elem?-lt (x ∷ xs) (suc i) e = omega (arith, get_elem?-lt xs i e)

pub lt-get_elem? : (xs : List ℕ) (i : ℕ) → i < length xs → (v : ℕ) × (get_elem? xs i ≡ some v)
unfolding get_elem?
lt-get_elem? [] i h = absurd (omega arith)
lt-get_elem? (x ∷ xs) zero h = (x, refl)
lt-get_elem? (x ∷ xs) (suc i) h = lt-get_elem? xs i (omega arith)

pub get_elem?-append :
    (xs : List ℕ) (v i : ℕ)
    → get_elem? (xs ++ v ∷ []) i
      ≡ (if ltb i (length xs) then get_elem? xs i else (if i == length xs then some v else none))
unfolding get_elem?
get_elem?-append [] v zero = refl
get_elem?-append [] v (suc i) = ground arith
get_elem?-append (x ∷ xs) v zero = ground arith
get_elem?-append (x ∷ xs) v (suc i) = ground (arith, get_elem?-append xs v i)

pub get_elem?-take :
    (n : ℕ) (xs : List ℕ) (i : ℕ)
    → get_elem? (take n xs) i ≡ (if ltb i n then get_elem? xs i else none)
unfolding get_elem?
get_elem?-take zero xs i = ground arith
get_elem?-take (suc n) [] i = ground arith
get_elem?-take (suc n) (x ∷ xs) zero = ground arith
get_elem?-take (suc n) (x ∷ xs) (suc i) = ground (arith, get_elem?-take n xs i)

pub put_elem_lem :
    (xs : List ℕ) (i v : ℕ)
    → i < length xs
    → (ys : List ℕ) × (put_elem xs i v ≡ some ys)
      × (length ys ≡ length xs)
      × ((j : ℕ) → get_elem? ys j ≡ (if j == i then some v else get_elem? xs j))
unfolding get_elem? put_elem
put_elem_lem [] i v h = absurd (omega arith)
put_elem_lem (x ∷ xs) zero v h = (v ∷ xs, refl, refl, at)
  where
    at : (j : ℕ) → get_elem? (v ∷ xs) j ≡ (if j == 0 then some v else get_elem? (x ∷ xs) j)
    at zero = refl
    at (suc j) = ground arith
put_elem_lem (x ∷ xs) (suc i) v h =
    let (ys, put, same, old) = put_elem_lem xs i v (omega arith) in
    (x ∷ ys, rw put refl, ap suc same, at ys old)
  where
    at :
        (ys : List ℕ)
        → ((j : ℕ) → get_elem? ys j ≡ (if j == i then some v else get_elem? xs j))
        → (j : ℕ) → get_elem? (x ∷ ys) j ≡ (if j == suc i then some v else get_elem? (x ∷ xs) j)
    at ys old zero = ground arith
    at ys old (suc j) = ground (arith, old j)
