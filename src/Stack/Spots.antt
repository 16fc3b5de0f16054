-- ===== src/Stack/Spots.antt =====
-- The steps of a stack of values, and when two nodes of the shared stack differ.
use iocp_model_server.Base.{
  ℕ, ◌+◌, ◌%◌, ◌^◌, ◌≤◌, ◌<◌, ◌≡◌, ◌≢◌, refl, sym, ap, ◌∙◌, List, [], ◌∷◌, length, arith,
}
use iocp_model_server.Stack.{
  Spot, spare, mine, stacked, Memory, get_pointer, get_tag, Event, quiet, pushed, took, saw_empty,
  returned,
}
use iocp_model_server.Stack.Linked.{Holds}

-- A stack of values, before and after an event.
unfoldable pub Follows : Event → List ℕ → List ℕ → Type 0
Follows quiet xs ys = ys ≡ xs
Follows (pushed x) xs ys = ys ≡ x ∷ xs
Follows (took x) xs ys = xs ≡ x ∷ ys
Follows saw_empty xs ys = (xs ≡ []) × (ys ≡ xs)
Follows (returned x y) xs ys = (x ≡ y) × (ys ≡ xs)

pub spare-mine : {t : ℕ} → spare ≢ mine t
spare-mine e = absurd (ground arith)

pub spare-stacked : {k : ℕ} → spare ≢ stacked k
spare-stacked e = absurd (ground arith)

pub mine-stacked : {t k : ℕ} → mine t ≢ stacked k
mine-stacked e = absurd (ground arith)

pub mine-mine : {t u : ℕ} → u ≢ t → mine t ≢ mine u
mine-mine {t} {u} differ e = differ (ground arith)

pub stacked-stacked : {j k : ℕ} → k < j → stacked j ≢ stacked k
stacked-stacked lt e = absurd (ground arith)

-- Two nodes at different spots are different.
pub apart : (m : Memory) (i j : ℕ) {x y : Spot} → m.spot i ≡ x → m.spot j ≡ y → x ≢ y → j ≢ i
apart m i j ei ej differ e = differ (sym ei ∙ ap m.spot (sym e) ∙ ej)

pub next_tag :
    (tagged version : ℕ)
    → get_tag tagged ≡ version % 2 ^ 17
    → (get_tag tagged + 1) % 2 ^ 17 ≡ (version + 1) % 2 ^ 17
next_tag tagged version e = omega (arith, e)

pub no_wrap :
    (seen version : ℕ)
    → seen ≤ version
    → version < seen + 2 ^ 17
    → seen % 2 ^ 17 ≡ version % 2 ^ 17
    → seen ≡ version
no_wrap seen version early few e = omega (arith, early, few, e)

pub pointer_small : (tagged : ℕ) → get_pointer tagged < 2 ^ 47
unfolding get_pointer
pointer_small tagged = omega arith

pub Holds-small : (m : Memory) (a : ℕ) (xs : List ℕ) → Holds m a xs → a < 2 ^ 47
unfolding Holds
Holds-small m a [] h = omega (arith, h)
Holds-small m a (x ∷ xs) h = h.1

pub Holds-spot :
    (m : Memory) (a : ℕ) (xs : List ℕ)
    → Holds m a xs
    → a ≢ 0
    → (x : ℕ) × (ys : List ℕ) × (xs ≡ x ∷ ys)
      × (m.spot a ≡ stacked (length ys))
      × (m.value_at a ≡ x)
      × Holds m (m.next a) ys
unfolding Holds
Holds-spot m a [] h differ = absurd (differ h)
Holds-spot m a (x ∷ xs) (some_node, small, here, value, rest) differ =
    (x, xs, refl, here, value, rest)
