-- ===== src/Stack/Pop.antt =====
-- The steps of `Pop`.
use iocp_model_server.Base.{
  ℕ, ◌+◌, ◌-◌, ◌%◌, ◌^◌, ◌<◌, ◌≡◌, refl, sym, ap, subst, ◌∙◌, List, [], ◌∷◌, length, arith, set,
  set_here, set_there, ◌==◌, if◌then◌else◌, Bool-cases, inl, inr,
}
use iocp_model_server.Stack.{
  spare, mine, Memory, idle, popping, pop_read, pop_swap, popped, System, get_pointer, get_tag,
  make_tagged, read_pop, swap_pop, return_pop, quiet, took, saw_empty,
}
use iocp_model_server.Stack.Tagged.{get_pointer-make_tagged, get_tag-make_tagged}
use iocp_model_server.Stack.Linked.{
  Holds, Seen, Owns, Local, IsLinked, Holds-frame, stepped-IsLinked, unseen-IsLinked,
}
use iocp_model_server.Stack.Spots.{
  Follows, mine-stacked, mine-mine, stacked-stacked, apart, next_tag, no_wrap, pointer_small,
  Holds-small, Holds-spot,
}

-- A pointer that a thread read `seen` exchanges ago is `_Top` again only if there were none.
pub same_version :
    (m : Memory) (tagged seen : ℕ)
    → Seen m tagged seen
    → get_tag m.top ≡ m.version % 2 ^ 17
    → m.version < seen + 2 ^ 17
    → m.top ≡ tagged
    → seen ≡ m.version
unfolding Seen
same_version m tagged seen (early, tag, top) now few same =
    no_wrap seen m.version early few (sym tag ∙ ap get_tag (sym same) ∙ now)

-- The exchange of `Pop`, when it succeeds.
pub pop-IsLinked :
    (s : System) (xs : List ℕ) (t tagged seen next : ℕ)
    → IsLinked s xs
    → s.threads t ≡ pop_swap tagged seen next
    → s.memory.version < seen + 2 ^ 17
    → s.memory.top ≡ tagged
    → (ys : List ℕ) × (xs ≡ s.memory.value_at (get_pointer tagged) ∷ ys)
      × IsLinked
          (record {
            memory = record s.memory {
              top = make_tagged (get_tag tagged + 1) next;
              version = s.memory.version + 1;
              spot = set s.memory.spot (get_pointer tagged) (mine t);
              size = s.memory.size - 1;
            };
            threads =
                set s.threads t
                  (popped (get_pointer tagged) (s.memory.value_at (get_pointer tagged)));
          })
          ys
unfolding Local Owns
pop-IsLinked s xs t tagged seen next h at_swap few same =
    let m = s.memory in
    let node = get_pointer tagged in
    let held : Local m t (pop_swap tagged seen next) = subst (Local m t) at_swap (h.local t) in
    let now : seen ≡ m.version = same_version m tagged seen held.1 h.tag few same in
    let link : next ≡ m.next node = held.2 now in
    let at_top : get_pointer m.top ≡ node = ap get_pointer same in
    let found = Holds-spot m node xs (subst (λ a. Holds m a xs) at_top h.holds) held.0 in
    let x = found.0 in
    let ys = found.1 in
    let rest : Holds m next ys = subst (λ a. Holds m a ys) (sym link) found.5 in
    let m' : Memory = record m {
      top = make_tagged (get_tag tagged + 1) next;
      version = m.version + 1;
      spot = set m.spot node (mine t);
      size = m.size - 1;
    } in
    (
      ys,
      found.2 ∙ ap (λ v. v ∷ ys) (sym found.4),
      stepped-IsLinked s xs ys t (popped node (m.value_at node)) m' h
          (λ u j differ e. (
            set_there m.spot node (mine t) j (apart m node j found.3 e (λ z. mine-stacked (sym z)))
                ∙ e,
            refl,
            refl,
          ))
          (omega arith) (λ e. absurd (omega (arith, e)))
          (set_here m.spot node (mine t), held.0, pointer_small tagged, refl)
          (subst (λ a. Holds m' a ys)
            (sym (get_pointer-make_tagged (get_tag tagged + 1) next (Holds-small m next ys rest)))
            (Holds-frame m m' next ys
              (λ j k lt e. (
                set_there m.spot node (mine t) j (apart m node j found.3 e (stacked-stacked lt))
                    ∙ e,
                refl,
                refl,
              ))
              rest))
          (omega (arith, h.high, ap length found.2))
          (get_tag-make_tagged (get_tag tagged + 1) next
            ∙ next_tag tagged m.version (ap get_tag (sym same) ∙ h.tag)),
    )

pub return_pop-IsLinked :
    (s : System) (xs : List ℕ) (t node value : ℕ)
    → IsLinked s xs
    → s.threads t ≡ popped node value
    → (value ≡ s.memory.value_at node) × IsLinked (return_pop t node s) xs
unfolding return_pop Local Owns
return_pop-IsLinked s xs t node value h at_end =
    let m = s.memory in
    let owns : Local m t (popped node value) = subst (Local m t) at_end (h.local t) in
    let m' : Memory = record m { spot = set m.spot node spare } in
    (
      sym owns.3,
      stepped-IsLinked s xs xs t idle m' h
          (λ u j differ e. (
            set_there m.spot node spare j (apart m node j owns.0 e (mine-mine differ)) ∙ e,
            refl,
            refl,
          ))
          (omega arith) (λ e. (refl, λ z. refl)) refl
          (Holds-frame m m' (get_pointer m.top) xs
            (λ j k lt e. (
              set_there m.spot node spare j (apart m node j owns.0 e mine-stacked) ∙ e,
              refl,
              refl,
            ))
            h.holds)
          h.high h.tag,
    )

pub read_pop-Follows :
    (s : System) (xs : List ℕ) (t : ℕ)
    → IsLinked s xs
    → (ys : List ℕ) × Follows (if get_pointer s.memory.top == 0 then saw_empty else quiet) xs ys
      × IsLinked (read_pop t s) ys
unfolding read_pop Follows Local Seen Holds
read_pop-Follows s xs t h = elim (Bool-cases (get_pointer s.memory.top == 0)) [
  | inl e ↦ rw e (xs, (nothing xs (ground arith) h.holds, refl), unseen-IsLinked s xs t idle h refl)
  | inr e ↦ rw e (
    xs,
    refl,
    unseen-IsLinked s xs t (pop_read s.memory.top s.memory.version) h
        (ground arith, (omega arith, h.tag, λ z. refl)),
  )
]
  where
    nothing :
        (zs : List ℕ)
        → get_pointer s.memory.top ≡ 0
        → Holds s.memory (get_pointer s.memory.top) zs
        → zs ≡ []
    nothing [] e there = refl
    nothing (z ∷ zs) e there = absurd (there.0 e)

pub swap_pop-Follows :
    (s : System) (xs : List ℕ) (t tagged seen next : ℕ)
    → IsLinked s xs
    → s.threads t ≡ pop_swap tagged seen next
    → s.memory.version < seen + 2 ^ 17
    → (ys : List ℕ) × Follows
        (if s.memory.top == tagged then took (s.memory.value_at (get_pointer tagged)) else quiet)
        xs
        ys
      × IsLinked (swap_pop t tagged next s) ys
unfolding swap_pop Follows Local
swap_pop-Follows s xs t tagged seen next h at_swap few =
    elim (Bool-cases (s.memory.top == tagged)) [
      | inl e ↦
          let done = pop-IsLinked s xs t tagged seen next h at_swap few (ground arith) in
          rw e (done.0, done.1, done.2)
      | inr e ↦ rw e (xs, refl, unseen-IsLinked s xs t popping h refl)
    ]
