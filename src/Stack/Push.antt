-- ===== src/Stack/Push.antt =====
-- The steps of `Push`.
use iocp_model_server.Base.{
  ℕ, ◌+◌, ◌^◌, ◌<◌, ◌≡◌, ◌≢◌, refl, sym, ap, subst, ◌∙◌, List, ◌∷◌, arith, set, set_here, set_there,
  ◌==◌, if◌then◌else◌, Bool-cases, inl, inr,
}
use iocp_model_server.Stack.{
  spare, mine, stacked, Memory, idle, pushing, push_swap, System, get_pointer, get_tag, make_tagged,
  begin_push, read_push, swap_push, quiet, pushed,
}
use iocp_model_server.Stack.Tagged.{get_pointer-make_tagged, get_tag-make_tagged}
use iocp_model_server.Stack.Linked.{
  Holds, Owns, Local, IsLinked, Holds-frame, stepped-IsLinked, unseen-IsLinked,
}
use iocp_model_server.Stack.Spots.{
  Follows, spare-mine, spare-stacked, mine-stacked, mine-mine, apart, next_tag, Holds-spot,
}

pub begin_push-IsLinked :
    (s : System) (xs : List ℕ) (t node value : ℕ)
    → IsLinked s xs
    → s.memory.spot node ≡ spare
    → node ≢ 0
    → node < 2 ^ 47
    → IsLinked (begin_push t node value s) xs
unfolding begin_push Local Owns
begin_push-IsLinked s xs t node value h here some_node small =
    let m = s.memory in
    let m' : Memory = record m {
      value_at = set m.value_at node value;
      spot = set m.spot node (mine t);
    } in
    stepped-IsLinked s xs xs t (pushing node value) m' h
      (λ u j differ e.
        let other = apart m node j here e spare-mine in
        (set_there m.spot node (mine t) j other ∙ e, refl, set_there m.value_at node value j other))
      (omega arith) (λ e. (refl, λ z. refl))
      (set_here m.spot node (mine t), some_node, small, set_here m.value_at node value)
      (Holds-frame m m' (get_pointer m.top) xs
        (λ j k lt e.
          let other = apart m node j here e spare-stacked in
          (
            set_there m.spot node (mine t) j other ∙ e,
            refl,
            set_there m.value_at node value j other,
          ))
        h.holds)
      h.high h.tag

pub read_push-IsLinked :
    (s : System) (xs : List ℕ) (t node value : ℕ)
    → IsLinked s xs
    → s.threads t ≡ pushing node value
    → IsLinked (read_push t node value s) xs
unfolding read_push Local Owns
read_push-IsLinked s xs t node value h at_loop =
    let m = s.memory in
    let owns : Local m t (pushing node value) = subst (Local m t) at_loop (h.local t) in
    let m' : Memory = record m { next = set m.next node (get_pointer m.top) } in
    stepped-IsLinked s xs xs t (push_swap node value m.top) m' h
      (λ u j differ e. (
        e,
        set_there m.next node (get_pointer m.top) j (apart m node j owns.0 e (mine-mine differ)),
        refl,
      ))
      (omega arith)
      (λ e. (
        refl,
        λ some_node. set_there m.next node (get_pointer m.top) (get_pointer m.top) (
            apart m node (get_pointer m.top) owns.0
              (Holds-spot m (get_pointer m.top) xs h.holds some_node).3 mine-stacked),
      ))
      (owns, set_here m.next node (get_pointer m.top))
      (Holds-frame m m' (get_pointer m.top) xs
        (λ j k lt e. (
          e,
          set_there m.next node (get_pointer m.top) j (apart m node j owns.0 e mine-stacked),
          refl,
        ))
        h.holds)
      h.high h.tag

-- The exchange of `Push`, when it succeeds.
pub push-IsLinked :
    (s : System) (xs : List ℕ) (t node value tagged : ℕ)
    → IsLinked s xs
    → s.threads t ≡ push_swap node value tagged
    → s.memory.top ≡ tagged
    → IsLinked
        (record {
          memory = record s.memory {
            top = make_tagged (get_tag tagged + 1) node;
            version = s.memory.version + 1;
            spot = set s.memory.spot node (stacked s.memory.size);
            size = s.memory.size + 1;
          };
          threads = set s.threads t idle;
        })
        (value ∷ xs)
unfolding Local Owns Holds
push-IsLinked s xs t node value tagged h at_swap same =
    let m = s.memory in
    let held : Local m t (push_swap node value tagged) = subst (Local m t) at_swap (h.local t) in
    let pl = stacked m.size in
    let m' : Memory = record m {
      top = make_tagged (get_tag tagged + 1) node;
      version = m.version + 1;
      spot = set m.spot node pl;
      size = m.size + 1;
    } in
    let owns = held.0 in
    let here : get_pointer (make_tagged (get_tag tagged + 1) node) ≡ node =
      get_pointer-make_tagged (get_tag tagged + 1) node owns.2 in
    stepped-IsLinked s xs (value ∷ xs) t idle m' h
      (λ u j differ e.
        (set_there m.spot node pl j (apart m node j owns.0 e (mine-mine differ)) ∙ e, refl, refl))
      (omega arith) (λ e. absurd (omega (arith, e))) refl
      (subst (λ a. Holds m' a (value ∷ xs)) (sym here)
        (
          owns.1,
          owns.2,
          set_here m.spot node pl ∙ ap stacked h.high,
          owns.3,
          subst (λ a. Holds m' a xs) (sym (held.1 ∙ ap get_pointer (sym same)))
              (Holds-frame m m' (get_pointer m.top) xs
                (λ j k lt e. (
                  set_there m.spot node pl j (apart m node j owns.0 e mine-stacked) ∙ e,
                  refl,
                  refl,
                ))
                h.holds),
        ))
      (omega (arith, h.high))
      (get_tag-make_tagged (get_tag tagged + 1) node
        ∙ next_tag tagged m.version (ap get_tag (sym same) ∙ h.tag))

pub swap_push-Follows :
    (s : System) (xs : List ℕ) (t node value tagged : ℕ)
    → IsLinked s xs
    → s.threads t ≡ push_swap node value tagged
    → (ys : List ℕ) × Follows (if s.memory.top == tagged then pushed value else quiet) xs ys
      × IsLinked (swap_push t node value tagged s) ys
unfolding swap_push Follows Local
swap_push-Follows s xs t node value tagged h at_swap = elim (Bool-cases (s.memory.top == tagged)) [
  | inl e ↦ rw e (value ∷ xs, refl, push-IsLinked s xs t node value tagged h at_swap (ground arith))
  | inr e ↦ rw e (
    xs,
    refl,
    unseen-IsLinked s xs t (pushing node value) h (subst (Local s.memory t) at_swap (h.local t)).0,
  )
]
