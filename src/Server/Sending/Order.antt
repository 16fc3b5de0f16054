-- ===== src/Server/Sending/Order.antt =====
-- One send at a time, in order, and no packet is left behind.
use iocp_model_server.Base.{
  ℕ, ◌+◌, ◌<◌, ◌≤◌, ◌≡◌, refl, sym, ap, ◌∙◌, Bool, true, false, List, [], ◌∷◌, ◌++◌, append-nil,
  append_assoc, length, length-append, ltb, if◌then◌else◌, arith, Bool-cases, inl, inr,
}
use iocp_model_server.Server.Sending.{
  max_send_packet, Sender, start, enqueue_packet, raise_flag, check_size, clear_flag, recheck_size,
  post, fill_with, fill, free_sent, end_send, lose_send, Step, enqueues, raises, checks, clears,
  rechecks, fills, frees, ends, loses, Reach, initially, later,
}

-- The threads and sends that the flag stands for.
abbrev pub holders : Sender → ℕ
holders s = s.checking + s.clearing + s.filling + s.posted + s.failed + s.completing

pub record IsOrdered (s : Sender) : Type 0 where
  pub one : holders s ≡ (if s.is_sending then 1 else 0)
  pub order : s.sent ++ (s.sending_packets ++ s.send_q) ≡ s.queued
  pub cleared : s.filling + s.posted + s.failed ≡ 0 → length s.sending_packets ≡ 0
  pub room : length s.sending_packets ≤ max_send_packet
  pub work : 0 < s.filling → 0 < length s.sending_packets + length s.send_q
  pub nonempty : 0 < s.posted → 0 < length s.sending_packets
  pub awake : 0 < length s.send_q → 0 < holders s + s.entering + s.rechecking

start-IsOrdered : IsOrdered start
start-IsOrdered = ground arith

enqueue_packet-IsOrdered : (p : ℕ) {s : Sender} → IsOrdered s → IsOrdered (enqueue_packet p s)
unfolding enqueue_packet
enqueue_packet-IsOrdered p {s} v = record {
  one = v.one;
  order =
      ap (λ l. s.sent ++ l) (sym (append_assoc s.sending_packets s.send_q (p ∷ [])))
      ∙ sym (append_assoc s.sent (s.sending_packets ++ s.send_q) (p ∷ []))
      ∙ ap (λ l. l ++ p ∷ []) v.order;
  cleared = v.cleared;
  room = v.room;
  work = λ h. omega (arith, length-append s.send_q (p ∷ []));
  nonempty = v.nonempty;
  awake = λ h. omega arith;
}

raise_flag-IsOrdered : {s : Sender} → IsOrdered s → 0 < s.entering → IsOrdered (raise_flag s)
unfolding raise_flag
raise_flag-IsOrdered v h = ground arith

check_size-IsOrdered : {s : Sender} → IsOrdered s → 0 < s.checking → IsOrdered (check_size s)
unfolding check_size
check_size-IsOrdered v h = ground arith

clear_flag-IsOrdered : {s : Sender} → IsOrdered s → 0 < s.clearing → IsOrdered (clear_flag s)
unfolding clear_flag
clear_flag-IsOrdered v h = ground arith

recheck_size-IsOrdered : {s : Sender} → IsOrdered s → 0 < s.rechecking → IsOrdered (recheck_size s)
unfolding recheck_size
recheck_size-IsOrdered v h = ground arith

post-IsOrdered :
    (accepted : Bool) {s : Sender}
    → IsOrdered s
    → 0 < s.filling
    → (0 < length s.send_q → max_send_packet ≤ length s.sending_packets)
    → IsOrdered (post accepted s)
unfolding post
post-IsOrdered true v h full = ground arith
post-IsOrdered false v h full = ground arith

end_send-IsOrdered : {s : Sender} → IsOrdered s → 0 < s.completing → IsOrdered (end_send s)
unfolding end_send
end_send-IsOrdered v h = ground arith

lose_send-IsOrdered : {s : Sender} → IsOrdered s → 0 < s.posted → IsOrdered (lose_send s)
unfolding lose_send
lose_send-IsOrdered v h = ground arith

free_sent-IsOrdered : {s : Sender} → IsOrdered s → 0 < s.posted → IsOrdered (free_sent s)
unfolding free_sent
free_sent-IsOrdered {s} v h = record {
  one = omega (arith, v.one);
  order = append_assoc s.sent s.sending_packets s.send_q ∙ v.order;
  cleared = λ e. refl;
  room = omega arith;
  work = λ k. alone (omega arith) v;
  nonempty = λ k. absurd (alone (omega arith) v);
  awake = λ k. omega arith;
}
  where
    alone : {P : Type 0} → 1 < holders s → IsOrdered s → P
    alone k v = absurd (ground (arith, v.one))

fill_with-IsOrdered :
    (queue : List ℕ) (accepted : Bool) {s : Sender}
    → IsOrdered s
    → 0 < s.filling
    → s.send_q ≡ queue
    → length s.sending_packets < max_send_packet
    → IsOrdered (fill_with queue accepted s)
unfolding fill_with
fill_with-IsOrdered [] accepted v h e below =
    post-IsOrdered accepted v h (λ k. absurd (omega (arith, ap length e)))
fill_with-IsOrdered (p ∷ rest) accepted {s} v h e below =
    let longer = length-append s.sending_packets (p ∷ []) in
    record {
      one = v.one;
      order =
          ap (λ l. s.sent ++ l) (append_assoc s.sending_packets (p ∷ []) rest)
          ∙ ap (λ l. s.sent ++ (s.sending_packets ++ l)) (sym e)
          ∙ v.order;
      cleared = λ k. absurd (omega arith);
      room = omega arith;
      work = λ k. omega arith;
      nonempty = λ k. omega arith;
      awake = λ k. omega arith;
    }

fill-IsOrdered :
    (accepted : Bool) {s : Sender} → IsOrdered s → 0 < s.filling → IsOrdered (fill accepted s)
unfolding fill
fill-IsOrdered accepted {s} v h =
    elim (Bool-cases (ltb (length s.sending_packets) max_send_packet)) [
      | inl e ↦ rw e (fill_with-IsOrdered s.send_q accepted v h refl (ground arith))
      | inr e ↦ rw e (post-IsOrdered accepted v h (λ k. ground arith))
    ]

Step-IsOrdered : {s t : Sender} → Step s t → IsOrdered s → IsOrdered t
Step-IsOrdered (enqueues p) v = enqueue_packet-IsOrdered p v
Step-IsOrdered (raises h) v = raise_flag-IsOrdered v h
Step-IsOrdered (checks h) v = check_size-IsOrdered v h
Step-IsOrdered (clears h) v = clear_flag-IsOrdered v h
Step-IsOrdered (rechecks h) v = recheck_size-IsOrdered v h
Step-IsOrdered (fills accepted h) v = fill-IsOrdered accepted v h
Step-IsOrdered (frees h) v = free_sent-IsOrdered v h
Step-IsOrdered (ends h) v = end_send-IsOrdered v h
Step-IsOrdered (loses h) v = lose_send-IsOrdered v h

-- In every order of the threads' steps one send at most is under way and the flag says so; the
-- packets that were sent, those of the send and those of the queue are, in this order, the packets
-- that were queued; a send has between one packet and a hundred; and while the queue holds
-- packets, a thread is in `SendPost` or `SendProc`, or a send is with the system or has failed.
pub Reach-IsOrdered : {s : Sender} → Reach s → IsOrdered s
Reach-IsOrdered initially = start-IsOrdered
Reach-IsOrdered (later r step) = Step-IsOrdered step (Reach-IsOrdered r)

-- Once no thread is in `SendPost` or `SendProc` and no send is under way or has failed, every packet
-- that was queued has been sent, in order.
pub Reach-sent :
    {s : Sender} → Reach s → s.entering ≡ 0 → s.rechecking ≡ 0 → holders s ≡ 0 → s.sent ≡ s.queued
Reach-sent {s} r e c h =
    let v = Reach-IsOrdered r in
    let empty = nothing s.send_q (ground (arith, v.awake)) in
    let cleared = nothing s.sending_packets (v.cleared (omega arith)) in
    sym (append-nil s.sent)
    ∙ ap (λ l. s.sent ++ l) (sym (ap (λ l. l ++ s.send_q) cleared ∙ empty))
    ∙ v.order
  where
    nothing : (xs : List ℕ) → length xs ≡ 0 → xs ≡ []
    nothing [] k = refl
    nothing (x ∷ xs) k = absurd (omega arith)
