-- ===== src/Server/Sending/Tests.antt =====
-- Two packets that are queued while a third is being sent.
use iocp_model_server.Base.{◌≡◌, refl, true, [], ◌∷◌, arith}
use iocp_model_server.Server.Sending.{
  Sender, start, enqueue_packet, raise_flag, check_size, fill, fill_with, post, free_sent, end_send,
  clear_flag, recheck_size, Reach, initially, later, enqueues, raises, checks, fills, frees, ends,
  clears, rechecks,
}
use iocp_model_server.Server.Sending.Order.{IsOrdered, Reach-IsOrdered, Reach-sent}

-- The first packet is with the system, and two more are in the queue.
one_posted : Sender
one_posted = raise_flag (
    raise_flag (
      enqueue_packet 9 (
        enqueue_packet 8
          (fill true (fill true (check_size (raise_flag (enqueue_packet 7 start))))))))

one_posted_fields :
    (one_posted.send_q ≡ 8 ∷ 9 ∷ [])
    × (one_posted.sending_packets ≡ 7 ∷ [])
    × (one_posted.is_sending ≡ true)
unfolding one_posted raise_flag enqueue_packet fill fill_with post check_size
one_posted_fields = (refl, refl, refl)

one_posted-Reach : Reach one_posted
unfolding one_posted raise_flag enqueue_packet fill fill_with post check_size
one_posted-Reach =
    later
      (later
        (later
          (later
            (later
              (later
                (later (later (later initially (enqueues 7)) (raises (omega arith)))
                  (checks (omega arith)))
                (fills true (omega arith)))
              (fills true (omega arith)))
            (enqueues 8))
          (enqueues 9))
        (raises (omega arith)))
      (raises (omega arith))

Reach-IsOrdered_example : IsOrdered one_posted
Reach-IsOrdered_example = Reach-IsOrdered one_posted-Reach

-- One packet, from `SendPacket` to the completion of its send and the thread's last test.
all_sent : Sender
all_sent = recheck_size (
    clear_flag (
      check_size (
        raise_flag (
          end_send (
            free_sent
              (fill true (fill true (check_size (raise_flag (enqueue_packet 7 start))))))))))

all_sent-Reach : Reach all_sent
unfolding all_sent raise_flag enqueue_packet fill fill_with post check_size free_sent end_send
    clear_flag recheck_size
all_sent-Reach =
    later
      (later
        (later
          (later
            (later
              (later
                (later
                  (later
                    (later (later (later initially (enqueues 7)) (raises (omega arith)))
                      (checks (omega arith)))
                    (fills true (omega arith)))
                  (fills true (omega arith)))
                (frees (omega arith)))
              (ends (omega arith)))
            (raises (omega arith)))
          (checks (omega arith)))
        (clears (omega arith)))
      (rechecks (omega arith))

Reach-sent_example : all_sent.sent ≡ all_sent.queued
unfolding all_sent raise_flag enqueue_packet fill fill_with post check_size free_sent end_send
    clear_flag recheck_size
Reach-sent_example = Reach-sent all_sent-Reach refl refl refl

all_sent_fields : all_sent.queued ≡ 7 ∷ []
unfolding all_sent raise_flag enqueue_packet fill fill_with post check_size free_sent end_send
    clear_flag recheck_size
all_sent_fields = refl
