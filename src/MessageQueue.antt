-- ===== src/MessageQueue.antt =====
-- src/cros_message_queue.c and include/cros_message_queue.h: a ring of ten messages, used as a queue.
-- The counts are `unsigned int` and stay far below its range.
pub mod Ring
pub mod Fifo
pub mod Take
pub mod Peek
mod Tests
use cros.Common.{
  List, Option, [], false, ltb, negsuc, none, pos, set, some, suc, true, zero, ℕ, ℤ, ◌%◌, ◌+◌, ◌-◌,
  ◌∷◌,
}
use cros.Mem.{Answers, Run, done, fault, ◌>>=◌}
use cros.Message.{Message, fields_free}
use cros.Message.Copy.{fields_copy}
use cros.Message

-- MAX_QUEUE_LEN
abbrev pub max_queue_len : ℕ
max_queue_len = 10

pub record MessageQueue : Type 0 where
  pub msgs : List Message
  pub length_q : ℕ
  pub first_msg_ind : ℕ

-- An entry of the array `msgs`.
abbrev pub slot_at : List Message → ℕ → Run Message
slot_at [] i = fault
slot_at (m ∷ ms) zero = done m
slot_at (m ∷ ms) (suc i) = slot_at ms i

-- The loop of cRosMessageQueueInit over n messages.
pub init_slots : ℕ → Answers → List Message × Answers
init_slots zero a = ([], a)
init_slots (suc n) a =
    let rest = init_slots n ((Message.init a).1) in ((Message.init a).0 ∷ rest.0, rest.1)

pub queue_init : Answers → MessageQueue × Answers
queue_init a =
    let slots = init_slots max_queue_len a in
    (record { msgs = slots.0; length_q = 0; first_msg_ind = 0 }, slots.1)

pub vacancies : MessageQueue → ℕ
vacancies q = max_queue_len - q.length_q

pub usage : MessageQueue → ℕ
usage q = q.length_q

-- The head is freed and the ring moves on.
pub drop_first : MessageQueue → Run MessageQueue
drop_first q = slot_at q.msgs q.first_msg_ind >>= λ m. fields_free m >>= λ freed. done (record {
  msgs = set q.msgs q.first_msg_ind freed;
  length_q = q.length_q - 1;
  first_msg_ind = (q.first_msg_ind + 1) % max_queue_len;
})

-- The loop `while (length > 0)` of cRosMessageQueueClear; n is the length.
pub clear_loop : ℕ → MessageQueue → Run MessageQueue
clear_loop zero q = done q
clear_loop (suc n) q = drop_first q >>= λ q'. clear_loop n q'

pub queue_clear : MessageQueue → Run MessageQueue
queue_clear q = clear_loop q.length_q q >>= λ q'. done (record q' { first_msg_ind = 0 })

pub release_slots : List Message → Run (List Message)
release_slots [] = done []
release_slots (m ∷ ms) = Message.release m >>= λ m'. release_slots ms >>= λ ms'. done (m' ∷ ms')

pub queue_release : MessageQueue → Run MessageQueue
queue_release q =
    queue_clear q >>= λ q'. release_slots q'.msgs >>= λ ms. done (record q' { msgs = ms })

abbrev pub minus_two : ℤ
minus_two = negsuc 1

-- The length grows even where the copy fails.
pub queue_add : Answers → MessageQueue → Message → Run (ℤ × MessageQueue × Answers)
queue_add a q m = elim (ltb q.length_q max_queue_len) [
  | true ↦ slot_at q.msgs ((q.first_msg_ind + q.length_q) % max_queue_len) >>= λ slot.
      fields_copy a slot m >>= λ r. done (
        r.0,
        record q {
          msgs = set q.msgs ((q.first_msg_ind + q.length_q) % max_queue_len) (r.1);
          length_q = q.length_q + 1;
        },
        r.2,
      )
  | false ↦ done (minus_two, q, a)
]

-- The message that the caller passes is overwritten.
pub queue_get : Answers → MessageQueue → Message → Run (ℤ × Message × Answers)
queue_get a q m = elim (ltb 0 q.length_q) [
  | true ↦ slot_at q.msgs q.first_msg_ind >>= λ first. fields_copy a m first
  | false ↦ done (minus_two, m, a)
]

pub queue_remove : MessageQueue → Run (ℤ × MessageQueue)
queue_remove q = elim (ltb 0 q.length_q) [
  | true ↦ drop_first q >>= λ q'. done (pos 0, q')
  | false ↦ done (minus_two, q)
]

-- A message that could not be copied stays in the queue.
pub queue_extract : Answers → MessageQueue → Message → Run (ℤ × MessageQueue × Message × Answers)
queue_extract a q m = queue_get a q m >>= λ r. elim (r.0) [
  | pos zero ↦ queue_remove q >>= λ s. done (s.0, s.1, r.1, r.2)
  | _ ↦ done (r.0, q, r.1, r.2)
]

-- `none` is NULL; else the message that the pointer points to.
pub peek_first : MessageQueue → Run (Option Message)
peek_first q = elim (ltb 0 q.length_q) [
  | true ↦ slot_at q.msgs q.first_msg_ind >>= λ m. done (some m)
  | false ↦ done none
]

pub peek_last : MessageQueue → Run (Option Message)
peek_last q = elim (ltb 0 q.length_q) [
  | true ↦
      slot_at q.msgs ((q.first_msg_ind + q.length_q - 1) % max_queue_len) >>= λ m. done (some m)
  | false ↦ done none
]
