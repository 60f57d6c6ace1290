-- ===== src/MessageQueue/Take.antt =====
-- Taking messages out of the queue, looking at its ends, and emptying it.
use cros.Message
use cros.Common.{
  Bool-cases, List, [], ap, ap₂, arith, drop, false, inl, inr, length, length-set, le→ltb_false,
  ltb, lt→ltb, pos, refl, set, subst, suc, sym, zero, ℕ, ℤ, ◌%◌, ◌+◌, ◌-◌, ◌<◌, ◌∙◌, ◌∷◌, ◌≡◌,
}
use cros.Mem.{Answers, Run, done, plenty, ◌>>=◌}
use cros.Message.{Message, def_of, fields_of, md5_of, message, no_fields}
use cros.Message.Valid.{tidy_fields}
use cros.Message.Copies.{new_md5}
use cros.Message.Frees.{fields_free-done}
use cros.MessageQueue.{
  MessageQueue, clear_loop, drop_first, init_slots, minus_two, queue_clear, queue_extract,
  queue_get, queue_init, queue_remove, slot_at,
}
use cros.MessageQueue.Ring.{blank_message, entry, slot_at-entry, window, window-mod, window-set}
use cros.MessageQueue.Fifo.{
  AllOk, QueueHolds, SameContent, SlotOk, copy_onto, entries-SlotOk, length-window, new-text,
  set-AllOk,
}

freed-SlotOk : (m : Message) → SlotOk m → SlotOk (message no_fields (md5_of m) (def_of m))
freed-SlotOk (message fs md5 md) ok = ((tt, ok.0.1), ok.1)

pub held_length : (q : MessageQueue) (ms : List Message) → QueueHolds q ms → q.length_q ≡ length ms
held_length q ms h = sym (length-window q.msgs q.first_msg_ind q.length_q) ∙ ap length h.held

abbrev head_or : List Message → Message
head_or [] = blank_message
head_or (m ∷ ms) = m

module _ (slots : List Message) (n first : ℕ) (x : Message) (ms : List Message)
    (q : QueueHolds (record { msgs = slots; length_q = n; first_msg_ind = first }) (x ∷ ms)) where
  abbrev here : MessageQueue
  here = record { msgs = slots; length_q = n; first_msg_ind = first }

  more : n ≡ suc (length ms)
  more = held_length here (x ∷ ms) q

  parts : window slots first (suc (length ms)) ≡ x ∷ ms
  parts = ap (window slots first) (sym more) ∙ q.held

  pub at_first : slot_at slots first ≡ done x
  at_first =
      let e : first ≡ first % 10 = omega (arith, q.first_in) in
      slot_at-entry slots first (omega (arith, q.first_in, q.ten))
      ∙ ap done (ap (entry slots) e ∙ ap head_or parts)

  first-SlotOk : SlotOk x
  first-SlotOk =
      let e : first ≡ first % 10 = omega (arith, q.first_in) in
      subst SlotOk (ap (entry slots) e ∙ ap head_or parts) (entries-SlotOk slots (q.slots) first)

  abbrev rest : MessageQueue
  rest = record {
    msgs = set slots first (message no_fields (md5_of x) (def_of x));
    length_q = n - 1;
    first_msg_ind = (first + 1) % 10;
  }

  rest_held : window rest.msgs rest.first_msg_ind rest.length_q ≡ ms
  rest_held =
      let next : first + 1 ≡ suc first = omega arith in
      let fewer : n - 1 ≡ length ms = omega (arith, more) in
      let few : length ms < 10 = omega (arith, more, q.length_in) in
      window-mod rest.msgs (first + 1) (n - 1)
      ∙ (ap₂ (window rest.msgs) next fewer
          ∙ (window-set slots first (suc first) (length ms)
                (message no_fields (md5_of x) (def_of x)) (λ k h same. omega (arith, q.first_in))
              ∙ ap (drop 1) parts))

  rest-Holds : QueueHolds rest ms
  rest-Holds = record {
    ten = length-set slots first (message no_fields (md5_of x) (def_of x)) ∙ q.ten;
    first_in = omega arith;
    length_in = omega (arith, q.length_in);
    held = rest_held;
    slots =
        set-AllOk slots first (message no_fields (md5_of x) (def_of x)) (q.slots)
          (freed-SlotOk x first-SlotOk);
  }

  pub drop_first-rest : drop_first here ≡ done rest
  unfolding drop_first
  drop_first-rest = rw (at_first, fields_free-done x (first-SlotOk.0))

  pub remove-rest : queue_remove here ≡ done (pos 0, rest)
  unfolding queue_remove
  remove-rest = rw (queue_remove, lt→ltb 0 n (omega (arith, more)), drop_first-rest)

  module _ (dst : Message) (ok : SlotOk dst) where
    abbrev taken : Message
    taken = message (tidy_fields (fields_of x)) (new_md5 (md5_of dst) (md5_of x)) (def_of dst)

    get-taken : queue_get plenty here dst ≡ done (pos 0, taken, plenty)
    unfolding queue_get
    get-taken =
        rw (queue_get, lt→ltb 0 n (omega (arith, more)), at_first)
          (copy_onto dst x ok (first-SlotOk.0))

    pub extract-rest : queue_extract plenty here dst ≡ done (pos 0, rest, taken, plenty)
    unfolding queue_extract
    extract-rest = rw (get-taken, remove-rest)

-- The first message leaves the queue, and the caller has a copy of it.
abbrev pub Extracted : Message → List Message → Run (ℤ × MessageQueue × Message × Answers) → Type 0
Extracted x ms r =
    (q' : MessageQueue) × (m' : Message) × (r ≡ done (pos 0, q', m', plenty))
    × SameContent x m'
    × QueueHolds q' ms

extract_empty :
    (q : MessageQueue) (a : Answers) (dst : Message)
    → ltb 0 q.length_q ≡ false
    → queue_extract a q dst ≡ done (minus_two, q, dst, a)
unfolding queue_extract queue_get
extract_empty q a dst e = rw (queue_extract, queue_get, e)

abbrev pub ExtractOutcome :
    MessageQueue → Message → List Message → Run (ℤ × MessageQueue × Message × Answers) → Type 0
ExtractOutcome q dst [] r = r ≡ done (minus_two, q, dst, plenty)
ExtractOutcome q dst (x ∷ ms) r = Extracted x ms r

-- cRosMessageQueueExtract from a well-formed queue into a well-formed message, with memory for
-- every request: from an empty queue it returns -2 and changes nothing; else it returns 0,
-- gives a copy of the oldest message, and the queue holds the others in their order.
pub queue_extract-Extracted :
    (q : MessageQueue) (ms : List Message) (dst : Message)
    → QueueHolds q ms
    → SlotOk dst
    → ExtractOutcome q dst ms (queue_extract plenty q dst)
queue_extract-Extracted q [] dst h ok =
    extract_empty q plenty dst (le→ltb_false 0 q.length_q (omega (arith, held_length q [] h)))
queue_extract-Extracted q (x ∷ ms) dst h ok = (
  rest q.msgs q.length_q q.first_msg_ind x ms h,
  taken q.msgs q.length_q q.first_msg_ind x ms h dst ok,
  extract-rest q.msgs q.length_q q.first_msg_ind x ms h dst ok,
  (refl, new-text (md5_of dst) (md5_of x)),
  rest-Holds q.msgs q.length_q q.first_msg_ind x ms h,
)

clear_loop-Holds :
    (ms : List Message) (q : MessageQueue)
    → QueueHolds q ms
    → (q' : MessageQueue) × (clear_loop (length ms) q ≡ done q') × QueueHolds q' []
unfolding clear_loop
clear_loop-Holds [] q h = (q, refl, h)
clear_loop-Holds (x ∷ ms) q h =
    let (q', returns, empty) =
      clear_loop-Holds ms (rest q.msgs q.length_q q.first_msg_ind x ms h)
        (rest-Holds q.msgs q.length_q q.first_msg_ind x ms h) in
    (q', rw (drop_first-rest q.msgs q.length_q q.first_msg_ind x ms h) returns, empty)

-- cRosMessageQueueClear of a well-formed queue ends and leaves an empty well-formed queue.
pub queue_clear-Holds :
    (q : MessageQueue) (ms : List Message)
    → QueueHolds q ms
    → (q' : MessageQueue) × (queue_clear q ≡ done q') × QueueHolds q' []
unfolding queue_clear
queue_clear-Holds q ms h =
    let (q', returns, empty) = clear_loop-Holds ms q h in
    let none_left : q'.length_q ≡ 0 = held_length q' [] empty in
    (
      record q' { first_msg_ind = 0 },
      ap (λ (k : ℕ). clear_loop k q >>= λ r. done (record r { first_msg_ind = 0 }))
            (held_length q ms h)
          ∙ ap (λ (r : Run MessageQueue). r >>= λ z. done (record z { first_msg_ind = 0 })) returns,
      record {
        ten = empty.ten;
        first_in = omega arith;
        length_in = empty.length_in;
        held = ap (window q'.msgs 0) none_left;
        slots = empty.slots;
      },
    )

init-SlotOk : (a : Answers) → SlotOk ((Message.init a).0)
unfolding Message.init
init-SlotOk a = elim (Bool-cases (a 0)) [
  | inl answer ↦ rw answer ((tt, omega arith), refl)
  | inr answer ↦ rw answer ((tt, tt), tt)
]

init_slots-AllOk :
    (n : ℕ) (a : Answers) → (length ((init_slots n a).0) ≡ n) × AllOk ((init_slots n a).0)
unfolding init_slots
init_slots-AllOk zero a = (refl, tt)
init_slots-AllOk (suc n) a =
    let r = init_slots-AllOk n ((Message.init a).1) in (ap suc (r.0), (init-SlotOk a, r.1))

-- cRosMessageQueueInit gives an empty queue, whether or not there is memory for the MD5 texts.
pub queue_init-Holds : (a : Answers) → QueueHolds ((queue_init a).0) []
unfolding queue_init
queue_init-Holds a =
    let r = init_slots-AllOk 10 a in
    record { ten = r.0; first_in = omega arith; length_in = omega arith; held = refl; slots = r.1 }
