-- ===== src/MessageQueue/Peek.antt =====
-- Looking at the ends of the queue, and adding to it without memory.
use cros.Common.{
  List, Option, [], ap, arith, false, length, length-set, le→ltb_false, ltb, lt→ltb, minus_one,
  none, refl, set, some, suc, sym, true, ℕ, ◌%◌, ◌++◌, ◌+◌, ◌-◌, ◌<◌, ◌∙◌, ◌∷◌, ◌≡◌,
}
use cros.Mem.{Answers, done}
use cros.Message.{Fields, Message, MessageDef, def_of, message, no_fields}
use cros.Message.Copy.{copy_md5, fields_copy, fields_copy_with}
use cros.Message.Frees.{free_fields-done}
use cros.MessageQueue.{MessageQueue, peek_first, peek_last, queue_add}
use cros.MessageQueue.Ring.{entry, slot_at-entry, window, window_end}
use cros.MessageQueue.Fifo.{QueueHolds, SlotOk, entries-SlotOk, set-AllOk, window-add}
use cros.MessageQueue.Take.{at_first, held_length}

abbrev pub first_of : List Message → Option Message
first_of [] = none
first_of (m ∷ ms) = some m

abbrev pub last_of : List Message → Option Message
last_of [] = none
last_of (m ∷ []) = some m
last_of (m ∷ x ∷ ms) = last_of (x ∷ ms)

last_of_append : (ms : List Message) (m : Message) → last_of (ms ++ (m ∷ [])) ≡ some m
last_of_append [] m = refl
last_of_append (x ∷ []) m = refl
last_of_append (x ∷ y ∷ ms) m = last_of_append (y ∷ ms) m

peek_empty :
    (q : MessageQueue)
    → ltb 0 q.length_q ≡ false
    → (peek_first q ≡ done none) × (peek_last q ≡ done none)
unfolding peek_first peek_last
peek_empty q e = (rw (peek_first, e), rw (peek_last, e))

peek_some :
    (slots : List Message) (n first : ℕ) (x : Message) (ms : List Message)
    → QueueHolds (record { msgs = slots; length_q = n; first_msg_ind = first }) (x ∷ ms)
    → (peek_first (record { msgs = slots; length_q = n; first_msg_ind = first }) ≡ done (some x))
      × (peek_last (record { msgs = slots; length_q = n; first_msg_ind = first })
          ≡ done (last_of (x ∷ ms)))
unfolding peek_first peek_last
peek_some slots n first x ms q =
    let more : n ≡ suc (length ms) =
      held_length (record { msgs = slots; length_q = n; first_msg_ind = first }) (x ∷ ms) q in
    let positive : ltb 0 n ≡ true = lt→ltb 0 n (omega arith) in
    let end : (first + n - 1) % 10 ≡ (first + length ms) % 10 =
      ap (λ (i : ℕ). i % 10) (omega arith) in
    let last : x ∷ ms
        ≡ window slots first (length ms) ++ (entry slots ((first + length ms) % 10) ∷ []) =
      sym (ap (window slots first) (sym more) ∙ q.held) ∙ window_end slots first (length ms) in
    (
      rw (peek_first, positive, at_first slots n first x ms q),
      rw
          (
            peek_last,
            positive,
            end,
            slot_at-entry slots ((first + length ms) % 10) (omega (arith, q.ten)),
          )
          (ap done (
            sym (
              ap last_of last
              ∙ last_of_append (window slots first (length ms))
                  (entry slots ((first + length ms) % 10))))),
    )

-- cRosMessageQueuePeekFirst and cRosMessageQueuePeekLast give the oldest and the newest message
-- of a well-formed queue, and NULL if it is empty.
pub peek_lem :
    (q : MessageQueue) (ms : List Message)
    → QueueHolds q ms
    → (peek_first q ≡ done (first_of ms)) × (peek_last q ≡ done (last_of ms))
peek_lem q [] h = peek_empty q (le→ltb_false 0 q.length_q (omega (arith, held_length q [] h)))
peek_lem q (x ∷ ms) h = peek_some q.msgs q.length_q q.first_msg_ind x ms h

-- No request is met.
abbrev pub starved : Answers
starved = λ n. false

starved_copy :
    (slot : Message) (fs : Fields) (md : Option MessageDef)
    → SlotOk slot
    → fields_copy starved slot (message fs none md)
      ≡ done (minus_one, message no_fields none (def_of slot), starved)
unfolding fields_copy fields_copy_with copy_md5
starved_copy (message gs md5 gd) fs md ok = rw (free_fields-done gs (ok.0.0))

starved_add :
    (slots : List Message) (n first : ℕ) (ms : List Message) (fs : Fields) (md : Option MessageDef)
    → QueueHolds (record { msgs = slots; length_q = n; first_msg_ind = first }) ms
    → n < 10
    → (q' : MessageQueue) × (kept : Option MessageDef) × (queue_add starved
          (record { msgs = slots; length_q = n; first_msg_ind = first })
          (message fs none md)
        ≡ done (minus_one, q', starved))
      × QueueHolds q' (ms ++ (message no_fields none kept ∷ []))
unfolding queue_add
starved_add slots n first ms fs md q room =
    let kept : Option MessageDef = def_of (entry slots ((first + n) % 10)) in
    (
      record {
        msgs = set slots ((first + n) % 10) (message no_fields none kept);
        length_q = n + 1;
        first_msg_ind = first;
      },
      kept,
      rw (
        queue_add,
        lt→ltb n 10 room,
        slot_at-entry slots ((first + n) % 10) (omega (arith, q.ten)),
        starved_copy (entry slots ((first + n) % 10)) fs md
            (entries-SlotOk slots q.slots ((first + n) % 10)),
      ),
      record {
        ten = length-set slots ((first + n) % 10) (message no_fields none kept) ∙ q.ten;
        first_in = q.first_in;
        length_in = omega arith;
        held =
            window-add slots first n (message no_fields none kept) q.ten room
            ∙ ap (λ (l : List Message). l ++ (message no_fields none kept ∷ [])) q.held;
        slots =
            set-AllOk slots ((first + n) % 10) (message no_fields none kept) q.slots ((tt, tt), tt);
      },
    )

-- When cRosMessageQueueAdd has no memory to copy a message without an MD5 text to a well-formed
-- queue that is not full, it returns -1, and yet the queue then holds one message more: an
-- empty one, with the definition that the slot had.
pub queue_add_out_of_memory :
    (q : MessageQueue) (ms : List Message) (fs : Fields) (md : Option MessageDef)
    → QueueHolds q ms
    → length ms < 10
    → (q' : MessageQueue) × (kept : Option MessageDef) × (queue_add starved q (message fs none md)
        ≡ done (minus_one, q', starved))
      × QueueHolds q' (ms ++ (message no_fields none kept ∷ []))
queue_add_out_of_memory q ms fs md h room =
    starved_add q.msgs q.length_q q.first_msg_ind ms fs md h (omega (arith, held_length q ms h))
