-- ===== src/MessageQueue/Tests.antt =====
-- A queue with two messages.
use cros.Common.{Option, [], arith, false, minus_one, none, pos, refl, some, ℕ, ◌++◌, ◌∷◌, ◌≡◌}
use cros.Message.{
  FieldHead, Message, MessageDef, field, int8_type, kind, message, no_fields, opaque, with_field,
}
use cros.Message.Valid.{IsMessage}
use cros.MessageQueue.{
  MessageQueue, peek_first, peek_last, queue_add, queue_clear, queue_extract, queue_init,
}
use cros.MessageQueue.Fifo.{AddOutcome, AllOk, QueueHolds, SlotOk, queue_add-Added}
use cros.Mem.{done, plenty}
use cros.MessageQueue.Take.{
  ExtractOutcome, queue_clear-Holds, queue_extract-Extracted, queue_init-Holds,
}
use cros.MessageQueue.Peek.{first_of, last_of, peek_lem, queue_add_out_of_memory, starved}

-- A field "x" : int8.
abbrev int8_head : FieldHead
int8_head = record {
  name = some (120 ∷ []);
  type_s = none;
  size = pos 1;
  is_const = false;
  is_array = false;
  is_fixed_array = false;
  array_size = minus_one;
  array_capacity = minus_one;
  type = int8_type;
}

abbrev value : ℕ → Message
value v = message (with_field (field int8_head (opaque (v ∷ []))) no_fields) none none

value-IsMessage : (v : ℕ) → IsMessage (value v)
value-IsMessage v = (((unfold kind in refl, refl), tt), tt)

-- Twice 1 and 2, the first in the last entry of the ring.
abbrev two_held : MessageQueue
two_held = record {
  msgs =
      value 2
      ∷ value 0
      ∷ value 0
      ∷ value 0
      ∷ value 0
      ∷ value 0
      ∷ value 0
      ∷ value 0
      ∷ value 0
      ∷ value 1
      ∷ [];
  length_q = 2;
  first_msg_ind = 9;
}

value-SlotOk : (v : ℕ) → SlotOk (value v)
value-SlotOk v = (value-IsMessage v, tt)

all_ok : AllOk two_held.msgs
all_ok = (
  value-SlotOk 2,
  (
    value-SlotOk 0,
    (
      value-SlotOk 0,
      (
        value-SlotOk 0,
        (
          value-SlotOk 0,
          (
            value-SlotOk 0,
            (value-SlotOk 0, (value-SlotOk 0, (value-SlotOk 0, (value-SlotOk 1, tt)))),
          ),
        ),
      ),
    ),
  ),
)

two_held-Holds : QueueHolds two_held (value 1 ∷ value 2 ∷ [])
two_held-Holds = record {
  ten = refl;
  first_in = omega arith;
  length_in = omega arith;
  held = refl;
  slots = all_ok;
}

queue_add-Added_example :
    AddOutcome two_held (value 1 ∷ value 2 ∷ []) (value 3) (queue_add plenty two_held (value 3))
queue_add-Added_example =
    queue_add-Added two_held (value 1 ∷ value 2 ∷ []) (value 3) two_held-Holds (value-IsMessage 3)
      tt

queue_extract-Extracted_example :
    ExtractOutcome two_held
      (value 0)
      (value 1 ∷ value 2 ∷ [])
      (queue_extract plenty two_held (value 0))
queue_extract-Extracted_example =
    queue_extract-Extracted two_held (value 1 ∷ value 2 ∷ []) (value 0) two_held-Holds
      (value-SlotOk 0)

queue_clear-Holds_example :
    (q' : MessageQueue) × (queue_clear two_held ≡ done q') × QueueHolds q' []
queue_clear-Holds_example = queue_clear-Holds two_held (value 1 ∷ value 2 ∷ []) two_held-Holds

queue_init-Holds_example : QueueHolds ((queue_init plenty).0) []
queue_init-Holds_example = queue_init-Holds plenty

peek_lem_example :
    (peek_first two_held ≡ done (first_of (value 1 ∷ value 2 ∷ [])))
    × (peek_last two_held ≡ done (last_of (value 1 ∷ value 2 ∷ [])))
peek_lem_example = peek_lem two_held (value 1 ∷ value 2 ∷ []) two_held-Holds

queue_add_out_of_memory_example :
    (q' : MessageQueue) × (kept : Option MessageDef) × (queue_add starved two_held
        (message (with_field (field int8_head (opaque [])) no_fields) none none)
      ≡ done (minus_one, q', starved))
    × QueueHolds q' ((value 1 ∷ value 2 ∷ []) ++ (message no_fields none kept ∷ []))
queue_add_out_of_memory_example =
    queue_add_out_of_memory two_held (value 1 ∷ value 2 ∷ [])
      (with_field (field int8_head (opaque [])) no_fields) none two_held-Holds (omega arith)
