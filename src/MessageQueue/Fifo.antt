-- ===== src/MessageQueue/Fifo.antt =====
-- Which messages the ring holds, and adding one.
use native.Mathlib.Decide.{dec_lt}
use cros.Common.{
  List, Option, [], ap, ap₂, arith, false, get_or-set_self, inl, inr, length, length-set,
  le→ltb_false, ltb, lt→ltb, none, pos, refl, set, some, suc, sym, zero, ℕ, ℤ, ◌%◌, ◌++◌, ◌+◌, ◌<◌,
  ◌∙◌, ◌∷◌, ◌≡◌, ◌≤◌, ◌⊎◌,
}
use cros.Mem.{Answers, Run, done, plenty}
use cros.Message.{Fields, Message, MessageDef, Text, def_of, fields_of, md5_of, message}
use cros.Message.Copy.{fields_copy}
use cros.Message.Valid.{AreFields, IsMd5, IsMessage, tidy_fields}
use cros.Message.Copies.{Md5Fits, fields_copy-plenty, new_md5}
use cros.Message.Frees.{free_fields-done, tidy_fields-AreFields}
use cros.MessageQueue.{MessageQueue, minus_two, queue_add}
use cros.MessageQueue.Ring.{blank_message, entry, slot_at-entry, window, window-set, window_end}

-- The block for an MD5 text has 33 bytes.
abbrev pub Md5Block : Option (ℕ × Text) → Type 0
Md5Block none = Unit {0}
Md5Block (some (size, t)) = size ≡ 33

-- An MD5 text has 32 characters.
abbrev pub IsDigest : Option (ℕ × Text) → Type 0
IsDigest none = Unit {0}
IsDigest (some (size, t)) = length t ≡ 32

abbrev pub SlotOk : Message → Type 0
SlotOk m = IsMessage m × Md5Block (md5_of m)

abbrev pub AllOk : List Message → Type 0
AllOk [] = Unit {0}
AllOk (m ∷ ms) = SlotOk m × AllOk ms

pub entries-SlotOk : (ms : List Message) → AllOk ms → (i : ℕ) → SlotOk (entry ms i)
entries-SlotOk [] ok i = ((tt, tt), tt)
entries-SlotOk (m ∷ ms) ok zero = ok.0
entries-SlotOk (m ∷ ms) ok (suc i) = entries-SlotOk ms (ok.1) i

-- The queue holds these messages, oldest first, and all ten entries can be written over.
pub record QueueHolds (q : MessageQueue) (ms : List Message) : Type 0 where
  pub ten : length q.msgs ≡ 10
  pub first_in : q.first_msg_ind < 10
  pub length_in : q.length_q ≤ 10
  pub held : window q.msgs q.first_msg_ind q.length_q ≡ ms
  pub slots : AllOk q.msgs

abbrev pub text_of : Option (ℕ × Text) → Option Text
text_of none = none
text_of (some (size, t)) = some t

-- What a copy keeps: the fields and the MD5 text.
abbrev pub SameContent : Message → Message → Type 0
SameContent m m' =
    (fields_of m' ≡ tidy_fields (fields_of m)) × (text_of (md5_of m') ≡ text_of (md5_of m))

pub length-window : (ms : List Message) (first n : ℕ) → length (window ms first n) ≡ n
length-window ms first zero = refl
length-window ms first (suc n) = ap suc (length-window ms (suc first) n)

pub set-AllOk : (ms : List Message) (i : ℕ) (m : Message) → AllOk ms → SlotOk m → AllOk (set ms i m)
set-AllOk [] i m all ok = tt
set-AllOk (x ∷ ms) zero m all ok = (ok, all.1)
set-AllOk (x ∷ ms) (suc i) m all ok = (all.0, set-AllOk ms i m (all.1) ok)

slot_fits : (slot md5 : Option (ℕ × Text)) → Md5Block slot → IsMd5 md5 → Md5Fits slot md5
slot_fits none none b h = tt
slot_fits none (some d) b h = tt
slot_fits (some s) none b h = tt
slot_fits (some (size, old)) (some (k, t)) b h = omega arith

new-SlotOk :
    (slot md5 : Option (ℕ × Text)) (fs : Fields) (md : Option MessageDef)
    → Md5Block slot
    → IsDigest md5
    → IsMd5 md5
    → AreFields fs
    → SlotOk (message (tidy_fields fs) (new_md5 slot md5) md)
new-SlotOk none none fs md b d h ok = ((tidy_fields-AreFields fs ok, tt), tt)
new-SlotOk (some s) none fs md b d h ok = ((tidy_fields-AreFields fs ok, tt), tt)
new-SlotOk none (some (k, t)) fs md b d h ok = ((tidy_fields-AreFields fs ok, h), omega arith)
new-SlotOk (some (size, old)) (some (k, t)) fs md b d h ok = ((tidy_fields-AreFields fs ok, h), b)

pub new-text : (slot md5 : Option (ℕ × Text)) → text_of (new_md5 slot md5) ≡ text_of md5
new-text none none = refl
new-text (some s) none = refl
new-text none (some (k, t)) = refl
new-text (some (size, old)) (some (k, t)) = refl

pub copy_onto :
    (dst m : Message)
    → SlotOk dst
    → IsMessage m
    → fields_copy plenty dst m
      ≡ done (
        pos 0,
        message (tidy_fields (fields_of m)) (new_md5 (md5_of dst) (md5_of m)) (def_of dst),
        plenty,
      )
copy_onto (message gs slot gd) (message fs md5 md) ok h =
    fields_copy-plenty (message gs slot gd) fs md5 md (h.0) (slot_fits slot md5 (ok.1) (h.1))
      (free_fields-done gs (ok.0.0))

-- What cRosMessageQueueAdd does on a queue that holds ms.
abbrev pub Added : MessageQueue → List Message → Message → Run (ℤ × MessageQueue × Answers) → Type 0
Added q ms m r =
    (q' : MessageQueue) × (m' : Message) × (r ≡ done (pos 0, q', plenty))
    × SameContent m m'
    × QueueHolds q' (ms ++ (m' ∷ []))

pub window-add :
    (slots : List Message) (first n : ℕ) (m : Message)
    → length slots ≡ 10
    → n < 10
    → window (set slots ((first + n) % 10) m) first (n + 1) ≡ window slots first n ++ (m ∷ [])
window-add slots first n m ten room =
    let e : n + 1 ≡ suc n = omega arith in
    let last_in : (first + n) % 10 < length slots = omega arith in
    ap (λ (k : ℕ). window (set slots ((first + n) % 10) m) first k) e
    ∙ (window_end (set slots ((first + n) % 10) m) first n
        ∙ ap₂ (λ (l : List Message) (x : Message). l ++ (x ∷ []))
            (window-set slots ((first + n) % 10) first n m (λ k h same. omega arith))
            (get_or-set_self slots ((first + n) % 10) m blank_message last_in))

add_room :
    (slots : List Message) (n first : ℕ) (ms : List Message) (fs : Fields) (md5 : Option (ℕ × Text))
    (md : Option MessageDef)
    → QueueHolds (record { msgs = slots; length_q = n; first_msg_ind = first }) ms
    → IsMessage (message fs md5 md)
    → IsDigest md5
    → n < 10
    → Added
        (record { msgs = slots; length_q = n; first_msg_ind = first })
        ms
        (message fs md5 md)
        (queue_add plenty
          (record { msgs = slots; length_q = n; first_msg_ind = first })
          (message fs md5 md))
unfolding queue_add
add_room slots n first ms fs md5 md q ok digest room =
    let last_in : (first + n) % 10 < 10 = omega arith in
    let slot : SlotOk (entry slots ((first + n) % 10)) =
      entries-SlotOk slots q.slots ((first + n) % 10) in
    let m' : Message =
      message (tidy_fields fs) (new_md5 (md5_of (entry slots ((first + n) % 10))) md5)
        (def_of (entry slots ((first + n) % 10))) in
    (
      record { msgs = set slots ((first + n) % 10) m'; length_q = n + 1; first_msg_ind = first },
      m',
      rw (
        queue_add,
        lt→ltb n 10 room,
        slot_at-entry slots ((first + n) % 10) (omega (arith, q.ten)),
        copy_onto (entry slots ((first + n) % 10)) (message fs md5 md) slot ok,
      ),
      (refl, new-text (md5_of (entry slots ((first + n) % 10))) md5),
      record {
        ten = length-set slots ((first + n) % 10) m' ∙ q.ten;
        first_in = q.first_in;
        length_in = omega arith;
        held =
            window-add slots first n m' q.ten room
            ∙ ap (λ (l : List Message). l ++ (m' ∷ [])) q.held;
        slots = set-AllOk slots ((first + n) % 10) m' q.slots (
            new-SlotOk (md5_of (entry slots ((first + n) % 10))) md5 fs
              (def_of (entry slots ((first + n) % 10))) (slot.1) digest (ok.1) (ok.0));
      },
    )

add_full :
    (q : MessageQueue) (m : Message)
    → ltb q.length_q 10 ≡ false
    → queue_add plenty q m ≡ done (minus_two, q, plenty)
unfolding queue_add
add_full q m full = rw (queue_add, full)

-- There is room and the message is added, or there is none.
abbrev pub AddOutcome :
    MessageQueue → List Message → Message → Run (ℤ × MessageQueue × Answers) → Type 0
AddOutcome q ms m r =
    ((length ms < 10) × Added q ms m r) ⊎ ((length ms ≡ 10) × (r ≡ done (minus_two, q, plenty)))

-- cRosMessageQueueAdd of a well-formed message with a 32-character MD5 text or none to a
-- well-formed queue, with memory for every request: on a queue that is not full it returns 0 and the
-- queue holds a copy of the message behind the others; on a full queue it returns -2 and
-- changes nothing.
pub queue_add-Added :
    (q : MessageQueue) (ms : List Message) (m : Message)
    → QueueHolds q ms
    → IsMessage m
    → IsDigest (md5_of m)
    → AddOutcome q ms m (queue_add plenty q m)
queue_add-Added q ms (message fs md5 md) holds ok digest =
    let n : q.length_q ≡ length ms =
      sym (length-window q.msgs q.first_msg_ind q.length_q) ∙ ap length holds.held in
    elim (dec_lt q.length_q 10) [
      | yes room ↦ inl (
        omega arith,
        add_room q.msgs q.length_q q.first_msg_ind ms fs md5 md holds ok digest room,
      )
      | no full ↦ inr (
        omega (arith, holds.length_in),
        add_full q (message fs md5 md) (le→ltb_false q.length_q 10 (omega arith)),
      )
    ]
