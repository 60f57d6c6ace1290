-- ===== src/Message/Serialize/Tests.antt =====
-- Sending a message with a number, a text, an array of numbers of variable length, an array of texts
-- and a nested message.
use cros.Common.{
  Bool, List, [], arith, false, leb, leb→le, le→leb, minus_one, none, pos, refl, some, true, ℕ, ℤ,
  ◌^◌, ◌∷◌, ◌≡◌,
}
use cros.Common.Decimal.{chars}
use cros.DynBuffer.{init, le_bytes}
use cros.DynBuffer.Roomy.{IsRoomy}
use cros.DynBuffer.Valid.{init-Holds}
use cros.Mem.{Heap}
use cros.Message.{
  FieldHead, Message, MessageType, as_array, as_msg_array, as_string, as_string_array, custom_type,
  field, kind, message, no_fields, no_messages, null_message, opaque, string_type, uint16_type,
  uint8_type, with_field, with_message,
}
use cros.Message.Types.{type_size}
use cros.Message.Serialize.{serialize}
use cros.Message.Serialize.Sent.{serialize-Sent}
use cros.Message.Serialize.Sent.Pushes.{Sent}
use cros.Message.Serialize.Wire.{CanSend, known, wire, wire_count, wire_text, wire_texts}

abbrev head_of : MessageType → Bool → ℤ → FieldHead
head_of ty arr n = record {
  name = some (chars "f");
  type_s = none;
  size = pos (type_size ty);
  is_const = false;
  is_array = arr;
  is_fixed_array = false;
  array_size = n;
  array_capacity = n;
  type = ty;
}

abbrev inner : Message
inner =
    message
      (with_field (field (head_of uint16_type false minus_one) (opaque (7 ∷ 1 ∷ 0 ∷ 0 ∷ [])))
        no_fields)
      none none

abbrev outer : Message
outer =
    message
      (with_field (field (head_of string_type false minus_one) (as_string (some (chars "hi")))) (
        with_field
          (field (head_of uint8_type true (pos 2)) (as_array (some 5 ∷ some 6 ∷ none ∷ [])))
          (with_field (field (head_of string_type true (pos 1)) (as_string_array (none ∷ []))) (
            with_field
              (field (head_of custom_type true (pos 2))
                (as_msg_array (with_message inner (null_message no_messages))))
              no_fields))))
      none none

abbrev heap : Heap
heap n = leb n (2 ^ 32)

heap-IsRoomy : IsRoomy heap
heap-IsRoomy = record {
  valid = λ n h. omega (arith, leb→le n (2 ^ 32) h);
  roomy = λ n h. le→leb n (2 ^ 32) h;
}

abbrev packet : List ℕ
packet =
    2 ∷ 0 ∷ 0 ∷ 0 ∷ 104 ∷ 105 ∷ 2 ∷ 0 ∷ 0 ∷ 0 ∷ 5 ∷ 6 ∷ 1 ∷ 0 ∷ 0 ∷ 0 ∷ 0 ∷ 0 ∷ 0 ∷ 0 ∷ 2 ∷ 0 ∷ 0
    ∷ 0 ∷ 7 ∷ 1 ∷ []

wire-outer : wire outer ≡ packet
unfolding wire wire_text wire_texts wire_count known type_size le_bytes
wire-outer = refl

outer-CanSend : CanSend outer
outer-CanSend =
    unfold kind type_size in
    (
      (refl, refl),
      (
        ((refl, refl), (refl, omega arith, tt)),
        (
          ((refl, refl), refl, omega arith),
          (((refl, refl), refl, omega arith, ((((refl, refl), omega arith), tt), tt)), tt),
        ),
      ),
    )

serialize-Sent_example : Sent [] init.pos_offset (wire outer) (serialize (λ k. heap) outer init)
serialize-Sent_example =
    serialize-Sent (λ k. heap) outer init [] outer-CanSend init-Holds (λ k. heap-IsRoomy)
      (rw wire-outer (omega arith))
