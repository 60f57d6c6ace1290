-- ===== src/Message/Deserialize/Tests.antt =====
-- A message with a text, numbers and texts of variable length and a nested message, sent and read into
-- an empty one.
use cros.Common.{
  Bool, List, Option, [], arith, false, inl, leb, leb→le, le→leb, minus_one, none, pos, refl, some,
  true, ℕ, ℤ, ◌^◌, ◌∷◌,
}
use cros.Common.Decimal.{chars}
use cros.DynBuffer.{init, le_bytes}
use cros.DynBuffer.Roomy.{IsRoomy}
use cros.DynBuffer.Valid.{init-Holds, init_offset}
use cros.Mem.{Block, Heap, done}
use cros.Message.{
  FieldHead, Message, MessageType, Text, as_array, as_msg, as_string, as_string_array, custom_type,
  field, kind, message, no_fields, opaque, string_type, uint16_type, uint8_type, with_field,
}
use cros.Message.Types.{type_size}
use cros.Message.Serialize.{serialize}
use cros.Message.Serialize.Wire.{CanSend, known, wire, wire_count, wire_text, wire_texts}
use cros.Message.Deserialize.{Builder}
use cros.Message.Deserialize.Matches.{Matches, depth}
use cros.Message.Deserialize.RoundTrip.{Exchanged, deserialize-serialize}
use cros.Message.Serialize.Sent.Texts.{Fits}

abbrev head_of : MessageType → Bool → ℤ → ℤ → FieldHead
head_of ty arr n room = record {
  name = some (chars "f");
  type_s = none;
  size = minus_one;
  is_const = false;
  is_array = arr;
  is_fixed_array = false;
  array_size = n;
  array_capacity = room;
  type = ty;
}

abbrev one_number : List ℕ → Message
one_number bytes =
    message
      (with_field (field (head_of uint16_type false minus_one minus_one) (opaque bytes)) no_fields)
      none none

abbrev with_data : Option Text → ℤ → ℤ → Block → ℤ → ℤ → List (Option Text) → Message → Message
with_data t n room blk k space ts m =
    message
      (with_field (field (head_of string_type false minus_one minus_one) (as_string t)) (
        with_field (field (head_of uint8_type true n room) (as_array blk)) (
          with_field (field (head_of string_type true k space) (as_string_array ts)) (
            with_field (field (head_of custom_type false minus_one minus_one) (as_msg m))
              no_fields))))
      none none

abbrev sent : Message
sent =
    with_data (some (chars "hi")) (pos 2) (pos 3) (some 5 ∷ some 6 ∷ none ∷ []) (pos 2) (pos 2)
      (some (chars "a") ∷ none ∷ []) (one_number (7 ∷ 1 ∷ 0 ∷ 0 ∷ []))

abbrev blank : Message
blank =
    with_data none (pos 0) (pos 1) (some 0 ∷ []) (pos 0) (pos 1) (none ∷ [])
      (one_number (0 ∷ 0 ∷ 0 ∷ 0 ∷ []))

abbrev heap : Heap
heap n = leb n (2 ^ 32)

heap-IsRoomy : IsRoomy heap
heap-IsRoomy = record {
  valid = λ n h. omega (arith, leb→le n (2 ^ 32) h);
  roomy = λ n h. le→leb n (2 ^ 32) h;
}

-- No definition is at hand.
abbrev no_builder : Builder
no_builder a md = done (2, none, a)

sent-CanSend : CanSend sent
sent-CanSend =
    unfold kind type_size in
    (
      (refl, refl),
      (
        ((refl, refl), (refl, omega arith, tt)),
        (
          ((refl, refl), refl, omega arith),
          (((refl, refl), (((refl, refl), omega arith), tt)), tt),
        ),
      ),
    )

blank-Matches : Matches blank sent
blank-Matches =
    unfold type_size in
    (
      ((refl, refl, refl), (omega arith, (omega arith, tt))),
      (
        ((refl, refl, refl), inl (refl, refl, omega arith)),
        (
          (
            (refl, refl, refl),
            (
              (((omega arith, tt)), (tt, tt)),
              inl (refl, omega arith, refl, omega arith, omega arith),
            ),
          ),
          (((refl, refl, refl), (((refl, refl, refl), tt), tt)), tt),
        ),
      ),
    )

sent-Fits : Fits [] (wire sent)
unfolding wire wire_text wire_texts wire_count known type_size le_bytes
sent-Fits = omega arith

deserialize-serialize_example : Exchanged no_builder 2 blank sent (serialize (λ k. heap) sent init)
deserialize-serialize_example =
    deserialize-serialize no_builder (λ k. heap) blank sent 2 init [] sent-CanSend blank-Matches
      (unfold depth in omega arith) init-Holds init_offset (λ k. heap-IsRoomy) sent-Fits
