-- ===== src/Message/Deserialize/Matches.antt =====
-- When a message can take what another one is sent as: the fields agree in their types, the blocks are
-- as large as the capacities say, and nested messages are there.
use Prim.Native.Nat.{max}
use cros.Common.{List, Option, false, int_max, length, suc, take, true, zero, ℕ, ◌*◌, ◌≡◌, ◌≤◌, ◌⊎◌}
use cros.Mem.{Block}
use cros.Message.{
  Data, Field, FieldHead, Fields, Message, Messages, Text, as_array, as_msg, as_msg_array,
  as_string, as_string_array, field, message, no_fields, no_messages, null_field, null_message,
  opaque, with_field, with_message,
}
use cros.Message.Copy.{count}
use cros.Message.Types.{type_size}
use cros.Message.Arrays.{is_variable}
use cros.Message.Deserialize.Texts.{IsString}
use cros.Message.Deserialize.TextLoop.{AreStrings}

-- The same type, and both an array or both none, of fixed length or both not.
abbrev pub SameShape : FieldHead → FieldHead → Type 0
SameShape g h =
    (g.type ≡ h.type) × (g.is_array ≡ h.is_array) × (g.is_fixed_array ≡ h.is_fixed_array)

-- A block for numbers: one of variable length is as large as its capacity and takes counts whose
-- triple is an `int`; a fixed one has the same number of elements.
abbrev pub NumbersMatch : FieldHead → Block → FieldHead → Type 0
NumbersMatch g blk h =
    ((is_variable g ≡ true)
      × (length blk ≡ count g.array_capacity * type_size g.type)
      × (count h.array_size * 3 ≤ int_max))
    ⊎ ((is_variable g ≡ false)
        × (g.array_size ≡ h.array_size)
        × (type_size g.type * count g.array_size ≤ length blk))

-- A block for texts, and texts without the character that ends a string.
abbrev pub TextsMatch : FieldHead → List (Option Text) → FieldHead → List (Option Text) → Type 0
TextsMatch g us h ts =
    AreStrings (take (count h.array_size) ts)
    × (((g.is_fixed_array ≡ false)
          × (count g.array_size ≤ length us)
          × (length us ≡ count g.array_capacity)
          × (1 ≤ length us)
          × (count h.array_size * 2 ≤ int_max))
        ⊎ ((g.is_fixed_array ≡ true)
            × (g.array_size ≡ h.array_size)
            × (count h.array_size ≤ int_max)
            × (count h.array_size ≤ length us)))

-- The receiving message first.
abbrev mutual
  pub Matches : Message → Message → Type 0
  Matches (message gs md5 md) (message fs md5' md') = FieldsMatch gs fs

  pub FieldsMatch : Fields → Fields → Type 0
  FieldsMatch no_fields no_fields = Unit {0}
  FieldsMatch (with_field g gs) (with_field f fs) = FieldMatch g f × FieldsMatch gs fs
  FieldsMatch gs fs = ⊥

  pub FieldMatch : Field → Field → Type 0
  FieldMatch (field g c) (field h d) = SameShape g h × DataMatch c g h d

  pub DataMatch : Data → FieldHead → FieldHead → Data → Type 0
  DataMatch (opaque old) g h (opaque bytes) = Unit {0}
  DataMatch (as_string u) g h (as_string t) = IsString t
  DataMatch (as_msg l) g h (as_msg m) = Matches l m
  DataMatch (as_array blk) g h (as_array sent) = NumbersMatch g blk h
  DataMatch (as_string_array us) g h (as_string_array ts) = TextsMatch g us h ts
  DataMatch (as_msg_array ls) g h (as_msg_array ms) =
      (g.array_size ≡ h.array_size)
      × (count h.array_size ≤ int_max)
      × MessagesMatch ls (count h.array_size) ms
  DataMatch c g h d = ⊥

  pub MessagesMatch : Messages → ℕ → Messages → Type 0
  MessagesMatch ls zero ms = Unit {0}
  MessagesMatch (with_message l ls) (suc n) (with_message m ms) =
      Matches l m × MessagesMatch ls n ms
  MessagesMatch ls n ms = ⊥

-- How deep messages nest: the fuel that deserialization needs.
unfoldable mutual
  pub depth : Message → ℕ
  depth (message fs md5 md) = suc (fields_depth fs)

  pub fields_depth : Fields → ℕ
  fields_depth no_fields = 0
  fields_depth (null_field fs) = fields_depth fs
  fields_depth (with_field f fs) = max (field_depth f) (fields_depth fs)

  pub field_depth : Field → ℕ
  field_depth (field h d) = data_depth d

  pub data_depth : Data → ℕ
  data_depth (as_msg m) = depth m
  data_depth (as_msg_array ms) = messages_depth ms
  data_depth d = 0

  pub messages_depth : Messages → ℕ
  messages_depth no_messages = 0
  messages_depth (null_message ms) = messages_depth ms
  messages_depth (with_message m ms) = max (depth m) (messages_depth ms)
