-- ===== src/Message/Serialize/Wire.antt =====
-- The bytes that stand for a message in a TCPROS packet, written down apart from the code: numbers
-- little-endian, texts and arrays of variable length behind their length, in the order of the fields.
use cros.Common.{
  List, Option, [], false, if◌then◌else◌, length, none, not, pos, some, suc, take, true, zero, ℕ,
  ◌&&◌, ◌*◌, ◌++◌, ◌∷◌, ◌≡◌, ◌≤◌,
}
use cros.DynBuffer.{le_bytes}
use cros.Mem.{Block}
use cros.Message.{
  Data, Field, FieldHead, Fields, Message, Messages, Text, as_array, as_msg, as_msg_array,
  as_string, as_string_array, field, message, nested, no_fields, no_messages, no_msg, null_array,
  null_field, null_message, opaque, plain, text, with_field, with_message,
}
use cros.Message.Copy.{count}
use cros.Message.Types.{type_size}
use cros.Message.Valid.{HoldsKind, messages_length}

unfoldable pub wire_text : Option Text → List ℕ
wire_text none = le_bytes 4 0
wire_text (some t) = le_bytes 4 (length t) ++ t

unfoldable pub wire_texts : ℕ → List (Option Text) → List ℕ
wire_texts zero ts = []
wire_texts (suc n) [] = []
wire_texts (suc n) (t ∷ ts) = wire_text t ++ wire_texts n ts

unfoldable pub wire_count : FieldHead → List ℕ
wire_count h = if h.is_array && not h.is_fixed_array then le_bytes 4 (count h.array_size) else []

-- The bytes of a block up to the first that nothing was stored in.
unfoldable pub known : Block → List ℕ
known [] = []
known (none ∷ cells) = []
known (some b ∷ cells) = b ∷ known cells

unfoldable mutual
  pub wire : Message → List ℕ
  wire (message fs md5 md) = wire_fields fs

  pub wire_fields : Fields → List ℕ
  wire_fields no_fields = []
  wire_fields (null_field fs) = []
  wire_fields (with_field f fs) = wire_field f ++ wire_fields fs

  pub wire_field : Field → List ℕ
  wire_field (field h d) = wire_count h ++ wire_data h d

  pub wire_data : FieldHead → Data → List ℕ
  wire_data h (opaque bytes) = take (type_size h.type) bytes
  wire_data h (as_string t) = wire_text t
  wire_data h no_msg = []
  wire_data h null_array = []
  wire_data h (as_msg m) = wire m
  wire_data h (as_array blk) = known (take (type_size h.type * count h.array_size) blk)
  wire_data h (as_string_array ts) = wire_texts (count h.array_size) ts
  wire_data h (as_msg_array ms) = wire_messages (count h.array_size) ms

  pub wire_messages : ℕ → Messages → List ℕ
  wire_messages zero ms = []
  wire_messages (suc n) no_messages = []
  wire_messages (suc n) (null_message ms) = wire_messages n ms
  wire_messages (suc n) (with_message m ms) = wire m ++ wire_messages n ms

-- Every byte was stored.
abbrev pub AreStored : Block → Type 0
AreStored [] = Unit {0}
AreStored (none ∷ cells) = ⊥
AreStored (some b ∷ cells) = AreStored cells

abbrev pub BytesCanSend : FieldHead → ℕ → Block → Type 0
BytesCanSend h n blk =
    (h.array_size ≡ pos n)
    × (type_size h.type * n ≤ length blk)
    × AreStored (take (type_size h.type * n) blk)

-- A message that can be sent: the union holds what type and flag tell, and what is sent lies in its
-- block and was stored.
abbrev mutual
  pub CanSend : Message → Type 0
  CanSend (message fs md5 md) = FieldsCanSend fs

  pub FieldsCanSend : Fields → Type 0
  FieldsCanSend no_fields = Unit {0}
  FieldsCanSend (null_field fs) = ⊥
  FieldsCanSend (with_field f fs) = FieldCanSend f × FieldsCanSend fs

  pub FieldCanSend : Field → Type 0
  FieldCanSend (field h d) = DataCanSend h d

  pub DataCanSend : FieldHead → Data → Type 0
  DataCanSend h (opaque bytes) = HoldsKind h plain false × (type_size h.type ≤ length bytes)
  DataCanSend h (as_string t) = HoldsKind h text false
  DataCanSend h no_msg = HoldsKind h nested false
  DataCanSend h null_array = ⊥
  DataCanSend h (as_msg m) = HoldsKind h nested false × CanSend m
  DataCanSend h (as_array blk) = HoldsKind h plain true × BytesCanSend h (count h.array_size) blk
  DataCanSend h (as_string_array ts) =
      HoldsKind h text true
      × (h.array_size ≡ pos (count h.array_size))
      × (count h.array_size ≤ length ts)
  DataCanSend h (as_msg_array ms) =
      HoldsKind h nested true
      × (h.array_size ≡ pos (count h.array_size))
      × (count h.array_size ≤ messages_length ms)
      × MessagesCanSend ms

  pub MessagesCanSend : Messages → Type 0
  MessagesCanSend no_messages = Unit {0}
  MessagesCanSend (null_message ms) = MessagesCanSend ms
  MessagesCanSend (with_message m ms) = CanSend m × MessagesCanSend ms
