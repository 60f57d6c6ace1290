-- ===== src/Message/Serialize.antt =====
-- src/cros_message.c: cRosMessageSerialize, which appends the fields of a message to a byte buffer.
pub mod Wire
pub mod Sent
mod Tests
use cros.Common.{
  List, Option, [], false, if◌then◌else◌, length, mul_size, negsuc, none, not, pos, size_of_int,
  some, suc, take, true, zero, ℕ, ℤ, ◌&&◌, ◌==◌, ◌∷◌,
}
use cros.DynBuffer.{DynBuffer, push_back_buf, push_back_int32}
use cros.Mem.{Block, Heap, Run, done, fault, ◌>>=◌}
use cros.Message.{
  Data, Field, FieldHead, Fields, Kind, Message, Messages, Text, as_array, as_msg, as_msg_array,
  as_string, as_string_array, field, kind, message, nested, no_fields, no_messages, no_msg,
  null_array, null_field, null_message, opaque, plain, text, with_field, with_message,
}
use cros.Message.Copy.{count}
use cros.Message.Types.{type_size}

-- The allocator of each push to come: between two pushes it may change its answers.
abbrev pub Heaps : Type 0
Heaps = ℕ → Heap

abbrev pub next_heaps : Heaps → Heaps
next_heaps hs = λ n. hs (suc n)

-- CROS_MEM_ALLOC_ERR
abbrev pub mem_alloc_err : ℕ
mem_alloc_err = 2

-- `ret_err`, the buffer, and the allocators that are left.
pub record Output : Type 0 where
  pub code : ℕ
  pub buffer : DynBuffer
  pub heaps : Heaps

-- `(push >= 0) ? CROS_SUCCESS_ERR_PACK : CROS_MEM_ALLOC_ERR`
abbrev pub push_code : ℤ → ℕ
push_code (pos n) = 0
push_code (negsuc k) = mem_alloc_err

-- A push whose result becomes `ret_err`.
unfoldable pub push_checked : Output → Option (List ℕ) → ℕ → Run Output
push_checked o buf n = push_back_buf (o.heaps 0) o.buffer buf n >>= λ r.
    done (record { code = push_code (r.0); buffer = r.1; heaps = next_heaps o.heaps })

-- dynBufferPushBackInt32 with its result as `ret_err`.
unfoldable pub push_count : Output → ℤ → Run Output
push_count o n = push_back_int32 (o.heaps 0) o.buffer (size_of_int n) >>= λ r.
    done (record { code = push_code (r.0); buffer = r.1; heaps = next_heaps o.heaps })

-- dynBufferPushBackInt32 of the length of a text, the result ignored.
unfoldable pub push_length : Output → ℕ → Run Output
push_length o n = push_back_int32 (o.heaps 0) o.buffer n >>= λ r.
    done (record o { buffer = r.1; heaps = next_heaps o.heaps })

-- The bytes of a block; to send one that nothing was stored in is left undefined.
unfoldable pub stored : Block → Run (List ℕ)
stored [] = done []
stored (none ∷ cells) = fault
stored (some b ∷ cells) = stored cells >>= λ bs. done (b ∷ bs)

-- An element of an array of texts.
unfoldable pub serialize_element : Output → Option Text → Run Output
serialize_element o none = push_length o 0 >>= λ p. push_checked p none 0
serialize_element o (some t) = push_length o (length t) >>= λ p. push_checked p (some t) (length t)

-- A single text.
unfoldable pub serialize_text : Output → Option Text → Run Output
serialize_text o none = push_count o (pos 0)
serialize_text o (some t) = push_length o (length t) >>= λ p. push_checked p (some t) (length t)

-- The loop over the first n texts of an array.
unfoldable pub serialize_texts : ℕ → List (Option Text) → Output → Run Output
serialize_texts zero ts o = done o
serialize_texts (suc n) ts o = elim (o.code == 0) [
  | false ↦ done o
  | true ↦ elim ts [
    | [] ↦ fault
    | t ∷ rest ↦ serialize_element o t >>= λ p. serialize_texts n rest p
  ]
]

-- The number of elements of an array of variable length.
unfoldable pub serialize_count : FieldHead → Output → Run Output
serialize_count h o =
    if h.is_array && not h.is_fixed_array then push_count o h.array_size else done o

-- `size * field->array_size`
abbrev pub array_bytes : FieldHead → ℕ
array_bytes h = mul_size (type_size h.type) (size_of_int h.array_size)

-- What the loop over n messages does where the block has none.
unfoldable pub past_end : ℕ → Output → Run Output
past_end zero o = done o
past_end (suc n) o = elim (o.code == 0) [ true ↦ fault | false ↦ done o ]

-- cRosMessageSerialize; the cases of the switch for a single value and for an array.
unfoldable mutual
  pub serialize_fields : Fields → Output → Run Output
  serialize_fields no_fields o = done o
  serialize_fields (null_field fs) o = elim (o.code == 0) [ true ↦ fault | false ↦ done o ]
  serialize_fields (with_field f fs) o = elim (o.code == 0) [
    | true ↦ serialize_field f o >>= λ p. serialize_fields fs p
    | false ↦ done o
  ]

  pub serialize_field : Field → Output → Run Output
  serialize_field (field h d) o = serialize_count h o >>= λ p. elim (h.is_array) [
    | true ↦ serialize_array h (kind h.type) d p
    | false ↦ serialize_single h (kind h.type) d p
  ]

  pub serialize_single : FieldHead → Kind → Data → Output → Run Output
  serialize_single h plain (opaque bytes) o = push_checked o (some bytes) (type_size h.type)
  serialize_single h text (as_string t) o = serialize_text o t
  serialize_single h nested no_msg o = done o
  serialize_single h nested (as_msg m) o = serialize_message m o
  serialize_single h k d o = fault

  pub serialize_array : FieldHead → Kind → Data → Output → Run Output
  serialize_array h plain null_array o = push_checked o none (array_bytes h)
  serialize_array h plain (as_array blk) o =
      stored (take (array_bytes h) blk) >>= λ bytes. push_checked o (some bytes) (array_bytes h)
  serialize_array h text null_array o = serialize_texts (count h.array_size) [] o
  serialize_array h text (as_string_array ts) o = serialize_texts (count h.array_size) ts o
  serialize_array h nested null_array o = past_end (count h.array_size) o
  serialize_array h nested (as_msg_array ms) o = serialize_messages (count h.array_size) ms o
  serialize_array h k d o = fault

  -- The loop over the first n messages of an array; NULL is passed over.
  pub serialize_messages : ℕ → Messages → Output → Run Output
  serialize_messages zero ms o = done o
  serialize_messages (suc n) no_messages o = past_end (suc n) o
  serialize_messages (suc n) (null_message ms) o = elim (o.code == 0) [
    | true ↦ serialize_messages n ms o
    | false ↦ done o
  ]
  serialize_messages (suc n) (with_message m ms) o = elim (o.code == 0) [
    | true ↦ serialize_message m o >>= λ p. serialize_messages n ms p
    | false ↦ done o
  ]

  -- The call that is made for a nested message, with `ret_err` set to success.
  pub serialize_message : Message → Output → Run Output
  serialize_message (message fs md5 md) o = serialize_fields fs (record o { code = 0 })

unfoldable pub serialize : Heaps → Message → DynBuffer → Run Output
unfolding serialize_fields
serialize hs m d = serialize_message m (record { code = 0; buffer = d; heaps = hs })
