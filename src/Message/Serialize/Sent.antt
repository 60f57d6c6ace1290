-- ===== src/Message/Serialize/Sent.antt =====
-- What cRosMessageSerialize puts into the buffer.
pub mod Pushes
pub mod Texts
use cros.Common.{
  List, ap, arith, false, length, length-append, length-take, mul_size, pos, refl, size_of_int,
  some, subst, suc, sym, take, take-all, true, zero, ℕ, ℤ, ◌*◌, ◌++◌, ◌∙◌, ◌≡◌, ◌≤◌,
}
use cros.Mem.{Block, ◌>>=◌}
use cros.Message.{
  Data, Field, FieldHead, Fields, Kind, Message, Messages, as_array, as_msg, as_msg_array,
  as_string, as_string_array, field, kind, message, nested, no_fields, no_messages, no_msg,
  null_array, null_field, null_message, opaque, plain, text, with_field, with_message,
}
use cros.Message.Serialize.{
  Heaps, Output, array_bytes, push_checked, serialize, serialize_array, serialize_count,
  serialize_field, serialize_fields, serialize_message, serialize_messages, serialize_single,
  stored,
}
use cros.Message.Serialize.Wire.{
  BytesCanSend, CanSend, FieldCanSend, FieldsCanSend, MessagesCanSend, known, wire, wire_count,
  wire_data, wire_field, wire_fields, wire_messages,
}
use cros.Message.Copy.{count}
use cros.Message.Serialize.Sent.Pushes.{Ready, Sent, Sent-nothing, Sent-then, push_checked-Sent}
use cros.Message.Serialize.Sent.Texts.{
  Fits, Fits-first, Fits-second, count-Sent, length-known, stored-known, text-Sent, texts-Sent,
}
use cros.DynBuffer.{DynBuffer}
use cros.DynBuffer.Roomy.{IsRoomy}
use cros.DynBuffer.Valid.{Holds}
use cros.Message.Types.{type_size}
use cros.Message.Valid.{HoldsKind, messages_length}

single_field :
    (h : FieldHead) (d : Data) (o : Output)
    → h.is_array ≡ false
    → (wire_field (field h d) ≡ wire_data h d)
      × (serialize_field (field h d) o ≡ serialize_single h (kind h.type) d o)
unfolding wire wire_count serialize_fields serialize_count
single_field h d o e =
    (rw (wire_field, wire_count, e) refl, rw (serialize_field, serialize_count, e, e) refl)

array_field :
    (h : FieldHead) (d : Data) (o : Output)
    → h.is_array ≡ true
    → serialize_field (field h d) o
      ≡ (serialize_count h o >>= λ p. serialize_array h (kind h.type) d p)
unfolding serialize_fields
array_field h d o e = simp (serialize_field, e)

module _ (content : List ℕ) (cursor : ℕ) (o : Output) (ready : Ready content cursor o) where
  -- A single value.
  single-Sent :
      (h : FieldHead) (k : Kind) (d : Data)
      → HoldsKind h k false
      → Sent content cursor (wire_data h d) (serialize_single h k d o)
      → Sent content cursor (wire_field (field h d)) (serialize_field (field h d) o)
  single-Sent h k d (of_kind, single) s =
      rw ((single_field h d o single).0, (single_field h d o single).1)
        (subst (λ (j : Kind). Sent content cursor (wire_data h d) (serialize_single h j d o))
          (sym of_kind) s)

  -- An array: the number of its elements, where it varies, then the elements.
  array-Sent :
      (h : FieldHead) (k : Kind) (d : Data)
      → HoldsKind h k true
      → h.array_size ≡ pos (count h.array_size)
      → Fits content (wire_field (field h d))
      → ((p : Output)
          → Ready (content ++ wire_count h) cursor p
          → Fits (content ++ wire_count h) (wire_data h d)
          → Sent (content ++ wire_count h) cursor (wire_data h d) (serialize_array h k d p))
      → Sent content cursor (wire_field (field h d)) (serialize_field (field h d) o)
  unfolding wire
  array-Sent h k d (of_kind, array) size fits elements =
      subst (Sent content cursor (wire_count h ++ wire_data h d)) (sym (array_field h d o array)) (
        Sent-then
          (count-Sent content cursor o ready h size
            (Fits-first content (wire_count h) (wire_data h d) fits))
          (λ p r.
            subst
              (λ (j : Kind).
                Sent (content ++ wire_count h) cursor (wire_data h d) (serialize_array h j d p))
              (sym of_kind)
              (elements p r (Fits-second content (wire_count h) (wire_data h d) fits))))

  bytes-Sent :
      (h : FieldHead) (blk : Block)
      → BytesCanSend h (count h.array_size) blk
      → Fits content (known (take (type_size h.type * count h.array_size) blk))
      → Sent content cursor (wire_data h (as_array blk)) (serialize_array h plain (as_array blk) o)
  unfolding serialize_fields wire
  bytes-Sent h blk (size, there, all) fits =
      subst
        (λ (m : ℕ).
          Sent content cursor (known (take n blk))
            (stored (take m blk) >>= λ bytes. push_checked o (some bytes) m))
        exact
        (rw (stored-known (take n blk) all) (
          subst
            (λ (l : List ℕ). Sent content cursor l (push_checked o (some (known (take n blk))) n))
            (take-all n (known (take n blk)) (omega (arith, len)))
            (push_checked-Sent content cursor o ready (known (take n blk)) n (omega (arith, len))
              (omega (arith, len, fits)))))
    where
      n : ℕ
      n = type_size h.type * count h.array_size

      len : length (known (take n blk)) ≡ n
      len = length-known (take n blk) all ∙ omega (arith, length-take n blk, there)

      exact : n ≡ array_bytes h
      exact =
          omega (arith, ap (λ (z : ℤ). mul_size (type_size h.type) (size_of_int z)) size, len, fits)

data-Fits :
    (content : List ℕ) (h : FieldHead) (d : Data)
    → Fits content (wire_field (field h d))
    → Fits content (wire_data h d)
unfolding wire
data-Fits content h d fits = omega (arith, length-append {0} (wire_count h) (wire_data h d))

module _ (cursor : ℕ) where
  mutual
    unfolding wire serialize_fields

    pub fields-Sent :
        (fs : Fields) (content : List ℕ) (o : Output)
        → FieldsCanSend fs
        → Ready content cursor o
        → Fits content (wire_fields fs)
        → Sent content cursor (wire_fields fs) (serialize_fields fs o)
    fields-Sent no_fields content o ok ready fits = Sent-nothing ready
    fields-Sent (null_field fs) content o ok ready fits = absurd ok
    fields-Sent (with_field f fs) content o ok ready fits =
        rw (serialize_fields, ready.no_error)
          (Sent-then
            (field-Sent f content o (ok.0) ready
              (Fits-first content (wire_field f) (wire_fields fs) fits))
            (λ p r.
              fields-Sent fs (content ++ wire_field f) p (ok.1) r
                (Fits-second content (wire_field f) (wire_fields fs) fits)))

    field-Sent :
        (f : Field) (content : List ℕ) (o : Output)
        → FieldCanSend f
        → Ready content cursor o
        → Fits content (wire_field f)
        → Sent content cursor (wire_field f) (serialize_field f o)
    field-Sent (field h (opaque bytes)) content o ok ready fits =
        single-Sent content cursor o ready h plain (opaque bytes) (ok.0) (
          push_checked-Sent content cursor o ready bytes (type_size h.type) (ok.1) (
            omega (
              arith,
              data-Fits content h (opaque bytes) fits,
              length-take (type_size h.type) bytes,
              ok.1,
            )))
    field-Sent (field h (as_string t)) content o ok ready fits =
        single-Sent content cursor o ready h text (as_string t) ok
          (text-Sent content cursor o ready t (data-Fits content h (as_string t) fits))
    field-Sent (field h no_msg) content o ok ready fits =
        single-Sent content cursor o ready h nested no_msg ok (Sent-nothing ready)
    field-Sent (field h null_array) content o ok ready fits = absurd ok
    field-Sent (field h (as_msg m)) content o ok ready fits =
        single-Sent content cursor o ready h nested (as_msg m) (ok.0)
          (message-Sent m content o (ok.1) ready (data-Fits content h (as_msg m) fits))
    field-Sent (field h (as_array blk)) content o ok ready fits =
        array-Sent content cursor o ready h plain (as_array blk) (ok.0) (ok.1.0) fits
          (λ p r after. bytes-Sent (content ++ wire_count h) cursor p r h blk (ok.1) after)
    field-Sent (field h (as_string_array ts)) content o ok ready fits =
        array-Sent content cursor o ready h text (as_string_array ts) (ok.0) (ok.1) fits
          (λ p r after.
            texts-Sent (count h.array_size) ts (content ++ wire_count h) cursor p r (ok.2) after)
    field-Sent (field h (as_msg_array ms)) content o ok ready fits =
        array-Sent content cursor o ready h nested (as_msg_array ms) (ok.0) (ok.1) fits
          (λ p r after.
            messages-Sent (count h.array_size) ms (content ++ wire_count h) p (ok.2) (ok.3) r after)

    messages-Sent :
        (n : ℕ) (ms : Messages) (content : List ℕ) (o : Output)
        → n ≤ messages_length ms
        → MessagesCanSend ms
        → Ready content cursor o
        → Fits content (wire_messages n ms)
        → Sent content cursor (wire_messages n ms) (serialize_messages n ms o)
    messages-Sent zero ms content o there ok ready fits = Sent-nothing ready
    messages-Sent (suc n) no_messages content o there ok ready fits = absurd (omega arith)
    messages-Sent (suc n) (null_message ms) content o there ok ready fits =
        rw (serialize_messages, ready.no_error)
          (messages-Sent n ms content o (omega arith) ok ready fits)
    messages-Sent (suc n) (with_message m ms) content o there ok ready fits =
        rw (serialize_messages, ready.no_error)
          (Sent-then
            (message-Sent m content o (ok.0) ready
              (Fits-first content (wire m) (wire_messages n ms) fits))
            (λ p r.
              messages-Sent n ms (content ++ wire m) p (omega arith) (ok.1) r
                (Fits-second content (wire m) (wire_messages n ms) fits)))

    pub message-Sent :
        (m : Message) (content : List ℕ) (o : Output)
        → CanSend m
        → Ready content cursor o
        → Fits content (wire m)
        → Sent content cursor (wire m) (serialize_message m o)
    message-Sent (message fs md5 md) content o ok ready fits =
        fields-Sent fs content (record o { code = 0 }) ok
          (record {
            no_error = refl;
            holds = ready.holds;
            same_cursor = ready.same_cursor;
            roomy = ready.roomy;
          })
          fits

-- cRosMessageSerialize of a message that can be sent, into a well-formed buffer that stays below
-- 2 GB and while the allocator has memory: it returns success, and has put the bytes that stand for
-- the message behind the content; the cursor stays, and the buffer is well formed again.
pub serialize-Sent :
    (hs : Heaps) (m : Message) (d : DynBuffer) (content : List ℕ)
    → CanSend m
    → Holds d content
    → ((k : ℕ) → IsRoomy (hs k))
    → Fits content (wire m)
    → Sent content d.pos_offset (wire m) (serialize hs m d)
unfolding serialize
serialize-Sent hs m d content ok holds roomy fits =
    message-Sent d.pos_offset m content (record { code = 0; buffer = d; heaps = hs }) ok
      (record { no_error = refl; holds = holds; same_cursor = refl; roomy = roomy }) fits
