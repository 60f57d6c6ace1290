-- ===== src/Message/Deserialize/Leaves.antt =====
-- Numbers, their arrays and texts as fields: what is sent arrives.
use cros.Common.{
  Bool, List, Option, ap, append_assoc, ap₂, arith, false, inl, inr, length, length-take, not, pos,
  subst, sym, take, true, ℕ, ℤ, ◌&&◌, ◌*◌, ◌++◌, ◌∙◌, ◌≡◌,
}
use cros.Mem.{Block, Run}
use cros.Message.{
  Data, FieldHead, Message, MessageType, Text, as_array, as_string, field, kind, opaque, plain,
  text,
}
use cros.Message.Copy.{count}
use cros.Message.Types.{type_size}
use cros.Message.Arrays.{is_variable}
use cros.Message.Serialize.Wire.{DataCanSend, known, wire, wire_field, wire_text}
use cros.Message.Serialize.Sent.Texts.{length-known}
use cros.Message.Deserialize.{Builder, Place, read_array, read_field, read_single}
use cros.Message.Deserialize.Reads.{Input, read_fixed, read_variable}
use cros.Message.Deserialize.Cursor.{At, Got}
use cros.Message.Deserialize.Matches.{NumbersMatch, SameShape}
use cros.Message.Deserialize.NumberArrays.{read_variable-Got}
use cros.Message.Deserialize.Numbers.{
  SentAs, read_fixed-Got, read_opaque-Got, wire_fixed, wire_single, wire_variable,
}
use cros.Message.Deserialize.Shapes.{by_bytes, reads_array, reads_single}
use cros.Message.Deserialize.Texts.{IsString, text-Got}
use cros.DynBuffer.{le_bytes}

pub same_variable : (g h : FieldHead) → SameShape g h → is_variable g ≡ is_variable h
same_variable g h shape = ap₂ (λ (x y : Bool). x && not y) (shape.1) (shape.2)

variable_fixed : (g : FieldHead) → is_variable g ≡ true → g.is_fixed_array ≡ false
variable_fixed g h = ground arith

fixed_array : (g : FieldHead) → g.is_array ≡ true → is_variable g ≡ false → g.is_fixed_array ≡ true
fixed_array g a h = ground arith

pub array_variable :
    (g : FieldHead) → g.is_array ≡ true → g.is_fixed_array ≡ false → is_variable g ≡ true
array_variable g a f = ground arith

pub fixed_variable : (g : FieldHead) → g.is_fixed_array ≡ true → is_variable g ≡ false
fixed_variable g f = ground arith

module _ (build : Builder) (rec : Message → Input → Run (Message × Input)) (place : Place)
    (i : Input) where
  picks_variable :
      (g : FieldHead) (d : Data)
      → g.is_fixed_array ≡ false
      → read_array build rec place g plain d i ≡ read_variable g d i
  unfolding read_array
  picks_variable g d e = simp (e)

  picks_fixed :
      (g : FieldHead) (d : Data)
      → g.is_fixed_array ≡ true
      → read_array build rec place g plain d i ≡ read_fixed g d i
  unfolding read_array
  picks_fixed g d e = simp (e)

module _ (build : Builder) (rec : Message → Input → Run (Message × Input)) (place : Place)
    (g h : FieldHead) (shape : SameShape g h) (rest : List ℕ) (i : Input) where
  pub opaque-Got :
      (old bytes : List ℕ)
      → DataCanSend h (opaque bytes)
      → At (wire_field (field h (opaque bytes)) ++ rest) i
      → Got
          (SentAs (wire_field (field h (opaque bytes))))
          rest
          (read_field build rec place (field g (opaque old)) i)
  unfolding wire read_single
  opaque-Got old bytes ok ready =
      by_bytes {old = take (type_size h.type) bytes} (sym (wire_single h (opaque bytes) (ok.0.1)))
        ready
        (λ r.
          subst (Got (SentAs (take (type_size h.type) bytes)) rest)
            (sym (
              reads_single build rec place g (opaque old) i plain (shape.1 ∙ ok.0.1)
                (ap kind shape.0 ∙ ok.0.0)))
            (read_opaque-Got g (take (type_size h.type) bytes) rest i old (shape.1 ∙ ok.0.1)
              (ap type_size shape.0 ∙ omega (arith, length-take (type_size h.type) bytes, ok.1)) r))

  pub string-Got :
      (u t : Option Text)
      → DataCanSend h (as_string t)
      → IsString t
      → At (wire_field (field h (as_string t)) ++ rest) i
      → Got
          (SentAs (wire_field (field h (as_string t))))
          rest
          (read_field build rec place (field g (as_string u)) i)
  unfolding wire read_single
  string-Got u t ok clean ready =
      by_bytes {old = wire_text t} (sym (wire_single h (as_string t) (ok.1))) ready (λ r.
        subst (Got (SentAs (wire_text t)) rest)
          (sym (
            reads_single build rec place g (as_string u) i text (shape.1 ∙ ok.1)
              (ap kind shape.0 ∙ ok.0)))
          (text-Got g t rest i (shape.1 ∙ ok.1) clean r))

  pub numbers-Got :
      (blk sent : Block)
      → DataCanSend h (as_array sent)
      → NumbersMatch g blk h
      → At (wire_field (field h (as_array sent)) ++ rest) i
      → Got
          (SentAs (wire_field (field h (as_array sent))))
          rest
          (read_field build rec place (field g (as_array blk)) i)
  unfolding wire read_array
  numbers-Got blk sent ok match ready = elim match [
    | inl (variable, room, few) ↦
        by_bytes {old = le_bytes 4 (count h.array_size) ++ new}
          (sym (wire_variable h (as_array sent) (sym (same_variable g h shape) ∙ variable))) ready
          (λ r.
            subst (Got (SentAs (le_bytes 4 (count h.array_size) ++ new)) rest)
              (sym (
                plain_array
                ∙ picks_variable build rec place i g (as_array blk) (variable_fixed g variable)))
              (read_variable-Got g blk (count h.array_size) new rest i variable of_kind room
                (size ∙ ap (λ (ty : MessageType). type_size ty * count h.array_size) (sym shape.0))
                few
                (subst (λ (l : List ℕ). At l i)
                  (append_assoc (le_bytes 4 (count h.array_size)) new rest) r)))
    | inr (fixed, same, room) ↦
        by_bytes {old = new}
          (sym (wire_fixed h (as_array sent) (sym (same_variable g h shape) ∙ fixed))) ready
          (λ r.
            subst (Got (SentAs new) rest)
              (sym (
                plain_array
                ∙ picks_fixed build rec place i g (as_array blk) (fixed_array g array fixed)))
              (read_fixed-Got g new rest i blk fixed (elements same ∙ sym size) (positive same)
                (omega (arith, elements same, size, room)) r))
  ]
    where
      of_kind : kind g.type ≡ plain
      of_kind = ap kind shape.0 ∙ ok.0.0

      array : g.is_array ≡ true
      array = shape.1 ∙ ok.0.1

      plain_array :
          read_field build rec place (field g (as_array blk)) i
          ≡ read_array build rec place g plain (as_array blk) i
      plain_array = reads_array build rec place g (as_array blk) i plain array of_kind

      elements :
          g.array_size ≡ h.array_size
          → type_size g.type * count g.array_size ≡ type_size h.type * count h.array_size
      elements same = ap₂ (λ (ty : MessageType) (z : ℤ). type_size ty * count z) (shape.0) same

      positive : g.array_size ≡ h.array_size → g.array_size ≡ pos (count g.array_size)
      positive same = same ∙ (ok.1.0 ∙ ap (λ (z : ℤ). pos (count z)) (sym same))

      new : List ℕ
      new = known (take (type_size h.type * count h.array_size) sent)

      size : length new ≡ type_size h.type * count h.array_size
      size =
          length-known (take (type_size h.type * count h.array_size) sent) (ok.1.2)
          ∙ omega (arith, length-take (type_size h.type * count h.array_size) sent, ok.1.1)
