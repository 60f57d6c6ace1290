-- ===== src/Message/Deserialize/TextLeaves.antt =====
-- Arrays of texts as fields: what is sent arrives.
use cros.Common.{
  List, Option, ap, append_assoc, ap₂, arith, false, inl, inr, length, length-take, not, pos, refl,
  subst, sym, take, true, ℕ, ◌++◌, ◌||◌, ◌∙◌, ◌≡◌,
}
use cros.DynBuffer.{le_bytes}
use cros.Mem.{Run}
use cros.Message.{FieldHead, Message, Text, as_string_array, field, kind, string_type, text}
use cros.Message.Copy.{count}
use cros.Message.Arrays.{is_type, is_variable}
use cros.Message.Serialize.Wire.{DataCanSend, wire, wire_field}
use cros.Message.Deserialize.{Builder, Place, read_array, read_field}
use cros.Message.Deserialize.Reads.{Input, read_text_array}
use cros.Message.Deserialize.Cursor.{At, Got}
use cros.Message.Deserialize.Leaves.{array_variable, fixed_variable, same_variable}
use cros.Message.Deserialize.Matches.{SameShape, TextsMatch}
use cros.Message.Deserialize.Numbers.{SentAs, wire_fixed, wire_variable}
use cros.Message.Deserialize.Shapes.{by_bytes, kind-text, reads_array}
use cros.Message.Deserialize.TextLoop.{wire_all}
use cros.Message.Deserialize.TextFields.{fixed_texts-Got, variable_texts-Got, wire_texts-take}

accepts_fixed :
    (g : FieldHead)
    → is_type g.type string_type ≡ true
    → g.is_array ≡ true
    → (not (is_type g.type string_type) || not g.is_array) ≡ false
accepts_fixed g t a = rw t (ap not a)

module _ (build : Builder) (rec : Message → Input → Run (Message × Input)) (place : Place)
    (g h : FieldHead) (shape : SameShape g h) (rest : List ℕ) (i : Input) where
  pub texts_field-Got :
      (us ts : List (Option Text))
      → DataCanSend h (as_string_array ts)
      → TextsMatch g us h ts
      → At (wire_field (field h (as_string_array ts)) ++ rest) i
      → Got
          (SentAs (wire_field (field h (as_string_array ts))))
          rest
          (read_field build rec place (field g (as_string_array us)) i)
  unfolding wire read_array
  texts_field-Got us ts ok (clean, match) ready = elim match [
    | inl (not_fixed, there, block, some_room, small) ↦
        let variable : is_variable g ≡ true = array_variable g array not_fixed in
        by_bytes {old = le_bytes 4 (length todo) ++ wire_all todo}
          (sym (
            wire_variable h (as_string_array ts) (sym (same_variable g h shape) ∙ variable)
            ∙ ap₂ (λ (n : ℕ) (l : List ℕ). le_bytes 4 n ++ l) (sym size)
                (wire_texts-take n ts (ok.2))))
          ready
          (λ r.
            subst (Got (SentAs (le_bytes 4 (length todo) ++ wire_all todo)) rest) (sym text_array) (
              variable_texts-Got g us todo rest i not_fixed variable of_kind
                (rw (of_type, variable) refl) there block some_room (omega (arith, size, small))
                clean
                (subst (λ (l : List ℕ). At l i)
                  (append_assoc (le_bytes 4 (length todo)) (wire_all todo) rest) r)))
    | inr (fixed, same, small, room) ↦
        let not_variable : is_variable g ≡ false = fixed_variable g fixed in
        by_bytes {old = wire_all todo}
          (sym (
            wire_fixed h (as_string_array ts) (sym (same_variable g h shape) ∙ not_variable)
            ∙ wire_texts-take n ts (ok.2)))
          ready
          (λ r. subst (Got (SentAs (wire_all todo)) rest) (sym text_array) (
            fixed_texts-Got g us todo rest i fixed not_variable (accepts_fixed g of_type array)
              (same ∙ (ok.1 ∙ ap pos (sym size))) (omega (arith, size, small))
              (omega (arith, size, room)) clean r))
  ]
    where
      n : ℕ
      n = count h.array_size

      todo : List (Option Text)
      todo = take n ts

      size : length todo ≡ n
      size = omega (arith, length-take n ts, ok.2)

      of_kind : kind g.type ≡ text
      of_kind = ap kind shape.0 ∙ ok.0.0

      of_type : is_type g.type string_type ≡ true
      of_type = kind-text g.type of_kind

      array : g.is_array ≡ true
      array = shape.1 ∙ ok.0.1

      text_array :
          read_field build rec place (field g (as_string_array us)) i
          ≡ read_text_array g (as_string_array us) i
      text_array = reads_array build rec place g (as_string_array us) i text array of_kind
