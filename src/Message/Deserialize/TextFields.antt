-- ===== src/Message/Deserialize/TextFields.antt =====
-- Array fields of texts against the bytes that stand for them.
use cros.Common.{
  List, Option, [], ap, ap₂, arith, drop, false, int_max, length, length-append, length-drop,
  length-replicate, none, not, pos, refl, replicate, size_of_int, some, subst, suc, sym, take, true,
  zero, ℕ, ℤ, ◌*◌, ◌++◌, ◌||◌, ◌∙◌, ◌∷◌, ◌≡◌, ◌≤◌,
}
use cros.Message.{Field, FieldHead, Text, as_string_array, field, kind, string_type, text}
use cros.Message.Copy.{count}
use cros.Message.Arrays.{is_type, is_variable}
use cros.Message.Serialize.Wire.{wire, wire_field, wire_text, wire_texts}
use cros.Message.Deserialize.Reads.{Input, as_uint32, read_number, read_text_array, read_texts}
use cros.Message.Deserialize.Cursor.{At, Got, Got-then, Got-weaken}
use cros.Message.Deserialize.Numbers.{SentAs, read_number-Got, wire_fixed, wire_variable}
use cros.Message.Deserialize.Texts.{sent_again}
use cros.Message.Deserialize.TextLoop.{AreStrings, arrived, texts-Got, wire_all}
use cros.Message.Deserialize.TextArrays.{FixedTexts, VariableTexts, fixed-Takes, variable-Takes}
use cros.DynBuffer.{le_bytes}
use cros.Mem.{done, ◌>>=◌}
use cros.Message.Elements.{array_clear, clear_elements, clear_texts}
use cros.Message.Frees.{inside-done}

pub wire_texts-take :
    (n : ℕ) (ts : List (Option Text)) → n ≤ length ts → wire_texts n ts ≡ wire_all (take n ts)
unfolding wire_texts
wire_texts-take zero ts h = refl
wire_texts-take (suc n) [] h = absurd (omega arith)
wire_texts-take (suc n) (t ∷ ts) h =
    ap (λ (l : List ℕ). wire_text t ++ l) (wire_texts-take n ts (omega arith))

wire_all-arrived : (ts : List (Option Text)) → wire_all (arrived ts) ≡ wire_all ts
wire_all-arrived [] = refl
wire_all-arrived (t ∷ ts) = ap₂ (λ (l m : List ℕ). l ++ m) (sent_again t) (wire_all-arrived ts)

length-arrived : (ts : List (Option Text)) → length (arrived ts) ≡ length ts
length-arrived [] = refl
length-arrived (t ∷ ts) = ap suc (length-arrived ts)

-- What n texts that arrived are sent as.
texts_again :
    (ts todo : List (Option Text))
    → length todo ≤ length ts
    → take (length (arrived todo)) ts ≡ arrived todo
    → wire_texts (length todo) ts ≡ wire_all todo
texts_again ts todo room first =
    wire_texts-take (length todo) ts room
    ∙ (ap (λ (n : ℕ). wire_all (take n ts)) (sym (length-arrived todo))
        ∙ (ap wire_all first ∙ wire_all-arrived todo))

pub fixed_texts-Got :
    (h : FieldHead) (ts todo : List (Option Text)) (rest : List ℕ) (i : Input)
    → h.is_fixed_array ≡ true
    → is_variable h ≡ false
    → (not (is_type h.type string_type) || not h.is_array) ≡ false
    → h.array_size ≡ pos (length todo)
    → length todo ≤ int_max
    → length todo ≤ length ts
    → AreStrings todo
    → At (wire_all todo ++ rest) i
    → Got (SentAs (wire_all todo)) rest (read_text_array h (as_string_array ts) i)
unfolding read_text_array wire
fixed_texts-Got h ts todo rest i fixed not_variable accepts size small room clean ready =
    subst (Got (SentAs (wire_all todo)) rest) (sym reads) (
      Got-weaken {Fine = SentAs (wire_all todo)} (λ f has. again f has)
        (texts-Got (FixedTexts h (length todo)) (length todo)
          (fixed-Takes h (length todo) fixed accepts) todo [] (field h (as_string_array ts)) rest i
          (record { ts = ts; field_eq = refl; room = room; first = refl }) (omega arith) clean
          ready))
  where
    low : as_uint32 h.array_size ≡ length todo
    low = omega (arith, ap size_of_int size)

    reads :
        read_text_array h (as_string_array ts) i
        ≡ read_texts (length todo) 0 (field h (as_string_array ts)) i
    reads = (simp (fixed)) ∙ ap (λ (n : ℕ). read_texts n 0 (field h (as_string_array ts)) i) low

    again : (f : Field) → FixedTexts h (length todo) (arrived todo) f → wire_field f ≡ wire_all todo
    again f has =
        ap wire_field has.field_eq
        ∙ (wire_fixed h (as_string_array has.ts) not_variable
            ∙ (ap (λ (z : ℤ). wire_texts (count z) has.ts) size
                ∙ texts_again has.ts todo has.room has.first))

-- The array after cRosMessageFieldArrayClear.
abbrev emptied : FieldHead → List (Option Text) → Field
emptied h ts =
    field (record h { array_size = pos 0 }) (as_string_array (clear_texts (count h.array_size) ts))

cleared_texts :
    (h : FieldHead) (ts : List (Option Text))
    → is_variable h ≡ true
    → kind h.type ≡ text
    → count h.array_size ≤ length ts
    → array_clear (field h (as_string_array ts)) ≡ done (pos 0, emptied h ts)
unfolding array_clear clear_elements
cleared_texts h ts variable of_kind there =
    rw (variable, of_kind, inside-done h.array_size (length ts) there) refl

read_after_clear :
    (h : FieldHead) (ts : List (Option Text)) (i : Input)
    → h.is_fixed_array ≡ false
    → array_clear (field h (as_string_array ts)) ≡ done (pos 0, emptied h ts)
    → read_text_array h (as_string_array ts) i ≡ (
        read_number i >>= λ r. elim (r.0) [
          | none ↦ done (emptied h ts, r.1)
          | some n ↦ read_texts n 0 (emptied h ts) (r.1)
        ])
unfolding read_text_array
read_after_clear h ts i not_fixed cleared = simp (not_fixed, cleared)

pub variable_texts-Got :
    (h : FieldHead) (ts todo : List (Option Text)) (rest : List ℕ) (i : Input)
    → h.is_fixed_array ≡ false
    → is_variable h ≡ true
    → kind h.type ≡ text
    → (not (is_type h.type string_type) || not (is_variable h)) ≡ false
    → count h.array_size ≤ length ts
    → length ts ≡ count h.array_capacity
    → 1 ≤ length ts
    → length todo * 2 ≤ int_max
    → AreStrings todo
    → At (le_bytes 4 (length todo) ++ (wire_all todo ++ rest)) i
    → Got
        (SentAs (le_bytes 4 (length todo) ++ wire_all todo))
        rest
        (read_text_array h (as_string_array ts) i)
unfolding wire
variable_texts-Got h ts todo rest i not_fixed variable of_kind accepts there block some_room small
      clean ready =
    subst (Got (SentAs (le_bytes 4 (length todo) ++ wire_all todo)) rest)
      (sym (read_after_clear h ts i not_fixed (cleared_texts h ts variable of_kind there)))
      (Got-then
        {f = λ x j. elim x [
          | none ↦ done (emptied h ts, j)
          | some n ↦ read_texts n 0 (emptied h ts) j
        ]}
        (read_number-Got i (length todo) (wire_all todo ++ rest) (omega arith) ready)
        (λ x j e r. rw e (
          Got-weaken {Fine = SentAs (le_bytes 4 (length todo) ++ wire_all todo)}
            (λ f has. again f has)
            (texts-Got VariableTexts (length todo) (variable-Takes (length todo) small) todo []
              (emptied h ts) rest j
              (record {
                h = record h { array_size = pos 0 };
                ts = clear_texts (count h.array_size) ts;
                field_eq = refl;
                accepts = accepts;
                variable = variable;
                not_fixed = not_fixed;
                size = refl;
                block = same_length ∙ block;
                some_room = omega (arith, same_length);
                fits = omega (arith, same_length);
                first = refl;
              })
              (omega arith) clean r))))
  where
    same_length : length (clear_texts (count h.array_size) ts) ≡ length ts
    same_length = omega (
      arith,
      length-append {0} (replicate (count h.array_size) none) (drop (count h.array_size) ts),
      length-replicate {0} {A = Option Text} (count h.array_size) none,
      length-drop (count h.array_size) ts,
    )

    again :
        (f : Field)
        → VariableTexts (arrived todo) f
        → wire_field f ≡ le_bytes 4 (length todo) ++ wire_all todo
    again f has =
        ap wire_field has.field_eq
        ∙ (wire_variable has.h (as_string_array has.ts) has.variable
            ∙ (ap (λ (z : ℤ). le_bytes 4 (count z) ++ wire_texts (count z) has.ts)
                  (has.size ∙ ap pos (length-arrived todo))
                ∙ ap (λ (l : List ℕ). le_bytes 4 (length todo) ++ l)
                    (texts_again has.ts todo (omega (arith, has.fits, length-arrived todo))
                      has.first)))
