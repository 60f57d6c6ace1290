-- ===== src/Message/Serialize/Sent/Texts.antt =====
-- What cRosMessageSerialize puts into the buffer for texts, counts and arrays of numbers.
use cros.Common.{
  Bool, Bool-cases, List, Option, [], ap, append-nil, arith, if◌then◌else◌, inl, inr, int_max,
  length, length-append, none, not, pos, refl, size_of_int, some, subst, suc, sym, take-all, zero,
  ℕ, ◌&&◌, ◌++◌, ◌+◌, ◌∷◌, ◌≡◌, ◌≤◌,
}
use cros.DynBuffer.{le_bytes, push_back_buf}
use cros.DynBuffer.Values.{length-le_bytes}
use cros.Mem.{Block, done, ◌>>=◌}
use cros.Message.{FieldHead, Text}
use cros.Message.Copy.{count}
use cros.Message.Serialize.{
  Output, push_checked, push_length, serialize_count, serialize_element, serialize_text,
  serialize_texts, stored,
}
use cros.Message.Serialize.Wire.{AreStored, known, wire_count, wire_text, wire_texts}
use cros.Message.Serialize.Sent.Pushes.{
  Ready, Sent, Sent-nothing, Sent-then, push_checked-Sent, push_count-Sent, push_length-Sent,
}

-- What is to come leaves the size of the buffer an `int`.
abbrev pub Fits : List ℕ → List ℕ → Type 0
Fits content new = length content + length new ≤ int_max

pub Fits-first :
    (content first second : List ℕ) → Fits content (first ++ second) → Fits content first
Fits-first content first second h = omega (arith, length-append {0} first second)

pub Fits-second :
    (content first second : List ℕ)
    → Fits content (first ++ second)
    → Fits (content ++ first) second
Fits-second content first second h =
    omega (arith, length-append {0} first second, length-append {0} content first)

-- NULL and no bytes.
no_bytes :
    (content : List ℕ) (cursor : ℕ) (o : Output)
    → Ready content cursor o
    → length content ≤ int_max
    → Sent content cursor [] (push_checked o none 0)
unfolding push_checked push_back_buf
no_bytes content cursor o ready fits =
    push_checked-Sent content cursor o ready [] 0 (omega arith) (omega arith)

module _ (content : List ℕ) (cursor : ℕ) (o : Output) (ready : Ready content cursor o) where
  -- A length, then as many bytes.
  length_then_bytes :
      (t : List ℕ)
      → Fits content (le_bytes 4 (length t) ++ t)
      → Sent content cursor
          (le_bytes 4 (length t) ++ t)
          (push_length o (length t) >>= λ p. push_checked p (some t) (length t))
  length_then_bytes t fits =
      Sent-then
        (push_length-Sent content cursor o ready (length t) (
          omega (arith, length-append {0} (le_bytes 4 (length t)) t, length-le_bytes 4 (length t))))
        (λ p r.
          subst
            (λ (l : List ℕ).
              Sent (content ++ le_bytes 4 (length t)) cursor l (push_checked p (some t) (length t)))
            (take-all (length t) t (omega arith))
            (push_checked-Sent (content ++ le_bytes 4 (length t)) cursor p r t (length t)
              (omega arith) (Fits-second content (le_bytes 4 (length t)) t fits)))

  pub element-Sent :
      (t : Option Text)
      → Fits content (wire_text t)
      → Sent content cursor (wire_text t) (serialize_element o t)
  unfolding wire_text serialize_element
  element-Sent none fits =
      subst (λ (l : List ℕ). Sent content cursor l (serialize_element o none))
        (append-nil (le_bytes 4 0))
        (Sent-then (push_length-Sent content cursor o ready 0 (omega (arith, length-le_bytes 4 0)))
          (λ p r.
            no_bytes (content ++ le_bytes 4 0) cursor p r
              (omega (arith, length-append {0} content (le_bytes 4 0)))))
  element-Sent (some t) fits = length_then_bytes t fits

  pub text-Sent :
      (t : Option Text)
      → Fits content (wire_text t)
      → Sent content cursor (wire_text t) (serialize_text o t)
  unfolding wire_text serialize_text
  text-Sent none fits =
      push_count-Sent content cursor o ready (pos 0) (omega (arith, length-le_bytes 4 0))
  text-Sent (some t) fits = length_then_bytes t fits

  pub count-Sent :
      (h : FieldHead)
      → h.array_size ≡ pos (count h.array_size)
      → Fits content (wire_count h)
      → Sent content cursor (wire_count h) (serialize_count h o)
  unfolding wire_count serialize_count
  count-Sent h e fits = elim (Bool-cases (h.is_array && not h.is_fixed_array)) [
    | inl variable ↦
        rw (variable, size)
          (push_count-Sent content cursor o ready h.array_size (
            omega (
              arith,
              subst (λ (b : Bool). Fits content (if b then le_bytes 4 (count h.array_size) else []))
                  variable fits,
              length-le_bytes 4 (count h.array_size),
            )))
    | inr fixed ↦ rw fixed (Sent-nothing ready)
  ]
    where
      size : count h.array_size ≡ size_of_int h.array_size
      size = ap size_of_int (sym e)

pub texts-Sent :
    (n : ℕ) (ts : List (Option Text)) (content : List ℕ) (cursor : ℕ) (o : Output)
    → Ready content cursor o
    → n ≤ length ts
    → Fits content (wire_texts n ts)
    → Sent content cursor (wire_texts n ts) (serialize_texts n ts o)
unfolding wire_texts serialize_texts
texts-Sent zero ts content cursor o ready h fits = Sent-nothing ready
texts-Sent (suc n) [] content cursor o ready h fits = absurd (omega arith)
texts-Sent (suc n) (t ∷ ts) content cursor o ready h fits =
    rw (serialize_texts, ready.no_error)
      (Sent-then
        (element-Sent content cursor o ready t
          (Fits-first content (wire_text t) (wire_texts n ts) fits))
        (λ p r.
          texts-Sent n ts (content ++ wire_text t) cursor p r (omega arith)
            (Fits-second content (wire_text t) (wire_texts n ts) fits)))

pub stored-known : (cells : Block) → AreStored cells → stored cells ≡ done (known cells)
unfolding stored known
stored-known [] h = refl
stored-known (none ∷ cells) h = absurd h
stored-known (some b ∷ cells) h = rw (stored-known cells h)

pub length-known : (cells : Block) → AreStored cells → length (known cells) ≡ length cells
unfolding known
length-known [] h = refl
length-known (none ∷ cells) h = absurd h
length-known (some b ∷ cells) h = ap suc (length-known cells h)
