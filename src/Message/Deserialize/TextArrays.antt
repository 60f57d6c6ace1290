-- ===== src/Message/Deserialize/TextArrays.antt =====
-- Storing the texts of an array: in a fixed array one entry after the other, in one of variable length
-- behind the last, where the capacity doubles.
use cros.Common.{
  ==_iff, Bool-cases, List, Option, [], ap, append-nil, arith, false, inl, inr, int_max, length,
  length-append, length-replicate, le→leb, none, not, pos, refl, replicate, some, suc, take,
  take-append, true, zero, ℕ, ◌*◌, ◌++◌, ◌+◌, ◌-◌, ◌<◌, ◌==◌, ◌||◌, ◌∙◌, ◌∷◌, ◌≡◌, ◌≤◌,
}
use cros.Mem.{Answers, Run, done, later}
use cros.Message.{Data, Field, FieldHead, Text, as_string_array, field, string_type}
use cros.Message.Arrays.{
  double_capacity, grown_texts, is_type, is_variable, push_back_string, set_text, string_entry,
}
use cros.Message.Elements.{at_string_set}
use cros.Message.Deserialize.Reads.{store_text}
use cros.Message.Deserialize.TextLoop.{Takes, TextStored}
use cros.Message.Copy.{count}

-- Entry i was written; the entries before it are as they were.
record TextSet (i : ℕ) (t : Option Text) (ts : List (Option Text)) (r : Run (List (Option Text)))
    : Type 0 where
  ts' : List (Option Text)
  returns : r ≡ done ts'
  same_length : length ts' ≡ length ts
  first : take (suc i) ts' ≡ take i ts ++ (t ∷ [])

set_text-TextSet :
    (i : ℕ) (t : Option Text) (ts : List (Option Text))
    → i < length ts
    → TextSet i t ts (set_text i t ts)
unfolding set_text
set_text-TextSet i t [] h = absurd (omega arith)
set_text-TextSet zero t (u ∷ ts) h = record {
  ts' = t ∷ ts;
  returns = refl;
  same_length = refl;
  first = refl;
}
set_text-TextSet (suc i) t (u ∷ ts) h =
    let s : TextSet i t ts (set_text i t ts) = set_text-TextSet i t ts (omega arith) in
    record {
      ts' = u ∷ s.ts';
      returns = rw s.returns refl;
      same_length = ap suc s.same_length;
      first = ap (λ (l : List (Option Text)). u ∷ l) s.first;
    }

-- The first entries after one more was written.
longer_first :
    (stored ts ts' : List (Option Text)) (t : Text)
    → take (length stored) ts ≡ stored
    → take (suc (length stored)) ts' ≡ take (length stored) ts ++ (some t ∷ [])
    → take (length (stored ++ (some t ∷ []))) ts' ≡ stored ++ (some t ∷ [])
longer_first stored ts ts' t before now =
    let longer : length (stored ++ (some t ∷ [])) ≡ suc (length stored) =
      omega (arith, length-append {0} stored (some t ∷ [])) in
    ap (λ (k : ℕ). take k ts') longer
    ∙ (now ∙ ap (λ (l : List (Option Text)). l ++ (some t ∷ [])) before)

-- A fixed array of n texts, the first of them stored.
pub record FixedTexts (h : FieldHead) (n : ℕ) (stored : List (Option Text)) (f : Field)
    : Type 0 where
  pub ts : List (Option Text)
  pub field_eq : f ≡ field h (as_string_array ts)
  pub room : n ≤ length ts
  pub first : take (length stored) ts ≡ stored

module _ (h : FieldHead) (n : ℕ) (fixed : h.is_fixed_array ≡ true)
    (accepts : (not (is_type h.type string_type) || not h.is_array) ≡ false) where
  store_fixed :
      (a : Answers) (d : Data) (k : ℕ) (t : Text)
      → store_text a (field h d) k t ≡ at_string_set a (field h d) (pos k) (some t)
  unfolding store_text
  store_fixed a d k t = simp (fixed)

  pub fixed-Takes : Takes (FixedTexts h n) n
  unfolding at_string_set
  fixed-Takes a f stored t memory few has =
      let s : TextSet (length stored) (some t) has.ts (set_text (length stored) (some t) has.ts) =
        set_text-TextSet (length stored) (some t) has.ts (omega (arith, has.room)) in
      rw
        (
          has.field_eq,
          store_fixed a (as_string_array has.ts) (length stored) t,
          accepts,
          memory 0,
          s.returns,
        )
        (record {
          f' = field h (as_string_array s.ts');
          a' = later a;
          returns = refl;
          good = record {
            ts = s.ts';
            field_eq = refl;
            room = omega (arith, has.room, s.same_length);
            first = longer_first stored has.ts s.ts' t has.first s.first;
          };
          memory = λ k. memory (suc k);
        })

-- An array of variable length that holds these texts; its block has as many entries as the capacity
-- says.
pub record VariableTexts (stored : List (Option Text)) (f : Field) : Type 0 where
  pub h : FieldHead
  pub ts : List (Option Text)
  pub field_eq : f ≡ field h (as_string_array ts)
  pub accepts : (not (is_type h.type string_type) || not (is_variable h)) ≡ false
  pub variable : is_variable h ≡ true
  pub not_fixed : h.is_fixed_array ≡ false
  pub size : h.array_size ≡ pos (length stored)
  pub block : length ts ≡ count h.array_capacity
  pub some_room : 1 ≤ length ts
  pub fits : length stored ≤ length ts
  pub first : take (length stored) ts ≡ stored

length-grown :
    (room : ℕ) (ts : List (Option Text)) → length ts ≤ room → length (grown_texts room ts) ≡ room
length-grown room ts h = omega (
  arith,
  length-append {0} ts (replicate (room - length ts) none),
  length-replicate {0} {A = Option Text} (room - length ts) none,
)

take-grown :
    (k room : ℕ) (ts : List (Option Text))
    → k ≤ length ts
    → take k (grown_texts room ts) ≡ take k ts
take-grown k room ts h =
    let fill : List (Option Text) = replicate (room - length ts) none in
    let e : k - length ts ≡ 0 = omega arith in
    take-append k ts fill ∙ (ap (λ (j : ℕ). take k ts ++ take j fill) e ∙ append-nil (take k ts))

-- The entry behind the last one is written.
entry-TextStored :
    (a : Answers) (stored : List (Option Text)) (t : Text) (f : Field)
    (has : VariableTexts stored f) (room : ℕ)
    → ((k : ℕ) → a k ≡ true)
    → length stored < room
    → length has.ts ≤ room
    → TextStored VariableTexts stored t (
        string_entry a
          (record (has.h) { array_capacity = pos room })
          (grown_texts room has.ts)
          (some t))
unfolding string_entry
entry-TextStored a stored t f has room memory few wide =
    rw (memory 0, has.size, s.returns)
      (record {
        f' =
            field
              (record (has.h) { array_size = pos (length stored + 1); array_capacity = pos room })
              (as_string_array s.ts');
        a' = later a;
        returns = refl;
        good = record {
          h = record (has.h) { array_size = pos (length stored + 1); array_capacity = pos room };
          ts = s.ts';
          field_eq = refl;
          accepts = has.accepts;
          variable = has.variable;
          not_fixed = has.not_fixed;
          size = ap pos (omega (arith, length-append {0} stored (some t ∷ [])));
          block = s.same_length ∙ length-grown room has.ts wide;
          some_room = omega (arith, s.same_length, length-grown room has.ts wide);
          fits = omega (
            arith,
            s.same_length,
            length-grown room has.ts wide,
            length-append {0} stored (some t ∷ []),
          );
          first =
              longer_first stored (grown_texts room has.ts) s.ts' t
                (take-grown (length stored) room has.ts has.fits ∙ has.first) s.first;
        };
        memory = λ k. memory (suc k);
      })
  where
    s :
        TextSet
          (length stored)
          (some t)
          (grown_texts room has.ts)
          (set_text (length stored) (some t) (grown_texts room has.ts))
    s =
        set_text-TextSet (length stored) (some t) (grown_texts room has.ts)
          (omega (arith, length-grown room has.ts wide))

not_zero : (k : ℕ) → 1 ≤ k → (k == 0) ≡ false
not_zero k h = ground arith

narrow : (room size k : ℕ) → (room == size) ≡ false → size ≡ k → k ≤ room → k < room
narrow room size k other e h = ground arith

-- cRosMessageFieldArrayPushBackString takes up to n texts.
pub variable-Takes : (n : ℕ) → n * 2 ≤ int_max → Takes VariableTexts n
unfolding store_text push_back_string double_capacity
variable-Takes n bound a f stored t memory few has =
    elim (Bool-cases (count (has.h).array_capacity == count (has.h).array_size)) [
      | inl full ↦
          let same : count (has.h).array_capacity ≡ length stored =
            (==_iff _ _).0 full ∙ ap count has.size in
          let cap : length has.ts ≡ length stored = has.block ∙ same in
          let some_entries : (count (has.h).array_capacity == 0) ≡ false =
            not_zero (count (has.h).array_capacity) (omega (arith, has.block, has.some_room)) in
          rw
            (
              has.field_eq,
              to_push,
              has.accepts,
              full,
              some_entries,
              le→leb (2 * count (has.h).array_capacity) int_max (omega (arith, same)),
              memory 0,
            )
            (entry-TextStored (later a) stored t f has (2 * count (has.h).array_capacity)
              (λ k. memory (suc k)) (omega (arith, same, cap, has.some_room))
              (omega (arith, same, cap)))
      | inr roomy ↦
          rw (has.field_eq, to_push, has.accepts, roomy)
            (entry-TextStored a stored t f has (count (has.h).array_capacity) memory
              (narrow (count (has.h).array_capacity) (count (has.h).array_size) (length stored)
                roomy (ap count has.size) (omega (arith, has.block, has.fits)))
              (omega (arith, has.block)))
    ]
  where
    to_push :
        store_text a (field has.h (as_string_array has.ts)) (length stored) t
        ≡ push_back_string a (field has.h (as_string_array has.ts)) (some t)
    to_push = simp (has.not_fixed)
