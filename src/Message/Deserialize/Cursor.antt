-- ===== src/Message/Deserialize/Cursor.antt =====
-- Reading at the cursor of a buffer that holds what is to come.
use cros.Common.{
  List, [], ap, arith, drop, drop-append_eq, drop-nil, false, int_max, int_of_size, length,
  length-append, length-drop, le→ltb_false, ltb, lt→ltb, map, pos, refl, some, suc, sym, take,
  take-append_eq, true, zero, ℕ, ◌%◌, ◌++◌, ◌+◌, ◌^◌, ◌∙◌, ◌∷◌, ◌≡◌, ◌≤◌,
}
use cros.DynBuffer.Valid.{CursorInside, Holds}
use cros.Mem.{Answers, Run, done, ◌>>=◌}
use cros.Message.Deserialize.Reads.{Input, move, read_content}
use cros.DynBuffer.{copy_out, get_current_content, get_remaining_data_size}
use cros.Message.Serialize.{stored}
use cros.DynBuffer.Cursor.{
  copy_out_within, get_current_content_lem, get_remaining_data_size_lem, move_within,
}

-- No error so far, a well-formed buffer below 2 GB with these bytes to come at its cursor, and memory
-- for every request.
pub record At (next : List ℕ) (i : Input) : Type 0 where
  pub whole : List ℕ
  pub no_error : i.code ≡ 0
  pub holds : Holds i.buffer whole
  pub small : length whole ≤ int_max
  pub within : i.buffer.pos_offset ≤ length whole
  pub to_come : drop i.buffer.pos_offset whole ≡ next
  pub memory : (k : ℕ) → i.answers k ≡ true

-- A part of the code returned a value of which this is true, with these bytes to come.
pub record Got {A : Type 0} (Good : A → Type 0) (rest : List ℕ) (r : Run (A × Input)) : Type 0 where
  pub value : A
  pub input : Input
  pub returns : r ≡ done (value, input)
  pub good : Good value
  pub ready : At rest input

-- One part after the other.
pub Got-then :
    {A B : Type 0} {Good : A → Type 0} {Fine : B → Type 0} {middle rest : List ℕ}
    {r : Run (A × Input)} {f : A → Input → Run (B × Input)}
    → Got Good middle r
    → ((x : A) (i : Input) → Good x → At middle i → Got Fine rest (f x i))
    → Got Fine rest (r >>= λ p. f (p.0) (p.1))
Got-then {Fine = Fine} {rest = rest} {f = f} g next =
    let s : Got Fine rest (f g.value g.input) = next g.value g.input g.good g.ready in
    record {
      value = s.value;
      input = s.input;
      returns = rw g.returns s.returns;
      good = s.good;
      ready = s.ready;
    }

-- The same place with another error code and other answers.
pub At-with :
    {next : List ℕ} {i : Input} {c : ℕ} {a : Answers}
    → At next i
    → c ≡ 0
    → ((k : ℕ) → a k ≡ true)
    → At next (record i { code = c; answers = a })
At-with r ok memory = record {
  whole = r.whole;
  no_error = ok;
  holds = r.holds;
  small = r.small;
  within = r.within;
  to_come = r.to_come;
  memory = memory;
}

-- What is true of a value may be weakened.
pub Got-weaken :
    {A : Type 0} {Good Fine : A → Type 0} {rest : List ℕ} {r : Run (A × Input)}
    → ((x : A) → Good x → Fine x)
    → Got Good rest r
    → Got Fine rest r
Got-weaken w g = record {
  value = g.value;
  input = g.input;
  returns = g.returns;
  good = w g.value g.good;
  ready = g.ready;
}

drop-drop : (m n : ℕ) (xs : List ℕ) → drop n (drop m xs) ≡ drop (m + n) xs
drop-drop zero n xs = let e : 0 + n ≡ n = omega arith in rw e refl
drop-drop (suc m) n [] = drop-nil n ∙ sym (drop-nil (suc m + n))
drop-drop (suc m) n (x ∷ xs) =
    let e : suc m + n ≡ suc (m + n) = omega arith in rw e (drop-drop m n xs)

pub stored-some : (bytes : List ℕ) → stored (map some bytes) ≡ done bytes
unfolding stored
stored-some [] = refl
stored-some (b ∷ bytes) = rw (stored-some bytes)

-- Bytes to come were read and the cursor stands behind them.
module _ (i : Input) (first rest : List ℕ) (ready : At (first ++ rest) i) where
  left : i.buffer.pos_offset + length first ≤ length ready.whole
  left = omega (
    arith,
    ap length ready.to_come,
    length-drop i.buffer.pos_offset ready.whole,
    length-append {0} first rest,
    ready.within,
  )

  pub next_small : length first ≤ int_max
  next_small = omega (arith, left, ready.small)

  pub next_bytes : take (length first) (drop i.buffer.pos_offset ready.whole) ≡ first
  next_bytes =
      ap (take (length first)) ready.to_come ∙ take-append_eq (length first) first rest refl

  -- They are in the block at the cursor.
  pub copy_next : copy_out i.buffer.block i.buffer.pos_offset (length first) ≡ done (map some first)
  copy_next =
      copy_out_within i.buffer.block i.buffer.pos_offset (length first) i.buffer.max ready.whole
        ready.holds.storage left
      ∙ ap (λ (l : List ℕ). done (map some l)) next_bytes

  pub enough_left : ltb (get_remaining_data_size i.buffer) (length first) ≡ false
  enough_left = le→ltb_false (get_remaining_data_size i.buffer) (length first) (
      omega (
        arith,
        get_remaining_data_size_lem i.buffer (omega (arith, ready.within, ready.holds.size_eq))
            (omega (arith, ready.holds.size_eq, ready.small)),
        ready.holds.size_eq,
        left,
      ))

  -- dynBufferMovePoseIndicator over them.
  pub moved :
      (c : ℕ) (a : Answers)
      → c ≡ 0
      → ((k : ℕ) → a k ≡ true)
      → At rest (move (record { code = c; buffer = i.buffer; answers = a }) (length first))
  moved c a ok memory =
      rw
        (
          exact,
          move_within i.buffer (length first) (omega (arith, left, ready.holds.size_eq))
              (omega (arith, ready.holds.size_eq, ready.small)),
        )
        (record {
          whole = ready.whole;
          no_error = ok;
          holds = record { size_eq = ready.holds.size_eq; storage = ready.holds.storage };
          small = ready.small;
          within = left;
          to_come =
              sym (drop-drop i.buffer.pos_offset (length first) ready.whole)
              ∙ (ap (drop (length first)) ready.to_come
                  ∙ drop-append_eq (length first) first rest refl);
          memory = memory;
        })
    where
      low : length first % 2 ^ 32 ≡ length first
      low = omega (arith, left, ready.small)

      exact : int_of_size (length first) ≡ pos (length first)
      exact = rw (low, lt→ltb (length first) (2 ^ 31) (omega (arith, left, ready.small))) refl

  pub read_content-Got : Got (λ bytes. bytes ≡ some first) rest (read_content i (length first))
  unfolding read_content
  read_content-Got = record {
    value = some first;
    input = move (record i { code = 0 }) (length first);
    returns =
        let content : get_current_content i.buffer (length first) ≡ done (pos 0, map some first) =
          get_current_content_lem i.buffer ready.whole (length first) ready.holds within
            (omega (arith, left, ready.small))
          ∙ rw enough_left (ap (λ (l : List ℕ). done (pos 0, map some l)) next_bytes) in
        rw (content, stored-some first) refl;
    good = refl;
    ready = moved 0 i.answers refl ready.memory;
  }
    where
      within : CursorInside i.buffer
      within = omega (arith, ready.within, ready.holds.size_eq)
