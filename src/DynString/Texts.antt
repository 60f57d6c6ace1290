-- ===== src/DynString/Texts.antt =====
-- dynStringPushBackStr, dynStringPushBackChar, dynStringClear and dynStringPatch (src/dyn_string.c)
-- by content and capacity alone, for the callers that build a text and ignore what the functions
-- return. Whether a request for memory is met is asked where the code makes one.
use cros.Common.{
  Bool-cases, List, [], append_assoc, arith, drop, drop-append_eq, if◌then◌else◌, inl, inr, int_max,
  length, length-append, le→leb, le→ltb_false, ltb, ltb→lt, refl, take, take-append_eq, ℕ, ◌*◌,
  ◌++◌, ◌+◌, ◌<◌, ◌≡◌, ◌≤◌,
}
use cros.Mem.{Answers, Run, done, int, later, plenty, ◌>>=◌}
use cros.DynString.{grow_rate, init_size}
use cros.Mem.Blocks.{overwrite}

-- Nothing allocated yet, or a text and the field `max`.
pub data Contents : Type 0 where
  nothing : Contents
  chars_in : List ℕ → ℕ → Contents

abbrev pub text_of : Contents → List ℕ
text_of nothing = []
text_of (chars_in text max) = text

-- dynStringClear
abbrev pub cleared : Contents → Contents
cleared nothing = nothing
cleared (chars_in text max) = chars_in [] max

-- malloc or realloc to `bytes`, an `int`: the string afterwards, or the one before.
abbrev pub asked : Answers → ℕ → Contents → Contents → Run (Contents × Answers)
asked a bytes after before = int bytes >>= λ n. done (if a 0 then after else before, later a)

unfoldable pub push_text : Answers → Contents → List ℕ → Run (Contents × Answers)
push_text a nothing new =
    asked a (init_size + length new + 1) (chars_in new (init_size + length new)) nothing
push_text a (chars_in text max) new = int (length text + length new) >>= λ need.
    if ltb max need
    then asked a (grow_rate * max + length new + 1)
        (chars_in (text ++ new) (grow_rate * max + length new)) (chars_in text max)
    else done (chars_in (text ++ new) max, a)

unfoldable pub patch_text : Answers → Contents → List ℕ → ℕ → Run (Contents × Answers)
patch_text a nothing new p = done (nothing, a)
patch_text a (chars_in text max) new p =
    if ltb (length text) p
    then done (chars_in text max, a)
    else int (p + length new) >>= λ final.
        if ltb max final
        then asked a (grow_rate * max + length new + 1)
            (chars_in (overwrite p new text) (grow_rate * max + length new)) (chars_in text max)
        else done (chars_in (overwrite p new text) max, a)

pub push_text-plenty :
    (s : Contents) (new : List ℕ)
    → 3 * (length (text_of s) + length new) + 257 ≤ int_max
    → (max : ℕ) × (push_text plenty s new ≡ done (chars_in (text_of s ++ new) max, plenty))
unfolding push_text
push_text-plenty nothing new h =
    (256 + length new, rw (le→leb (256 + length new + 1) int_max (omega arith)) refl)
push_text-plenty (chars_in text max) new h =
    elim (Bool-cases (ltb max (length text + length new))) [
      | inl more ↦
          let narrow : max < length text + length new = ltb→lt _ _ more in
          (
            2 * max + length new,
            rw
                (
                  le→leb (length text + length new) int_max (omega arith),
                  more,
                  le→leb (2 * max + length new + 1) int_max (omega arith),
                )
                refl,
          )
      | inr room ↦ (max, rw (le→leb (length text + length new) int_max (omega arith), room) refl)
    ]

-- Writing over a text of the same length in the middle.
pub patch_text-plenty :
    (before old new after : List ℕ) (max : ℕ)
    → length new ≡ length old
    → 3 * length (before ++ (old ++ after)) + 257 ≤ int_max
    → (max' : ℕ) × (patch_text plenty (chars_in (before ++ (old ++ after)) max) new (length before)
        ≡ done (chars_in (before ++ (new ++ after)) max', plenty))
unfolding patch_text overwrite
patch_text-plenty before old new after max same h =
    let whole = before ++ (old ++ after) in
    let sizes : length whole ≡ length before + (length old + length after) =
      omega (arith, length-append {0} before (old ++ after), length-append {0} old after) in
    let kept : take (length before) whole ≡ before =
      take-append_eq (length before) before (old ++ after) refl in
    let behind : drop (length before + length new) whole ≡ after =
      rw (← append_assoc before old after) (
        drop-append_eq (length before + length new) (before ++ old) after
          (omega (arith, length-append {0} before old, same))) in
    elim (Bool-cases (ltb max (length before + length new))) [
      | inl more ↦
          let narrow : max < length before + length new = ltb→lt _ _ more in
          (
            2 * max + length new,
            rw
                (
                  le→ltb_false (length whole) (length before) (omega (arith, sizes)),
                  le→leb (length before + length new) int_max (omega (arith, sizes, same)),
                  more,
                  le→leb (2 * max + length new + 1) int_max (omega (arith, sizes, same)),
                  kept,
                  behind,
                )
                refl,
          )
      | inr room ↦ (
        max,
        rw
            (
              le→ltb_false (length whole) (length before) (omega (arith, sizes)),
              le→leb (length before + length new) int_max (omega (arith, sizes, same)),
              room,
              kept,
              behind,
            )
            refl,
      )
    ]
