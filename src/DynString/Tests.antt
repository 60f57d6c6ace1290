-- ===== src/DynString/Tests.antt =====
-- Runs of the string on concrete inputs, and its theorems at them.
use cros.Common.{List, [], arith, leb, none, pos, refl, some, ℕ, ◌∷◌, ◌≡◌}
use cros.Mem.{Heap, done, live, max_object, splice, write}
use cros.Mem.Blocks.{overwrite}
use cros.DynString.{
  DynString, append_char, clear, init, move_pose_indicator, patch, push_back_char, push_back_str_n,
  push_char_live, release,
}
use cros.DynString.Valid.{Edited, Holds}
use cros.DynString.Push.{push_back_str_n-Edited}
use cros.DynString.Chars.{push_back_char-Edited}
use cros.DynString.Edit.{patch-Edited}
use cros.DynString.Reduce.{Cleared, clear_lem}
use cros.DynString.Cursor.{move_pose_indicator_lem, release-init}

abbrev roomy : Heap
roomy n = leb n max_object

-- "abc" in a block for four characters, the cursor on its last one.
abbrev abc : DynString
abc = record {
  len = 3;
  pos_offset = 2;
  max = 4;
  block = live (some 97 ∷ some 98 ∷ some 99 ∷ some 0 ∷ none ∷ []);
}

abbrev abc_chars : List ℕ
abc_chars = 97 ∷ 98 ∷ 99 ∷ []

abc-Holds : Holds abc abc_chars
abc-Holds = record {
  len_eq = refl;
  cursor = omega arith;
  storage = (refl, record { rest = none ∷ []; same = refl });
}

push_fits :
    push_back_char roomy abc 100
    ≡ done (
      pos 4,
      record abc { len = 4; block = live (some 97 ∷ some 98 ∷ some 99 ∷ some 100 ∷ some 0 ∷ []) },
    )
unfolding push_back_char push_char_live append_char write splice
push_fits = refl

push_back_str_n-Edited_example :
    Edited 2 abc_chars
      (97 ∷ 98 ∷ 99 ∷ 120 ∷ 121 ∷ [])
      (push_back_str_n roomy abc (some (120 ∷ 121 ∷ 122 ∷ [])) 2)
push_back_str_n-Edited_example =
    push_back_str_n-Edited roomy abc abc_chars (120 ∷ 121 ∷ 122 ∷ []) 2 abc-Holds (omega arith)
      (omega arith)

push_back_char-Edited_example :
    Edited 2 abc_chars (97 ∷ 98 ∷ 99 ∷ 100 ∷ []) (push_back_char roomy abc 100)
push_back_char-Edited_example =
    push_back_char-Edited roomy abc abc_chars 100 abc-Holds (omega arith)

patch-Edited_example :
    Edited 2 abc_chars
      (overwrite 1 (120 ∷ 121 ∷ 122 ∷ []) abc_chars)
      (patch roomy abc (some (120 ∷ 121 ∷ 122 ∷ [])) 1)
patch-Edited_example =
    patch-Edited roomy abc abc_chars (120 ∷ 121 ∷ 122 ∷ []) 1 abc-Holds (omega arith) (omega arith)

clear_lem_example : Cleared (clear abc)
clear_lem_example = clear_lem abc abc_chars abc-Holds

move_pose_indicator_lem_example :
    (d' : DynString) × (move_pose_indicator abc (pos 5) ≡ done d')
    × Holds d' abc_chars
    × (d'.pos_offset ≡ 3)
move_pose_indicator_lem_example =
    move_pose_indicator_lem abc abc_chars (pos 5) abc-Holds (omega arith)

release-init_example : (release abc ≡ done init) × Holds init [] × (release init ≡ done init)
release-init_example = release-init abc abc_chars abc-Holds
