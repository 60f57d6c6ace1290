-- ===== src/DynBuffer/Tests.antt =====
-- Runs of the buffer on concrete inputs, and its theorems at them.
use cros.Common.{
  List, [], arith, if◌then◌else◌, leb, leb→le, ltb, min, minus_one, negsuc, none, pos, refl, some,
  ℕ, ◌+◌, ◌↔◌, ◌∷◌, ◌≡◌, ◌≤◌,
}
use cros.Mem.{Cell, Heap, IsHeap, done, live, max_object, read_buf, realloc, resize, splice, write}
use cros.DynBuffer.{
  DynBuffer, append, get_current_content, get_remaining_data_size, grow, le_bytes,
  move_pose_indicator, push_back_buf, push_back_value, push_bytes, push_live, release,
  replace_content,
}
use cros.DynBuffer.Valid.{CursorInside, Holds}
use cros.DynBuffer.Append.{Pushed}
use cros.DynBuffer.Push.{push_back_buf-Pushed, replace_content-Pushed}
use cros.DynBuffer.Cursor.{get_current_content_lem, move_back, move_forward}
use cros.DynBuffer.Values.{from_le, initialised, push_back_value-read}
use cros.DynBuffer.Release.{Released, release_lem}

-- Every object that may exist fits.
abbrev roomy : Heap
roomy n = leb n max_object

roomy-IsHeap : IsHeap roomy
roomy-IsHeap n h = leb→le n max_object h

-- "ab" in a block of four bytes, the cursor behind it.
abbrev ab : DynBuffer
ab = record {
  size = 2;
  pos_offset = 2;
  max = 4;
  block = live (some 97 ∷ some 98 ∷ none ∷ none ∷ []);
}

ab-Holds : Holds ab (97 ∷ 98 ∷ [])
ab-Holds = record {
  size_eq = refl;
  storage = (refl, omega arith, omega arith, record { rest = none ∷ none ∷ []; same = refl });
}

push_grows :
    push_back_buf roomy ab (some (99 ∷ 100 ∷ 101 ∷ [])) 3
    ≡ done (
      pos 5,
      record {
        size = 5;
        pos_offset = 2;
        max = 8;
        block = live (some 97 ∷ some 98 ∷ some 99 ∷ some 100 ∷ some 101 ∷ none ∷ none ∷ none ∷ []);
      },
    )
unfolding push_back_buf push_bytes push_live grow append realloc read_buf write resize splice
push_grows = refl

push_back_buf-Pushed_example :
    Pushed 2 (97 ∷ 98 ∷ []) (99 ∷ 100 ∷ []) (push_back_buf roomy ab (some (99 ∷ 100 ∷ 1 ∷ [])) 2)
push_back_buf-Pushed_example =
    push_back_buf-Pushed roomy roomy-IsHeap ab (97 ∷ 98 ∷ []) 2 (99 ∷ 100 ∷ 1 ∷ []) ab-Holds
      (omega arith) (omega arith)

replace_content-Pushed_example :
    Pushed 1
      (97 ∷ [])
      (99 ∷ [])
      (replace_content roomy (record ab { pos_offset = 1 }) (some (99 ∷ [])) 1)
replace_content-Pushed_example =
    replace_content-Pushed roomy roomy-IsHeap (record ab { pos_offset = 1 }) (97 ∷ 98 ∷ []) 1
      (99 ∷ []) (record { size_eq = refl; storage = ab-Holds.storage }) (omega arith) (omega arith)
      (omega arith)

move_forward_example :
    (CursorInside (move_pose_indicator ab (pos 3)) ↔ (3 ≤ 2))
    × ((move_pose_indicator ab (pos 3)).pos_offset ≡ (if leb 3 2 then min 2 (2 + 3) else 2 + 3))
move_forward_example = move_forward ab (omega arith) (omega arith) 3 (omega arith)

move_back_example :
    ((move_pose_indicator ab (negsuc 0)).pos_offset ≡ 1)
    × CursorInside (move_pose_indicator ab (negsuc 0))
move_back_example = move_back ab (omega arith) (omega arith) 0 (omega arith)

abbrev ab_rewound : DynBuffer
ab_rewound = record ab { pos_offset = 0 }

ab_rewound-Holds : Holds ab_rewound (97 ∷ 98 ∷ [])
ab_rewound-Holds = record { size_eq = refl; storage = ab-Holds.storage }

get_current_content_lem_example : get_current_content ab_rewound 2 ≡ (
    if ltb (get_remaining_data_size ab_rewound) 2
    then done (minus_one, [])
    else done (pos 0, some 97 ∷ some 98 ∷ []))
get_current_content_lem_example =
    get_current_content_lem ab_rewound (97 ∷ 98 ∷ []) 2 ab_rewound-Holds (omega arith) (omega arith)

abbrev ab_and_value : DynBuffer
ab_and_value = record ab { size = 4; block = live (some 97 ∷ some 98 ∷ some 0x34 ∷ some 0x12 ∷ []) }

push_value : push_back_value roomy ab 2 0x1234 ≡ done (pos 4, ab_and_value)
unfolding push_back_value push_back_buf push_bytes push_live grow append realloc read_buf write
    resize splice le_bytes
push_value = refl

push_back_value-read_example :
    (cells : List Cell) × (read_bytes : List ℕ) × (get_current_content ab_and_value 2
      ≡ done (pos 0, cells))
    × (initialised cells ≡ some read_bytes)
    × (from_le read_bytes ≡ 0x1234)
push_back_value-read_example =
    push_back_value-read roomy roomy-IsHeap ab (97 ∷ 98 ∷ []) 2 0x1234 ab-Holds refl (omega arith)
      (omega arith) push_value (ground arith)

release_lem_example : (d' : DynBuffer) × (release ab ≡ done d') × Released ab.block d'
release_lem_example = release_lem ab (97 ∷ 98 ∷ []) ab-Holds
