-- ===== src/DynBuffer/Append.antt =====
-- What a push leaves behind, and the copy at its end.
use native.Mathlib.Decide.{dec_lt}
use cros.Common.{
  List, add_size, ap, append-nil, arith, inl, inr, int_of_size, length, length-append, length-map,
  lt→ltb, map, minus_one, refl, some, subst, sym, take, ℕ, ℤ, ◌++◌, ◌+◌, ◌<◌, ◌∙◌, ◌≡◌, ◌≢◌, ◌≤◌,
  ◌⊎◌,
}
use cros.Mem.{Block, Cell, Run, done, live, max_object, splice}
use cros.Mem.Blocks.{
  BeginsWith, BeginsWith-append, length-splice, length-take_le, read_buf_within, write_within,
}
use cros.DynBuffer.{DynBuffer, append}
use cros.DynBuffer.Valid.{Holds}

-- What a push leaves behind: the new bytes behind the old ones and the size as an `int`, or -1 and
-- the old content. The cursor stays.
pub record Pushed (cursor : ℕ) (bytes new : List ℕ) (r : Run (ℤ × DynBuffer)) : Type 0 where
  pub ret : ℤ
  pub d' : DynBuffer
  pub returns : r ≡ done (ret, d')
  pub same_cursor : d'.pos_offset ≡ cursor
  pub outcome :
      ((ret ≡ int_of_size (length (bytes ++ new))) × Holds d' (bytes ++ new))
      ⊎ ((ret ≡ minus_one) × Holds d' bytes)

-- What a push leaves behind when no memory was lacking.
pub record Appended (cursor : ℕ) (bytes new : List ℕ) (r : Run (ℤ × DynBuffer)) : Type 0 where
  pub d' : DynBuffer
  pub returns : r ≡ done (int_of_size (length (bytes ++ new)), d')
  pub same_cursor : d'.pos_offset ≡ cursor
  pub holds : Holds d' (bytes ++ new)

pub Appended-Pushed :
    {cursor : ℕ} {bytes new : List ℕ} {r : Run (ℤ × DynBuffer)}
    → Appended cursor bytes new r
    → Pushed cursor bytes new r
Appended-Pushed {bytes = bytes} {new = new} a = record {
  ret = int_of_size (length (bytes ++ new));
  d' = a.d';
  returns = a.returns;
  same_cursor = a.same_cursor;
  outcome = inl (refl, a.holds);
}

abbrev ret_of : ℤ → Run (ℤ × DynBuffer) → ℤ
ret_of z (done (ret, d)) = ret
ret_of z _ = z

abbrev state_of : DynBuffer → Run (ℤ × DynBuffer) → DynBuffer
state_of z (done (ret, d)) = d
state_of z _ = z

-- A push that returned anything but -1 has appended.
pub Pushed-success :
    {cursor : ℕ} {bytes new : List ℕ} {r : Run (ℤ × DynBuffer)} {ret : ℤ} {d' : DynBuffer}
    → Pushed cursor bytes new r
    → r ≡ done (ret, d')
    → ret ≢ minus_one
    → (d'.pos_offset ≡ cursor) × Holds d' (bytes ++ new)
Pushed-success {cursor} {bytes} {new} {ret = ret} {d' = d'} p e ne = elim (p.outcome) [
  | inl ok ↦ (
    ap (λ (d : DynBuffer). d.pos_offset) (sym state) ∙ p.same_cursor,
    subst (λ d. Holds d (bytes ++ new)) state ok.1,
  )
  | inr failed ↦ absurd (ne (sym code ∙ failed.0))
]
  where
    state : p.d' ≡ d'
    state = ap (state_of d') (sym p.returns ∙ e)

    code : p.ret ≡ ret
    code = ap (ret_of ret) (sym p.returns ∙ e)

module _ (cur max : ℕ) (blk : Block) (bytes buf : List ℕ) (n : ℕ) (len : length blk ≡ max)
    (one : 1 ≤ max) (small : max ≤ max_object) (b : BeginsWith blk bytes) (src : n ≤ length buf)
    (room : length bytes + n ≤ max) where
  abbrev start : DynBuffer
  start = record { size = length bytes; pos_offset = cur; max = max; block = live blk }

  new_size : add_size (length bytes) n ≡ length (bytes ++ take n buf)
  new_size = omega (arith, length-append {0} bytes (take n buf), length-take_le n buf src)

  append_nothing : n ≡ 0 → append start blk buf n ≡ done (int_of_size (length bytes), start)
  unfolding append
  append_nothing e = rw e

  append-some :
      0 < n
      → append start blk buf n
        ≡ done (
          int_of_size (length (bytes ++ take n buf)),
          record {
            size = length (bytes ++ take n buf);
            pos_offset = cur;
            max = max;
            block = live (splice (length bytes) (map some (take n buf)) blk);
          },
        )
  unfolding append
  append-some h =
      let fits : length bytes + length (take n buf) ≤ length blk =
        omega (arith, length-take_le n buf src) in
      rw (
        lt→ltb 0 n h,
        read_buf_within buf n src,
        write_within blk (length bytes) (take n buf) fits,
        new_size,
      )

  pub append-Appended : Appended cur bytes (take n buf) (append start blk buf n)
  append-Appended = elim (dec_lt 0 n) [
    | yes h ↦ record {
      d' = record {
        size = length (bytes ++ take n buf);
        pos_offset = cur;
        max = max;
        block = live (splice (length bytes) (map some (take n buf)) blk);
      };
      returns = append-some h;
      same_cursor = refl;
      holds = record {
        size_eq = refl;
        storage = (
          length-splice (length bytes) (map some (take n buf)) blk (
                omega
                  (arith, length-map {0, 0} {B = Cell} some (take n buf), length-take_le n buf src))
              ∙ len,
          one,
          small,
          BeginsWith-append (take n buf) b,
        );
      };
    }
    | no h ↦ record {
      d' = start;
      returns =
          append_nothing (omega arith)
          ∙ ap (λ (l : List ℕ). done (int_of_size (length l), start)) (same (omega arith));
      same_cursor = refl;
      holds =
          subst (Holds start) (same (omega arith))
            (record { size_eq = refl; storage = (len, one, small, b) });
    }
  ]
    where
      same : n ≡ 0 → bytes ≡ bytes ++ take n buf
      same e = rw (e, append-nil)

  pub append-Pushed : Pushed cur bytes (take n buf) (append start blk buf n)
  append-Pushed = Appended-Pushed append-Appended
