-- ===== src/Message/Serialize/Sent/Pushes.antt =====
-- The pushes of cRosMessageSerialize, while memory is there.
use cros.Common.{
  List, [], append-nil, append_assoc, arith, int_max, int_of_size, length, length-append, lt→ltb,
  refl, size_of_int, some, subst, suc, sym, take, ℕ, ℤ, ◌%◌, ◌++◌, ◌+◌, ◌^◌, ◌≡◌, ◌≤◌,
}
use cros.DynBuffer.{DynBuffer, le_bytes, push_back_buf, push_back_int32}
use cros.DynBuffer.Append.{Appended}
use cros.DynBuffer.Roomy.{IsRoomy, push_back_buf-Appended, push_back_int32-Appended}
use cros.Mem.Blocks.{length-take_le}
use cros.Mem.{Run, done, ◌>>=◌}
use cros.Message.Serialize.{Output, next_heaps, push_checked, push_code, push_count, push_length}
use cros.DynBuffer.Valid.{Holds}
use cros.DynBuffer.Values.{length-le_bytes}

-- No error so far, this content in the buffer, its cursor here, and memory for what is to come.
pub record Ready (content : List ℕ) (cursor : ℕ) (o : Output) : Type 0 where
  pub no_error : o.code ≡ 0
  pub holds : Holds o.buffer content
  pub same_cursor : o.buffer.pos_offset ≡ cursor
  pub roomy : (k : ℕ) → IsRoomy (o.heaps k)

-- A part of the code returned without an error and put these bytes behind the content.
pub record Sent (content : List ℕ) (cursor : ℕ) (new : List ℕ) (r : Run Output) : Type 0 where
  pub output : Output
  pub returns : r ≡ done output
  pub ready : Ready (content ++ new) cursor output

-- One part after the other.
pub Sent-then :
    {content : List ℕ} {cursor : ℕ} {first second : List ℕ} {r : Run Output}
    {f : Output → Run Output}
    → Sent content cursor first r
    → ((o : Output)
        → Ready (content ++ first) cursor o
        → Sent (content ++ first) cursor second (f o))
    → Sent content cursor (first ++ second) (r >>= f)
Sent-then {content} {cursor} {first} {second} {r} {f} s next =
    let t : Sent (content ++ first) cursor second (f s.output) = next s.output s.ready in
    record {
      output = t.output;
      returns = rw s.returns t.returns;
      ready =
          subst (λ (l : List ℕ). Ready l cursor t.output) (append_assoc content first second)
            t.ready;
    }

-- Nothing is appended.
pub Sent-nothing :
    {content : List ℕ} {cursor : ℕ} {o : Output}
    → Ready content cursor o
    → Sent content cursor [] (done o)
Sent-nothing {content} {cursor} {o} h = record {
  output = o;
  returns = refl;
  ready = subst (λ (l : List ℕ). Ready l cursor o) (sym (append-nil content)) h;
}

push_code-small : (n : ℕ) → n ≤ int_max → push_code (int_of_size n) ≡ 0
push_code-small n h =
    let low : n % 2 ^ 32 ≡ n = omega arith in rw (low, lt→ltb n (2 ^ 31) (omega arith)) refl

module _ (content : List ℕ) (cursor : ℕ) (o : Output) (h : Ready content cursor o) where
  pushed :
      (buf : List ℕ) (n : ℕ)
      → n ≤ length buf
      → length content + n ≤ int_max
      → Appended cursor content (take n buf) (push_back_buf (o.heaps 0) o.buffer (some buf) n)
  pushed buf n src few = rw (← h.same_cursor) (
      push_back_buf-Appended (o.heaps 0) o.buffer content n buf (h.roomy 0) h.holds src
        (omega arith))

  pushed-Ready :
      (new : List ℕ) (c : ℕ) (b : DynBuffer)
      → c ≡ 0
      → Holds b (content ++ new)
      → b.pos_offset ≡ cursor
      → Ready (content ++ new) cursor (record { code = c; buffer = b; heaps = next_heaps o.heaps })
  pushed-Ready new c b ok holds same = record {
    no_error = ok;
    holds = holds;
    same_cursor = same;
    roomy = λ k. h.roomy (suc k);
  }

  pub push_checked-Sent :
      (buf : List ℕ) (n : ℕ)
      → n ≤ length buf
      → length content + n ≤ int_max
      → Sent content cursor (take n buf) (push_checked o (some buf) n)
  unfolding push_checked
  push_checked-Sent buf n src few =
      let p : Appended cursor content (take n buf)
          (push_back_buf (o.heaps 0) o.buffer (some buf) n) =
        pushed buf n src few in
      record {
        output = record {
          code = push_code (int_of_size (length (content ++ take n buf)));
          buffer = p.d';
          heaps = next_heaps o.heaps;
        };
        returns = rw p.returns refl;
        ready =
            pushed-Ready (take n buf) _ p.d'
              (push_code-small _
                (omega (arith, length-append {0} content (take n buf), length-take_le n buf src)))
              p.holds p.same_cursor;
      }

  number_sent :
      (v : ℕ)
      → length content + 4 ≤ int_max
      → Appended cursor content (le_bytes 4 v) (push_back_int32 (o.heaps 0) o.buffer v)
  number_sent v few =
      rw (← h.same_cursor)
        (push_back_int32-Appended (o.heaps 0) o.buffer content v (h.roomy 0) h.holds (omega arith))

  pub push_count-Sent :
      (n : ℤ)
      → length content + 4 ≤ int_max
      → Sent content cursor (le_bytes 4 (size_of_int n)) (push_count o n)
  unfolding push_count
  push_count-Sent n few =
      let p : Appended cursor content (le_bytes 4 (size_of_int n))
          (push_back_int32 (o.heaps 0) o.buffer (size_of_int n)) =
        number_sent (size_of_int n) few in
      record {
        output = record {
          code = push_code (int_of_size (length (content ++ le_bytes 4 (size_of_int n))));
          buffer = p.d';
          heaps = next_heaps o.heaps;
        };
        returns = rw p.returns refl;
        ready =
            pushed-Ready (le_bytes 4 (size_of_int n)) _ p.d'
              (push_code-small _ (
                omega (
                  arith,
                  length-append {0} content (le_bytes 4 (size_of_int n)),
                  length-le_bytes 4 (size_of_int n),
                )))
              p.holds p.same_cursor;
      }

  pub push_length-Sent :
      (n : ℕ) → length content + 4 ≤ int_max → Sent content cursor (le_bytes 4 n) (push_length o n)
  unfolding push_length
  push_length-Sent n few =
      let p : Appended cursor content (le_bytes 4 n) (push_back_int32 (o.heaps 0) o.buffer n) =
        number_sent n few in
      record {
        output = record o { buffer = p.d'; heaps = next_heaps o.heaps };
        returns = rw p.returns refl;
        ready = pushed-Ready (le_bytes 4 n) o.code p.d' h.no_error p.holds p.same_cursor;
      }
