-- ===== src/Message/Deserialize/RoundTrip.antt =====
-- cRosMessageDeserialize of what cRosMessageSerialize sends.
use cros.Common.{
  List, [], append-nil, arith, drop-append_eq, length, length-append, refl, sym, ℕ, ◌++◌, ◌∙◌, ◌≡◌,
  ◌≤◌,
}
use cros.DynBuffer.{DynBuffer}
use cros.DynBuffer.Roomy.{IsRoomy}
use cros.DynBuffer.Valid.{Holds}
use cros.Mem.{Run, done, plenty}
use cros.Message.{Message}
use cros.Message.Serialize.{Heaps, Output, serialize}
use cros.Message.Serialize.Sent.{serialize-Sent}
use cros.Message.Serialize.Sent.Pushes.{Sent}
use cros.Message.Serialize.Sent.Texts.{Fits}
use cros.Message.Serialize.Wire.{CanSend, wire}
use cros.Message.Deserialize.{Builder, deserialize}
use cros.Message.Deserialize.Cursor.{Got}
use cros.Message.Deserialize.Matches.{Matches, depth}
use cros.Message.Deserialize.Trees.{message-Got}

-- What was sent is read back: the code after both runs.
pub record Exchanged (build : Builder) (fuel : ℕ) (l m : Message) (r : Run Output) : Type 0 where
  pub output : Output
  pub sent : r ≡ done output
  pub sent_ok : output.code ≡ 0
  pub got :
      Got
        (λ k. wire k ≡ wire m)
        []
        (deserialize build fuel l (record { code = 0; buffer = output.buffer; answers = plenty }))

-- A message is sent with cRosMessageSerialize at the cursor, which stands at the end of a well-formed
-- buffer that stays below 2 GB, with memory, and is read at that place with cRosMessageDeserialize into
-- a message that matches it, with memory and as much fuel as its messages nest. Both return success,
-- nothing is left to read, and the message that was read is sent as the same bytes. The way in which a
-- message is built from a definition does not matter, since arrays of nested messages have the
-- received number of elements.
pub deserialize-serialize :
    (build : Builder) (hs : Heaps) (l m : Message) (fuel : ℕ) (d : DynBuffer) (content : List ℕ)
    → CanSend m
    → Matches l m
    → depth l ≤ fuel
    → Holds d content
    → d.pos_offset ≡ length content
    → ((k : ℕ) → IsRoomy (hs k))
    → Fits content (wire m)
    → Exchanged build fuel l m (serialize hs m d)
deserialize-serialize build hs l m fuel d content ok match deep holds at_end roomy fits = record {
  output = s.output;
  sent = s.returns;
  sent_ok = s.ready.no_error;
  got =
      message-Got build l m fuel []
        (record { code = 0; buffer = s.output.buffer; answers = plenty }) deep match ok
        (record {
          whole = content ++ wire m;
          no_error = refl;
          holds = s.ready.holds;
          small = omega (arith, length-append {0} content (wire m), fits);
          within = omega (arith, length-append {0} content (wire m), s.ready.same_cursor, at_end);
          to_come =
              drop-append_eq s.output.buffer.pos_offset content (wire m)
                (s.ready.same_cursor ∙ at_end)
              ∙ sym (append-nil (wire m));
          memory = λ k. refl;
        });
}
  where
    s : Sent content d.pos_offset (wire m) (serialize hs m d)
    s = serialize-Sent hs m d content ok holds roomy fits
