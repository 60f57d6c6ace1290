-- ===== src/TcprosProcess/Tests.antt =====
-- A process at concrete values (src/tcpros_process.c).
use cros.Common.{[], arith, none, pos, refl, some, ◌∷◌, ◌≡◌}
use cros.Mem.{done, live, owned}
use cros.DynString.{DynString}
use cros.DynString.Valid as StringValid
use cros.TcprosProcess.{TcprosProcess, process_init, process_reset, reading}
use cros.TcprosProcess.Valid.{IsReset, Valid, process_init-Valid, process_reset-IsReset}

abbrev letter : DynString
letter = record { len = 1; pos_offset = 1; max = 2; block = live (some 97 ∷ some 0 ∷ none ∷ []) }

letter-Holds : StringValid.Holds letter (97 ∷ [])
letter-Holds = record {
  len_eq = refl;
  cursor = omega arith;
  storage = (refl, record { rest = none ∷ []; same = refl });
}

abbrev busy : TcprosProcess
busy = record process_init {
  state = reading;
  topic = letter;
  latching = 1;
  topic_idx = pos 3;
  left_to_recv = 7;
  sub_tcpros_port = pos 11311;
  sub_tcpros_host = owned (104 ∷ []);
}

busy-Valid : Valid busy
unfolding process_init
busy-Valid =
    let v = process_init-Valid in
    record {
      topic = (97 ∷ [], letter-Holds);
      service = v.service;
      type_name = v.type_name;
      servicerequest_type = v.servicerequest_type;
      serviceresponse_type = v.serviceresponse_type;
      md5sum = v.md5sum;
      caller_id = v.caller_id;
      packet = v.packet;
      host = tt;
    }

process_reset-IsReset_example :
    (p' : TcprosProcess) × (process_reset none busy ≡ done p') × IsReset none busy p' × Valid p'
process_reset-IsReset_example = process_reset-IsReset none busy busy-Valid
