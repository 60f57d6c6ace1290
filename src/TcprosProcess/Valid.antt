-- ===== src/TcprosProcess/Valid.antt =====
-- What a process needs to be reset, and what a reset leaves (src/tcpros_process.c).
use cros.Common.{List, Option, [], arith, minus_one, pos, refl, ℕ, ◌≡◌}
use cros.Mem.{Ptr, dangling_ptr, done, free, nil_ptr, owned}
use cros.DynBuffer.{DynBuffer}
use cros.DynBuffer.Release.{clear-Holds, init-CursorInside}
use cros.DynBuffer.Valid as BufferValid
use cros.DynString.{DynString}
use cros.DynString.Valid.{init-Holds}
use cros.DynString.Valid as StringValid
use cros.DynString.Reduce.{clear_lem}
use cros.Clock.{TimeVal, get_time_ms}
use cros.TcprosProcess.{
  TcprosProcess, change_state, idle, process_clear, process_init, process_reset,
}

-- A well-formed string or buffer, whatever its content.
abbrev IsString : DynString → Type 0
IsString d = (chars : List ℕ) × StringValid.Holds d chars

abbrev IsBuffer : DynBuffer → Type 0
IsBuffer d = (bytes : List ℕ) × BufferValid.Holds d bytes × BufferValid.CursorInside d

abbrev IsHost : Ptr (List ℕ) → Type 0
IsHost dangling_ptr = ⊥
IsHost _ = Unit {0}

-- What a reset needs: every string and the packet are well formed and the host can be freed.
pub record Valid (p : TcprosProcess) : Type 0 where
  pub topic : IsString p.topic
  pub service : IsString p.service
  pub type_name : IsString p.type_name
  pub servicerequest_type : IsString p.servicerequest_type
  pub serviceresponse_type : IsString p.serviceresponse_type
  pub md5sum : IsString p.md5sum
  pub caller_id : IsString p.caller_id
  pub packet : IsBuffer p.packet
  pub host : IsHost p.sub_tcpros_host

-- Empty, with the cursor at 0.
abbrev IsEmpty : DynString → Type 0
IsEmpty d = StringValid.Holds d [] × (d.pos_offset ≡ 0)

-- What a reset leaves of p: nothing of the connection but the socket.
pub record IsReset (now : Option TimeVal) (p p' : TcprosProcess) : Type 0 where
  pub state : p'.state ≡ idle
  pub changed : p'.last_change_time ≡ get_time_ms now
  pub same_socket : p'.socket ≡ p.socket
  pub topic : IsEmpty p'.topic
  pub service : IsEmpty p'.service
  pub type_name : IsEmpty p'.type_name
  pub servicerequest_type : IsEmpty p'.servicerequest_type
  pub serviceresponse_type : IsEmpty p'.serviceresponse_type
  pub md5sum : IsEmpty p'.md5sum
  pub caller_id : IsEmpty p'.caller_id
  pub packet : BufferValid.Holds p'.packet [] × (p'.packet.pos_offset ≡ 0)
  pub left_to_recv : p'.left_to_recv ≡ 0
  pub topic_idx : p'.topic_idx ≡ minus_one
  pub service_idx : p'.service_idx ≡ minus_one
  pub latching : p'.latching ≡ 0
  pub tcp_nodelay : p'.tcp_nodelay ≡ 0
  pub persistent : p'.persistent ≡ 0
  pub ok_byte : p'.ok_byte ≡ 0
  pub probe : p'.probe ≡ pos 0
  pub no_port : p'.sub_tcpros_port ≡ minus_one
  pub no_host : p'.sub_tcpros_host ≡ nil_ptr

free-IsHost : (h : Ptr (List ℕ)) → IsHost h → (h' : Ptr (List ℕ)) × (free h ≡ done h')
free-IsHost nil_ptr v = (nil_ptr, refl)
free-IsHost (owned a) v = (dangling_ptr, refl)
free-IsHost dangling_ptr v = absurd v

IsReset-Valid : (now : Option TimeVal) (p p' : TcprosProcess) → IsReset now p p' → Valid p'
IsReset-Valid now p p' r = record {
  topic = ([], r.topic.0);
  service = ([], r.service.0);
  type_name = ([], r.type_name.0);
  servicerequest_type = ([], r.servicerequest_type.0);
  serviceresponse_type = ([], r.serviceresponse_type.0);
  md5sum = ([], r.md5sum.0);
  caller_id = ([], r.caller_id.0);
  packet = ([], r.packet.0, omega (arith, r.packet.1));
  host = rw r.no_host tt;
}

-- Resetting a process whose strings, packet and host are sound returns an idle process with the
-- time of the change: every string and the packet are empty, every flag, index and the host are as
-- at the start, the socket is untouched, and the process is sound again.
pub process_reset-IsReset :
    (now : Option TimeVal) (p : TcprosProcess)
    → Valid p
    → (p' : TcprosProcess) × (process_reset now p ≡ done p') × IsReset now p p' × Valid p'
unfolding process_reset process_clear change_state
process_reset-IsReset now p v =
    let topic = clear_lem p.topic v.topic.0 v.topic.1 in
    let caller_id = clear_lem p.caller_id v.caller_id.0 v.caller_id.1 in
    let service = clear_lem p.service v.service.0 v.service.1 in
    let type_name = clear_lem p.type_name v.type_name.0 v.type_name.1 in
    let request = clear_lem p.servicerequest_type v.servicerequest_type.0 v.servicerequest_type.1 in
    let response =
      clear_lem p.serviceresponse_type v.serviceresponse_type.0 v.serviceresponse_type.1 in
    let md5sum = clear_lem p.md5sum v.md5sum.0 v.md5sum.1 in
    let host = free-IsHost p.sub_tcpros_host v.host in
    let p' : TcprosProcess =
      change_state now
        (record (process_clear p) {
          topic = topic.0;
          caller_id = caller_id.0;
          service = service.0;
          type_name = type_name.0;
          servicerequest_type = request.0;
          serviceresponse_type = response.0;
          md5sum = md5sum.0;
          latching = 0;
          tcp_nodelay = 0;
          persistent = 0;
          probe = pos 0;
          topic_idx = minus_one;
          service_idx = minus_one;
          ok_byte = 0;
          sub_tcpros_host = nil_ptr;
          sub_tcpros_port = minus_one;
        })
        idle in
    let returns : process_reset now p ≡ done p' =
      rw (topic.1, caller_id.1, service.1, type_name.1, request.1, response.1, md5sum.1, host.1)
        refl in
    let is_reset : IsReset now p p' = record {
      state = refl;
      changed = refl;
      same_socket = refl;
      topic = (topic.2, topic.3);
      service = (service.2, service.3);
      type_name = (type_name.2, type_name.3);
      servicerequest_type = (request.2, request.3);
      serviceresponse_type = (response.2, response.3);
      md5sum = (md5sum.2, md5sum.3);
      caller_id = (caller_id.2, caller_id.3);
      packet = clear-Holds p.packet v.packet.0 v.packet.1 v.packet.2;
      left_to_recv = refl;
      topic_idx = refl;
      service_idx = refl;
      latching = refl;
      tcp_nodelay = refl;
      persistent = refl;
      ok_byte = refl;
      probe = refl;
      no_port = refl;
      no_host = refl;
    } in
    (p', returns, is_reset, IsReset-Valid now p p' is_reset)

pub process_init-Valid : Valid process_init
unfolding process_init
process_init-Valid = record {
  topic = ([], init-Holds);
  service = ([], init-Holds);
  type_name = ([], init-Holds);
  servicerequest_type = ([], init-Holds);
  serviceresponse_type = ([], init-Holds);
  md5sum = ([], init-Holds);
  caller_id = ([], init-Holds);
  packet = ([], BufferValid.init-Holds, init-CursorInside);
  host = tt;
}
