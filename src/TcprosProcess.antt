-- ===== src/TcprosProcess.antt =====
-- The state of a TCPROS or RPCROS connection (src/tcpros_process.c, include/tcpros_process.h), with
-- the part of src/tcpip_socket.c that it calls. What shutdown answers is an argument.
use cros.Common.{Bool, List, Option, if◌then◌else◌, minus_one, pos, replicate, ℕ, ℤ, ◌==◌}
use cros.Mem.{Ptr, Run, done, free, nil_ptr, ◌>>=◌}
use cros.DynBuffer
use cros.DynBuffer.{DynBuffer}
use cros.DynString
use cros.DynString.{DynString}
use cros.Clock.{TimeVal, get_time_ms}
pub mod Valid
mod Tests

-- `rem_addr` is the memory of a `struct sockaddr_in`.
pub record TcpIpSocket : Type 0 where
  pub fd : ℤ
  pub rem_addr : List ℕ
  pub is_open : ℕ
  pub connected : ℕ
  pub listening : ℕ
  pub is_nonblocking : ℕ

pub socket_init : TcpIpSocket
socket_init = record {
  fd = minus_one;
  rem_addr = replicate 16 0;
  is_open = 0;
  connected = 0;
  listening = 0;
  is_nonblocking = 0;
}

-- The result is what the C function returns, and the socket.
pub disconnect : Bool → TcpIpSocket → ℕ × TcpIpSocket
disconnect shut s =
    if s.connected == 0 then (1, s) else ((if shut then 1 else 0), record s { connected = 0 })

pub data TcprosProcessState : Type 0 where
  idle wait_for_connecting connecting : TcprosProcessState
  reading_header_size reading_header writing_header : TcprosProcessState
  wait_for_writing start_writing reading_size reading writing : TcprosProcessState

pub record TcprosProcess : Type 0 where
  pub state : TcprosProcessState
  pub socket : TcpIpSocket
  pub topic : DynString
  pub service : DynString
  pub type_name : DynString
  pub servicerequest_type : DynString
  pub serviceresponse_type : DynString
  pub md5sum : DynString
  pub caller_id : DynString
  pub latching : ℕ
  pub tcp_nodelay : ℕ
  pub persistent : ℕ
  pub packet : DynBuffer
  pub last_change_time : ℕ
  pub topic_idx : ℤ
  pub service_idx : ℤ
  pub left_to_recv : ℕ
  pub ok_byte : ℕ
  pub probe : ℤ
  pub sub_tcpros_port : ℤ
  pub sub_tcpros_host : Ptr (List ℕ)

pub process_init : TcprosProcess
process_init = record {
  state = idle;
  socket = socket_init;
  topic = DynString.init;
  service = DynString.init;
  type_name = DynString.init;
  servicerequest_type = DynString.init;
  serviceresponse_type = DynString.init;
  md5sum = DynString.init;
  caller_id = DynString.init;
  latching = 0;
  tcp_nodelay = 0;
  persistent = 0;
  packet = DynBuffer.init;
  last_change_time = 0;
  topic_idx = minus_one;
  service_idx = minus_one;
  left_to_recv = 0;
  ok_byte = 0;
  probe = pos 0;
  sub_tcpros_port = minus_one;
  sub_tcpros_host = nil_ptr;
}

pub process_release : Bool → TcprosProcess → Run TcprosProcess
process_release shut p = do
  topic ← DynString.release p.topic
  service ← DynString.release p.service
  caller_id ← DynString.release p.caller_id
  type_name ← DynString.release p.type_name
  servicerequest_type ← DynString.release p.servicerequest_type
  serviceresponse_type ← DynString.release p.serviceresponse_type
  md5sum ← DynString.release p.md5sum
  packet ← DynBuffer.release p.packet
  host ← free p.sub_tcpros_host
  done (record p {
    socket = if p.socket.connected == 0 then p.socket else (disconnect shut p.socket).1;
    topic = topic;
    service = service;
    caller_id = caller_id;
    type_name = type_name;
    servicerequest_type = servicerequest_type;
    serviceresponse_type = serviceresponse_type;
    md5sum = md5sum;
    packet = packet;
    sub_tcpros_host = host;
  })

pub process_clear : TcprosProcess → TcprosProcess
process_clear p = record p { packet = DynBuffer.clear p.packet; left_to_recv = 0 }

pub change_state : Option TimeVal → TcprosProcess → TcprosProcessState → TcprosProcess
change_state now p state = record p { state = state; last_change_time = get_time_ms now }

-- `now` is what gettimeofday answers.
pub process_reset : Option TimeVal → TcprosProcess → Run TcprosProcess
process_reset now p = do
  topic ← DynString.clear p.topic
  caller_id ← DynString.clear p.caller_id
  service ← DynString.clear p.service
  type_name ← DynString.clear p.type_name
  servicerequest_type ← DynString.clear p.servicerequest_type
  serviceresponse_type ← DynString.clear p.serviceresponse_type
  md5sum ← DynString.clear p.md5sum
  host ← free p.sub_tcpros_host
  done (
      change_state now
        (record (process_clear p) {
          topic = topic;
          caller_id = caller_id;
          service = service;
          type_name = type_name;
          servicerequest_type = servicerequest_type;
          serviceresponse_type = serviceresponse_type;
          md5sum = md5sum;
          latching = 0;
          tcp_nodelay = 0;
          persistent = 0;
          probe = pos 0;
          topic_idx = minus_one;
          service_idx = minus_one;
          ok_byte = 0;
          sub_tcpros_host = nil_ptr;
          sub_tcpros_port = minus_one;
        })
        idle)
