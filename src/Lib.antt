-- ===== src/Lib.antt =====
-- cROS (it-robotics): the C library that connects a program to ROS without the ROS client libraries.
--
-- The parts and how they interact. A node (src/cros_node.c, src/cros_api.c) talks to the ROS master in
-- XMLRPC and to other nodes in TCPROS. Both protocols build and read their packets in growing memory:
-- XMLRPC text in a dynamic string (src/dyn_string.c), TCPROS packets in a dynamic byte buffer
-- (src/dyn_buffer.c). A read cursor in each of them marks what has been sent or parsed. Values of
-- XMLRPC calls are trees (src/xmlrpc_params.c) in growing vectors (src/xmlrpc_params_vector.c); messages
-- are trees of fields (src/cros_message.c) that wait in queues (src/cros_message_queue.c), as calls to the ROS API do (src/cros_api_call.c). Functions that
-- can fail return a pack of error codes (src/cros_err_codes.c).
--
-- Files.
--   Common    numbers, integers, tests, lists, bits and decimal notation, shared by all others.
--   Mem       malloc, realloc, memcpy and memmove on blocks of cells; undefined behaviour is the
--             outcome `fault`. The allocator is a function of the requested size, so that each call may
--             succeed or fail.
--   DynBuffer src/dyn_buffer.c, include/dyn_buffer.h. `push_back_buf` is dynBufferPushBackBuf, and so
--             on: a function keeps the name it has in C without the prefix. DynBuffer/Valid says what
--             a well-formed buffer holds; Grow, Append and Push, Cursor, Values and Release are about the
--             operations.
--   DynString src/dyn_string.c, include/dyn_string.h, in the same way, with the files Valid, Push,
--             Chars, Edit, Reduce and Cursor. Texts has the appends and the patch on content
--             and capacity alone, for the code that writes XML and messages, and Agrees compares the
--             append of a string with the one on blocks.
--   ErrCodes  src/cros_err_codes.c, include/cros_err_codes.h. Catalog is the list of messages, Pack
--             the lists of codes that packs stand for, Print the two functions that print a pack.
--
--   XmlrpcParams       src/xmlrpc_params.c, include/xmlrpc_params.h without the XML: the values of
--             XMLRPC calls. Push has arrayAddElem and the functions built on it, Copy the copies and the
--             release; Valid is the invariant, Pushes, Members, Copies and Releases the proofs. `release`,
--             `copy` and the setters are xmlrpcParamRelease, xmlrpcParamCopy and so on.
--   XmlrpcParamVector  src/xmlrpc_params_vector.c, include/xmlrpc_params_vector.h: the parameters of a
--             call, stored in a growing block. Valid has the invariant and the proofs.
--
--   Message   src/cros_message.c, include/cros_message.h: the part that copies and frees messages, in
--             Copy; Types has the tables of types, Arrays and Elements the access to array fields,
--             Serialize and Deserialize the two directions between messages and packets in a dynamic
--             byte buffer, and Build the messages of the built-in compound types. Deserialization takes
--             cRosMessageBuildFromDef as a parameter; it runs on the depth of nested messages, and
--             Matches says which messages can take what another one is sent as.
--             `field_copy`, `fields_copy` and `copy_without_def` are cRosMessageFieldCopy and so on. Valid
--             says what a well-formed message is and what a copy keeps (`tidy`); Copies and Frees are the
--             proofs.
--   MessageQueue  src/cros_message_queue.c, include/cros_message_queue.h over Message: a ring of ten
--             messages. Ring reads the part in use as a list; Fifo is about adding, Take about
--             extracting, clearing and the start, Peek about the ends and a failed addition.
--
--   ApiCallQueue  src/cros_api_call.c, include/cros_api_call.h: calls to the ROS API in a linked list,
--             whose nodes stand in a store. Chain says which nodes form a list, Fifo has the operations.
--
--   Clock     src/cros_clock.c: times as seconds and microseconds, and milliseconds, for a 64-bit `long`;
--             what gettimeofday answers is an argument. Times has the way there and back.
--
--   TcprosProcess  src/tcpros_process.c, include/tcpros_process.h: the record of a connection, its
--             start, reset and release, with tcpIpSocketInit and tcpIpSocketDisconnect of
--             src/tcpip_socket.c. What shutdown answers is an argument. Valid has the reset.
--
--   XmlrpcXml  the half of src/xmlrpc_params.c that writes and reads XML, with include/xmlrpc_tags.h.
--             Print gives the pieces that xmlrpcParamToXml appends, in order, and Append appends
--             them; Parse has paramFromXml and
--             the functions it calls, on the text that stands at the cursor; Numbers is `%d`. Steps says
--             which values survive and what is left of them, Texts, Places, Values and RoundTrip follow
--             the parser through a text that was written, Written has the whole, Doubles what happens to
--             a double. Escapes is about the special characters of strings. How the C library writes
--             and reads a double is an argument.
--
--   XmlrpcProtocol  src/xmlrpc_protocol.c, include/xmlrpc_protocol.h. Generate and Parse are
--             the two directions; Padded and Assembled say what is generated, Header and Framing
--             follow it through the
--             parser of the header.
--
-- Where memory is asked for several times, the answers to the requests come as a function of their
-- number, so that every pattern of failures is covered.
--
-- Bounds and fuel. A size_t wraps at 2 ^ 64; an `int` that overflows is `fault`. The loop that grows a
-- buffer runs on 64 rounds: the capacity at least doubles in each and no object is larger than
-- 2 ^ 63 - 1 bytes. The loops over a pack run on 5 rounds: four bytes and the test that ends the loop.
-- The loop that grows a vector runs on 2 rounds: one doubling leaves the capacity above the size.
-- The parser of XML runs on eight rounds more than the text has characters: every level of the recursion
-- reads a tag. The loops over the parameters of a message run on one round more than the text has
-- characters, since every round reads a tag.
-- Releasing the list of calls takes as many rounds as it counts, and one to see the end.
--
-- Not modelled: src/md5.c, which is another project's code, logging, the rest of the sockets, the
-- master in Python, and for now the rest of the
-- library. Values of
-- more than one byte are stored as a little-endian host stores them.
pub mod Common
pub mod Mem
pub mod DynBuffer
pub mod DynString
pub mod ErrCodes
pub mod XmlrpcParams
pub mod XmlrpcParamVector
pub mod XmlrpcXml
pub mod XmlrpcProtocol
pub mod Message
pub mod MessageQueue
pub mod ApiCallQueue
pub mod Clock
pub mod TcprosProcess
