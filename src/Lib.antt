-- ===== src/Lib.antt =====
-- chopserver: a server that prints what its clients send, and a client that sends lines and
-- commands, over a protocol of four-byte headers with an optional data section.
--
-- The parts of the program, and the files that model them:
--
--   * `src/chopconst.h` and `src/chopconst.c`, the structures, the status bytes and the functions
--     that allocate and release them: Structs, and Memory (`init_buffer_struct`,
--     `destroy_packet_struct` and so on, under their own names).
--   * `src/choppacket.c`: Packet. Packet/Utility has the utility functions (`assemble_header`,
--     `assemble_body`, `append_buffer`, `packet_style`), Packet/Sending the sending ones
--     (`write_dataless`, `write_datapack`, `write_wordpack`), Packet/Receiving the receiving ones
--     (`parse_header`, `parse_long_header`; `parse_text` and `read_long_text` in Receiving/Text,
--     the other handlers in Receiving/Answers).
--   * `src/chopdata.c`: Data. Data/Transfer has `fill_buf`, `read_data`, `read_header` and
--     `write_packet`, Data/Scan the scans of a buffer and `char_to_bin`.
--   * `src/chopdebug.c` and `src/chopdebug.h`: Debug, the functions that print a packet, and
--     Debug/Names, the tables of names and the formats. Debug/Reporting has `_debug_print`.
--   * `src/chopconn.c`: Manage. Manage/Request has `process_request` and `is_client_status`.
--     Manage/Clients has `accept_new_client`, `remove_client_index` and `remove_client_address`, with
--     `accept_connection` and `refuse_connection` of `src/chopsocket.c`; Manage/Establish has
--     `establish_server_connection`, Manage/Address `is_address`.
--   * `src/chopserver.c`: Serve. `start` is `main` up to its loop, and `turn` one turn of it.
--   * `src/chopclient.c`: Console. `client_start` is `main` up to its loop, `client_turn` one turn of
--     the loop, and `client_loop` its turns in order.
--   * `src/chopsocket.c`: Sockets, `init_server_addr`, `setup_server_socket` and
--     `connect_to_server` over the outcomes of their system calls.
--
-- The modules of proofs stand below the module whose functions they are about: Exact (what a
-- function does where nothing fails), Writing, Rounds and Whole (a data section on its way out,
-- one round of reading, all of them), Filling (`fill_buf`), Long (a text of unknown length),
-- Style (`packet_style`), First, Cut, Lacks and Binary (the scans), Asks, Replies, Texts and
-- Unnamed (one request of each kind), Exchange (a request and its answer between two ends),
-- Slots, Seating and Accepting (the server's slots), Sound and Turns (the server's loop),
-- Commands (the client's), Quads (addresses), Destroying (a server's memory), Enquiries and Ended
-- (a request for each kind of enquiry, and one on a stream that has ended), Bounded (a request
-- inside its arrays), Calm, Welcoming and Safe (the same for the server's turns), Leaving (a peer
-- that hangs up), Outcomes (the socket calls). Fit has the rules for a connection whose segments
-- hold what was stored in them, up to `parse_header`. Protocol has the conversation as messages,
-- modes and answers: Ends, Modes and Handling compare `process_request` with it, Talking, Looping
-- and Starting the client, Serve/Talking the server slot by slot (Passing, Heard, Stepping and
-- Each take it to whole turns), and Typing both ends together. Stable lifts a relation between
-- connections from the smallest steps to every handler: Rules has the interface `IsStable` and
-- the rules of composition, Reading, Printing, Sending and Parsing apply them, and
-- Manage/Request/Whole takes them to `process_request`. An invariant of a request is then an
-- instance of `IsStable`, as in Manage/Request/Keeps, Flags and Balance.
--
-- How the parts interact: the server reads a header into a fresh packet (`read_header`), the
-- status byte selects a handler (`parse_header`), the handler reads the data section, sends its
-- answer and changes the flags of the client, the print function shows the packet, and the packet
-- is released. The client's loop turns lines that are typed into packets and takes the answers of the
-- server with the same functions; Protocol/Typing follows a command through both programs.
--
-- The state. Machine has the connection a handler works on (`Conn`: the client, its socket, the
-- packet that is received, the environment) and the monad `M` of functions on it, whose results
-- are `ok`, `fault` for undefined behaviour of C, and `out_of_fuel`. Env has what the process
-- asks of its system: whether a `malloc` succeeds, the counts of blocks that were taken and
-- released, the closed descriptors, the clock and what was printed. A socket delivers a list of
-- arrivals, each the bytes that one `read` can return at most or a failure, and takes writes
-- whole, in part or not at all; both lists are arbitrary and finite. A `read` that waits for a
-- silent peer that does not close, and a peer that never stops sending, are not covered: what is
-- said of termination is said of finite input at whose end the stream has ended or failed. A
-- descriptor of 1024 or above in an `fd_set`, the overflow of `cur_connections`, a null pointer
-- for a `%s` and a `time_t` of which not all bytes have come are faults, like reads outside an
-- array. A pointer argument is a `Ref` or an `Option`; two arguments never point to one structure
-- in the source's calls. `errno` is e + 1 in `failed e`. A data section is the list of its
-- buffers, in the order of their `next` fields, and a buffer's `bytes` are those that were stored
-- in it. Header bytes and flags are natural numbers below 256, which no function leaves: they are
-- copied and compared, never computed.
--
-- Bounds and fuel. `parse_header` and `parse_long_header` call one another, and `read_long_text`
-- reads until a symbol comes; both run on fuel here. A request starts with more fuel than its
-- socket has bytes and arrivals (`weight`); every round reads, so the fuel is never used up,
-- which the results on `process_request` include. The loops over a count are recursions on it.
-- The length of a text is at most 255 * 255; the sum that `read_long_text` keeps and the count of
-- connections can pass the range of an `int`, which is a `fault`.
--
-- Not modelled: the calls of `DEBUG_PRINT` in a build with DEBUG (without it the macro is empty); the functions in comments of `src/chopconn.c`;
-- and the handling of signals, whose effect is an event of a turn of the server. What a system
-- call of `src/chopsocket.c` comes to is an argument, and so are the results of
-- `setup_server_socket` in `start` and of `connect_to_server` in `establish_server_connection`.
pub mod Base
pub mod Structs
pub mod Env
pub mod Memory
pub mod Machine
pub mod Packet
pub mod Data
pub mod Debug
pub mod Stable
pub mod Manage
pub mod Serve
pub mod Sockets
pub mod Console
pub mod Fit
pub mod Protocol
pub mod Tests
