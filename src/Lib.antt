-- ===== src/Lib.antt =====
-- The GSM daemon of the phone's system test suite, gta02-dm1/user_space/gsm (the program gsmd).
--
-- gsmd talks to the GSM modem over a serial line. What the modem sends is cut into lines by the
-- low-level parser of src/gsmd/atcmd.c; commands to the modem wait in a queue, are written when the
-- line can take them, and are finished by the final results that come back. Short messages travel as
-- PDUs (sms_pdu.c), responses with several values are taken apart (ext_response.c), events are sent to
-- the clients (unsolicited.c), timers end waits (timer.c), and operator names are cached
-- (operator_cache.c). Clients send their requests over a socket, and get
-- answers and events over it (usock.c, sms_cb.c). The library libgsmd makes the clients' requests
-- and hands them what comes from the daemon.
-- Paths below are relative to gta02-dm1/user_space/gsm.
--
-- Base: numbers, integers, tests, lists over the native numbers, bit tables.
-- Atcmd.Llparse: the low-level parser, `llparse_append` to `llparse_init`, and `struct llparser`
-- of include/gsmd/gsmd.h. The upcalls are a trace. Below it: the bounds of the buffer, the framing
-- of lines and prompts, and inputs that it does not frame.
-- Atcmd.Queue: `atcmd_fill`, `atcmd_submit`, `atcmd_wakeup_modem`, `atcmd_done`, `cancel_atcmd`,
-- `wakeup_timeout` and the writing half of `atcmd_select_cb`. The two linked lists of `struct gsmd`
-- are lists. What a callback of another file does is a parameter: it gets the command, with its return
-- code, and the response, submits commands and returns a code. Below it: the order of the queue, the queues as an abstract machine, and their run
-- with a modem that answers.
-- Atcmd.Mlparse: `ml_parse`, each branch a function. `unsolicited_parse` and the commands of
-- `gsmd_initsettings` are parameters, and calls that leave the state alone are reports. Below it:
-- the string functions, the response of several lines, the room for it, and where it reads.
-- Atcmd.Uart: the reading half of `atcmd_select_cb`, which puts the two parsers and the queues together.
-- The reads are a list of byte strings.
-- Sms: the structures of include/gsmd/usock.h, and each function of sms_pdu.c. A read past the end
-- of the octets is the result `none`. Below it: the digits of numbers, the round trip of a
-- message sent, the safety of the decoder, the data coding octet as a table, and UCS2.
-- Extrsp: ext_response.c, the parser of responses with commas as a state machine, and
-- `extrsp_supports`. Below it: fields, and whole responses.
-- Events: `usock_evt_send` and `generate_event_from_cme` of unsolicited.c, and in Events.Dispatch the
-- table of handlers of unsolicited codes, whose entries are a parameter; Events.Handlers has those of
-- calls, Events.Network those of the network and the clock, with `strtoul` to the base 16 as an argument, and
-- Events.Opnames that of operator names. Below it: who gets an event, which error numbers and which
-- numbers of callers reach the clients, which handler a code reaches, and what a client notes of the network.
-- Usock: the requests of clients, usock.c and sms_cb.c. Usock.Message has the header of a message and
-- what a handler may do, an `Action`, which `perform` does to the daemon and the client; Calls,
-- Network, Phonebooks and Shortmsg have the handlers `usock_rcv_...`, each of which reads the memory
-- of the message and gives the action, or `none` where it reads or writes outside its memory;
-- Client has the dispatch and the callbacks of the sockets; Replies has the callbacks of commands, which
-- make the answers to clients; Incoming has the unsolicited codes about messages, with `sscanf` as an
-- argument. Below it: what a request can do (Effects, Requests), the messages that
-- wait for a client (Waiting), where texts are printed (Room), and the phone book (Entries).
-- Libgsmd: the library of the clients, src/libgsmd. A function that makes a request gives an `Outcome`: the
-- octets that it hands to `send` and the code that it returns then, or the code alone; whether `malloc`
-- succeeds, the number of the message and what `send` returns are arguments. Requests has those of
-- libgsmd_voicecall.c, libgsmd_network.c, libgsmd_phone.c, libgsmd_pin.c and libgsmd_passthrough.c,
-- Messages those of libgsmd_sms.c, Entries those of libgsmd_phonebook.c; Sevenbit has the packing of texts,
-- Packets the messages that come from the daemon, libgsmd.c, and Events the events, libgsmd_event.c. Dialing, Pins and Stored follow requests
-- into the daemon, to the command or the PDU that they become.
-- Timer: timer.c, with the list of timers as a list and the call of `setitimer` as a result.
-- OperatorCache: operator_cache.c.
-- Tests: runs of the theorems at concrete inputs.
--
-- The loops run over lists, except those named here. The borrowing loop of `tv_sub` has as fuel the size of the
-- negative microseconds, which each round makes smaller. The loop over the septets of an address has the
-- length of the address. The run of expired timers visits timers that callbacks add, and takes the
-- fuel from outside; what is enough is stated with it. A number is printed with ten digits at most,
-- enough for 32 bits. The loop over the messages of a packet has a round for each octet, and takes
-- eight octets or more in each. The run of the queues with a modem has a turn for each line and one for its answer.
--
-- Not modelled: input and output of the process, log messages, memory that runs out where the code
-- does not test for it (in the handlers of requests it is a fault), the callbacks of commands with
-- `sscanf`, the plug-ins of vendors, the start of the processes, the utilities on top of the
-- library, and code copied from other projects (talloc, the kernel's lists). An `int` that `extrsp_parse`, `creg_parse` or
-- `ctzv_parse` reads by `atoi` is `none` if the number does not fit; elsewhere the numbers are those that fit.
pub mod Base
pub mod Atcmd
pub mod Sms
pub mod Timer
pub mod OperatorCache
pub mod Extrsp
pub mod Events
pub mod Usock
pub mod Libgsmd
mod Tests
