-- ===== src/Lib.antt =====
-- A model of bdremote-ng, a daemon that reads the key reports of a Sony BD remote from Bluetooth and
-- forwards them to LIRC clients over TCP, and optionally to a uinput device.
--
-- Three threads work together. The Bluetooth thread (src/capture/capture_bluez.c) reads packets and
-- calls the functions of src/captureif.h, which src/lirc_callback.c implements: a packet goes into the
-- queue of src/q.c, a charge report may start the battery script. The LIRC thread (src/lirc_thr.c)
-- takes packets from the queue, recognises keys with the table of src/keydef.h, and sends a line to
-- every client (src/lirc_util.c) and an event to the device (src/event_out.c). The main thread reads
-- the command line (src/bdremoteng.c, src/bdrcfg.c) and accepts clients (src/lirc_srv.c).
--
-- Files:
--   Prelude, Prelude/*   Boolean tests, list lemmas, integers, and Outcome: a value, or the fault that
--                        ends the process (a failed assert, an access outside an array, exit)
--   Family               functions updated at one thread, and sums over threads
--   Text, Text/*         C strings and what the program uses of printf; reading numbers back
--   Sys, Sys/*           the system calls as a trace, newest first, answered by an environment that may
--                        answer anything; what a descriptor has been sent, and how often descriptors
--                        were opened and closed
--   Fifo                 the abstract queue: a list of at most 254 elements
--   Queue                q.c: queueAdd is add_section, queueRemBlock is rem_section, queueRemNonBlock is
--                        queue_rem_non_block over the ends of its waits; Queue/Inv, Queue/Refine and
--                        Queue/Deadline have its proofs, Queue/Interface what its users rely on, and
--                        Queue/States its states up to what a caller can tell
--   Queue/Threads        threads that call q.c, in any interleaving, as a step relation
--   Keys                 keydef.h and codeToIndex
--   Config, Config/Flags bdrcfg.c; Config/Print the text of printConfig
--   Main/Program         the rest of main, as its thread runs it: prepare goes up to the log file,
--                        with_log from there; Main/Program/Clean joins it with captureLoop
--   Memory               SETVAL and FREEVAL of globaldefs.h over a heap; Memory/Settings has the
--                        configuration and the options of main with their pointers, against Config and
--                        Main/Options; Memory/Life the strings from the start of main to its end, Memory/Packets
--                        the packets on their way from DataInd to handleKey
--   Logging              l.c, and bdrGetFilename of globaldefs.c; Logging/Masks the masks and macros of
--                        globaldefs.h and the text that they write
--   Main/Usage           usage
--   Main/Options         the getopt loop of main: handle_option, handle_options, configure
--   EventOut             event_out.c; EventOut/Descriptor follows its file descriptor
--   Capture              captureif.c and readFromSocket, over the results of ppoll and recv; its calls
--                        of captureif.h come out as a list; Capture/Setup joins InitCaptureData and
--                        the command line
--   Capture/Server       run_server, l2cap_accept and l2cap_checkSource of capture_bluez.c; its loop runs
--                        over what ppoll, accept and getpeername give
--   Capture/Bluetooth    InitcaptureLoop, bt_device_exists, l2cap_listen and captureLoop of
--                        capture_bluez.c; what BlueZ knows is the record Bluez
--   Lirc                 lirc_data, initLircData and destroyLircData of lirc_srv.c
--   Lirc/Socket          write_socket and nolinger of lirc_util.c
--   Lirc/Clients         add_client and remove_client of lirc_srv.c
--   Lirc/Server          create_listener and lirc_server of lirc_srv.c
--   Lirc/Broadcast       broadcastToLirc of lirc_thr.c; Lirc/Broadcast/Line reads its line as lircd's
--                        clients do
--   Lirc/Callback        lirc_callback.c: DataInd is on_data_ind, RemoteBatteryCharge is
--                        on_battery_charge
--   Lirc/Remote          handleKey, DataInd_keyDown and DataInd_keyUp of lirc_thr.c; Lirc/Remote/Crowded
--                        joins them with add_client
--   Lirc/Remote/Clock    initTime and updateTime of lirc_util.c
--   Lirc/Remote/Thread   the loop of lircThread, for builds with and without ENABLE_REPEAT;
--                        Lirc/Remote/Thread/Unknown follows a key that is not in the table, and
--                        Lirc/Remote/Thread/Sessions and Lirc/Remote/Thread/Holding let clients connect
--                        between its rounds
--   Lirc/Pump            the loop of lircThread with queueRemNonBlock in it: queue_round;
--                        Lirc/Pump/EndToEnd joins it with readFromSocket and the callbacks, and
--                        Lirc/Pump/Press with handleKey
--   Privileges           ug.c
--   Examples/*           concrete data on which the theorems are applied
--
-- State is passed along explicitly. LircData and Machine are the records lirc_data and the LIRC
-- thread's view of it with keyState and the device; `config` is a copy of what the pointer names, which
-- nothing changes once the threads run. BDREMOTE_DEBUG is on, so the asserts on the magic0 of lirc_data
-- are there. Left out are log output and these asserts: that of readFromSocket on the magic0 of the
-- capture data, which InitCaptureData sets; that of queueRemNonBlock on *_out, which lircThread sets to
-- NULL before each call; and those that compare sizeof of one type with itself. What a function does under a mutex is one step.
--
-- Bounds and fuel: the queue has 254 slots, the table of clients 16, msg 100 bytes, cmd 512 bytes.
-- write_socket runs on as many rounds as the buffer has bytes, and broadcastToLirc on as many as there
-- are clients; a round writes a byte or passes a client, and the theorems on them include that the
-- rounds are enough. The other loops are structural. Numbers that the program keeps in int are
-- naturals or integers where it keeps them small; the elapsed time wraps at 2 ^ 64.
--
-- Not modelled: which messages the functions write to the log (Logging/Masks has the text of any
-- message), and the programs under test/. The signal handler sets a flag that ends the loops; here the
-- lists of what a loop meets end there, and a connection of which nothing more is given has ended. Of the heap, the queue's mutex and conditions and the device
-- list of bt_device_exists are not followed.
--
-- What the system guarantees is a hypothesis of the theorem that needs it: WritesAtMost (write reports
-- no more bytes than it was offered), WritesAddress (ba2str writes 17 bytes), NeverBack (the clock does
-- not go back), FromGetopt (an option
-- that wants an argument has one) and IsAccessible (the battery script can be run).
pub mod Prelude
pub mod Family
pub mod Fifo
pub mod Keys
pub mod Queue
pub mod Text
pub mod Sys
pub mod Config
pub mod EventOut
pub mod Capture
pub mod Lirc
pub mod Main
pub mod Memory
pub mod Logging
pub mod Privileges
pub mod Examples
