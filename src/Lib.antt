-- ===== src/Lib.antt =====
-- Verification of an NFC stack for Arduino: an NCI layer that drives an NFC controller, and a tag API
-- on top of it.
--
-- The program. An application (a sketch) owns one object of each class and calls in a loop its own
-- state machine, `NfcTags::handleEvent` and `NfcNci::handleEvent`. `NfcTags` (src/tags/NfcTags.cpp) runs
-- the state machines of reset, discovery, deactivation and dump: each command of the application sets a
-- state, `handleEvent` then sends the NCI command of that state, and the callbacks of `NfcNciCb`, which
-- the NCI layer calls, advance the state and call the application. `NfcNci` (src/nci/NfcNci.cpp)
-- formats packets, waits for a packet, parses it and keeps the RF state. It reaches the controller
-- through the class `NfcHw` (src/hw/NfcHw.h). A tag that was found is driven through an interface:
-- `NfcTagsIntfType2` reads the memory of a type 2 tag; `NfcTagsIntfMifare` does nothing yet.
--
-- The files.
-- - Hw: src/hw/NfcHw.h. The record NfcHw is a parameter of everything that drives the controller: its
--   World is the state of the controller, `write` and `read` are the two methods that are called.
--   IsResponsive states what only Nci.Events.Waiting relies on: every read returns, with at most as many
--   bytes as were asked for (one if none was) and that number for a result.
-- - Hw.Pn7120: `init`, `write`, `read` and `wait` of src/hw/NfcHw_pn7120.cpp. The functions of the board
--   and of the Wire library are the record Board, a parameter; the record Buffers states what the
--   library documents. `driver` is the class as an NfcHw.
--   Hw.Pn7120.Transfers: packets that the NCI layer gets through the driver, over a library whose record
--   Fifo states that it hands on bytes in their order.
-- - Nci.Header: the macros of src/nci/NfcNci.h that build and take apart headers.
-- - Nci.Types, Nci.Constants: the constants, structs and members of src/nci/NfcNci.h. The state is the
--   record NfcNci.
-- - Nci.Commands: `cmdCoreReset`, `cmdCoreInit`, `cmdRfDiscoverMap`, `cmdRfDiscover`,
--   `cmdRfDeactivate` and `dataSend` as cmd_core_reset and so on to data_send.
-- - Nci.Responses: `rspCoreReset`, `rspCoreInit`, `rspRfDiscoverMap`, `rspRfDiscover`,
--   `ntfRfIntfActivated`, `rspRfDeactivate`, `ntfRfDeactivate` under the same names.
-- - Nci.Events: `waitForEvent`, `handleEvent`, `handleDataEvent`, `handleCoreEvent`, `handleRfEvent`.
--   handle_packet is `handleEvent` once the packet is in the buffer.
-- - Nci.Session: the constructor, `init`, and a client that calls commands and `handleEvent` in any order.
-- - Nci.Reach: the RF states that such a client can see.
-- - Nci.Contract: the packets of the commands, as a table.
-- - Nci.Total: the arguments with which the commands stay inside the send buffer.
-- - Nci.Events.Receiving, Nci.Events.Replies: a whole packet from the hardware, and the calls that the
--   successful responses lead to.
-- - Nci.Events.Notification, Nci.Events.Activation: the format of the notification RF_INTF_ACTIVATED, and
--   `ntfRfIntfActivated` against it.
-- - Tags.Types: src/tags/NfcTagsDef.h, NfcTagsCb.h, NfcTagsIntf.h, NfcTags.h.
-- - Tags.Type2 and Tags.Interface: src/tags/NfcTagsIntfType2.cpp, NfcTagsIntfMifare.cpp,
--   NfcTagsIntf.cpp, and the virtual calls.
-- - Tags.Stack, Tags.Callbacks, Tags.Handlers: src/tags/NfcTags.cpp: the commands and `identifyTag`; the
--   methods `cb...` as on_...; `handleEvent` and the methods `handle...`.
-- - Tags.Advance: the state of the tag API after each callback.
-- - Tags.Coupling, Tags.Sending, Tags.System, Tags.Stale: the two layers together.
-- - Tags.Calm: the tag API while nothing is dumped.
-- - Tags.Switches, Tags.Busy, Tags.Served: the shape of the handlers, the condition under which
--   `handleEvent` of the tag API returns, and that it keeps it unless it ends a dump.
-- - Tags.Told, Tags.Meaning: what a call of the application says of the tag API.
-- - Tags.Progress, Tags.Chosen, Tags.Found: a turn of the NCI layer on a successful response, and on a
--   new tag.
-- - Sketch: `setup` and `loop` of the sketches, which are examples/TagDump/TagDump.ino and
--   examples/TagDetect/TagDetect.ino: class NfcApps of each is a Sketch, in Sketch.Dump and
--   Sketch.Detect. The callback of the application runs at the end of the turn of the layer that makes it,
--   with the objects of both layers as they are then.
-- - Sketch.Ready, Sketch.Passes, Sketch.Accepted: where the dump sketch and the tag API are between two
--   passes. Sketch.Still, Sketch.Detecting: the same for the sketch that detects tags.
-- - Sketch.Application: the states in which a sketch resets, discovers, waits and deactivates, with what it
--   does there, as an interface that both sketches fill. Over it, Sketch.Exchanges: a pass in which a
--   command is answered; Sketch.BringUp: the first passes; Sketch.Detection: the pass in which a tag is
--   found; Sketch.Waiting: those in which a notification is passed over; Sketch.Release: those in which the
--   tag is let go; Sketch.Repeats, Sketch.Visits: one after the other.
-- - Sketch.Blocks, Sketch.Dumping, Sketch.Cycle: the passes in which a tag is dumped. Sketch.Endless: both
--   sketches on any number of tags. Sketch.Interrupted: a dump whose tag is taken away.
--   Sketch.Corrupted: a dump whose message is corrupted. Sketch.Malformed: a notification of a tag that is
--   too short.
--   Sketch.Agreement: the two sketches.
-- - Log: the two `print` of src/log/NfcLog.cpp, with the calls of `Serial.print` as a list of pieces.
--   Log.Formats: a format and the message that it is written from. Log.Levels: the methods of
--   src/log/NfcLog.h that print on one level.
-- - Common: the outcome of a C++ call, arrays of bytes, tests and lists. Examples: the theorems at
--   concrete inputs, over a scripted controller.
--
-- The model. A call gives an Outcome: its result, a fault (an access out of the bounds of an array, a
-- read of a value that nothing has set, a cast of a pointer to an object of another type, a call through
-- a null pointer), or a wait without end. An object is a record that the methods take and give back. The
-- pointer `void *_data` is a DataPtr: null, one of the three members it may point to, or an index in the
-- receive buffer. The members that a constructor leaves indeterminate are its arguments. A method calls
-- a callback at most once and as its last act, so the call is part of its result: what the callee does
-- happens in the next step. Bytes are numbers, reduced modulo 256 where they are stored; the sizes
-- that the code keeps in a uint8_t are reduced modulo 256 too. The buffers hold 258 bytes. Of the
-- loops only the two of the driver do not count down: `wait` is given a number of polls, within which
-- the controller is to raise its line, and the loop of `read` as many rounds as bytes were asked for,
-- or one, which is enough where the library makes no more available.
--
-- Not modelled: the calls of the log, which are left out everywhere else; its `init`; and of the `setup`
-- of a sketch the delay, the serial line and the pins.
pub mod Common
pub mod Examples
pub mod Hw
pub mod Log
pub mod Nci
pub mod Sketch
pub mod Tags
