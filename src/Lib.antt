-- ===== src/Lib.antt =====
-- A verification library of nova-visualiser, the renderer and stream server for a music visualiser.
--
-- The program: a render thread draws a scene and hands each encoded frame to two transports,
-- `StreamServer` (TCP, src/net/stream_server.cpp) and `SrtServer` (src/net/srt_server.cpp). Each
-- keeps one bounded queue per client, filled by the render thread's `broadcast` and drained by a
-- writer thread of the client's own; a queue that is full is emptied, and its client waits for the
-- next keyframe. Scenes, configuration and events come from a dashboard as JSON documents, which
-- src/core/json.cpp reads and prints.
-- `SseClient` (src/net/sse_client.cpp) reads the dashboard's event stream, and src/net/http_client.cpp
-- fetches its documents.
--
-- `ConfigClient` (src/net/config_client.cpp) turns the dashboard's answers into a snapshot: the module
-- (src/core/module.cpp), its settings, the settings groups with their driver lanes, and the rotation of
-- colour themes with their palettes (src/core/palette.cpp). For each frame src/core/signal.cpp makes a
-- signal of the track that plays, src/core/parameter_drivers.cpp resolves the lanes against it, and
-- the scene's expressions (src/core/expression.cpp) are evaluated on the values.
--
-- The files:
--   Prelude, Prelude/Tests, Prelude/Lists: the names of the standard library that the files share,
--     Boolean tests and list functions on the native numbers.
--   Net/Stream: `StreamServer`: its state, and one function for each critical section of the accept
--     loop, the writers, the readers, `broadcast` and `stop`. Net/Stream/Steps makes them a step
--     relation, in which any section that is enabled may run next. Delivery and Race are
--     about its runs, Recovery about what `broadcast` queues and asks for.
--   Net/Srt: `SrtServer` in the same way, on the same client queue; a send succeeds, fails for want
--     of buffer or fails for good. Net/Srt/Delivery has its step relation.
--   Net/Continuity: what a decoder needs of the frames that reach it.
--   Net/Envelope, Net/Wire, Net/Base64: the access-unit envelope, the big-endian integers and the
--     base64 of the two transports, each against a reader.
--   Net/Fragment: the fragmenting loop of `sendAccessUnit` (src/net/srt_server.cpp), against a
--     receiver of the format that src/net/srt_server.h documents.
--   Core/Json: the value type of src/core/json.h. Core/Json/Parser is `Parser` and `Value::parse`,
--     Core/Json/Printer is `escape` and `Value::dump`. Bounds and Total are about its
--     fuel, Strings and RoundTrip about the parser behind the printer.
--   Prelude/Int, Prelude/Maps: the integers for an `int` that may be negative, and `std::map` as a
--     list in which a key occurs once.
--   Core/Double, Core/Double/Whole: what the program does with doubles as an interface, and a small
--     instance of it on which the tests evaluate.
--   Core/Json/Access: the readers of the JSON value, and of its members by key.
--   Core/Expression: src/core/expression.cpp. Finite, Trees and Slots are about its interpreter and
--     `paletteSlots`.
--   Core/Signal: src/core/signal.h and the frame, Core/Signal/Build `buildSignal`, Core/Signal/Beats
--     its binary search.
--   Core/Drivers: src/core/parameter_drivers.cpp: the drivers, in Pulse their events and envelopes and
--     in Lanes the lanes. Fires is about `driverFiresOn`, Pulse/Rounds and Pulse/Events are about the
--     envelope, Lanes/Merge and Lanes/Resolve about the two ends of the evaluation.
--   Core/Vec, Core/Palette, Core/Module: src/core/vec.h, src/core/palette.cpp and src/core/module.cpp, each
--     with a file on what it yields.
--   Net/Text, Net/Numbers: `std::string::find` and what it finds; `atoi`, `atoll` and `strtoul` as glibc
--     computes them.
--   Net/Sse: what `SseClient::run` does with the bytes of a connection. Net/Sse/Chunks compares its
--     loop with one that takes a byte at a time, Net/Sse/Events with a writer of events.
--   Net/Http: `Url::parse` and the decoding of a chunked body in `perform`. Net/Http/Chunked has a
--     writer of chunked bodies, Net/Http/Endless a size that wraps the cursor around.
--   Service/Options: the command line of src/service/options.cpp; the chain of its flags is a list of
--     branches, in which the first one whose flag is given is run. Sizes is about the sizes of what is
--     accepted, Lines about command lines written from settings.
--   Net/Config: src/net/config_client.cpp. Rotation is the themes and the rotation, Groups the settings
--     groups, Settings the settings and src/core/picture_effects.h, Refresh `refreshConfiguration`, and
--     Polls the other requests. Columns, Known, Keys, Errors and Kept below them are the proofs.
--   Net/HouseParty: src/net/house_party.cpp, and in Session the sessions of a run of the producer, a
--     sequence of passes with the engine's calls between them.
--
-- Conventions: text is a list of bytes, numbers are the native ℕ, and a machine integer keeps its
-- wrap-around as a remainder. A thread's critical section is one step; what the sockets do (which
-- sends succeed, when a client connects) is the choice of the step relation. A double is an abstract
-- type, with its operations and the printing and reading of its text as interfaces; an `int` that may be
-- negative is an integer without a bound, since its overflow is undefined, and a
-- narrowing conversion keeps its value. What a library or the network
-- answers is a parameter.
--
-- Fuel: `parse` runs on 2 * n + 2 rounds of `parse_value` for a text of n bytes, since each round
-- that does not consume a byte is followed by one that does. `send_access_unit` runs on one round for
-- each byte of the unit, since each fragment carries one at least, and one to leave the loop.
-- `drain` of Net/Sse runs on one round for each pending byte, since each line takes one at least.
-- `decode_chunks` of Net/Http runs on one round for each byte and one to leave the loop: a
-- round takes two bytes at least, unless its size wraps the cursor around.
-- `beat_search` of Core/Signal/Build runs on one round more than there are beats, since each round
-- makes the range shorter. `envelope_walk` of Core/Drivers/Pulse has the four rounds of the source's loop.
--
-- Not modelled: the GPU renderer, the encoder and the shaders (OpenGL, CUDA, libavcodec), the sockets
-- and threads themselves, the simulation of the scene (src/core/simulation.cpp), the engine that drives
-- it (src/service/engine.cpp), the snapshot channel (src/core/snapshot.h), the control server
-- (src/net/control_server.cpp), and the memory model of the atomics, which are taken as sequentially
-- consistent.

pub mod Prelude
pub mod Net
pub mod Core
pub mod Service
