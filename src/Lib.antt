-- ===== src/Lib.antt =====
-- A verification library of the palancar monorepo: glasses record speech, a client streams it to a
-- relay, and the relay's translation and suggestions come back to the display. The library models the
-- parts of that path which keep state, and states what makes each of them correct.
--
-- Paths below are from the root of the repository.
--
--   Base        The helpers that all modules share: Boolean tests on native numbers, lists and their
--               indexing, JavaScript strings as lists of UTF-16 code units, a `Map` as an association
--               list in the order of insertion, and a JavaScript value of unknown type.
--   Contracts   packages/contracts/src: the constants, the UUID pattern of schemas.ts as a list of
--               character classes, and `encodeAudioFrame` and `decodeAudioFrame` of audio.ts, byte by byte.
--   Languages   packages/language-registry/src: the two built-in languages and the look-ups of
--               registry.ts; Languages/Evidence checks the evidence of classifier.ts, and Languages/Gate is
--               `evaluateLanguageGate` of gate.ts.
--   Audio       packages/audio/src. Audio/Framer is `PcmChunkFramer` of pcm.ts, which cuts bytes of any
--               callback size into payloads; Audio/Queue is `ClientRetainedAudioQueue` of
--               client-queue.ts, which encodes the payloads as frames, keeps them until they are
--               acknowledged and refuses what exceeds its limits. `create`, `push`, `flush`, `acknowledge`,
--               `replay` and `reset` are the methods of these names. The queue calls the framer and
--               the codec; what they throw is a value of `Result`.
--               Audio/Acceptor is `RelayOrderedFrameAcceptor` of relay.ts, and Audio/Delivery sends
--               the queue's frames to it through the codec. Audio/Slots is the array with a head that
--               both classes keep.
--   Security    packages/security-state/src/audio-meter.ts: Security/AudioMeter is `AudioGrantMeter`, which
--               charges ranges of samples against a grant that expires. The injected clock is an
--               argument of each call: what it returns, that it throws, or that it calls the meter back.
--   Relay       apps/relay/src/security-cache.ts: Relay/SecurityCache/Bounded is `BoundedSecurityCache`,
--               a `Map` with a capacity, and Relay/SecurityCache/Denials is `RelaySecurityCache`, which
--               remembers revocations and promotions. Denials/Ledger is its specification, a record
--               of denials without a bound.
--   Client      apps/g2-client/src/state/index.ts: Client/State is `reduceClientState`, a function of a
--               state and an event to a state and effects. Its children hold the types, the checks of
--               run-time values (Guards), the helpers on sessions (Sessions), and the cases: Enrollment,
--               Auth, Turns, Readiness, Transcript, Outcomes.
--               Client/Display/Scheduler is `SerializedLatestUpdateScheduler` of
--               apps/g2-client/src/display/scheduler.ts. A step is a call of a method, a timer that
--               fires or a promise callback that runs; the promises it returns are numbered.
--   Tools       tools/realtime-spike/src/wer.ts: Tools/WordErrorRate is `computeWordErrorRate`, the table of
--               edits between two lists of words.
--
-- State is passed explicitly: a method is a function from the object to the object and the result. An
-- error that the code throws or returns is a constructor of a result type. Numbers are natural numbers
-- where the code has checked them, and values of `Base.Values` where it has not.
--
-- Loops are structural but for three. The loop that cuts payloads (Audio/Framer, `cut`) has one round of fuel
-- for each byte, and each round consumes at least two; the loop that looks for a frame (Audio/Queue/Replay,
-- `seek`) has one for each slot, and each round passes a slot; the loop that evicts fingerprints
-- (Audio/Acceptor, `evict_loop`) has one for each slot of its queue, and each round empties one.
--
-- Not modelled: copies and freezes of arrays and objects, which the models have no aliases to observe;
-- the `state` getters of the queue and the acceptor; the check that an event of the client is a plain object with exactly the
-- keys of its type; products of a fractional target in floating point,
-- which are exact fractions here; the resampler, the stores, the
-- sessions of relay and transcription, and the glue to devices, sockets and services. In
-- `reduceClientState` an object that is indexed by a segment's id yields an inherited method for names such as
-- `constructor`; it compares as a missing entry does, and is one here. The limits of the client's queue and
-- the capacity of the relay's cache are integers here; the code refuses any other number.
pub mod Base
pub mod Contracts
pub mod Languages
pub mod Audio
pub mod Security
pub mod Relay
pub mod Client
pub mod Tools
