-- ===== src/Lib.antt =====
--
-- maven is a gateway between chat channels and a language model. This library models the parts of it
-- that decide something: when scheduled jobs run, which session a message belongs to, which messages
-- are commands, and which are duplicates.
--
--   cron (internal/plugins/trigger/cron): Cron/Schedule is schedule.go, Cron/Job is types.go and
--     payload_validate.go, Cron/Service is service.go, and Cron/Tools is input.go and add.go. The
--     service is a record of the job list and of the JSON forms of jobs in the file, of which the text
--     is left out; each operation that holds the
--     mutex is one function on it. A run is `begin`, the turn itself, and `finish`; Cron/Runs puts the
--     operations into one step relation, so that checks, runs and tool calls may come in any order.
--     Cron/Firing, Cron/Finish, Cron/Delay, Cron/Restart and Cron/Quiet are about single operations,
--     a stop with a start, and sequences of steps.
--   session ids (internal/kernel/sessionid/sessionid.go): Sessionid has the ids, their print and their
--     parser; Sessionid/RoundTrip and Sessionid/Rotation are about reading prints back.
--   session router (internal/kernel/session): Session has the router with its file, the resolver, and
--     the store that skips isolated sessions. The resolver makes ids with Sessionid, and the store
--     parses them.
--   slash commands (internal/kernel/slash): Slash/Lexer and Slash/Parser are parse.go, Slash/Registry
--     is registry.go, and Slash/Dispatch is dispatch.go and preturn.go, which uses all three;
--     Slash/Listing has the list of commands and flags, and Slash/Plugins from_plugin.go.
--   commands and sessions (internal/kernel/agent/postaction/postaction.go): Postaction has what /new and
--     a compaction do to the route of a chat and to its seeded history.
--   pipeline (internal/kernel/pipeline): Pipeline/Turn is classify.go and turn.go, and Pipeline/Handle
--     is pipeline.go: `handle` takes an inbound message and the sessions to the sessions after it and
--     the list of what is done, in order. It composes Session, Slash, Turnctx, Postaction and Bus.
--     Pipeline/Reload is the exchange of the runtime between turns, as a step relation.
--   gateway (internal/gateway/apply.go, triggers.go): Gateway makes a configuration the running one,
--     with Channels/Manager and the triggers; Gateway/Applying is about all its branches.
--   plugin registry (internal/kernel/plugin/registry.go): Plugin has what plugins contribute.
--   channel manager (internal/kernel/channels/manager/manager.go) and allow list
--     (internal/kernel/channels/allowlist/matcher.go): Channels/Manager keeps the table of running
--     channels and the subscribers of Bus/Delivery; Channels/Allowlist.
--   telegram stream (internal/plugins/channel/telegram): Telegram/Card is card.go, Telegram/Stream is
--     stream_state.go with its messages, and Telegram/Stream/Events its events and the loop of
--     SendStream in stream.go; Telegram/Stream/Final is finalizeSend. An operation gives the state with the requests that it made.
--   voice pipeline (internal/kernel/voice): Voice/Sentences is sentence.go, Voice/Wake is wake.go, its
--     loop as a step relation, and Voice/Samples is the samples of transforms.go.
--   message bus (internal/kernel/bus): Bus/Messages is messages.go and routing.go; Bus/Queues is the
--     publishing, receiving and closing of bus.go as a step relation, in which other goroutines may
--     step between any two steps; Bus/Mailbox is its specification; Bus/Delivery is a round of
--     DispatchOutbound.
--   turn context (internal/kernel/turnctx/turn.go): Turnctx has the routing identity that a context
--     carries; Slash/Dispatch and Cron/Tools read it.
--   webhook caches (internal/kernel/channels/webhook/cache.go): Webhook.
--   voice activity detector (internal/kernel/voice/vad.go): Vad.
--   string truncation (internal/kernel/stringutil/truncate.go): Stringutil.
--   Base has the shared helpers: Boolean tests and lists over the native numbers, texts with what the
--     program uses of package strings, maps as association lists, decimal numbers, and results.
--
-- A valid UTF-8 text is the list of its code points; functions that walk bytes take lists of bytes.
-- Times are natural numbers, in milliseconds for cron and the telegram stream and nanoseconds
-- elsewhere, so that times before 1970 are left out. An int64 that is read from a text is checked for
-- its range, and a product that makes a time.Duration wraps in 64 bits; counters of times and lists are
-- not cut to 64 bits, since they stay far below that.
--
-- Fuel: the loop of ChunkBytes and the loop of Push run on the length of the text or of the buffer,
-- since each round takes at least one byte from it; the loop of TakeCompleteSentences runs on the
-- length of the text, since each round takes a character. All other loops are recursion on a list.
--
-- Parameters: package gronx (Gronx), package uuid, the clock and SHA-256 (Env), the tables of package
-- unicode beyond ASCII (Unicode), strings.EqualFold, time.ParseDuration (AddDuration), the
-- floating-point scores of the detector (Scoring), the handlers of slash commands, and the store behind
-- the one that skips isolated sessions. In the pipeline the agent runtime, the transports, and the
-- queue of the bus are fields of a World, which holds what one turn reads. For the telegram
-- stream, the answers of the service, the text of HTML and the summaries of inputs are fields of a
-- Responder. Whether a file can be written is a Boolean argument.
--
-- Not modelled: the transports of the channels, the calls of models and speech services, the reading
-- of configuration and the command line, logging, and the steps of the file system within a write.

mod Base
pub mod Stringutil
pub mod Sessionid
pub mod Cron
pub mod Session
pub mod Slash
pub mod Turnctx
pub mod Webhook
pub mod Vad
pub mod Bus
pub mod Postaction
pub mod Pipeline
pub mod Channels
pub mod Voice
pub mod Telegram
pub mod Gateway
pub mod Plugin
