-- ===== src/Lib.antt =====
-- Agentic Resident CRM: the dead-letter lane, the Kafka consumer and the claims of the packet
-- pipeline.
--
-- The program investigates packets of an enrolment pipeline that were rejected or that ended in a
-- dead-letter topic. Both are read by a consumer that commits offsets behind its workers
-- (src/utils/kafkaConsumer.py). A dead letter gets an id (src/dlt/identity.py), is claimed
-- (src/dlt/claims.py), counted with others of its trace (src/dlt/group_store.py), classified by
-- its stack trace (src/dlt/classify.py), which is checked against the logs
-- (src/dlt/corroborate.py), served a cached finding or investigated (src/dlt/reuse.py), and its
-- finding's confidence is cut to its evidence (src/models/dlt_synthesis.py). A precheck asks the
-- source repository whether the code changed since (src/dlt/code_check.py), comparing versions
-- (src/dlt/versions.py). The replay gate then decides (src/dlt/auto_replay.py), and a packet that
-- only waits for a deploy is parked and released later (src/dlt/parked.py). Packets of the
-- rejection lane are claimed too (src/utils/packet_claims.py), and operators judge what was
-- concluded (src/utils/outcomes.py). All of it keeps JSON documents in one storage
-- (src/storage/base.py).
--
-- Files and code:
--   Prelude, Prelude/: names shared by all, Boolean tests, equality, lists, texts, dictionaries.
--   Floats: what the program uses of floats, as a record of operations, with the order laws that
--     floats without NaN satisfy as a named hypothesis.
--   Storage, Storage/Laws: the storage contract; a Disk is its documents and the faults to come,
--     a fault being a call that raises, before or after its write was applied.
--   Dlt/Versions, Dlt/Versions/: version_of, parse, compare, at_least, is_ahead, lowest.
--   Dlt/Findings: the enumerations and DltFinding.
--   Dlt/Confidence: apply_dlt_confidence_policy, with the ceilings as a record.
--   Dlt/AutoReplay: decide, _code_check_veto, attempt, maybe_replay; the calls that reach the tool
--     queue_for_replay are threaded through as a list.
--   Dlt/Classify: extract_business_code, _lookup_class, _catalog_class, classify.
--   Dlt/CodeCheck: FrameLocation, _probe_path, _first_containing_version, _evaluate; the reads of
--     src/dlt/bitbucket.py are the record Bitbucket.
--   Dlt/Parked: park, maybe_park, list_parked, release_ready.
--   Dlt/Claims: claim_case, holder_of.
--   Dlt/Reuse: decide, has_usable_recommendation, describes_one_occurrence.
--   Dlt/Corroborate: _scan_lines, corroborate; Prelude/Regex has the matchers for their patterns.
--   Dlt/Window: _select_anchor, derive_window, the look-back of to_time_window.
--   Dlt/Identity: sanitise, derive_case_id, storage_key; the digest is a parameter.
--   Dlt/Groups: record_occurrence, attach_recommendation, attach_code_check, _read_all, load_group.
--   Utils/Consumer: OffsetTracker (Tracker, on the sets of Sets), _handle_one_message,
--     _process_and_commit and _dlq_and_abandon as lists of effects (Messages), the commits and the
--     rebalance listener (State), the roles' rules (Adapters, src/utils/message_adapters.py), the
--     poll loop and its workers (Loop). A run is a list of moves: one effect of the loop's thread or
--     of a worker, a dispatch, a drain, a fetch, a rebalance. What the broker, the endpoint, the
--     pool and the dead-letter queue answer is in the moves. Cycle gives the moves of
--     _dispatch_backlog and _poll_once in their order; a message has at most four effects, so five
--     moves of the thread see it through, and the dispatch loop takes a turn for each message.
--   Utils/PacketClaims: claim_packet, as the reading of the claim (look) and its overwrite (finish),
--     which other deliveries may come between.
--   Utils/Outcomes: record_outcome, for_service, summarise, summarise_shadow.
--   Examples.antt in each: the code at concrete inputs.
-- A function of the source that reads the environment takes a record of settings; one that reads
-- the clock takes the time, in seconds, as a natural number. A difference of times that would be
-- negative is zero, which no comparison with a time to live tells apart. Log lines and metrics are
-- left out; a message built for a reader is a constructor that carries what it quotes.
--
-- Every loop of the source but the consumer's goes over a list that is there before it starts, so
-- the functions are structural recursions, and a run of the consumer is any finite list of moves.
-- There is fuel in two places: the decimal digits of a number take one more than the number
-- (Dlt/Identity/Digits), a repetition or a search of a pattern as much as the text has characters,
-- each step of which takes one at least (Prelude/Regex). There is no bound of the model's own;
-- integers are Python's, without width.
--
-- Not modelled: the storage backends, the Kafka client and the producers, the consumer's heartbeat
-- and its pausing of partitions, HTTP routes, the agents and their prompts, the log pipeline, trace
-- and payload parsing, the caches of the group store, configuration files, tracing: I/O, calls of a
-- language model, and parsers of outside formats, whose results the modelled parts take as
-- arguments. Regular expressions of the modelled code are written out as functions on ASCII text.
pub mod Prelude
pub mod Floats
pub mod Storage
pub mod Dlt
pub mod Utils
