-- ===== src/Lib.antt =====
-- The core of Underpass Choreographer: ceremonies, their journal, the store that keeps them, the loop
-- that runs them, the outbox that tells of them, and deliberations. Paths below start at
-- crates/choreo-core/src, where they do not name another crate.
--
-- A ceremony is described by a definition, a graph of states with steps, guards and roles, which a
-- constructor validates. An instance executes it: steps are leased, started and completed, humans
-- approve guards, participants are asked and answer on an agenda, reasons join what happened, and
-- transitions move the instance until a terminal state. Facts about it are sealed in a journal in
-- which each record carries the digest of the one before. A store commits an instance, its facts and its
-- messages in one step, against the revision that the instance was read at; publishing rounds claim
-- the messages and deliver them. Beside them stand deliberations: proposals
-- that are revised, judged and ranked.
--
--   Shared            error.rs, and what the parts share: texts and `str::trim`, lists, `BTreeMap` as
--                     an association list in the order of its keys (Shared.Map), `Result`
--                     (Shared.Result), and methods on `&mut self` as state passing that keeps what was
--                     written before an early return (Shared.Action)
--   Ceremony          value_objects/attributes.rs, value_objects/ceremony and the ceremony entities:
--     Attributes, Content, Evidence   validated contents
--     Step            leases, attempts, results and step records
--     Guard           guard conditions, role actions, the context
--     Definition      entities/ceremony_definition.rs and ceremony_definition_analysis.rs: the data
--                     and its lookups (Data), the findings (Analysis), the walks of the graph
--                     (Reachability), the constructor (New), what a well-formed definition is
--                     (WellFormed), and proofs (Validate, Lookup, Built, Reached, Finishing)
--     Intervention    entities/ceremony_intervention.rs: the items of the agenda
--     Reason          value_objects/ceremony/ceremony_reason.rs and its kinds
--     Instance        entities/ceremony_instance.rs: the aggregate (Data), its methods under their own
--                     names (Steps, Guards, Agenda, Reasons, Moves), all of them as one type of
--                     commands (Commands), and proofs on every command and every list of commands
--                     (Atomic, Placement, Terminal, Turns, Leases, Held, Exclusion, Approvals)
--   Audit             entities/audit_record.rs and entities/audit_chain.rs with value_objects/audit: the
--                     bytes of a record (Bytes), records (Record), the verifier (Chain), and proofs
--                     (Encoding, Tamper)
--   Deliberation      entities/deliberation.rs with entities/proposal.rs and entities/validation.rs: its
--                     operations (Data), what they keep to (Phases, Ranking), maps that cover each other
--                     (Cover), the choice of a winner by crates/choreo-app/src/usecases/
--                     winner_selection.rs (Selection), and proofs on it (Named, Winner)
--   Store             crates/choreo-adapters/src/memory/ceremony_store.rs, with what it keeps
--                     (entities/ceremony_commit.rs, value_objects/outbox; Data): its operations on
--                     sessions and journals (Operations) and on messages (Outbox), all of them as one
--                     type of requests (Requests), and proofs on every list of requests (Entries,
--                     Sealing, Journals, Later, Revisions, Claiming, Taking, Holding)
--   Services          crates/choreo-app/src/services: session_journal.rs (Journal), session_facts.rs
--                     (Facts)
--   Publishing        crates/choreo-app/src/usecases/publish_outbox_use_case.rs: a round (Round), and
--                     proofs (Backlog, Draining, Accounts)
--   Running           crates/choreo-app/src/usecases/run_ceremony_use_case.rs: its data (Data), what it
--                     works out between its commits (Preparing), the loop (Driver), and proofs (Kept,
--                     Finished, Telling)
--   UseCases          crates/choreo-app/src/usecases/apply_ceremony_transition_use_case.rs (Transition)
--                     with what storing leaves (Storing) and its proof (Landing)
--   Tests             the theorems at concrete definitions, sessions and journals
--
-- Numbers. A u32 or u64 is a natural number, and saturating addition is written out with the largest
-- value of its type. Moments are natural numbers of nanoseconds. Positions in the agenda and in the
-- history are list positions.
--
-- Fuel. The walk forward over the graph is given two rounds more than there are transitions: a round
-- takes one pending state, and each transition makes its target pending once. The walk backward is
-- given one pass more than there are transitions: a pass that adds no source of a transition is the
-- last. The loop that runs a ceremony has the source's own limit of iterations.
--
-- Concurrency. The store holds one lock during each operation, so each is a function of the store, and
-- what several clients do is a list of requests in the order of the lock. A session is loaded in two
-- operations, so its load takes two stores. A run of a ceremony meets changes by other clients while
-- its handlers work, which act on the store.
--
-- Parameters. serde_json values (`Json`: the Boolean constructor and reader), serde_json::to_value, the
-- last moment of OffsetDateTime, and for the journal `Platform`: the bytes of a text and of a rendered
-- moment, which tell texts and moments apart, and SHA-256, of which nothing is assumed. A deliberation
-- takes the order of its scores (`ScoreOrder`), for which the source compares f64. Publishing takes the
-- transport, running takes the clock, the handlers, the definition repository and when the transcript
-- store fails, and both the rendering of a number in a text. What the transcript store holds of a
-- ceremony is what it held before and what the run appends.
--
-- Not modelled: identifiers and names are texts without the checks of their constructors, but for the
-- identity of a fact; display and serialisation, beside the canonical bytes of a journal record; the
-- digest of a definition; the metrics of a run; the other
-- use cases, the other adapters, and the servers.
pub mod Shared
pub mod Ceremony
pub mod Audit
pub mod Deliberation
pub mod Store
pub mod Services
pub mod Publishing
pub mod Running
pub mod UseCases
pub mod Tests
