-- ===== src/Lib.antt =====
-- Barista Apps lets portable agent apps run on any provider of one Host API. An app comes with a
-- manifest that says which actions it and its child sessions may take; the Factory app runs a
-- mission of tasks, each in a worker session; the local provider keeps sessions, operations, events
-- and artifacts in a store and drives a node. The Factory reaches the provider through the SDK.
--
-- Manifest models contracts/app-manifest/v1alpha1/rules.py: `normalize`, `check_manifest` and
-- `_check_no_duplicate_scope`, with a violation's rule and the actions that it
-- names in place of its message.
--
-- Mission models apps/factory/barista_app_factory/mission.py: `Mission.load` with
-- `_enforce_budget`, `_enforce_graph` and `_enforce_gates`. The schema's validator, of a package, is
-- a parameter. The depth-first search runs on fuel, `search_fuel`, which counts nodes and edges:
-- every step marks a node or takes an edge, and none is taken twice.
--
-- Factory models the rest of the coordinator, in the same directory. Factory/State is state.py, with
-- the file's document as a record of options, whose conversion to JSON and back is left out.
-- Factory/Grants is grants.py and Factory/Credential is
-- credential.py, in whole seconds with margins in tenths of a second. Host, Graph, Pool, Worker and
-- Coordinator are coordinator.py: a method is a function from the coordinator to an answer or a
-- fault and the coordinator after it, and the calls of the provider, of the file transfer
-- (transfer.py) and of the credential keeper are fields of a record over the states of the world.
-- These calls leave out the metadata of a session, and the size, type and digest of an artifact,
-- which are functions of its content. Numbers in idempotency keys are spelled on fuel, one more than
-- the number, which has no more digits. The texts of faults are those that the world gives. A
-- failed deletion is ignored for every fault, as all of those are SDK errors. Pool is the inner loop
-- of `_schedule`, with a round for each free slot; the outer loop, which waits for threads, the
-- ticker thread and `_notify` are not modelled.
--
-- Factory/Plan is `FeaturePlan.parse_bytes` of product_program.py in the same directory, with UTF-8 and
-- JSON, the canonical bytes and the search for secrets as parameters. Its search for cycles runs on
-- fuel, one more than the nodes: the path of a search has no node twice.
--
-- Provider models providers/local/barista_local_provider. Provider/Rows and Provider/Store are
-- store.py, a table a list of rows and a method one transaction, the clock and random identifiers
-- arguments; times and cursors are numbers, and JSON columns that the store does not read are texts.
-- Provider/Node is node/client.py, node/fake.py and capabilities.py. Handlers, Operations and
-- Artifacts are app.py and errors.py, each handler a step from a store and a node to a response and
-- both after it; bodies are parsed documents, and replies keep the rows that the program renders.
-- Interleavings of handlers at their awaits, the texts of messages, JSON and HTTP are not modelled.
--
-- Sdk models two files of sdks/python/barista_app_sdk. Sdk/Json, Names, Runs and Validate are runs.py:
-- a document is a tree of JSON values, freezing changes none of them, and of a refusal the field or
-- the names are kept, not the message. Sdk/Lifecycle and Sdk/Collect are lifecycle.py: a function
-- from a state of the world to an answer or a fault and the state after it. The client, the clock,
-- the hash, base64, JSON and the JSON Schema validator are parameters. The loops that wait run on
-- fuel, and one more round than the timeout has ticks is enough.
--
-- Demo models integrations/github-factory-demo/barista_github_factory_demo/store.py, `DeliveryStore`,
-- each table a list of rows and each method a step, with the clock an argument. Demo/Deliveries and
-- Answers are the claims of webhooks and the answers to questions; Programs, Features and Journeys
-- are a program from its document over its plan to its acceptance; Activities, Deployments and
-- Projections are what is shown and deployed. JSON columns are the fields that the store reads. The
-- migrations, the rendering of rows and the lists for display are not modelled.
--
-- The lemmas stand in modules below the part that they are about, and each part's Samples runs its
-- code on concrete data. Prelude holds Boolean tests, lists, dictionaries, tables, texts, results and
-- the computations over a state that may raise. The rest of the SDK and of the demo, the agent
-- adapters, the other delivery programs and the conformance suite are not modelled.
pub mod Prelude
pub mod Manifest
pub mod Mission
pub mod Factory
pub mod Provider
pub mod Sdk
pub mod Demo
