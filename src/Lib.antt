-- ===== src/Lib.antt =====
-- UCF turns specifications of behavior into governed documents. This library models five of its parts:
-- the semantic checks of a behavior document, the baseline ratchet, which keeps accepted rule violations
-- from growing, the dispatcher that runs the session of a language adapter, the registry of
-- specification files with the composition of use cases, and the sample service that the specifications
-- describe.
--
-- The behavior document. Its entities (actions, use cases, steps, bindings, effects and others) refer to
-- each other by kind and identifier. The checks index the entities and resolve every reference.
--   Ir.antt                  records that all parts share: src/ucf/ir/models.py, src/ucf/ir/trust_models.py
--   Ir/Document.antt         the entities and values of src/ucf/ir/models.py
--   Ir/Errors.antt           src/ucf/ir/errors.py
--   Ir/Validation.antt       src/ucf/ir/validation.py from `_build_index` to `validate_ir_value`; its children
--                            say what these accept (Refs, Values, Index) and raise (Failures)
--   Ir/Semantics.antt        from `_step_action` to `validate_ir_semantics`; its children treat ports and
--                            bindings (Ports, Bindings), the documents accepted (WellFormed), their bindings
--                            (Typing) and what is raised (Failures)
--   Ir/Capabilities.antt     `_version_tuple` and `validate_required_capabilities`; its children treat the
--                            digits that int reads (Limits) and relate the versions to those of the adapter
--                            protocol (Versions)
--   Ir/Sample.antt, Ir/Tests.antt  a concrete document and the theorems at it
--
-- A check returns `ok tt` or what Python raises: an IRValidationError with its code and location, the
-- KeyError of a lookup, an AssertionError, or the ValueError of an int of more digits than CPython reads,
-- 4300 unless it is told otherwise.
--
-- The ratchet. A policy names rules. An assessment lists, for one policy and one onboarding bundle, the
-- behavior subjects, the coverage of each rule and the violations found. A baseline records which
-- violations are allowed and which are protected against, that is, were resolved once and must not
-- return. An evaluation compares an assessment with the accepted baseline and classifies each violation;
-- a passing one may advance the baseline to its successor. Each document carries an identity that is the
-- digest of its content, and is checked on every use.
--   Ratchet/Models.antt     the documents: src/ucf/ratchet/models.py, and the records of
--                           src/ucf/onboarding/models.py that they hold; their `==` is in
--                           Ratchet/Equality.antt
--   Ratchet/Identity.antt   identities, references, errors: src/ucf/ratchet/identity.py, references.py, errors.py
--   Ratchet/Validation.antt policies, assessments and baselines alone: src/ucf/ratchet/validation.py; its
--                           children say what the checks accept
--   Ratchet/Evaluation.antt `evaluate_ratchet`: src/ucf/ratchet/evaluation.py; its children state the report
--                           without the dicts and loops of the code (Changes, Classes, Accepted), when a
--                           violation is tolerated (Tolerated), the outcome (Outcome), the size of
--                           a report (Bounds) and what a passing
--                           report keeps and resolves (Passing)
--   Ratchet/Report.antt     the checks of a report: `validate_ratchet_evaluation_report` and
--                           `validate_ratchet_evaluation_report_structure` of src/ucf/ratchet/validation.py
--   Ratchet/Baseline.antt   `establish_ratchet_baseline` and `advance_ratchet_baseline` of
--                           src/ucf/ratchet/baseline.py, and the checks of an initial and a successor baseline;
--                           its children say when they return and what (Establish, Successor, Advance), and
--                           follow any number of advances (History)
--   Ratchet/Sample.antt, Ratchet/Tests.antt  concrete documents and the theorems at them
--
-- A check is a function into `Result RatchetFailure Unit`, which is `ok tt` where the code returns and
-- `err` with the code and the location of the error where it raises; messages are left out. The failures
-- of pydantic's models, of a dict and of an attribute are failures of their own. A dict is an association
-- list in the order of insertion, a set a list without repetitions, `sorted` an insertion sort with the
-- order of Python's texts and tuples (the code points of the characters). All loops are over lists, so
-- that there is no fuel. The model dump of pydantic, the canonical JSON and SHA-256 are the operations of
-- the record `Hashing`; its only laws are that a dump without `id` does not depend on `id`. No theorem
-- supposes that digests differ where documents do. A field whose type is a literal with one value is left
-- out.
--
-- The adapter. A client and an adapter speak a request protocol: initialize negotiates capabilities,
-- operations run in the handler of the adapter, a notification cancels a pending one, and shutdown ends the
-- session.
--   Adapter/Models.antt      messages and codes: src/ucf/adapter_protocol/models.py, errors.py
--   Adapter/Versioning.antt  src/ucf/adapter_protocol/versioning.py
--   Adapter/Dispatcher.antt  class AdapterDispatcher of src/ucf/adapter_protocol/dispatcher.py; its children
--                            treat one call (Lifecycle), the negotiation (Negotiation), all sequences of
--                            events (Session, Replay) and an operation from its call to its answer
--                            (Cancellation)
--   Adapter/Sample.antt, Adapter/Tests.antt  a concrete session and the theorems at it
--
-- The dispatcher is a record passed from call to call. No body of its lock awaits, so that a coroutine runs
-- undisturbed up to the call of the handler and again from its return: `begin` is the first part of
-- `dispatch`, `finish` the second, `cancel` the notification. The relation Step has these three as its
-- events, with any outcome of the handler, and Session is any sequence of them.
--
-- The specifications. A registry holds the files by kind and name and resolves references to them; a use
-- case may extend another, and is composed with its ancestors.
--   Specs/Models.antt        src/ucf/models: the records of the files
--   Specs/Registry.antt      class SpecRegistry of src/ucf/parser/registry.py; its children treat the references
--                            as keys (Keys), lookups (Lookup), registrations (Refines) and tolerant loading,
--                            with its entries and errors (Tolerant, Reports, Paths)
--   Specs/Loading.antt       where files are registered: `create_app` of src/ucf/web/app.py and `_load_registry` of
--                            src/ucf/cli.py, from what the loader returns
--   Specs/Composition.antt   src/ucf/composition.py; its children treat one call (Parents), say what it returns
--                            (Lineage) and that it ends (Fuel)
--   Specs/Sample.antt, Specs/Tests.antt  concrete specifications and the theorems at them
--
-- The two indexes of the registry are association lists, and a path is its text. The chain of a composed
-- use case goes from the use case up to its first ancestor, the reverse of the order that
-- specs/actions/resolve-uc-extends.yaml gives. The recursion of
-- `resolve_extends` runs on fuel, one more than there are specs in the registry: each call goes on to a
-- spec of the registry whose name the chain does not have yet. Python's own limit on the depth of calls
-- is left out.
--
-- The sample service shortens URLs in memory.
--   Shortener.antt           class URLShortener of src/ucf/shortener/url_service.py; its children relate it to a map
--                            (Laws), bound its identifiers and counts (Bounds), account for batches of deletions
--                            (Batch) and run it (Tests)
--
-- Times are of any type, given with the call that reads the clock, and the random choice of letters and
-- digits is an argument. A call that raises leaves the state as it was.
--
-- Not modelled: the projection of an onboarding bundle to subjects (src/ucf/ratchet/projection.py; the checks
-- take its result with the digest and the status of the bundle as one argument), the building of an
-- assessment (src/ucf/ratchet/assessment.py), the second version of the ratchet (src/ucf/ratchet/v2), JSON codecs,
-- the process and stream side of the adapter protocol, the trust documents of src/ucf/ir, the loading of
-- specification files (src/ucf/parser/loader.py) and the listings of the registry, and the other packages of
-- src/ucf.
pub mod Prelude
pub mod Ir
pub mod Ratchet
pub mod Adapter
pub mod Specs
pub mod Shortener
