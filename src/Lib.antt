-- ===== src/Lib.antt =====
-- A verification library of the platform's backend: the publication jobs and their machine
-- callbacks, the lifecycle of content rows, the validation of the Atlas and the activation of its
-- versions, the signed preview tokens, the validation of uploads, and the recovery codes of the
-- second factor. The rest of the repository is not modelled; what the modelled parts take from it
-- is a field or an argument of the definitions.
--
-- The parts and how they interact. Editors move content rows through a lifecycle
-- (apps/content/services/lifecycle.py). A row that is published or archived enqueues a publication
-- job (apps/rebuild/services.py), which carries the pages to rebuild and the pages to deny. A build
-- runner asks for a job and reports its results over two HTTP endpoints (apps/rebuild/views.py)
-- behind a signed-request check with single-use nonces. The Atlas is a graph of nodes and relations
-- whose nodes refer to content records (apps/atlas/canonical.py). Its validation
-- (apps/atlas/validation.py) reports the defects of its rows and the cycles of its hierarchy, and
-- checks a payload before it is served; a version of it is published by activation
-- (apps/atlas/services.py). Drafts are shown under signed tokens (apps/content/preview_token.py,
-- apps/atlas/preview_tokens.py).
--
-- The files:
--   Prelude            shared names; Tests, Results, Lists, Text, Decimal hold the Python idioms that
--                      the program uses: `list(dict.fromkeys(l))` is dedup, `sorted(l)` is sort_by,
--                      `s.strip()`, `int(s)`, `str(n)`; Split is `s.split(c)`, Groups is
--                      `table.setdefault(k, []).append(v)`, Filtered is `[f(x) for x in l if p(x)]`,
--                      and Json holds JSON values and floating-point numbers
--   Rebuild/Models     apps/rebuild/models.py: PublicationJob, its states, to_dict
--   Rebuild/Paths      apps/rebuild/services.py: compute_affected_paths, compute_revoked_paths
--   Rebuild/Jobs       apps/rebuild/services.py: enqueue_publication_job, enqueue_content_invalidation,
--                      record_job_result. The table is a list of rows; `dispatched` lists the jobs whose
--                      build was handed to `transaction.on_commit`. Steps, Claims, Enqueue, Validity and
--                      Replay hold the proofs; Claims also has the histories of calls, and Refinement
--                      the specification that a history implements
--   Rebuild/Auth       apps/rebuild/services.py: get_publication_machine_secret, sign_machine_request,
--                      validate_machine_request; Auth/Views has the two endpoints of
--                      apps/rebuild/views.py
--   Content/Lifecycle  apps/content/services/lifecycle.py: transition_item and its side effects;
--                      Lifecycle/Bulk has bulk_archive_items. The rows of one model, the audit log, the
--                      snapshots (apps/content/published.py) and the job table are one Store
--   Atlas/Issues       apps/atlas/validation.py: the issue codes, their message tokens, Issue, _sort_key
--   Atlas/Hierarchy    apps/atlas/validation.py: _witness_walk and hierarchy_rule_issues. Walks has the
--                      specification of a cycle; Search, Witness, Arcs, Keys and Gate hold the
--                      proofs
--   Atlas/Graph        apps/atlas/models.py: the rows of a version, with the columns that the rules read
--   Atlas/Relations    apps/atlas/validation.py: relation_rule_issues, validate_relations. Rules states
--                      the rules by themselves, Clashes and Naming say when two relations are one, Gate
--                      has what is reported
--   Atlas/Gates        apps/atlas/validation.py: validate_visibility, validate_taxonomy, validate_layout,
--                      validate_pins; Pins and Verdicts hold the proofs
--   Atlas/Canonical    apps/atlas/canonical.py: resolve_canonical
--   Atlas/Projection   apps/atlas/validation.py: canonical_facts, validate_locale_projection,
--                      validate_canonical_refs; Lookup, Sharing and Gaps hold the proofs
--   Atlas/Keys         apps/atlas/keys.py, apps/atlas/models.py: the grammar of public keys
--   Atlas/Payload      apps/atlas/validation.py: validate_payload_contract; Collections, Contract, Served
--                      and Unhashable hold the proofs
--   Atlas/Versions     apps/atlas/services.py: activate_version, with the constraint that one version is
--                      active (apps/atlas/models.py). The report of validate_version is an argument, a
--                      function from a version to its blocking issues. Archiving and Activation hold the
--                      proofs
--   Preview/Share      apps/content/preview_token.py: build_preview_token, parse_preview_token; Message
--                      has the signed text, Laws the verdicts
--   Preview/Capability apps/atlas/preview_tokens.py: the capability of the Atlas preview
--   Media/Upload       apps/media/sniff.py, apps/media/validators.py: sniff_mime, validate_file_type,
--                      validate_file_size; Accepted holds the proofs
--   Security/Recovery  apps/security/recovery.py: issuing, using and purging recovery codes; Use and
--                      Issue hold the proofs
--   */Examples         the theorems at concrete inputs
--
-- Conventions. Primary keys, UUIDs and times are natural numbers; a time is a number of clock
-- ticks. The clock, fresh identifiers, the time zone and the ISO spelling of an instant are
-- arguments. A row lock serialises concurrent calls, so a concurrent run is a list of calls in some
-- order. A raised error ends the caller's transaction, so a failed call has no new store.
--
-- Loops and fuel. The loops over lists are structural. The breadth-first search runs on fuel, one
-- more than the number of nodes: each round takes a node off the queue, and each node enters the queue
-- at most once, so the queue is empty before the fuel is. The walk back from the
-- goal runs on the number of visited nodes. The loop that draws recovery codes runs on the list of
-- random tokens that it draws; the theorem on it assumes that n different ones are among them.
--
-- Outside the model. HMAC-SHA256, SHA-256 and the password hashers are arguments. Of the digest some
-- theorems assume what its hexadecimal text is: ASCII, not empty, without a dot and without a slash.
-- Of SHA-256, the hashers, `filetype.guess` and `os.path.splitext` nothing is assumed, and nothing of
-- the Unicode tables that normalize a typed recovery code. What `full_clean` says of the other fields
-- of a project is a field of its row. The message texts of responses, the audit log's write errors,
-- JSON parsing and the shell command that builds the site are left out; the fields of a callback's
-- body are texts or null. Elsewhere ASCII is the domain of `lower`, `upper` and `int`; `isdigit` is
-- read on Latin-1, and the limit of `int` on the number of digits is left out. The column lengths of
-- the database are not modelled. Of the Atlas's validation the warnings, the merged report of
-- validate_version and the layout engine are not modelled.
pub mod Atlas
pub mod Content
pub mod Media
pub mod Prelude
pub mod Preview
pub mod Rebuild
pub mod Security
