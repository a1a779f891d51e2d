-- ===== src/Lib.antt =====
-- Verification of the core of weiquan-agent, an assistant for consumer and labour rights that
-- answers by rules: the quotas of its callers, the executor that bounds its work, the playbooks
-- that decide a case, the anonymous trial, the accounts of registered users, the attachments of
-- their cases, the deletion of consultations, the names of jurisdictions, and the health of the
-- model providers.
--
-- The parts and the code they model (paths from the repository's root):
--   Prelude          shared names, Boolean tests, lists over native numbers, results of code that raises
--   Dict             Python's dict and OrderedDict as association lists in insertion order
--   Quota            the records of app/limits/quota.py
--   Quota/Store      InMemoryQuotaStore of app/limits/reservations.py: reserve, transition,
--                    get_reservation, bucket_count, recover_stale
--   Quota/Service    QuotaService there: the buckets of a trial or registered caller, reserve, succeed,
--                    refund, recover_stale, trial_status, registered_status
--   Quota/Controller QuotaCallController there, the quota of one call
--   Executor         BoundedExecutor of app/execution/bounded.py: its counters and time limits
--   Executor/Steps   the interleavings of its calls, one step for each await point of `run`
--   Playbook         values, slots and conditions of app/playbooks/schema.py
--   Playbook/Slots   normalize_slot_value and validate_facts
--   Playbook/Evaluator  evaluate_condition of app/playbooks/evaluator.py
--   Playbook/Rules   rules, verdicts, evaluate_playbook, matching_escalations and, in Contract,
--                    validate_contract
--   Trial/Identity   InMemoryTrialIdentityStore of app/trial/identity.py
--   Trial/Manager    TrialIdentityManager there, with app/security/network.py
--   Trial/Conversations  InMemoryTrialConversationStore of app/trial/conversations.py
--   Health           InMemoryProviderHealthStore of app/providers/health.py
--   Health/Monitor   ProviderHealthService of app/health/service.py
--   Auth             the records of app/auth/models.py and the state of InMemoryAuthStore, app/auth/store.py
--   Auth/Store       its accounts: register_pending, create_verified_user, disable_user, the capacity
--   Auth/Tokens      its one-time tokens and passwords
--   Auth/Sessions    its sessions, policy acceptances and rate limits
--   Auth/Calls       histories of calls to the store
--   Attachments      the records of app/attachments/models.py and AttachmentRecord of app/db/models.py
--   Attachments/Checks   the validators of an attachment record
--   Attachments/Table    SQL statements on the table of attachments, and transactions
--   Attachments/Drafts   AttachmentStore of app/attachments/store.py, from upload to confirmation
--   Attachments/Expiry   its purge of expired drafts and its end to stale processing
--   Attachments/Reservations  its reservations
--   Attachments/Binding  _bind_reserved_attachments of app/db/session.py and its callers in the store
--   Attachments/Lifecycle  what an attachment is to its owner, as phases and the moves of each kind of call
--   Attachments/Writes   what a property has to admit so that every operation keeps it
--   Jurisdiction     the bundle of app/jurisdiction/schema.py and the registry of app/jurisdiction/rules.py
--   Deletion         DeletionService of app/deletion/service.py over the interfaces that it calls
-- How they interact: the service computes buckets and calls the store, the controller keeps the
-- reservation of one call and calls the service; the evaluator validates facts by the slots and
-- then runs the rules; the manager calls the identity store; the health
-- service calls the store of results. The conversation store uses the
-- comparison of app/agent/progression.py as an operation of its Platform record. The deletion
-- service calls a repository, an encryptor and an object store through one interface, Remote.
--
-- State and errors. A method is a function from the object's state to a result and the state, since
-- what was written before a raise stays written; a method that holds the object's lock is one step.
-- Clock readings, uuid4 and random tokens are arguments. Times are natural numbers of microseconds;
-- a datetime without a zone is a value of its own. Python's int and float, text stripping, the
-- calendar, uuid, ipaddress and hmac are parameters, with laws only where a theorem names them.
--
-- Bounds and fuel. Every loop is structural recursion over the list that the code iterates, so no
-- definition takes fuel. Counters that the code may push below zero are integers of their own.
--
-- Not modelled: the stores on SQL (PostgresQuotaStore, PostgresTrialIdentityStore, PostgresAuthStore,
-- PostgresProviderHealthStore and app/db), since they are statements for a database, except for the
-- table of attachments, of which only the primary key is modelled and no CHECK, UNIQUE index or
-- foreign key; the extraction of text from attachments; the account service, the messages and time
-- limits of jurisdictions, the agent's pipeline; the model providers, retrieval, rendering and the
-- HTTP layer; of the playbook schema, the fields that are only displayed.
pub mod Attachments
pub mod Auth
pub mod Deletion
pub mod Dict
pub mod Executor
pub mod Health
pub mod Jurisdiction
pub mod Playbook
pub mod Prelude
pub mod Quota
pub mod Trial
