-- ===== src/Lib.antt =====
-- Linux Practice Lab: a model of the rules behind the desktop application, and what they guarantee.
--
-- The application teaches Linux in a disposable virtual machine. A lesson has tasks, a task has
-- validators, and the guest agent reports one outcome for each validator. The host turns the
-- outcomes into a verdict and a message, keeps the state of the attempt (hints, solution, failed
-- checks), rolls attempts up into a mastery of the lesson, stores it, and decides from what is
-- stored which lessons are unlocked, which comes next and which to review.
--
-- Files, each with the code that it models:
--   Common          shared helpers: tests on numbers, lists, find, decimal text, text-keyed maps
--   SharedTypes     crates/shared-types
--     Float           the f64 percentage of progress.rs and validation.rs, over a record of laws
--     Json, Lesson    lesson.rs: packages as data, with the queries on them
--     Progress        progress.rs: the mastery ladder; proofs in Ladder
--     Validation      validation.rs: from_outcomes; proofs in Verdict, Percent, Primary;
--                     the failure categories in Category
--   LessonEngine    crates/lesson-engine
--     Hints           hints.rs: an attempt is a record and a method returns the new one; proofs in
--                     Reveal, Events, Categories, Rollup
--     Feedback        feedback.rs: shape_feedback; proofs in Blame, Cause
--     Catalog         catalog.rs: the indexed catalogue and its queries
--     Progression     progression.rs; proofs in Unlocking, Next, Review, Average
--   ProgressStore   crates/progress-store
--     Codes           lib.rs: the stored texts of statuses and masteries
--     Lessons         lib.rs: the table lesson_progress as a list of rows, the writing methods
--                     and reset_profile as functions on it, and the index that bootstrap of
--                     commands.rs reads from it; proofs in Table, Mastery, Consistency, Locking
--     History         lib.rs: the command history, its retention policies and their enforcement;
--                     proofs in Privacy
--     Migrations      migrations.rs: apply over any scripts; proofs in Versions
--   VmManager       crates/vm-manager
--     Overlay         overlay.rs: sanitise_id; proofs in Names
--   SharedTypes.Registry  crates/shared-types/src/registry.rs: Registry::check over JSON parameters,
--                   with the types of values in Values and the checks in Check; Kinds says what
--                   the values of each type are and Accepted what a well-formed validator is, both
--                   apart from the tests of the code; proofs there, in Modes and in Scalars
--   Agent           guest/linuxlab-agent
--     Session         main.rs: the control token and the frames of one session; proofs in Token, Frames
--     Args            validators/args.rs: parameters, bounds, overrides; proofs in Limits
--     System          sys.rs: one moment of the guest, with Modes (files), Accounts (/etc) and
--                     Processes and Sockets (/proc)
--     Validators      validators/mod.rs: registry check, dispatch, verdict; Categories lists
--                     the agent's categories in their order; proofs in Passing
--     Outcomes        when an outcome has passed, for the proofs below
--     Identity        validators/identity.rs, with Access (sudo, passwords, lists); proofs in Members
--     Service         validators/service.rs; proofs in Units (names), States and Ports
--     Process         validators/process.rs, with Table (which processes are seen); proofs in Candidates
--     Package         validators/package.rs; proofs in Removal
--     Browsing        handlers.rs, the directory panel; proofs in Order, Roots
--     Lessons         handlers.rs, what changes the guest, whose state is the history of what was
--                     done to it; proofs in Policy (sudo) and Names (directories and scripts)
--     Filesystem      validators/filesystem.rs: Objects, Contents and Directories; proofs in Facts,
--                     Masks, Entries
--   Tests           below each of these: runs at concrete inputs, and the theorems applied
--
-- Conventions. Unsigned integers are native numbers with the wrap-around written out, as the
-- release profile has it (no overflow checks). A HashMap or BTreeMap that is only looked up is an
-- association list. f64 is a parameter with the laws of IEEE 754 that the percentages need, met by
-- a fixed-point instance in the tests. Decimal printing takes fuel one above the number, which
-- bounds its digits.
--
-- Not modelled: the virtual machine, its processes and sockets, the runtime installation, the
-- agent's checks of networks and scripts, the user interface, and the prose of lessons.
pub mod Common
pub mod SharedTypes
pub mod LessonEngine
pub mod ProgressStore
pub mod VmManager
pub mod Agent
