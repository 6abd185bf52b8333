-- ===== src/Lib.antt =====
-- Verification of stu-mgmt-service, the back end of a student management system: courses, their
-- participants and groups, assignments and their assessments, on a relational database.
--
-- The parts and the files that model them (paths are from the repository's root):
--
-- src/course/services/group-merge-strategy: merging the groups of a course that are too small.
--   Merge/Groups: `SimpleGroup` (group-merge.strategy.ts) and `splitGroupsByValidity`.
--   Merge/Sizes: `bestSum` and `calculateIdealGroupSizes`. Merge/Assign: `mergeInvalidGroups`.
--   Merge/Ranking: `countUniqueWeeks`, `countActiveWeeks`, `countSubmittedAssignment` and
--   `sortStudentsByActivity`. Merge/Activity: `mergeByActivity`, which composes them. The theorems
--   on each stand in the folder of the same name. Merge/Tests runs them on small data.
--
-- src/course/models, src/course/services/group.service.ts, src/course/repositories/
--   group.repository.ts and src/course/commands/join-random-group.handler.ts: a course's groups.
--   Groups/Models: the models `Course`, `CourseWithGroupSettings`, `Group` and `Participant` with
--   their guards, and the exceptions. Groups/Store: the tables, the events, and calls that may
--   throw. Groups/Repository: GroupRepository. Groups/Names: `getAvailableGroupNameForSchema`.
--   Groups/Service: the operations of GroupService that change one group. Groups/Bulk: creating
--   many groups. Groups/Random: the handler that joins a random group. Groups/Invariant (with Rows
--   for the repository and Calls for sequences of calls), Groups/Joining, Groups/Names/Free,
--   Groups/Bulk/Names and Groups/Random/Choice hold the theorems, Groups/Tests the runs.
--
-- src/course/services/course-participants.service.ts and src/course/queries/can-join-course:
--   Enrolment models `addParticipant` and the query whether a user can join; Enrolment/Agreement
--   holds the theorems, Enrolment/Tests the runs.
--
-- src/course/guards and src/auth/services/auth.service.ts: Access models the guards for course
--   members, teaching staff and group members, and `determineRole`, Access/Login `getOrCreateUser`;
--   Access/Group and Access/Login hold the theorems, Access/Tests the runs.
--
-- src/course/services/assignment.service.ts, assignment-registration.service.ts, their repositories
--   and src/task-scheduling: assignments, registrations for them, and the scheduler.
--   Assignments/Models: the model and its row. Assignments/Store: the tables, beside those of the
--   groups, and the events. Assignments/Registrations and Assignments/Removal:
--   AssignmentRegistrationRepository. Assignments/Registering: AssignmentRegistrationService.
--   Assignments/Service: AssignmentService and AssignmentRepository. Assignments/Scheduler: the two
--   jobs, the search for the next date, the timeouts and the saga. Assignments/Invariant holds the
--   consistency of the tables (Writes for single writes, Rows and Saving for what they keep, Calls
--   for sequences of calls); the other theorems stand in the folder of the module that they are
--   about: Registrations/Complete and Registering/First on registering a course, Registering/User
--   on one user, Service/Starting and Service/Update on updates, Scheduler/Jobs, Lifecycle, Next and Timeouts on the
--   scheduler. Assignments/Tests runs them.
--
-- src/admission-status says who may sit the exam of a course, by rules on the points of students,
-- with the rounding of src/utils/math.ts. Admission/Rounding models math.ts, Admission/Rules the
-- rules of src/admission-status/rules, and Admission/Status admission-status.service.ts, on the
-- students, assignments and criteria that were loaded from the database. A percentage is an exact
-- fraction where the source has a floating-point number, and a division by zero gives an infinite
-- number or one that is not a number. Points are counted in a unit that all of them are multiples
-- of, since the rules read their ratios only; required percentages are fractions, and the decimals
-- of a rounding whole numbers, negative ones too. Theorems stand in Rounding/Order,
-- Rules/Outcomes, Rules/Failures (with Rules/Last) and Status/Overview; Admission/Tests runs them.
--
-- src/assessment/services/assessment-allocation.service.ts and its repository say which evaluator
-- assesses which group or student. Allocations models both with the unique constraints of their
-- entity; which ids exist in other tables, and the repository's deletion by id, which is TypeORM's,
-- are parameters. Theorems stand in Allocations/Created and Allocations/Copied; Allocations/Tests
-- runs them. The two queries for lists of groups and of users, which nothing calls, are left out.
--
-- The guards run before the controllers hand a request to the services. The handler and the
-- service call the repository; GroupService publishes events, which the model records in the
-- order of publication. The merge works on groups that its caller loaded, and touches no table.
--
-- Prelude holds what the parts share: Boolean tests and equality (`===`), lists over native
-- numbers, `Array.sort` by a comparator, `Set` and `Map` as lists in the order of insertion, and
-- chains of steps that may throw.
--
-- How the code is read. A class's fields are a record. A value that may be `undefined` or `null`
-- is an `Option`. Numbers are natural: group sizes and counts are never negative in the program.
-- A loop over an array is a recursion on the list; the tables of `bestSum` are lists, which a
-- write past the end extends. `Array.sort` is insertion sort, which every stable sort agrees with
-- as long as the comparator is consistent; where it is not (a comparator that gives `NaN`) the
-- language leaves the order open, and the theorems on the order exclude it.
--
-- A call of the service runs on the tables as a whole: calls run one after the other. It ends
-- with a value or an exception and with the tables as they are then, as what was written before
-- an exception stays. The tables reject what the entities' declarations reject: a relation whose
-- participant has one already, or whose user and group are related already (`unique`), and one
-- without its group or participant (foreign keys); a group whose id exists or whose name another
-- group of the course has. Deleting a group deletes its relations (`CASCADE`). Saving an array of
-- groups is one transaction, which an exception takes back. The uuid of a new group is an
-- argument.
--
-- An assignment's dates are milliseconds and its points multiples of a common unit. The tables of assignments
-- also reject a registration whose group or assignment does not exist, a second registration of a
-- group for an assignment, a relation whose participant does not exist, and a second one of a
-- participant for an assignment; the rows of one `save` are inserted one after the other, in one
-- transaction. Deleting an assignment deletes its registrations, and with them their relations;
-- deleting a group or a participant of the course is not composed with the registrations. A job
-- of the scheduler reads the clock once and runs its updates one after the other, where the source
-- starts them together: each changes its own assignment. The saga reschedules once after a call
-- that published an event it acts on, where the source does so after each such event.
--
-- Bounds. `bestSum` runs `targetSum` rounds, as the source's loop does. The `while` loop of
-- `countUniqueWeeks` gets twice the number of the dates after the first, and one, as its fuel:
-- `next` and then `current` move on once for each of them, so that it is enough. The search for a
-- free name tries the numbers from 1 to 9999, as the source's loop does, so that four digits are
-- enough to print them.
--
-- Third-party code is a parameter: `dayjs(d1).isSame(d2, "week")` is a Boolean function of two
-- dates, of which the theorems assume that it compares the numbers that some function gives the
-- weeks. The database's `ILIKE` is a Boolean function of the name and the schema, of which one
-- theorem assumes that it finds the names that start with the schema; the order of names and the
-- random name are parameters too. The delay that `setTimeout` sets is a function of the one that it
-- is given, of which the theorems on timeouts assume what Node.js documents: the delay itself from 1
-- to 2147483647 milliseconds, and 1 millisecond outside. A callback runs once its delay is over, and
-- how much later is left open. The `GroupMergeStrategy` that is injected is
-- a function too, and that the validation pipe strips no key of a body is read off its options.
--
-- Not modelled: simple-merge.strategy.ts, which nothing calls, the assessments themselves, users and
-- tokens, activity, the configuration of courses, notifications, exports, and the transforms of
-- query parameters; the queries that only load data, the texts of exceptions and the formatting of
-- responses, the controllers with their decorators, mail templates and sending, start-up and
-- configuration.
pub mod Prelude
pub mod Merge
pub mod Groups
pub mod Enrolment
pub mod Access
pub mod Assignments
pub mod Admission
pub mod Allocations
