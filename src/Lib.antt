-- ===== src/Lib.antt =====
-- Verification of the odiseo-new backend: the generation of printed question material for the
-- courses of many tenants.
--
-- The parts, the files that model them and the code that they follow (paths from the root of the
-- repository):
-- - Selection: backend-nestjs/src/question-bank/strategies/question-selection.strategy.ts and
--   constants/question-levels.constant.ts. `select_best_questions` is selectBestQuestions, `shuffle`
--   its Fisher-Yates helper, `select_one` one turn of its loop with the three priorities, and
--   `get_level_ids_for_difficulty` is getLevelIdsForDifficulty.
-- - Access: backend-nestjs/src/auth/auth.guard.ts, common/guards/password-reset.guard.ts and
--   permissions.guard.ts, in the order in which app.module.ts installs them (`authorize`); Tenants
--   is admin/tenants/guards/tenant-param-scope.guard.ts and Permissions the sets of
--   admin/roles/constants/permissions.constant.ts.
-- - Database: what the services rely on of a table of a tenant's schema, which they reach through
--   TypeORM and PostgreSQL. It is a record of operations and laws, `Table`, that the other parts take
--   as a parameter; Memory shows that a list meets it.
-- - Webhook: backend-nestjs/src/materials/use-cases/handle-material-webhook.use-case.ts, the
--   callback of the PDF worker. `execute` is execute, `handle_course` the two guards on the course,
--   `transition` what follows them, `roll_up` the check of all courses of the request.
-- - Roles: backend-nestjs/src/admin/roles/permissions/flattened-permissions.query.ts (the recursive
--   queries over the inheritance of roles), and in Service
--   backend-nestjs/src/admin/roles/services/roles.service.ts.
-- - Syllabus: backend-nestjs/src/syllabus/repositories/syllabus.repository.ts (Repository) and
--   backend-nestjs/src/syllabus/syllabus.use-case.ts (Repository/Operations).
-- - AcademicTime: backend-nestjs/src/academic-time/academic-time.use-case.ts with
--   backend-nestjs/src/academic-time/repositories/academic-time.repository.ts (UseCase): `plan_weeks`
--   is the loop that builds the weeks of a cycle, `update_cycle` is updateCycleInTenant.
-- - Review: backend-nestjs/src/materials/use-cases/approve-material-review.use-case.ts (Approve):
--   `save_draft` is saveDraft, `approve` the transaction of execute, `dispatch` what follows its
--   commit, and `perform` one of the two entry points from start to end.
-- - Generation: backend-nestjs/src/materials/use-cases/generate-material.use-case.ts: in Plan the
--   spreading of questions and levels over the cells of a syllabus and `build_review_plan`
--   (buildReviewPlan), which uses Selection; in Execute the two transactions, `prepare` and `store`,
--   and `execute`. Its jobs go to the PDF worker, whose callback Webhook models; Review acts on the
--   slots that it creates.
-- - Parallel: backend-nestjs/src/common/utils/map-with-concurrency.util.ts. `Step` is what one worker
--   does between two awaits, `Run` a sequence of such steps of any workers, `start` the state that
--   mapWithConcurrency begins with.
-- - Reconciliation: the sweep of backend-nestjs/src/materials/materials.cron.ts that dispatches lost
--   jobs of the PDF worker again (`sweep_stuck_material_courses` is sweepStuckMaterialCourses): courses
--   that Generation or Review left PROCESSING without a job.
-- - Locking: backend-nestjs/src/common/locking/redis-distributed-lock.ts, under which the scheduled jobs
--   run: `try_acquire` is tryAcquire, `run_exclusively` runExclusively.
-- - Authentication: the caches of a user's state in backend-nestjs/src/auth/auth.service.ts, whose
--   answers Access takes as a parameter: `get_user_auth_state` is getUserAuthState,
--   `invalidate_user_permissions` invalidateUserPermissions.
-- Common holds the shared helpers: Boolean tests, the list methods of the language, and `Result`, a
-- value or the exception that the framework turns into a status code.
--
-- State and transactions: each service that writes has a `World`, the states of its tables and what
-- it sends to other systems, and each operation is a function from a world to the new world or to an
-- error. An operation that throws leaves the world as it was, as its transaction does. A sequence of
-- operations is a sequence of such steps, one after the other. Where the code reads in one transaction
-- and writes in a later one, what others commit in between is the argument `meanwhile` (the material of a
-- generation, the weekly limit of a syllabus) or a sequence of steps (the versions of a review); the
-- check of the grants in Roles, and the callbacks of Webhook, which read their course without a lock, are
-- taken as one step each, so what is stated of them is stated of operations that do not overlap.
--
-- Bounds: numbers are natural numbers, since the code counts, and compares positions and times. The
-- one fuel is that of the recursive queries, one more than there are edges, and it is proved to be
-- enough. All other recursion is on lists or counters; the workers of Parallel are a relation, of which
-- each run is proved to end.
--
-- Parameters: Math.random, toUpperCase, trim and toLowerCase of the language; the verification of
-- a token and the lookup of a user's state; the tables; the date library; generated ids; the
-- clock, the tenant in CLS and the queue; whether a transaction goes on after a refused
-- statement; what a save makes of a version column; the conversion of a text to a number; what
-- others commit while an operation runs; which texts the database takes as a uuid; Redis and the
-- shared cache; which rows a capped query returns. What a failing database statement does is
-- written out where the code reacts to it.
--
-- Not modelled: log lines and the texts of messages; reads that pass rows on; the rest of the backend
-- (the page of a review, the PDF worker, the other scheduled jobs, login, tenants, catalogs, the rendering of PDFs,
-- storage, migrations, metrics) and the web frontend.
pub mod Common
pub mod Database
pub mod Selection
pub mod Access
pub mod Webhook
pub mod Roles
pub mod Syllabus
pub mod AcademicTime
pub mod Review
pub mod Generation
pub mod Parallel
pub mod Reconciliation
pub mod Locking
pub mod Authentication
