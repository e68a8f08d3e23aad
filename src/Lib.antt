-- ===== src/Lib.antt =====
-- A verification library for the runtime of the AI video replication service (app/), which hands
-- render jobs to workers, keeps their leases, and records how the jobs end.
--
-- The program. Workers call four services, each one transaction over four repositories: claim takes a
-- job from the queue for a worker, heartbeat extends the lease and marks the job running, complete and
-- fail end the attempt, the lease and, unless it is to be retried, the job. Operators create jobs,
-- cancel or supersede them and set a worker's health. A facade and three routes show a job's end to
-- clients.
--
-- The pipeline around them makes the videos. A project with its sequences and units is validated and
-- compiled to a runtime with its jobs, whose tasks go to Celery. A task marks its job running, runs the
-- executor of the job's type, stores the file under the key of its asset, and writes down how the job
-- ended. The executors read the runtime's payload, choose a sequence and a unit, build a request, and
-- have it answered by the client of a media relay, or by ffmpeg. One service sums up the jobs of a
-- runtime, and one names the places of its assets. A blueprint, a document of the same parts, is
-- checked and compiled to a packet of its own.
--
-- The files.
--   Common, Common/*: Python's conditions (`or`, truthiness), integers, tables as lists of rows, JSON
--     values. Common/Strings and Common/Values: the operations on str and the `str()` and `int()` of
--     JSON values that the pipeline uses. Common/Text is messages as lists of codes.
--   Enums: app/enums/runtime.py and app/enums/worker.py.
--   Store/Rows: the tables of app/models with their CHECK constraints. Store/Sizes: the 32 bits of an
--     Integer column and the length of a String(n), beyond which a write raises DataError.
--     Store/Session: the session as a monad of state and exceptions, `scalar_one_or_none`, and
--     `with self.db.begin()`, which rolls back on every exception.
--   Jobs, Attempts, Leases, Workers: app/repositories/*_repository.py, one definition per method under
--     the method's name. Jobs/Queue is `get_claimable_job_for_update`. Each child Effects says what an
--     operation that returned has found and changed.
--   Services/Schemas: the requests and results of app/schemas/runtime.py, and `World`, what one
--     transaction takes from outside: the clock, fresh ids, and the rows locked by others.
--   Services/Claim, Heartbeat, Complete, Fail: app/services/runtime_*_service.py; `claim_body` and its
--     like are the code inside the transaction, and Services/Conflicts is about their error mapping.
--     Services/Facade: app/services/runtime_terminal_facade.py.
--   Runtime: the repositories and services together. Runtime/Steps has the calls and their histories,
--     Runtime/Invariant what each call keeps, and the other files the theorems for histories and for
--     single requests.
--   Api: app/api/v1/routes/runtime_terminal.py. Aggregate: app/services/runtime_state_service.py.
--     Validation: app/services/compile_validator_service.py. Assets: app/services/asset_policy_service.py.
--   Projects: the tables of app/db/models that the pipeline shares. Projects/Session: its exceptions,
--     and statements over a state that keeps what was done before an exception.
--   Compiler: app/compilers/orchestrator/compiler_service.py, with app/services/job_dispatch_service.py
--     and runtime_version_service.py. Compiler/Packet is the payload, Compiler/Prompt the prompt of
--     the image job, Compiler/Jobs the jobs and their tasks, Compiler/Runs `compile_project`.
--   Tasks: app/workers/tasks.py. Tasks/Run is `_run_job`, Tasks/Entry the five Celery tasks,
--     Tasks/Marks and Content the helpers on rows and results, Tasks/Assets, Materialize and Storage
--     the asset and its object (app/services/storage_service.py, runtime_artifact_service.py). Tasks/Effects
--     and Parts say what the parts leave, Stored and Placement are about what is stored and where,
--     Outcomes and Failures about whole runs.
--   Google: app/providers/google/client.py. Google/Polling is the wait for a video, Google/Download
--     finds and fetches it, Google/Images reads images, Google/Generate has the three requests.
--   Executors: app/workers/executors.py. Executors/Registry is the choice by job type, Selection the
--     choice of sequence and unit, Prompts and Voices the inputs, Merge the muxing.
--   Blueprint: app/schemas/blueprint.py. Blueprint/Consistency is its `validate_consistency`, and
--     Blueprint/Compile app/compilers/orchestrator/blueprint_compiler.py.
--   Tests: a scenario of two jobs and one worker, small projects, a relay and a store, and the theorems
--     at work on them.
--
-- What is assumed. A transaction is one step: the row locks that the code takes (`for_update`) and the
-- unique constraints are what makes it one, and a row that another transaction holds is passed over by
-- the queue (`World.locked`). Times are integers of microseconds. Request validation by pydantic has
-- happened. Columns that no code reads are left out. A row of the runtime's tables is checked against
-- the sizes of its columns, but for those of enumerations, Text, JSON and times: times stay in the
-- range of datetime, and texts hold no NUL. Its foreign keys are not checked, since no code removes a
-- job, an attempt or a worker.
--
-- A task checks, at the flush of an asset, the foreign keys to projects and sequences and the lengths
-- of the texts, and at the flush of a job its count of attempts and its error code. The runtime's
-- last_error_code, which has the length of the job's, is not checked again. The compiler's rows are taken to fit their columns, and
-- so is the size of a file, which has 64 bits.
--
-- In the pipeline, a transaction that runs sees no commit of another: none commits while an executor or
-- a compile runs, but for the looks of a merge, each of which has a database of its own. A rollback
-- restores the tables, not the object store or the broker. Parameters are minio's stat and put, the
-- parsing of ids, httpx, base64, the answers of the relay, which are JSON values, ffmpeg, the broker, the
-- clock, new ids, and Python's `repr` of a list or a dict. Poll intervals are whole seconds, and
-- numbers with a fraction are known by their text.
--
-- Fuel: the decimal digits of n take n + 1 steps at most, and there are no more digits than that; a
-- wait for a video makes max_polls requests, and a merge looks 91 times for an asset, as the code
-- does. Every other definition is a recursion on a list, a text or a JSON value.
--
-- What is not modelled: the field constraints of blueprints, the asset and export services, the other
-- routes and the web pages, the clients, scripts and migrations; the headers of the relay's requests, and
-- two helpers of speech that nothing calls.
pub mod Common
pub mod Enums
pub mod Store
pub mod Jobs
pub mod Attempts
pub mod Leases
pub mod Workers
pub mod Services
pub mod Runtime
pub mod Api
pub mod Aggregate
pub mod Assets
pub mod Projects
pub mod Validation
pub mod Tasks
pub mod Google
pub mod Executors
pub mod Compiler
pub mod Blueprint
pub mod Tests
