-- ===== src/Lib.antt =====
-- cmgr manages capture-the-flag challenges: it builds their images, starts and stops instances of
-- them, and keeps what it did in an SQLite database. The parts modelled here, and where:
--
-- Interceptor (internal/ociinterceptor). The OCI runtime wrapper. Tweaks: NormalizeTweaks. Bundle:
--   FindBundlePath, findBundlePathStrict, invocationRequiresRewrite. Runtime: parseRuntimeArguments
--   as a loop over the arguments (`scan_arguments`, `classify` for its switch, `accept_scan` for the
--   checks behind it), RuntimeRegistrationCompatible, RunRuntime. RewriteBundle, which edits files,
--   and the real runtime are function arguments of the model. Config: RewriteConfig,
--   consumeTweakRequest and applyTweaks on decoded JSON.
-- Registration (internal/ociinterceptor/register.go). RegisterRuntime on Docker's daemon.json, with
--   open_config for the reading, plan_runtimes for the decision and write_document for the write.
--   Command: RunRegisterCommand with snapshotFile, restoreFile and rollbackRegistration, on a machine
--   that holds the file and what Docker last loaded of it; the answers of the system and of Docker are
--   the record `Host`.
-- Json. Decoded JSON: an object is a list of members with distinct names, a number its digits.
-- Ports (cmgr/docker.go, cmgr/database.go). getPortRange on the value of CMGR_PORTS; getFreePort
--   with the random offset and the assigned ports as arguments; selectHostPort;
--   inspectedPortAssignments. The sweep of getFreePort runs on fuel, one unit for each port of the
--   range, which is the bound of the loop in the source.
-- Staging (cmgr/docker.go). dockerId, buildImageName, isUpdateQualifier, stagedImageBuildID.
-- Promotion (cmgr/docker.go). promoteStagedBuild, rollbackStagedBuild, finishStagedBuild and
--   discardStagedBuild on a state that maps image names to ids and archive names to contents. The
--   record `Faults` says which calls of Docker and of the file system fail.
--   Leftover: stagedArtifactBuildID; its loop over dashes has fuel for one round more than the name has
--   bytes. Cleanup: cleanupInterruptedBuildResources, on the lists of tags and files that it is given.
-- Cutover (cmgr/docker.go, cmgr/database_instances.go). prepareInstanceCutover,
--   rollbackInstanceCutover and finishInstanceCutover with the loops that they call, and
--   replaceInstanceRuntimeMetadata, on the containers that Docker has and runs and on the rows of
--   containers and retiredContainers, each a set of ids. Of startContainersWithPersistence only what
--   happens from the creation of a container on; networks and host ports are left out.
-- Changes (cmgr/api.go, cmgr/database.go, cmgr/seccomp.go). DetectChanges and safeToRefresh; the walk
--   through the directory, the hashes and the queries are the record `Answers`. The Go map of what was
--   found is an association list.
-- Seccomp (cmgr/seccomp.go). SeccompOptions.resolve and the checks of profiles and their names.
--   Reading: unmarshalSeccompOptions and the checks of what is read. Required: the tweaks that a build
--   needs. What is stored is decoded JSON; decoding a profile, the digest and the profile file are the
--   record `Library`.
-- Locks (cmgr/operation_lock.go, cmgr/docker.go). File: acquireFileLock, on the answers of the
--   operating system in order. Operation: acquireOperationLockMode and the functions that it
--   returns, as threads that interleave at every lock call; sync.RWMutex and flock are taken to
--   grant a lock only beside compatible holders. Keyed: the reference-counted mutexes of
--   acquireLocalPortLock and acquireBuildLock, one step for each critical section.
-- Updates (cmgr/database_challenges.go, cmgr/docker.go). updateChallengesInternal, the rebuild of all
--   builds of a challenge, rollbackBuildUpdate and finishBuildUpdate, on the record `Operations` of the
--   calls of the database, of Docker and of promotion and cutovers. RowLaws says which calls write the
--   row of a challenge; UndoLaws, which of the three parts (image names and archives, rows of builds,
--   containers and rows of instances) a call changes, and what undoes it. Promoted proves what it asks
--   of promotions for those of the module Promotion, up to the names of staged images and archives
--   (Promotion.Visible); Cutover has the corresponding theorems of cutovers. An identifier is taken to
--   be new. Rows, Marker, Undo and Restored are the proofs.
-- Digest (cmgr/filesystem.go). The bytes that writeHashFrame, metadataHashes and challengeChecksum give to
--   SHA-256, and checksumIgnore; a directory is a tree in the order of the walk.
-- Loader (cmgr/loader.go). Dockerfile: processDockerfile, from what the regular expressions match, with
--   the stage of a comment as a cursor into the list of stages. Build: validateBuild; a Go map from
--   names to whether they are used is an association list.
-- Store (cmgr/database_builds.go, cmgr/database_instances.go). The tables schemas, builds and
--   instances as lists of rows, and the statements on them as functions. An id of a new row is one
--   more than the largest. The columns that only describe artifacts, images and solves are left
--   out, and so are failures of the database itself.
-- Schemas (cmgr/api.go, cmgr/docker.go). generateBuilds, newInstance, stopInstance, destroyImages,
--   cleanupSchemaResources and convergeSchema on the tables; Api: Build, Start, Stop, Destroy,
--   CreateSchema, UpdateSchema, DeleteSchema, each as it runs while it holds the operation lock. The
--   Docker daemon and the file system are the record `Docker` of functions, which may answer by all
--   that is recorded. A Go map of challenges is a list, in the order in which the loop meets it.
-- Validation (cmgr/api.go, cmgr/policy.go, cmgr/docker.go, cmgr/errors.go, cmd/cmgrd/main.go). Flag
--   formats and makeFlag, seeds, schema definitions, seed limits, and the kinds of error with their
--   HTTP status. The hexadecimal digest that makeFlag cuts is an argument.
-- Policy (cmgr/policy.go, cmgr/docker.go). mergeRuntimeDefaults and effectiveContainerOptions; a Go
--   map of options is an association list.
-- Server (cmd/cmgrd/main.go). challengeHandler, buildHandler, instanceHandler, existingSchemaHandler
--   and schemaHandler as functions of the method, the path, the decoded body and the state of the
--   manager, which is the record `Manager` of its calls. artifactsHandler, in Server/Artifacts, takes
--   what the reader of the archive gives as an argument, and so does buildHandler the handler of the
--   artifacts.
-- Migrations (cmgr/database.go). initDatabaseWithSchemaChanges from its latch check on,
--   ensureDatabaseSchemaWithChanges and migrateDatabase. What the tables hold is a type parameter,
--   the SQL statements are the record `Statements`, the answers of the file system the record
--   `Host`. The loop has fuel for as many steps as there are versions.
-- Common. The names that the other modules share: lists and texts over the native numbers, Go's int
--   as an integer, decimal numerals and strconv.Atoi, results, and association lists.
--
-- Texts are lists of bytes. Go's int is an unbounded integer, except that strconv.Atoi refuses what
-- does not fit 64 bits. Not modelled: the calls of the Docker client, SQL on challenges, the challenge
-- loader but for the Dockerfile and the builds, directory walks and hash functions, the solver, logging,
-- the list of the HTTP server, and the command line; they read directory trees or stand around libraries outside this repository.
pub mod Common
pub mod Json
pub mod Interceptor
pub mod Registration
pub mod Promotion
pub mod Updates
pub mod Changes
pub mod Seccomp
pub mod Cutover
pub mod Server
pub mod Ports
pub mod Staging
pub mod Digest
pub mod Loader
pub mod Locks
pub mod Store
pub mod Schemas
pub mod Validation
pub mod Policy
pub mod Migrations
