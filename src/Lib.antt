-- ===== src/Lib.antt =====
-- A verification library for cpa-auto-refresh-quota, a plugin of the CLI proxy: at daily times, or on
-- request, it sends one short request through every selected credential, so that each one's quota
-- window starts.
--
-- The parts of the program and the files that model them:
--   * Config: internal/refreshquota/config.go. Config holds the record; Config/Parse is ParseConfig from
--     the decoded document on, Config/Times the daily times, Config/Filters the lists of texts and
--     Config/Equivalent the comparison by which ApplyConfig knows a configuration again.
--   * Auths: internal/refreshquota/filter.go and, in Auths/Priorities, the two functions of priority.go
--     that compute a target priority. The run selects its credentials with filter_auths.
--   * Pins: cmd/cpa-auto-refresh-quota/pin.go; Pins/Execute is abiHost.ExecutePinned of main.go. A
--     request through one credential registers a pin, a random token, and sends it in a header; the
--     host's scheduler asks the plugin, which answers the pinned credential; the request then takes
--     the pin back and accepts a response only if the pin was selected.
--   * Override: internal/refreshquota/priority.go. A credential's file gets a higher priority and a
--     marker with the old one, from which it is restored later.
--   * Service: internal/refreshquota/service.go. Service is the state under `mu`; Service/Configure has
--     the sections of ApplyConfig, startScheduler, startPriorityRecovery, setPriorityRecoveryResult and
--     Shutdown, Service/Runs those of startRun, publishActive, finishRun and of the schedule, and
--     Service/Manual the options of a manual run, which main.go normalises.
--     Service/Status is what the service shows of itself, with Summary of config.go.
--   * Host: the Host interface of internal/refreshquota/types.go, the clock and the contexts, as calls on
--     a world of an unknown type; Host/Saves is the history of the files that were written.
--   * Transaction: internal/refreshquota/priority_service.go. Transaction/Begin writes an override,
--     Transaction/Restore takes it off, Transaction/Recovery does so for what an earlier run left.
--   * Execution: executeRun of internal/refreshquota/service.go and internal/refreshquota/request.go.
--     Execution/Round is one credential, Execution/Loop all of them, Execution/Run what comes before. It
--     uses Auths, Transaction and the host, and answers its calls of the service, publishActive and
--     finishRun, in their order; Execution/Calls puts what others do between them.
--   * Errors: the texts that sanitizeError and safeExecutionError of service.go let through.
--   * Files: GetAuthFile and SaveAuthFile of cmd/cpa-auto-refresh-quota/main.go with replace_unix.go, which
--     are behind two of the host's calls. Files/Disk says what the calls of the os package do.
--   * Management: handleManagement of cmd/cpa-auto-refresh-quota/main.go, which starts manual runs.
--   * Plugin: handleMethod of cmd/cpa-auto-refresh-quota/main.go, on a service that a registration replaces
--     where it is stopped.
--   * Schedule: internal/refreshquota/schedule.go, the next time that the schedule's goroutine waits for;
--     Schedule/Loop is a turn of this goroutine, scheduleLoop of service.go.
--   * Base has the parts of Go's standard library that the program calls (maps, strings, strconv) and
--     results with errors; Sort is sort.Slice.
--
-- Functions keep their names, in snake case; a method takes its receiver as an argument and answers the
-- new state. Errors are values of a data type for each part, by the message's format and its arguments.
-- Code under a mutex is one step. Service/Invariant has the steps of the service as a data type, and
-- `run` interleaves them in any order; Pins/Execute has the events on the registry in the same way, and
-- the host's reply says which of them happened before it. Contexts are numbers, and what is done with
-- them outside the lock (cancelling, starting a goroutine) is a list of effects.
--
-- Texts are sequences of Unicode characters; `len` counts their UTF-8 bytes. ToLower and EqualFold move
-- the letters A to Z only. Go's int stands as an integer by its value, since these numbers are compared,
-- copied and printed only; the generation of the configuration and the count of skipped occurrences are
-- uint64 and wrap around. Instants and durations are nanoseconds. A map is an association list with one
-- entry for each key, and a set a list.
--
-- Loops are structural. The counted ones are those of register, with the source's four attempts, of the
-- priority transaction, with its three, and of NextOccurrence, with its 370 days. The loops that poll the
-- host run until a context is done: how many polls it allows is a part of the world, read when the loop
-- begins, and any number; that a context ends at all is what context.WithTimeout promises.
--
-- A call of the host may change the world in any way, and so may time between calls, as part of the next
-- one. The theorems on the files that a run writes assume only that SaveAuthFile alone writes them, the
-- file that it is given, where it answers no error. The theorems on one file of the disk assume that
-- nobody else writes it during the call: between the last comparison and the rename the code has no
-- protection against that.
--
-- Parameters stand for what is not code of this repository: yaml.v3's decoder, time.LoadLocation,
-- time.ParseDuration, a location's calendar, encoding/json, crypto/rand, crypto/sha256, os,
-- path/filepath, and the host. The theorems on them assume nothing but what they name in their
-- hypotheses: of a credential's JSON, that a written object reads back with the same fields, and a marker
-- and a number as they were. The file of a credential and the body of a request are taken to be UTF-8, as
-- JSON is; where sanitizeError cuts within a character, the model drops its first bytes too.
--
-- Not modelled: the goroutine of the recovery as a loop; the registration's answer and the C interface of main.go, which are glue;
-- replace_windows.go, which calls the Windows API; the log entries.
pub mod Auths
pub mod Base
pub mod Config
pub mod Errors
pub mod Execution
pub mod Files
pub mod Host
pub mod Management
pub mod Override
pub mod Pins
pub mod Plugin
pub mod Schedule
pub mod Service
pub mod Sort
pub mod Transaction
