-- ===== src/Lib.antt =====
-- Stoker: a control plane that runs load-generation fleets, and the workers that send the events.
--
-- The control plane (server/) stores packs, specs and targets. A spec is submitted, its rate is
-- divided over the worker slots and checked against safety bounds (server/engines,
-- server/routes/api.py), and it becomes a run, which server/lifecycle.py drives: workers claim leases,
-- report ready, are released together at the instant T0, send heartbeats and a final report, while
-- operators stop, pause, scale and rescale the run, and a supervisor tick enforces timeouts. A worker
-- (worker/stoker_agent) paces its share of the rate by a token bucket and posts batches of events to
-- Splunk's HTTP event collector, while its agent heartbeats the control plane, obeys the commands that
-- come back, holds its output without a confirmed lease, and restarts an engine that falls silent. The
-- name of a pack stands in its pack.yaml, which the control plane and the worker read.
--
-- Which file models which part:
--
--   Engines/Apportion  server/engines/apportion.py: apportion_shares, largest_remainder
--   Engines/Ceilings   server/engines/ceilings.py: resolve_ceilings, check_slice, the conversions
--   Engines/Sharding   server/engines/sharding.py: check_sharding, count_interval_active_workers
--   Submit             server/routes/api.py: _per_worker_share and the ceiling gate of run_spec
--   Lifecycle          server/lifecycle.py over the rows of server/models.py. Model has the rows, Rows
--                      the audit trail and lookups, Apportionment the shares put on leases, Release
--                      evaluate_release and mark_ready, Complete maybe_complete_run and record_final,
--                      Claim claim_lease, Heartbeat record_heartbeat, Operator stop_run, pause_run,
--                      resume_run, scale_run and rescale_run, Backpressure _check_backpressure,
--                      Supervisor _supervise_run, Boot reconcile_on_boot and _reap_terminal_fleets for
--                      one run, Sweep (with its children) _sweep_stray_fleets over the runs of a
--                      control plane, and Step the operations on a run as its steps. Later (with its
--                      children), Ending, Draining, Reaping, Gate, Fencing, Takeover, Pauses, Shares, Scaling and
--                      StepDown hold proofs
--   Worker/Pacing      worker/stoker_agent/pacing.py: TokenBucket. Its children Pace, Budget, Catchup and
--                      Waiting hold proofs
--   Worker/Hec         worker/stoker_agent/hec_client.py: serialise_envelope and _send_batch; its child
--                      Queue has HecClient with its producers and senders. Settled, Accounts, Space and
--                      Retries hold proofs
--   Worker/Sock        worker/stoker_agent/sockserver.py: _read_stream, _handle_line and
--                      _handle_hec_lines of one connection. Stream, Granting and Unterminated hold
--                      proofs
--   Worker/Control     worker/stoker_agent/control.py: ControlClient, with _post_with_backoff, heartbeat, final
--                      and the fencing. Backoff, Final and Fence hold proofs
--   Worker/Agent       worker/stoker_agent/agent.py: what fencing, commands and the release do to an Agent; its
--                      child Loop has _run_loop, with the control client and the token bucket. Rounds, Held,
--                      Holding, Resume and Watchdog (with its children) hold proofs
--   Packs/Yaml         server/bundles.py: _parse_pack_yaml, and worker/stoker_agent/bundle.py:
--                      parse_pack_yaml, over the str methods of Packs/Text. Dicts and Agreement hold
--                      proofs
--   Packs/Rename       server/packrename.py: clean_name and rewrite_pack_yaml. NameLine, Lines, Placing,
--                      ReadsBack, OldLine, Alike and OtherKeys hold proofs
--
-- State is explicit: an operation of the lifecycle takes the clock's reading, the driver's answers and
-- the rows of one run (Db: the run, its leases in slot order, its events and samples latest first), and
-- returns the new rows, or the error that it raises; a route rolls an operation that raises back, so
-- Step keeps the old rows then. An operation is taken as one atomic step, so an interleaving of
-- workers, operators and the supervisor is a sequence of steps: SQLite has a single writer, and
-- claim_lease locks the lease rows of its run (SELECT … FOR UPDATE). Interleavings inside the other
-- operations, which another database admits, are not modelled.
--
-- Numbers: times are whole microseconds, rates and weights natural numbers of a fixed unit, a
-- millionth for rates (the source has floats; finite non-negative floats are multiples of a common
-- unit). Quotients of rates are rounded down to that unit where the source rounds to a float, and are
-- exact fractions where they are only compared. Lease ids, holders and slots are numbers; fresh ids are arguments.
--
-- Fuel is taken by one definition: the grant loop of _handle_hec_lines has as much fuel as there are
-- lines, which is enough since each grant that is not 0 takes one at least. All other loops recur on the
-- leases, events, samples, calls, wake-ups, attempts, rounds, lines or bytes that they read. A thread that waits on a
-- condition gets the list of its wake-ups, and its result is none where that list ends first.
--
-- Not modelled: routing, authentication and the database driver; the execution drivers (Kubernetes,
-- Swarm, in-process), which appear as requests with an answer; bundles, their upload, export
-- and lint, and the pack source; previews; config import and export; the worker's engines, the set-up of
-- its agent before T0 and the drain after its loop; the vendored eventgen; the UI, dashboards, infrastructure and tools. They are file, network and
-- framework code around the parts above, or were left for later.
pub mod Prelude
pub mod Engines
pub mod Lifecycle
pub mod Submit
pub mod Packs
pub mod Worker
