-- ===== src/Lib.antt =====
-- SolTrace follows the logs of FTP servers. A daemon beside each server (ftp-daemon/soltrace_daemon.py)
-- reads the log files and posts what they say to the server (was/app), which buffers the rows
-- (was/app/write_buffer.py), rolls them up and judges them (was/app/service_monitor.py), and tells of
-- what is wrong. This library models the parts that carry this path.
--
-- Base holds the names that every file shares: the native numbers with their Boolean tests
-- (Base/Tests), lists measured and counted by them (Base/Lists), indexing (Base/Index), grouping by a key
-- (Base/Groups).
--
-- WriteBuffer models was/app/write_buffer.py: the two queues, the counters and the clock are a record,
-- each method is a function of it with the method's name, and what the database answers to an insert
-- is a part of the environment, as the n-th answer. Counters, Conservation, Backoff and Recovery hold
-- the lemmas of the methods; Calls runs them in any order, Threads runs the locked sections and the
-- inserts of any number of threads in any interleaving, as a step relation.
--
-- Daemon models ftp-daemon/soltrace_daemon.py. Daemon/Tailer is `FileTailer`, on files of bytes with
-- positions as byte offsets; a line ends at a newline. The parser is the function that the constructor
-- takes; what parsers remember between lines is a state that a poll threads through, and what the clock
-- gives them is a part of it. A state file that cannot be written stays as it was. Daemon/Client is
-- `WasClient`: the answers of the server are a parameter, one for each request; a request that the
-- server answers without an error status has been taken by it (`takes`), whatever the client makes of
-- the answer, and the batch size is any integer. Daemon/Buffer is `DiskBuffer`.
-- Daemon/Sender is `_sender_loop`, one pass of which is `sender_pass`, with `_safe_shutdown` and
-- `_flush_startup_buffer`. The files are what they are at the start of a pass, and each tailer has
-- its own parser; what `_flush_stale_sessions` does to their memory is a parameter there.
-- Daemon/Transfer is `parse_transfer_log`, Daemon/Extended `parse_extended_log` from the match of the
-- line on, Daemon/Sessions what the latter remembers between lines (followed over other lines in
-- Daemon/Extended/Between), and Daemon/Extended/Steady what does not depend on it. Daemon/Status is `_collect_status`, with what the server shows of the reports as its
-- specification (Daemon/Status/Shown), Daemon/Heartbeat the loop that sends them, and Daemon/Update
-- `_self_update`, with the answers of the network, the file system and the other programs as functions.
--
-- Bulk models ftp-daemon/soltrace_bulk.py: the files that are read, the entries that the dates keep, and
-- the sending in batches with one retry.
--
-- Monitor models was/app/service_monitor.py. Monitor/Stats holds the median, percentile and deviation,
-- Monitor/Eval the judgement of a bucket, over a parameter for Python's floats (Monitor/Float) whose
-- laws hold where no number is NaN, none overflows and no divisor is zero, and Monitor/Episodes the
-- recording of alerts, the episodes, and the messages about both. Monitor/Detect is `_detect` with its
-- annotations and `run_once`, on the rows that the rollup leaves, and Monitor/Patterns `_like_patterns`;
-- LIKE is a parameter. The SQL of these functions is translated to functions of lists of rows; the rows
-- of one call are not changed by another process meanwhile. What the notifier answers is an input.
--
-- Notifier models was/app/notifier.py: Notifier/Texts the messages for each receiver, Notifier/Dispatch
-- the choice of the channels, the grouping for the mail gateway and `dispatch`. The n-th post is
-- answered or raises, the query of the groups and the formatting of times and of HTML are parameters,
-- and what was posted is kept as a list.
--
-- Auth models was/app/security.py, was/app/routers/auth.py, was/app/deps.py, was/app/api_keys.py and
-- was/app/routers/users.py: Auth/Text the methods of text, Auth/Passwords the stored form of a password,
-- Auth/Accounts the lockout and the lists of addresses, Auth/Login the login handler, Auth/Addresses the
-- addresses as they are entered, of the client and of the office, and the first administrator, Auth/Keys
-- the keys and `get_current_user`, and Auth/Users the handlers that change accounts and the FTP accounts
-- of a customer. Key derivation, hashes, the decoding of tokens and the arithmetic of networks are
-- parameters. Text is its code points; the hash that is stored for an account is ASCII.
--
-- Storage models was/app/retention.py, was/app/disk_guard.py and was/app/rebalance.py: the retention, the
-- partition that is given up when the disk is full, and the script that rebalances the partitions, which
-- is cut into statements (Storage/Rebalance/Scan) and run one by one by a job of which there is one at a
-- time (Storage/Rebalance/Job). `int` on text and the reading of the disk are parameters.
--
-- Settings models was/app/login_config.py and the upload of was/app/routers/settings.py (Settings/Login),
-- on the table `app_config` as a function of its keys.
--
-- Ingest models was/app/routers/ingest.py: the devices that register and report, and the logs that are
-- taken, with the rows for the write buffer as a result. The hash of a row is a parameter.
--
-- Loops are structural, but for two. The batches of `send_logs` run on fuel, the number of entries: a
-- batch takes at least one, so it does not run out. The scan of the script runs on the length of
-- the text, and every token takes at least one character. Times are whole seconds, and microseconds in
-- Auth.
--
-- Not modelled: the SQL of the rollup and of the queries that only read, the other web routes, the
-- thresholds of the alerts as they are stored, a lone carriage return as the end of a line of a log,
-- the browser's code, the database's schema and migrations, and the scripts.
pub mod Base
pub mod WriteBuffer
pub mod Monitor
pub mod Notifier
pub mod Daemon
pub mod Bulk
pub mod Auth
pub mod Storage
pub mod Settings
pub mod Ingest
