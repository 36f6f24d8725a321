-- ===== src/Daemon.antt =====
-- ftp-daemon/soltrace_daemon.py: the daemon beside an FTP server, which follows its log files and
-- sends what they say to the server, with a buffer on disk for what could not be sent.
pub mod Tailer
pub mod Client
pub mod Buffer
pub mod Sessions
pub mod Extended
pub mod Sender
pub mod Status
pub mod Update
pub mod Heartbeat
pub mod Transfer
pub mod Tests
