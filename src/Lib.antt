-- ===== src/Lib.antt =====
-- ctguard watches a host: ctguard-logscan and ctguard-diskscan send messages to ctguard-research,
-- which holds them against its rules, and hands alerts on to a file and to mail, and interventions to
-- ctguard-intervention. This library models the threads of these four programs, their configurations,
-- and what they use of src/libs.
--
-- A message is a `SourceEvent`. `input_task` takes it from the socket, `processing_task` makes an
-- `Event` of it by `process_log`, and what is worth an alert goes through `output_task` to
-- `mail_task`, its interventions to `intervention_task`; `state_task` adds the alerts of
-- `unless_rule`s that nothing has called off. Between the threads stand blocked queues.
--
-- In ctguard-diskscan `scan_task` walks through the watched directories, `watch_task` reads the events
-- of inotify, `event_task` and `rtevent_task` look at the paths that these two name and make a
-- `FileData` of each, and `alert_task` compares it with the row of the database: what differs becomes
-- an alert, which `output_task` sends as a message. A scan has two phases: after the directories the
-- rows that no event has confirmed are looked at.
--
--   Base            Booleans and numbers, lists, texts as lists of bytes, decimal numbers (Decimal),
--                   `std::map` and `std::set` as lists in key order, and `Outcome`, a result
--                   or an error, with the conditions
--                   `Fails` (on the error) and `Post` (on both)
--   ConfigFile      src/libs/config: Token, Lexer, Group and Parser after the files there. Lexer.Shrinks:
--                   what a token takes; Lexer.Quoted: a text in quotes; Parser.Total: fuel and
--                   errors; Parser.Valued: options and their values. Settings: what the readers of the
--                   daemons' configurations share, with Safe (its errors) and Keeps (its results)
--   Helper          src/libs/parsehelper.hpp; Numbers: what the number parsers accept
--   BlockedQueue    src/libs/blockedqueue.hpp, as atomic steps; Fifo: runs under any interleaving
--   Sink            the queue of what could not be sent, which several threads try again
--   FilePerms       src/libs/check_file_perms.cpp; Trusted: what it accepts
--   SocketClient    src/libs/unix_socket_client.cpp; Whole: what a connection took
--   Xml             the nodes of src/libs/xml/XMLNode.hpp
--   Research.Types  the records of src/research/event.hpp, rule.hpp and research.hpp
--   Research.Env    the regular expressions, the clock and the time format, which are parameters,
--                   the state that the threads share, and the errors
--   Research.Event  src/research/event.cpp
--   Research.Rule   find_rule of src/research/rule.cpp
--   Research.Check  check_rule of src/research/process_log.cpp. Safe: its errors; Window: the saved
--                   events; Demands and Match: when a rule matches
--   Research.Process
--                   the rest of that file. Select: the choice among the matching rules; Total: errors
--                   and fuel; Unheard: a rule in a bad place; Origin: what stays of the log line
--   Research.Text, Research.Parse
--                   parse_rules of src/research/rule.cpp, in the order of its text: Draft (the rule
--                   node), Check (the checks), Insert (the insertion), Parse (all nodes). Kept, Placed
--                   and Sound: rules that were accepted; Text.Pieces: cutting and trimming
--   Research.Tasks  the threads of src/research/daemon.cpp, each as the step that it makes: Input,
--                   Processing, Unless (state_task), Output, Mail, Summary (send_mail_queue),
--                   Intervention; Shutdown: three of them, one behind the other
--   Research.SendMail
--                   src/research/send_mail.cpp. Dialogue: what was sent so far; Delivers: a server that
--                   accepts the mail
--   Research.Config, Logscan.Config, Diskscan.Config, Intervention.Config
--                   src/research/config.cpp, and so on, each with Safe: its errors; Interval and
--                   Ready: what an accepted configuration has. Configs: the four together
--   Logscan.Logfile one file of logfile_task in src/logscan/daemon.cpp: open_file and the rounds of scans,
--                   `follow`. Steps: a scan of a file that is the same as before; Reading: what is taken
--                   from a stream; Follows and Unfinished: a file that grows
--   Logscan.State, Logscan.Tasks
--                   the state file, with RoundTrip, and logfile_task for all files; Lines: std::getline
--   Logscan.Output, Logscan.Systemd
--                   output_task, with Kept, and systemd_task, both of src/logscan/daemon.cpp
--   Diskscan.Mode, Diskscan.FileData
--                   print_mode, with RoundTrip, and the factory of src/diskscan/filedata.cpp, with
--                   Contents: what is read of a file
--   Diskscan.Flags, Diskscan.Alerts, Diskscan.Alerter
--                   the flags, the text of the alerts, and alert_task of src/diskscan/daemon.cpp.
--                   Alerts.Uninitialised: an unread file; Alerter.Unique: names in the database; Agrees: a
--                   row after a report; Phases and Scanned: the rows in a scan; Forgotten: links
--   Diskscan.Scan, Diskscan.Finished, Diskscan.Realtime
--                   scan_task and event_task, with Below and Forward; the second phase of a scan, through
--                   both threads; watch_task and rtevent_task, with Renamed
--   Intervention    src/intervention/daemon.cpp. Action: run_cmd, with Privileges; Child: the waiting for
--                   a child and what it prints, with Waiting; Tasks: processing_task and input_task, with
--                   Permitted (what is run) and Accepted (under an accepted configuration)
--   Tests           a small set of rules, runs, and the listed theorems at concrete inputs
--
-- A C++ exception is an error of an `Outcome`; its text is not modelled, nor is what goes to the log
-- or to the terminal, but for the alerts of ctguard-diskscan, which are messages. Reading a vector
-- past its end, which C++ leaves undefined, is the error `out_of_range`; `trim` of an empty text,
-- which does that too, has no result. Numbers of 16 and 32 bits are natural numbers below the
-- parser's bounds, and arithmetic on them that can wrap is taken modulo 2^16 or 2^32. Times are
-- natural numbers. Each reading of the clock is a new one: the shared state counts them.
--
-- `check_top_rules` goes down one level of rules at a time. Its fuel is one more than the depth of the
-- rules, and each call spends one on a level, so the model's own error `too_deep`, that it ran out,
-- never ends a run from `process_log`. The parser of configuration files spends one fuel on each entry
-- of a group and on each value; it has two more than the number of bytes, and each token takes one at
-- least. The waiting for a child spends one on each second, and has one more than the timeout. Numbers
-- of the state file are printed with fuel for 20 digits, as many as 64 bits take. All other loops are
-- structural.
--
-- The regular expressions of the standard library are parameters: `mark_count` is `none` where the
-- constructor throws. `MatchesMarks` says, as the standard does, that a match has one text for each
-- group. cereal's decoder and the sockets are parameters of `input_task`, what comes of a mail or of an
-- intervention is one of `mail_task` and `intervention_task`. What a scan of a log file sees of the
-- file is a `Look`, with one reading of the clock; the stream positions are those of the standard
-- library, where `tellg` at the end of a stream gives -1 and no stream can seek to it. In
-- ctguard-intervention the databases of users and groups, the success of each system call of the child,
-- the results of `waitpid` and what is read from the pipes are parameters. A `char` is signed, so that
-- `EOF` as a character is the byte 255, and a `std::unordered_map` is visited in the order of its keys:
-- that order decides which of several errors in a configuration comes first, and nothing else.
--
-- In ctguard-diskscan SHA-256, the difference of two texts (dtl) and `print_time` are parameters. What
-- the system shows of a path is a `Sight`: the results of its calls, the bytes read, and the memory of
-- the new object, which nothing has set. A directory is a `Dir`, the entries that a walk meets, which
-- may end by an exception; the watch descriptors are a function on paths. Of the statements of sqlite
-- only an INSERT fails, on a name that is there, and a round of `alert_task` reads the clock once. A
-- mode is a natural number, and a format is its four bits from 12 on, as in <sys/stat.h>. A mail server
-- is a `Peer`: which calls of `send` succeed, each then as a whole, and what each `recv` gives. In
-- `SocketClient` the number of bytes that each call takes is a parameter, and so is its failure.
--
-- Not modelled: the XML parser, the functions `daemon` and `main` of the four programs with their
-- options and signals, the text of the alerts and mails of ctguard-research, and the wrappers around
-- system calls, sockets, sqlite and the logger. src/external holds other projects' libraries.
pub mod Base
pub mod ConfigFile
pub mod Helper
pub mod BlockedQueue
pub mod Sink
pub mod FilePerms
pub mod SocketClient
pub mod Xml
pub mod Research
pub mod Logscan
pub mod Diskscan
pub mod Intervention
pub mod Configs
pub mod Tests
