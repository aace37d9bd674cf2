-- ===== src/Tests/Mail.antt =====
-- A mail, a configuration file's permissions, a lost connection and an output thread, and the theorems
-- applied.
use mathlib.Core.List.{Perm}
use ctguard.Base.{
  ℕ, ◌≡◌, refl, ◌↔◌, Bool, true, false, List, [], ◌∷◌, ◌++◌, Option, none, some, Bytes, codes, ok,
  ◌==◌, if◌then◌else◌, beq, ap,
}
use ctguard.FilePerms.{FileInfo, Process, check_info}
use ctguard.FilePerms.Trusted.{IsTrusted, check_info-IsTrusted}
use ctguard.Research.Types.{SourceEvent}
use ctguard.Research.SendMail.{Peer, Talk, send_mail, connect_first, starts_with, c_string, take}
use ctguard.Research.SendMail.Dialogue.{dialogue}
use ctguard.Research.SendMail.Delivers.{Accepts, send_mail-delivers}
use ctguard.SocketClient.Whole.{send-whole}
use ctguard.SocketClient.{Progress, Turn, returned, send, sendall, cut, connect, reconnect}
use ctguard.Logscan.Output.{Round, output_task}
use ctguard.Logscan.Output.Kept.{incoming, output_task-perm}

abbrev secret_file : FileInfo
secret_file = record { st_uid = 0; st_gid = 50; st_mode = 33184 }

abbrev process : Process
process = record { euid = 7; egid = 8 }

check_info-IsTrusted_example :
    (check_info process (some 50) secret_file ≡ ok tt) ↔ IsTrusted process (some 50) secret_file
check_info-IsTrusted_example = check_info-IsTrusted process (some 50) secret_file

-- A server that accepts everything.
abbrev answer : ℕ → Option Bytes
answer n =
    if n == 4
    then some (codes "354 go")
    else if n == 6
    then some (codes "221 bye")
    else some (codes "250 ok")

abbrev server : Peer
server = record { can_send = λ n. true; answer = answer }

server_accepts : Accepts server
unfolding starts_with c_string take beq
server_accepts = record {
  ready = λ n. refl;
  welcome = (codes "250 ok", refl);
  ehlo = (codes "250 ok", refl, refl, refl);
  mail = (codes "250 ok", refl, refl, refl);
  rcpt = (codes "250 ok", refl, refl, refl);
  start = (codes "354 go", refl, refl, refl);
  body = (codes "250 ok", refl, refl, refl);
  quit = (codes "221 bye", refl, refl, refl);
}

abbrev addresses : List (Bool × Bool)
addresses = (false, false) ∷ (true, true) ∷ []

second_address : connect_first addresses ≡ some true
unfolding connect_first
second_address = refl

send_mail-delivers_example :
    (t : Talk) × (send_mail server addresses
        (codes "host")
        (codes "a@b")
        (codes "c@d")
        (codes "s")
        (codes "r@b")
        (codes "m")
      ≡ ok t)
    × (t.sent
        ≡ dialogue server
            (codes "host")
            (codes "a@b")
            (codes "c@d")
            (codes "s")
            (codes "r@b")
            (codes "m"))
send_mail-delivers_example =
    send_mail-delivers server addresses (codes "host") (codes "a@b") (codes "c@d") (codes "s")
      (codes "r@b") (codes "m") second_address server_accepts

abbrev message : Bytes → Bool → SourceEvent
message text control = record {
  hostname = [];
  source_program = [];
  source_domain = [];
  message = text;
  control_message = control;
  time_scanned = 0;
  time_send = 0;
}

-- The sink fails once, then it works, and then the thread is told to end.
abbrev outputs : List Round
outputs =
    ((λ n. false), some (message (codes "a") false))
    ∷ ((λ n. true), none)
    ∷ ((λ n. true), some (message (codes "!KILL") true))
    ∷ ((λ n. true), some (message (codes "late") false))
    ∷ []

output_task-perm_example :
    Perm ((output_task outputs []).0 ++ (output_task outputs []).1) ([] ++ incoming outputs)
output_task-perm_example = output_task-perm outputs []

-- A connection that is lost in the middle of a message, and the next one.
abbrev turns : List Turn
turns =
    record { counts = 2 ∷ []; lost = true; opened = true; connected = true }
    ∷ record { counts = 1 ∷ 2 ∷ []; lost = false; opened = true; connected = true }
    ∷ []

sent_again : send turns (codes "abc") ≡ (codes "ab" ∷ codes "abc" ∷ [], returned)
unfolding send sendall cut connect reconnect
sent_again = refl

has_returned : (send turns (codes "abc")).1 ≡ returned
has_returned = ap (λ (r : List Bytes × Progress). r.1) sent_again

send-whole_example :
    (before : List Bytes) × ((send turns (codes "abc")).0 ≡ before ++ (codes "abc" ∷ []))
send-whole_example = send-whole turns (codes "abc") has_returned
