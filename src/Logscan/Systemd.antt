-- ===== src/Logscan/Systemd.antt =====
-- `systemd_task` of src/logscan/daemon.cpp: what it makes of the datagrams that it receives.
use ctguard.Base.{
  ℕ, zero, suc, Bool, false, ◌&&◌, List, [], ◌∷◌, ◌++◌, Option, none, some, Bytes, codes, ◌==◌,
  if◌then◌else◌, get_elem?,
}
use ctguard.Research.Types.{SourceEvent}

-- The first characters of a datagram, as many as the buffer has room for.
unfoldable pub take : ℕ → Bytes → Bytes
take zero text = []
take (suc n) [] = []
take (suc n) (c ∷ cs) = c ∷ take n cs

-- A text up to its first NUL.
unfoldable pub c_string : Bytes → Bytes
c_string [] = []
c_string (c ∷ cs) = let rest = c_string cs in if c == 0 then [] else c ∷ rest

-- `buffer[i] == c`
unfoldable pub holds : Bytes → ℕ → ℕ → Bool
holds buffer i c = elim (get_elem? buffer i) [ none ↦ false | some b ↦ b == c ]

unfoldable pub skip : ℕ → Bytes → Bytes
skip zero text = text
skip (suc n) [] = []
skip (suc n) (c ∷ cs) = skip n cs

-- What the buffer holds: the datagram, a NUL, and behind it what the memory held before.
unfoldable pub buffer_of : Bytes → Bytes → Bytes
unfolding take
buffer_of memory datagram = take 511 datagram ++ (0 ∷ memory)

unfoldable pub systemd_message : Bytes → Bytes
unfolding holds c_string skip
systemd_message buffer =
    if holds buffer 0 b'<' && holds buffer 3 b'>' then c_string (skip 4 buffer) else c_string buffer

-- A result of `recv`: none for a failure. With the clock, and the memory of the buffer.
pub record Received : Type 0 where
  pub datagram : Option Bytes
  pub now : ℕ
  pub memory : Bytes

unfoldable pub systemd_event : ℕ → Bytes → SourceEvent
systemd_event now message = record {
  hostname = [];
  source_program = codes "ctguard-logscan";
  source_domain = codes "systemd_syslog";
  message = message;
  control_message = false;
  time_scanned = now;
  time_send = 0;
}

-- What is queued, while RUNNING is set.
unfoldable pub systemd_task : List Received → List SourceEvent
unfolding systemd_event systemd_message buffer_of
systemd_task [] = []
systemd_task (r ∷ rs) =
    let rest = systemd_task rs in
    elim (r.datagram) [
      | none ↦ rest
      | some d ↦ systemd_event r.now (systemd_message (buffer_of r.memory d)) ∷ rest
    ]
