-- ===== src/Entry/Core.antt =====
-- main.go: RunCore, with ConnectIPC of internal/ipc/ipc_unix.go. log.Fatal ends the process.
pub mod Served
use nunya_core.Common.{
  ℕ, zero, suc, ◌+◌, Bool, true, false, not, Option, none, some, List, [], ◌∷◌, ◌==◌, if◌then◌else◌,
}
use nunya_core.Entry.Parent.{Paths, check_parent_process}

-- What comes of one net.Dial: an error, or a connection with what its queries yield.
pub record Peer : Type 0 where
  pub conn : ℕ
  pub is_unix : Bool
  pub has_raw_conn : Bool
  pub controls : Bool
  pub pid : Option ℕ

pub data Dialed : Type 0 where
  refused : Dialed
  dialed : Peer → Dialed

pub data Connected : Type 0 where
  failed : Connected
  fatal : Connected
  connected : ℕ → Connected

abbrev pub check_pid : ℕ → ℕ → Option ℕ → Connected
check_pid expected conn none = fatal
check_pid expected conn (some pid) = if pid == expected then connected conn else fatal

abbrev pub check_peer : ℕ → Peer → Connected
check_peer expected p =
    if not p.is_unix
    then fatal
    else if not p.has_raw_conn
    then fatal
    else if not p.controls
    then fatal
    else check_pid expected p.conn p.pid

abbrev pub connect_ipc : ℕ → Dialed → Connected
connect_ipc expected refused = failed
connect_ipc expected (dialed p) = check_peer expected p

-- How the process ends, or that it serves a connection and ends when that has dropped.
pub data Outcome : Type 0 where
  no_socket : Outcome
  unexpected_parent : Outcome
  unexpected_peer : Outcome
  not_connected : Outcome
  serves : ℕ → Outcome

abbrev pub after_attempt : Connected → Outcome → Outcome
after_attempt failed rest = rest
after_attempt fatal rest = unexpected_peer
after_attempt (connected conn) rest = serves conn

-- The loop over the attempts, with those that are left and the number of the next one.
unfoldable pub connect : ℕ → (ℕ → Dialed) → ℕ → ℕ → Outcome
connect expected dial zero i = not_connected
connect expected dial (suc left) i =
    after_attempt (connect_ipc expected (dial i)) (connect expected dial left (i + 1))

abbrev pub attempts : ℕ
attempts = 10

abbrev pub is_empty : List ℕ → Bool
is_empty [] = true
is_empty (c ∷ cs) = false

-- With the name of the socket, empty if it is not set.
unfoldable pub run_core : List ℕ → Paths → ℕ → (ℕ → Dialed) → Outcome
unfolding connect
run_core socket_name paths parent_pid dial =
    if is_empty socket_name
    then no_socket
    else if not (check_parent_process paths)
    then unexpected_parent
    else connect parent_pid dial attempts 0
