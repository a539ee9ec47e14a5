-- ===== src/Warp/Client.antt =====
-- internal/warp/api.go: the calls of the API and the search for a host to register at. What a host
-- does with a request is the argument Exchange; a text is a list of code points.
pub mod Once
use nunya_core.Common.{
  ℕ, ◌≡◌, Bool, true, false, not, ◌&&◌, ◌||◌, Option, none, some, List, [], ◌∷◌, ◌==◌,
  if◌then◌else◌, leb, ltb, map, codes, is_prefix, eq_text, has_text, Try, fails, gives, drop,
  length,
}

pub record Peer : Type 0 where
  pub public_key : List ℕ
  pub host : List ℕ

-- What the code reads of a decoded answer.
pub record Device : Type 0 where
  pub id : List ℕ
  pub token : List ℕ
  pub license : List ℕ
  pub client_id : List ℕ
  pub v4 : List ℕ
  pub v6 : List ℕ
  pub peers : List Peer

-- What comes of a request: no connection is made; one is, but no answer comes; the answer cannot be
-- read to its end; or it is read, with its status and what it decodes to.
pub data Exchange : Type 0 where
  unreachable unanswered truncated : Exchange
  answered : ℕ → Option Device → Exchange

-- statusError, or any other error.
pub data CallError : Type 0 where
  status : ℕ → CallError
  other : CallError

abbrev pub decoded : Option Device → Try CallError Device
decoded none = fails other
decoded (some d) = gives d

unfoldable pub call : Exchange → Try CallError Device
call unreachable = fails other
call unanswered = fails other
call truncated = fails other
call (answered code body) =
    if ltb code 200 || leb 300 code then fails (status code) else decoded body

-- GotConn has been called.
abbrev pub connected : Exchange → Bool
connected unreachable = false
connected unanswered = true
connected truncated = true
connected (answered code body) = true

unfoldable pub is_rejected : CallError → Bool
is_rejected (status code) = leb 400 code && ltb code 500 && not (code == 429)
is_rejected other = false

-- A host, what comes of the request to it, and whether the context is done after it.
pub record Attempt : Type 0 where
  pub host : List ℕ
  pub exchange : Exchange
  pub done : Bool

pub record Failure : Type 0 where
  pub host : List ℕ
  pub error : CallError

pub record Registered : Type 0 where
  pub host : List ℕ
  pub device : Device

abbrev pub failed_with : Failure → Try (List Failure) Registered → Try (List Failure) Registered
failed_with f (fails failures) = fails (f ∷ failures)
failed_with f (gives r) = gives r

-- After one host, with what the loop does with the others.
abbrev pub after_call :
    Attempt → Try CallError Device → Try (List Failure) Registered → Try (List Failure) Registered
after_call x (gives d) rest = gives (record { host = x.host; device = d })
after_call x (fails e) rest =
    if (connected x.exchange && not (is_rejected e)) || x.done
    then fails (record { host = x.host; error = e } ∷ [])
    else failed_with (record { host = x.host; error = e }) rest

unfoldable pub register : List Attempt → Try (List Failure) Registered
unfolding call is_rejected
register [] = fails []
register (x ∷ hosts) = let rest = register hosts in after_call x (call x.exchange) rest
