-- ===== src/Update/Send.antt =====
-- Sending the UPDATE message (src/commands/update.rs): send_update of the `update` command and of
-- its ldns form. The resolver and the network are arguments: `lookup_host` gives the sockets of a
-- name at port 53, and `request` the response code of the server at a socket, or none on an error
-- of the transport.
pub mod Walk
use dnst.Base.{
  Bool, true, false, Option, none, some, List, [], ◌∷◌, ◌++◌, Result, ok, err, ◌>>=◌, if◌then◌else◌,
}
use dnst.Dns.{Rcode, noerror, servfail, notimp, other_rcode}
use dnst.Update.Message.{
  UpdateError, lookup_failed, bad_tsig_key, send_failed, unable_to_handle, Try,
}

-- What the command prints at the end: nothing after NOERROR, the code of another response, or that
-- the list of servers is exhausted.
pub data Report : Type 0 where
  updated : Report
  response_was : Rcode → Report
  no_successful_responses : Report

abbrev pub report : Rcode → Report
report noerror = updated
report c = response_was c

-- SERVFAIL and NOTIMP: the server is skipped.
abbrev pub unable : Rcode → Bool
unable servfail = true
unable notimp = true
unable _ = false

-- What became of one socket: an error of the transport, a code for which the server is skipped, or
-- a final answer.
abbrev pub final_answer : Option Rcode → Option Report
final_answer none = none
final_answer (some c) = if unable c then none else some (report c)

-- The ldns form takes any response as final.
abbrev pub ldns_final_answer : Option Rcode → Option Report
ldns_final_answer none = none
ldns_final_answer (some c) = some (report c)

-- The outcome with the sockets that were contacted, in order.
pub record Sent (Socket A : Type 0) : Type 0 where
  pub tried : List Socket
  pub result : A

-- After the request to one socket: a final answer ends the loop, without one it goes on.
abbrev pub after_socket :
    {Socket : Type 0}
    → Socket
    → Option Report
    → Sent Socket (Option Report)
    → Sent Socket (Option Report)
after_socket s (some r) rest = record { tried = s ∷ []; result = some r }
after_socket s none rest = record { tried = s ∷ rest.tried; result = rest.result }

-- After the sockets of one name: stop, or go on with the names left.
abbrev pub after_name :
    {Socket : Type 0}
    → List Socket
    → Option Report
    → Sent Socket (Try Report)
    → Sent Socket (Try Report)
after_name tried (some r) rest = record { tried = tried; result = ok r }
after_name tried none rest = record { tried = tried ++ rest.tried; result = rest.result }

module _ {Socket : Type 0} (answer : Socket → Option Report) where
  -- `for socket in found_ips.port_iter(53)`: none if no socket gave a final answer.
  pub send_to_sockets : List Socket → Sent Socket (Option Report)
  send_to_sockets [] = record { tried = []; result = none }
  send_to_sockets (s ∷ ss) = after_socket s (answer s) (send_to_sockets ss)

  -- The body of the loop over the names: a name that cannot be looked up ends the command.
  abbrev pub with_sockets :
      Option (List Socket) → Sent Socket (Try Report) → Sent Socket (Try Report)
  with_sockets none rest = record { tried = []; result = err lookup_failed }
  with_sockets (some sockets) rest =
      let here = send_to_sockets sockets in after_name here.tried here.result rest

module _ {Name Socket : Type 0} (answer : Socket → Option Report) where
  -- `for name in nsnames`
  pub send_to_names : (Name → Option (List Socket)) → List Name → Sent Socket (Try Report)
  unfolding send_to_sockets
  send_to_names lookup_host [] = record { tried = []; result = ok no_successful_responses }
  send_to_names lookup_host (n ∷ ns) =
      with_sockets answer (lookup_host n) (send_to_names lookup_host ns)

module _ {Socket : Type 0} (request : Socket → Option Rcode) where
  -- A single server given by address: an error of the transport and an unable server are errors.
  pub send_to_server : Socket → Sent Socket (Try Report)
  send_to_server s = record {
    tried = s ∷ [];
    result = elim (request s) [
      | none ↦ err send_failed
      | some c ↦ if unable c then err unable_to_handle else ok (report c)
    ];
  }

  without_names : Option Socket → Sent Socket (Try Report)
  without_names none = record { tried = []; result = ok no_successful_responses }
  without_names (some s) = send_to_server s

module _ {Name Socket : Type 0} (request : Socket → Option Rcode) where
  -- The TSIG key is built first; `tsig_ok` says whether that succeeds (true with no key).
  pub send_update :
      Bool
      → (Name → Option (List Socket))
      → Option Socket
      → Option (List Name)
      → Sent Socket (Try Report)
  unfolding send_to_names without_names send_to_server
  send_update false lookup_host nameserver nsnames = record {
    tried = [];
    result = err bad_tsig_key;
  }
  send_update true lookup_host nameserver (some nsnames) =
      send_to_names (λ s. final_answer (request s)) lookup_host nsnames
  send_update true lookup_host nameserver none = without_names request nameserver

  pub ldns_send_update : Bool → (Name → Option (List Socket)) → List Name → Sent Socket (Try Report)
  unfolding send_to_names
  ldns_send_update false lookup_host nsnames = record { tried = []; result = err bad_tsig_key }
  ldns_send_update true lookup_host nsnames =
      send_to_names (λ s. ldns_final_answer (request s)) lookup_host nsnames
