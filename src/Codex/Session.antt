-- ===== src/Codex/Session.antt =====
-- src/limit_halo/codex_protocol.py, `CodexSession`: the requests and the notifications. What the
-- transport gives until a deadline is a list: a message, or nothing within a slice of the time, or
-- a failure of the reader. The end of the list is the deadline.
use limit_halo.Prelude.{
  ◌*◌, ◌^◌, ℕ, suc, String, Bool, true, false, ◌||◌, ◌&&◌, not, Option, none, some, List, [], ◌∷◌,
  str_eq, ◌==◌, if◌then◌else◌, mem, same_set,
}
use limit_halo.Prelude.Int.{pos}
use limit_halo.Prelude.Result.{Result, ok, err, protocol_failure, Error, ◌>>=◌, ◌>>◌, raise_if}
use limit_halo.Json.{float, finite, Value, Fields, empty, entry, int, str, obj, get, keys}
use limit_halo.Model.Metric.{Metric}
use limit_halo.Codex.{bool, has_key, account_is_usable, normalize_rate_limits}

-- A message that was sent: the method and the identifier of a request.
pub record Sent : Type 0 where
  pub method : String
  pub request_id : Option ℕ

pub record Session : Type 0 where
  pub next_id : ℕ
  pub pending_update : Bool
  pub sent : List Sent

abbrev pub new_session : Session
new_session = record { next_id = 1; pending_update = false; sent = [] }

abbrev pub Script : Type 0
Script = List (Result (Option Fields))

abbrev unexpected : Error
unexpected = protocol_failure "unexpected app-server notification or request"

-- `remoteControl/status/changed`
status_changed : Fields → Value → Result Bool
status_changed message (int (pos emitted)) =
    if same_set (keys message) ("method" ∷ "params" ∷ "emittedAtMs" ∷ [])
    then ok false
    else err (protocol_failure "malformed remote-control status notification")
status_changed message _ = err (protocol_failure "malformed remote-control status notification")

-- `account/rateLimits/updated`: its snapshot is checked like that of an answer.
limits_updated : Fields → ℕ → Result Bool
limits_updated params now =
    raise_if (not (has_key "rateLimits" params)) (protocol_failure "malformed rate-limit update")
    >> normalize_rate_limits (obj (entry "rateLimits" (get "rateLimits" params) empty)) now
    >>= λ _. ok true

notification_parts : Fields → Value → Value → ℕ → Result Bool
unfolding status_changed limits_updated
notification_parts message (str method) (obj params) now =
    if str_eq method "remoteControl/status/changed"
    then status_changed message (get "emittedAtMs" message)
    else if not (same_set (keys message) ("method" ∷ "params" ∷ []))
    then err unexpected
    else if not (str_eq method "account/rateLimits/updated")
    then err (protocol_failure "unexpected app-server notification")
    else limits_updated params now
notification_parts message _ _ now = err unexpected

-- `_notification`: true for "update", false for "ignored".
unfoldable pub notification : Fields → ℕ → Result Bool
unfolding notification_parts
notification message now =
    notification_parts message (get "method" message) (get "params" message) now

abbrev set_pending : Bool → Session → Session
set_pending b s = record s { pending_update = b || s.pending_update }

-- `message.get("id") == request_id`: Python's equality of numbers, truth values among them.
same_number : Value → ℕ → Bool
same_number (int (pos n)) request_id = n == request_id
same_number (bool b) request_id = (if b then 1 else 0) == request_id
same_number (float (finite negative mantissa scale)) request_id =
    (not negative || mantissa == 0) && mantissa == request_id * 2 ^ scale
same_number _ request_id = false

-- The result of a message that is no notification.
answer_of : ℕ → Fields → Value → Result Fields
unfolding same_number
answer_of request_id message (obj result) =
    if same_set (keys message) ("id" ∷ "result" ∷ []) && same_number (get "id" message) request_id
    then ok result
    else err (protocol_failure "app-server response rejected")
answer_of request_id message _ = err (protocol_failure "app-server response rejected")

abbrev pub Reply : Type 0
Reply = Result Fields × Session × Script

noted : Result Bool → Session → (Session → Reply) → Script → Reply
noted (err e) s next rest = (err e, s, rest)
noted (ok update) s next rest = next (set_pending update s)

-- The loop of `_request`.
unfoldable pub await_answer : ℕ → ℕ → Script → Session → Reply
unfolding noted answer_of
await_answer request_id now [] s = (err (protocol_failure "app-server request deadline"), s, [])
await_answer request_id now (err e ∷ rest) s = (err e, s, rest)
await_answer request_id now (ok none ∷ rest) s = await_answer request_id now rest s
await_answer request_id now (ok (some message) ∷ rest) s =
    let next = await_answer request_id now rest in
    if has_key "method" message
    then noted (notification message now) s next rest
    else (answer_of request_id message (get "result" message), s, rest)

-- `_request`: the identifier is used up, the message is sent, and the answer is awaited.
unfoldable pub send_request : String → ℕ → Script → Session → Reply
unfolding await_answer
send_request method now script s =
    if not (mem method ("initialize" ∷ "account/read" ∷ "account/rateLimits/read" ∷ []))
    then (err (protocol_failure "request outside fixed protocol"), s, script)
    else await_answer s.next_id now script (record s {
      next_id = suc s.next_id;
      sent = record { method = method; request_id = some s.next_id } ∷ s.sent;
    })

abbrev pub Reading : Type 0
Reading = Result (List Metric) × Session × Script

limits_of : ℕ → Reply → Reading
limits_of now (err e, s, rest) = (err e, s, rest)
limits_of now (ok result, s, rest) = (normalize_rate_limits (obj result) now, s, rest)

-- `read`
unfoldable pub read_limits : ℕ → Script → Session → Reading
unfolding limits_of send_request
read_limits now script s = limits_of now (send_request "account/rateLimits/read" now script s)

authorized : Result Bool → ℕ → Session → Script → Reading
unfolding read_limits
authorized (err e) now s rest = (err e, s, rest)
authorized (ok false) now s rest =
    (err (Error.authorization_required "Codex authorization required"), s, rest)
authorized (ok true) now s rest = read_limits now rest s

account_checked : ℕ → Reply → Reading
unfolding authorized
account_checked now (err e, s, rest) = (err e, s, rest)
account_checked now (ok result, s, rest) = authorized (account_is_usable (obj result)) now s rest

initialized : ℕ → Reply → Reading
unfolding account_checked send_request
initialized now (err e, s, rest) = (err e, s, rest)
initialized now (ok _, s, rest) = account_checked now (
    send_request "account/read" now rest
      (record s { sent = record { method = "initialized"; request_id = none } ∷ s.sent }))

-- `initialize_and_read`
unfoldable pub initialize_and_read : ℕ → Script → Session → Reading
unfolding initialized send_request
initialize_and_read now script s = initialized now (send_request "initialize" now script s)

-- `wait_for_update`: the first update ends it; the script ends at the time limit.
unfoldable pub wait_script : ℕ → Script → Session → Result Bool × Session × Script
wait_script now [] s = (ok false, s, [])
wait_script now (err e ∷ rest) s = (err e, s, rest)
wait_script now (ok none ∷ rest) s = (ok false, s, rest)
wait_script now (ok (some message) ∷ rest) s = elim (notification message now) [
  | err e ↦ (err e, s, rest)
  | ok true ↦ (ok true, s, rest)
  | ok false ↦ wait_script now rest s
]

unfoldable pub wait_for_update : ℕ → Script → Session → Result Bool × Session × Script
unfolding wait_script
wait_for_update now script s =
    if s.pending_update
    then (ok true, record s { pending_update = false }, script)
    else wait_script now script s
