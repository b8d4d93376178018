-- ===== src/Agent.antt =====
-- src/agent/event.c: the events that the machine reports, as JSON-RPC notifications.
-- The results of `write` are an argument; the output is the list of the bytes written.
use opsh_actual.Base.{
  ℕ, zero, suc, Option, none, some, List, [], ◌∷◌, ◌++◌, length, take, drop, Bytes, codes,
}
use opsh_actual.Base.Decimal.{print_nat}
use opsh_actual.Base.Int.{ℤ}
use opsh_actual.Foundation.Json.{json_begin_object, json_end_object, json_key_string, json_key_int}

-- `event_t`, each type with the fields that it uses; a text may be the null pointer.
pub data Event : Type 0 where
  script_start : Option Bytes → Event
  script_end : ℤ → Event
  command_start : ℤ → Option Bytes → Event
  command_end : ℤ → ℤ → Event
  error : Option Bytes → Event

abbrev pub event_type_name : Event → Bytes
event_type_name (script_start file) = codes "scriptStart"
event_type_name (script_end status) = codes "scriptEnd"
event_type_name (command_start id name) = codes "commandStart"
event_type_name (command_end id status) = codes "commandEnd"
event_type_name (error message) = codes "error"

abbrev key_text : Bytes → Bytes → Option Bytes → Bytes
key_text buf key none = buf
key_text buf key (some s) = json_key_string buf key s

abbrev pub event_params : Bytes → Event → Bytes
event_params buf (script_start file) = key_text buf (codes "file") file
event_params buf (script_end status) = json_key_int buf (codes "status") status
event_params buf (command_start id name) =
    key_text (json_key_int buf (codes "id") id) (codes "name") name
event_params buf (command_end id status) =
    json_key_int (json_key_int buf (codes "id") id) (codes "status") status
event_params buf (error message) = key_text buf (codes "message") message

unfoldable pub event_json : Event → Bytes
event_json event =
    let start = json_key_string (json_begin_object []) (codes "jsonrpc") (codes "2.0") in
    let method = json_key_string start (codes "method") (event_type_name event) in
    json_end_object (event_params (method ++ codes ",\"params\":{") event ++ b'}' ∷ [])

-- What a call of `write` returns: a number of bytes, EINTR, or another error.
pub data WriteResult : Type 0 where
  wrote : ℕ → WriteResult
  interrupted failed : WriteResult

-- The loop around `write`: what it has written, and the results of the calls to come.
unfoldable pub write_loop : List WriteResult → Bytes → Bytes × List WriteResult
write_loop results [] = ([], results)
write_loop [] (c ∷ s) = ([], [])
write_loop (wrote zero ∷ results) (c ∷ s) = ([], results)
write_loop (wrote (suc n) ∷ results) (c ∷ s) =
    let (out, later) = write_loop results (drop (suc n) (c ∷ s)) in
    (take (suc n) (c ∷ s) ++ out, later)
write_loop (interrupted ∷ results) (c ∷ s) = write_loop results (c ∷ s)
write_loop (failed ∷ results) (c ∷ s) = ([], results)

-- The body is written also where the header was not.
unfoldable pub write_content_length : List WriteResult → Bytes → Bytes × List WriteResult
unfolding write_loop
write_content_length results json =
    let header = codes "Content-Length: " ++ print_nat (length json) ++ codes "\r\n\r\n" in
    let (first, later) = write_loop results header in
    let (second, last) = write_loop later json in (first ++ second, last)

unfoldable pub stdio_emit : List WriteResult → Event → Bytes × List WriteResult
stdio_emit results event = write_content_length results (event_json event)
