-- ===== src/Foundation/Jsonrpc.antt =====
-- src/foundation/jsonrpc.c: messages with a Content-Length header.
-- The input is what is left of it, the output the list of the bytes written.
pub mod RoundTrip
use opsh_actual.Base.{
  ℕ, zero, suc, ◌+◌, ◌*◌, ltb, leb, ◌==◌, ◌&&◌, ◌||◌, if◌then◌else◌, Option, none, some, List, [],
  ◌∷◌, ◌++◌, length, take, drop, Bytes, codes, starts_with,
}
use opsh_actual.Base.Decimal.{print_nat, strtoll}
use opsh_actual.Base.Int.{ℤ, pos, negsuc}
use opsh_actual.Base.Run.{Run, ok, stop, out_of_fuel, ◌>>=◌}
use opsh_actual.Foundation.Json.{json_begin_object, json_end_object, json_key_string, json_key_int}

-- `fgets`: the bytes up to a newline and with it, `n` at most, and what is left.
unfoldable pub take_line : ℕ → Bytes → Bytes × Bytes
take_line zero s = ([], s)
take_line (suc n) [] = ([], [])
take_line (suc n) (c ∷ s) =
    let (line, rest) = take_line n s in if c == b'\n' then (c ∷ [], s) else (c ∷ line, rest)

abbrev pub max_content_length : ℕ
max_content_length = 10 * 1024 * 1024

abbrev pub accepted : ℤ → ℤ → ℤ
accepted (pos val) content_length =
    if ltb 0 val && leb val max_content_length then pos val else content_length
accepted (negsuc val) content_length = content_length

-- What a line makes of the content length so far.
unfoldable pub header_length : Bytes → ℤ → ℤ
header_length line content_length =
    if starts_with (codes "Content-Length:") line
    then accepted (strtoll (drop 15 line)) content_length
    else content_length

-- The loop over the lines, up to an empty one; `none` is the end of the input.
unfoldable pub read_lines : ℕ → ℤ → Bytes → Run (Option (ℤ × Bytes))
read_lines zero content_length s = stop out_of_fuel
read_lines (suc fuel) content_length [] = ok none
read_lines (suc fuel) content_length (c ∷ s) =
    let (line, rest) = take_line 255 (c ∷ s) in
    let more = read_lines fuel (header_length line content_length) rest in
    if c == b'\r' || c == b'\n' then ok (some (content_length, rest)) else more

-- `fread` of the body; fewer bytes than announced are no message.
abbrev pub read_body : ℤ → Bytes → Option Bytes × Bytes
read_body (pos zero) s = (none, s)
read_body (pos (suc n)) s =
    (if length (take (suc n) s) == suc n then some (take (suc n) s) else none, drop (suc n) s)
read_body (negsuc n) s = (none, s)

-- The message, or none for NULL, and what is left. Each line takes a byte.
unfoldable pub jsonrpc_read_message : Bytes → Run (Option Bytes × Bytes)
unfolding read_lines
jsonrpc_read_message s = read_lines (length s + 1) (negsuc 0) s >>= λ header. elim header [
  | none ↦ ok (none, [])
  | some (content_length, rest) ↦ ok (read_body content_length rest)
]

unfoldable pub jsonrpc_send : Bytes → Bytes
jsonrpc_send json = codes "Content-Length: " ++ print_nat (length json) ++ codes "\r\n\r\n" ++ json

-- The beginning of every object that is sent.
abbrev pub begin_message : Bytes
begin_message = json_key_string (json_begin_object []) (codes "jsonrpc") (codes "2.0")

unfoldable pub jsonrpc_send_result : ℤ → Bytes → Bytes
jsonrpc_send_result id result_json = jsonrpc_send (
    json_end_object
      (json_key_int begin_message (codes "id") id ++ codes ",\"result\":" ++ result_json))

unfoldable pub jsonrpc_send_error : ℤ → ℤ → Bytes → Bytes
jsonrpc_send_error id code message =
    let start =
      json_begin_object (json_key_int begin_message (codes "id") id ++ codes ",\"error\":") in
    jsonrpc_send (
      json_end_object (
        json_end_object
          (json_key_string (json_key_int start (codes "code") code) (codes "message") message)))

unfoldable pub jsonrpc_send_notification : Bytes → Bytes → Bytes
jsonrpc_send_notification method params_json = jsonrpc_send (
    json_end_object (
      json_key_string begin_message (codes "method") method ++ codes ",\"params\":" ++ params_json))
