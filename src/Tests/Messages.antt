-- ===== src/Tests/Messages.antt =====
-- Messages with a header.
use opsh_actual.Base.{◌≡◌, refl, [], ◌++◌, none, some, codes, starts_with, arith}
use opsh_actual.Base.Decimal.{print_nat, print_int, strtoll, read_digits}
use opsh_actual.Base.Int.{pos, negsuc}
use opsh_actual.Base.Run.{ok}
use opsh_actual.Foundation.Json.{
  json_maybe_comma, json_begin_object, json_end_object, json_key_string, json_key_int,
  json_write_string, escape_all, escape,
}
use opsh_actual.Foundation.Jsonrpc.{
  take_line, header_length, read_lines, jsonrpc_read_message, jsonrpc_send, jsonrpc_send_error,
}
use opsh_actual.Foundation.Jsonrpc.RoundTrip.{jsonrpc_read_message-jsonrpc_send}

program : Unit {0}
unfolding starts_with print_nat print_int strtoll read_digits json_maybe_comma json_begin_object
    json_end_object json_key_string json_key_int json_write_string escape_all escape take_line
    header_length read_lines jsonrpc_read_message jsonrpc_send jsonrpc_send_error
program = tt

refused :
    jsonrpc_send_error (pos 7) (negsuc 0) (codes "no")
    ≡ codes "Content-Length: 59\r\n\r\n"
      ++ codes "{\"jsonrpc\":\"2.0\",\"id\":7,\"error\":{\"code\":-1,\"message\":\"no\"}}"
unfolding program
refused = refl

-- A length that is not accepted leaves the one before it.
two_lengths :
    jsonrpc_read_message (codes "Content-Length: 2\nContent-Length: x\n\n{}z")
    ≡ ok (some (codes "{}"), codes "z")
unfolding program
two_lengths = refl

cut : jsonrpc_read_message (codes "Content-Length: 3\n\n{}") ≡ ok (none, [])
unfolding program
cut = refl

jsonrpc_read_message-jsonrpc_send_example :
    jsonrpc_read_message (jsonrpc_send (codes "{}") ++ codes "C")
    ≡ ok (some (codes "{}"), codes "C")
jsonrpc_read_message-jsonrpc_send_example =
    jsonrpc_read_message-jsonrpc_send (codes "{}") (codes "C") (omega arith) (omega arith)
