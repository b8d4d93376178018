-- ===== src/Foundation/Jsonrpc/RoundTrip.antt =====
-- A message that is sent is read back.
use mathlib.Core.List.{append_assoc}
use opsh_actual.Base.{
  ℕ, zero, suc, ◌+◌, ◌≤◌, ◌<◌, ◌≡◌, ◌≢◌, refl, ap, ◌∙◌, true, false, ltb, leb, ◌==◌, ◌||◌, some, [],
  ◌∷◌, ◌++◌, length, length-append, take, drop, All, Bytes, codes, arith, starts_with,
}
use opsh_actual.Base.Decimal.{print_nat, digit_value}
use opsh_actual.Base.Decimal.Inside.{IsDigit, print_nat-bounds, strtoll-print_nat}
use opsh_actual.Base.Int.{ℤ, pos, negsuc}
use opsh_actual.Base.Run.{ok}
use opsh_actual.Foundation.Jsonrpc.{
  take_line, max_content_length, header_length, read_lines, read_body, jsonrpc_read_message,
  jsonrpc_send,
}

take_line-newline :
    (n : ℕ) (line rest : Bytes)
    → All (λ c. c ≢ b'\n') line
    → length line < n
    → take_line n (line ++ b'\n' ∷ rest) ≡ (line ++ b'\n' ∷ [], rest)
unfolding take_line
take_line-newline zero line rest all h = absurd (omega arith)
take_line-newline (suc n) [] rest all h = refl
take_line-newline (suc n) (c ∷ line) rest (other, all) h =
    let back = take_line-newline n line rest all (omega arith) in
    let inside : (c == b'\n') ≡ false = ground arith in rw (back, inside) refl

-- One round of the loop over the lines.
read_lines-line :
    (fuel c : ℕ) (content_length : ℤ) (s line rest : Bytes)
    → (c == b'\r' || c == b'\n') ≡ false
    → take_line 255 (c ∷ s) ≡ (line, rest)
    → read_lines (suc fuel) content_length (c ∷ s)
      ≡ read_lines fuel (header_length line content_length) rest
unfolding read_lines
read_lines-line fuel c content_length s line rest inside e = rw (inside, e) refl

read_lines-empty :
    (fuel : ℕ) (content_length : ℤ) (s : Bytes)
    → read_lines (suc fuel) content_length (b'\r' ∷ b'\n' ∷ s) ≡ ok (some (content_length, s))
unfolding read_lines take_line
read_lines-empty fuel content_length s = refl

abbrev line : Bytes → Bytes
line digits = codes "Content-Length: " ++ (digits ++ b'\r' ∷ [])

regroup :
    (head digits json rest : Bytes)
    → (head ++ digits ++ codes "\r\n\r\n" ++ json) ++ rest
      ≡ (head ++ (digits ++ b'\r' ∷ [])) ++ b'\n' ∷ b'\r' ∷ b'\n' ∷ (json ++ rest)
regroup head digits json rest = simp (append_assoc)

header_length-line :
    (n : ℕ)
    → 0 < n
    → n ≤ max_content_length
    → header_length (line (print_nat n) ++ b'\n' ∷ []) (negsuc 0) ≡ pos n
unfolding header_length starts_with digit_value
header_length-line n some_bytes small =
    let ends : ltb (digit_value b'\r') 10 ≡ false = refl in
    let read = strtoll-print_nat n b'\r' (b'\n' ∷ []) (omega arith) ends in
    let positive : ltb 0 n ≡ true = ground arith in
    let within : leb n max_content_length ≡ true = ground arith in
    rw (append_assoc, read, positive, within) refl

take-length : (xs ys : Bytes) → take (length xs) (xs ++ ys) ≡ xs
take-length [] ys = refl
take-length (x ∷ xs) ys = ap (λ zs. x ∷ zs) (take-length xs ys)

drop-length : (xs ys : Bytes) → drop (length xs) (xs ++ ys) ≡ ys
drop-length [] ys = refl
drop-length (x ∷ xs) ys = drop-length xs ys

read_body-json :
    (json rest : Bytes)
    → 0 < length json
    → read_body (pos (length json)) (json ++ rest) ≡ (some json, rest)
read_body-json [] rest h = absurd (omega arith)
read_body-json (c ∷ json) rest h =
    let same : (suc (length json) == suc (length json)) ≡ true = ground arith in
    rw (take-length json rest, drop-length json rest, same) refl

in_line-All : (digits : Bytes) → All IsDigit digits → All (λ c. c ≢ b'\n') (digits ++ b'\r' ∷ [])
in_line-All [] all = (omega arith, tt)
in_line-All (c ∷ digits) ((low, high), all) = (omega arith, in_line-All digits all)

line-All :
    (head digits : Bytes)
    → All (λ c. c ≢ b'\n') head
    → All IsDigit digits
    → All (λ c. c ≢ b'\n') (head ++ (digits ++ b'\r' ∷ []))
line-All [] digits in_head all = in_line-All digits all
line-All (c ∷ head) digits (other, in_head) all = (other, line-All head digits in_head all)

-- The two lines of the header.
read_lines-lines :
    (fuel n : ℕ) (s : Bytes)
    → 1 < fuel
    → 0 < n
    → n ≤ max_content_length
    → read_lines fuel (negsuc 0) (line (print_nat n) ++ b'\n' ∷ b'\r' ∷ b'\n' ∷ s)
      ≡ ok (some (pos n, s))
read_lines-lines zero n s h some_bytes small = absurd (omega arith)
read_lines-lines (suc zero) n s h some_bytes small = absurd (omega arith)
read_lines-lines (suc (suc fuel)) n s h some_bytes small =
    let (short, digits) = print_nat-bounds n (omega arith) in
    let all = line-All (codes "Content-Length: ") (print_nat n) (omega arith) digits in
    let within : length (line (print_nat n)) < 255 =
      omega (arith, length-append (print_nat n) (b'\r' ∷ [])) in
    read_lines-line (suc fuel) b'C' (negsuc 0) _ _ (b'\r' ∷ b'\n' ∷ s) refl
      (take_line-newline 255 (line (print_nat n)) (b'\r' ∷ b'\n' ∷ s) all within)
    ∙ ap (λ len. read_lines (suc fuel) len (b'\r' ∷ b'\n' ∷ s))
        (header_length-line n some_bytes small)
    ∙ read_lines-empty fuel (pos n) s

read_message :
    (s t : Bytes) (n : ℤ)
    → read_lines (length s + 1) (negsuc 0) s ≡ ok (some (n, t))
    → jsonrpc_read_message s ≡ ok (read_body n t)
unfolding jsonrpc_read_message
read_message s t n e = rw e refl

-- A message of a byte at least and of 10 MB at most that is sent is read back, and what follows it is
-- left to read.
pub jsonrpc_read_message-jsonrpc_send :
    (json rest : Bytes)
    → 0 < length json
    → length json ≤ max_content_length
    → jsonrpc_read_message (jsonrpc_send json ++ rest) ≡ ok (some json, rest)
unfolding jsonrpc_send
jsonrpc_read_message-jsonrpc_send json rest some_bytes small =
    let n = length json in
    ap jsonrpc_read_message (regroup (codes "Content-Length: ") (print_nat n) json rest)
    ∙ read_message _ (json ++ rest) (pos n)
        (read_lines-lines _ n (json ++ rest) (omega arith) some_bytes small)
    ∙ ap ok (read_body-json json rest some_bytes)
