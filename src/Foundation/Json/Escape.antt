-- ===== src/Foundation/Json/Escape.antt =====
-- A written string under the two loops that read strings.
use opsh_actual.Base.{
  ℕ, ◌/◌, ◌%◌, ◌≡◌, refl, ap, ◌∙◌, true, false, not, ◌&&◌, ltb, ◌==◌, if◌then◌else◌, [], ◌∷◌, ◌++◌,
  Bytes, arith, Bool-cases, inl, inr, ◌⊎◌,
}
use opsh_actual.Foundation.Json.{
  escape, escape_all, hex_digit, raw_string, decode_string, json_decode_escape,
}

-- What is read back for a byte that was written.
unfoldable pub mangle : ℕ → Bytes
mangle c =
    if c == 8
    then b'b' ∷ []
    else if c == 12
    then b'f' ∷ []
    else if c == 13
    then b'r' ∷ []
    else if ltb c 0x20 && not (c == 9) && not (c == 10)
    then b'u' ∷ b'0' ∷ b'0' ∷ hex_digit (c / 16) ∷ hex_digit (c % 16) ∷ []
    else c ∷ []

unfoldable pub mangle_all : Bytes → Bytes
mangle_all [] = []
mangle_all (c ∷ s) = mangle c ++ mangle_all s

abbrev Short : ℕ → Type 0
Short c = (e : ℕ) × (escape c ≡ b'\\' ∷ e ∷ []) × (mangle c ≡ json_decode_escape e ∷ [])

abbrev Coded : ℕ → Type 0
Coded c =
    (h : ℕ) × (l : ℕ) × (escape c ≡ b'\\' ∷ b'u' ∷ b'0' ∷ b'0' ∷ h ∷ l ∷ [])
    × (mangle c ≡ b'u' ∷ b'0' ∷ b'0' ∷ h ∷ l ∷ [])
    × ((h == b'"') ≡ false)
    × ((h == b'\\') ≡ false)
    × ((l == b'"') ≡ false)
    × ((l == b'\\') ≡ false)

abbrev Itself : ℕ → Type 0
Itself c =
    (escape c ≡ c ∷ []) × (mangle c ≡ c ∷ []) × ((c == b'"') ≡ false) × ((c == b'\\') ≡ false)

-- The three ways to write a byte.
escape-cases : (c : ℕ) → Short c ⊎ (Coded c ⊎ Itself c)
unfolding escape mangle json_decode_escape
escape-cases c = elim (Bool-cases (c == b'"')) [
  | inl e ↦ inl (b'"', rw e, quote e)
  | inr a ↦ elim (Bool-cases (c == b'\\')) [
    | inl e ↦ inl (b'\\', rw (a, e), backslash e)
    | inr b ↦ elim (Bool-cases (c == 8)) [
      | inl e ↦ inl (b'b', rw (a, b, e), rw e)
      | inr d ↦ elim (Bool-cases (c == 12)) [
        | inl e ↦ inl (b'f', rw (a, b, d, e), rw (d, e))
        | inr f ↦ elim (Bool-cases (c == 10)) [
          | inl e ↦ inl (b'n', rw (a, b, d, f, e), newline e)
          | inr g ↦ elim (Bool-cases (c == 13)) [
            | inl e ↦ inl (b'r', rw (a, b, d, f, g, e), rw (d, f, e))
            | inr h ↦ elim (Bool-cases (c == 9)) [
              | inl e ↦ inl (b't', rw (a, b, d, f, g, h, e), tab e)
              | inr i ↦ elim (Bool-cases (ltb c 0x20)) [
                | inl e ↦
                    let (p, q, r, s) = hex_digits in
                    inr (
                      inl (
                        hex_digit (c / 16),
                        hex_digit (c % 16),
                        rw (a, b, d, f, g, h, i, e),
                        rw (d, f, h, e, i, g),
                        p,
                        q,
                        r,
                        s,
                      ))
                | inr k ↦ inr (inr (rw (a, b, d, f, g, h, i, k), rw (d, f, h, k), a, b))
              ]
            ]
          ]
        ]
      ]
    ]
  ]
]
  where
    quote : (c == b'"') ≡ true → mangle c ≡ b'"' ∷ []
    quote e = ground arith

    backslash : (c == b'\\') ≡ true → mangle c ≡ b'\\' ∷ []
    backslash e = ground arith

    newline : (c == 10) ≡ true → mangle c ≡ 10 ∷ []
    newline e = ground arith

    tab : (c == 9) ≡ true → mangle c ≡ 9 ∷ []
    tab e = ground arith

    digit : (d : ℕ) → ((hex_digit d == b'"') ≡ false) × ((hex_digit d == b'\\') ≡ false)
    digit d = (ground arith, ground arith)

    hex_digits :
        ((hex_digit (c / 16) == b'"') ≡ false)
        × ((hex_digit (c / 16) == b'\\') ≡ false)
        × ((hex_digit (c % 16) == b'"') ≡ false)
        × ((hex_digit (c % 16) == b'\\') ≡ false)
    hex_digits = ((digit (c / 16)).0, (digit (c / 16)).1, (digit (c % 16)).0, (digit (c % 16)).1)

append_assoc : (xs ys zs : Bytes) → (xs ++ ys) ++ zs ≡ xs ++ (ys ++ zs)
append_assoc [] ys zs = refl
append_assoc (x ∷ xs) ys zs = ap (λ l. x ∷ l) (append_assoc xs ys zs)

-- The raw loop over one written byte.
raw_string-escape :
    (c : ℕ) (t : Bytes)
    → raw_string false (escape c ++ t)
      ≡ (escape c ++ (raw_string false t).0, (raw_string false t).1)
unfolding raw_string
raw_string-escape c t = elim (escape-cases c) [
  | inl (e, written, back) ↦ rw written
  | inr (inl (h, l, written, back, p, q, r, s)) ↦ rw written (rw (p, q, r, s))
  | inr (inr (written, back, p, q)) ↦ rw written (rw (p, q))
]

-- The raw loop ends behind the string, and gives what was written.
pub raw_string-escape_all :
    (s rest : Bytes) → raw_string false (escape_all s ++ b'"' ∷ rest) ≡ (escape_all s, rest)
unfolding escape_all raw_string
raw_string-escape_all [] rest = refl
raw_string-escape_all (c ∷ s) rest =
    let deeper = raw_string-escape_all s rest in
    rw (append_assoc (escape c) (escape_all s) (b'"' ∷ rest))
      (raw_string-escape c (escape_all s ++ b'"' ∷ rest) ∙ ap (λ r. (escape c ++ r.0, r.1)) deeper)

decode_string-escape :
    (c : ℕ) (t : Bytes) → decode_string false (escape c ++ t) ≡ mangle c ++ decode_string false t
unfolding decode_string json_decode_escape
decode_string-escape c t = elim (escape-cases c) [
  | inl (e, written, back) ↦ rw (written, back)
  | inr (inl (h, l, written, back, p, q, r, s)) ↦ rw (written, back) (rw (p, q, r, s))
  | inr (inr (written, back, p, q)) ↦ rw (written, back) (rw (p, q))
]

-- The decoding loop gives each byte as it is mangled.
pub decode_string-escape_all :
    (s rest : Bytes) → decode_string false (escape_all s ++ b'"' ∷ rest) ≡ mangle_all s
unfolding escape_all mangle_all decode_string
decode_string-escape_all [] rest = refl
decode_string-escape_all (c ∷ s) rest =
    let deeper = decode_string-escape_all s rest in
    rw (append_assoc (escape c) (escape_all s) (b'"' ∷ rest))
      (decode_string-escape c (escape_all s ++ b'"' ∷ rest) ∙ ap (λ r. mangle c ++ r) deeper)
