-- ===== src/Vm/Image/RoundTrip/Parts.antt =====
-- The constants and the rows of a table, written and read back.
use native.Mathlib.Nat.{mod-eq_of_lt}
use mathlib.Core.List.{append_assoc, append-nil}
use opsh_actual.Base.{
  ℕ, zero, suc, ◌+◌, ◌%◌, ◌^◌, ◌≤◌, ◌<◌, ◌≡◌, ◌≢◌, refl, sym, ap, ◌∙◌, false, ltb, ◌==◌, some, List,
  [], ◌∷◌, ◌++◌, length, length-append, map, get_elem?, get_or, All, Bytes, arith, Option-cases,
  inl, inr,
}
use opsh_actual.Base.Run.{◌>>=◌}
use opsh_actual.Vm.Image.{BytecodeImage, vm_const_pool_max, image_add_const}
use opsh_actual.Vm.Image.Pool.{
  IsValidPool, IsDistinct, Absent-of_IsDistinct, image_add_const_new, with_const,
  find_from-get_elem?,
}
use opsh_actual.Vm.Image.Wire.{input, u16_back, u32_back, bytes_back}
use opsh_actual.Vm.Image.Write.{
  write_u16, write_u32, u16, u32, write_consts, write_rows, find_const,
}
use opsh_actual.Vm.Image.Read.{
  ReadCtx, ctx_read_u16, ctx_read_u32, ctx_read_bytes, goes_on, opsb_max_string_size, c_string,
  read_consts, read_rows,
}

-- A C string that the reader takes: it has no NUL and is not too long.
abbrev pub IsStorable : Bytes → Type 0
IsStorable s = All (λ b. b ≢ 0) s × (length s ≤ opsb_max_string_size)

c_string_whole : (s : Bytes) → All (λ b. b ≢ 0) s → c_string s ≡ s
unfolding c_string
c_string_whole [] h = refl
c_string_whole (b ∷ bs) (ne, h) =
    let more : (b == 0) ≡ false = ground arith in rw more (ap (λ r. b ∷ r) (c_string_whole bs h))

pub small_mod : (n m : ℕ) → n < m → n % m ≡ n
small_mod n m h = mod-eq_of_lt h

-- What reading the constants `pool` makes of an image.
pub record Pooled (img : BytecodeImage) (pool : List Bytes) (img' : BytecodeImage) : Type 0 where
  pub valid : IsValidPool img'
  pub constants : img'.const_pool ≡ img.const_pool ++ pool
  pub rest : record img' { const_pool = img.const_pool; const_cap = img.const_cap } ≡ img

read_const_step :
    (count slen : ℕ) (s : Bytes) (ctx c1 c2 : ReadCtx) (img : BytecodeImage)
    → ctx.error ≡ false
    → ctx_read_u32 ctx ≡ (slen, c1)
    → ltb opsb_max_string_size slen ≡ false
    → ctx_read_bytes c1 slen ≡ (some s, c2)
    → read_consts (suc count) ctx img
      ≡ (image_add_const img (c_string s) >>= λ (i, img'). read_consts count c2 img')
unfolding read_consts
read_const_step count slen s ctx c1 c2 img good e1 short e2 = ground arith

const_back :
    (count : ℕ) (s out : Bytes) (img : BytecodeImage)
    → IsStorable s
    → read_consts (suc count) (input (write_u32 (u32 (length s)) ++ s ++ out)) img
      ≡ (image_add_const img s >>= λ (i, img'). read_consts count (input out) img')
const_back count s out img (plain, short) =
    let fits : length s < 2 ^ 32 = omega arith in
    let same : u32 (length s) ≡ length s = small_mod (length s) (2 ^ 32) fits in
    let allowed : ltb opsb_max_string_size (length s) ≡ false = ground arith in
    rw same (
      read_const_step count (length s) s (input (write_u32 (length s) ++ s ++ out))
        (input (s ++ out)) (input out) img refl (u32_back (length s) (s ++ out) fits) allowed
        (bytes_back s out)
      ∙ rw (c_string_whole s plain) refl)

pub consts_back :
    (pool : List Bytes) (img : BytecodeImage) (rest : Bytes)
    → IsValidPool img
    → IsDistinct (img.const_pool ++ pool)
    → length img.const_pool + length pool ≤ vm_const_pool_max
    → All IsStorable pool
    → (img' : BytecodeImage) × (read_consts (length pool) (input (write_consts pool ++ rest)) img
        ≡ goes_on (input rest) img')
      × Pooled img pool img'
unfolding write_consts
consts_back [] img rest v distinct few all = (
  img,
  unfold read_consts in refl,
  record { valid = v; constants = sym (append-nil img.const_pool); rest = refl },
)
consts_back (s ∷ pool) img rest v distinct few (storable, all) =
    let absent = Absent-of_IsDistinct img.const_pool s pool distinct in
    let (run, valid) = image_add_const_new img s v absent (omega arith) in
    let joined = append_assoc img.const_pool (s ∷ []) pool in
    let (img', more, p) =
      consts_back pool (with_const img s) rest valid (rw joined distinct)
        (omega (arith, length-append img.const_pool (s ∷ []))) all in
    let start = const_back (length pool) s (write_consts pool ++ rest) img storable in
    let regroup = append_assoc s (write_consts pool) rest in
    (
      img',
      rw regroup (start ∙ rw run more),
      record {
        valid = p.valid;
        constants = p.constants ∙ joined;
        rest =
            ap
              (λ (i : BytecodeImage).
                let r : BytecodeImage = record i {
                  const_pool = img.const_pool;
                  const_cap = img.const_cap;
                } in
                r)
              p.rest;
      },
    )

get_elem?→get_or {ℓ} :
    {A : Type ℓ} (xs : List A) (i : ℕ) (d a : A) → get_elem? xs i ≡ some a → get_or xs i d ≡ a
get_elem?→get_or [] i d a h = cc
get_elem?→get_or (x ∷ xs) zero d a h = cc
get_elem?→get_or (x ∷ xs) (suc i) d a h = get_elem?→get_or xs i d a h

pub get_elem?-lt_length {ℓ} :
    {A : Type ℓ} (xs : List A) (i : ℕ) {a : A} → get_elem? xs i ≡ some a → i < length xs
get_elem?-lt_length [] i h = cc
get_elem?-lt_length (x ∷ xs) zero h = omega arith
get_elem?-lt_length (x ∷ xs) (suc i) h = omega (arith, get_elem?-lt_length xs i h)

read_row_step {ℓ} :
    {A : Type ℓ} (make : Bytes → ℕ → A) (pool : List Bytes) (cap count idx offset : ℕ)
    (ctx c1 c2 : ReadCtx) (rows : List A)
    → ctx.error ≡ false
    → ctx_read_u16 ctx ≡ (idx, c1)
    → ctx_read_u32 c1 ≡ (offset, c2)
    → c2.error ≡ false
    → length rows < cap
    → read_rows make pool cap (suc count) ctx rows
      ≡ read_rows make pool cap count c2 (rows ++ make (get_or pool idx []) offset ∷ [])
unfolding read_rows
read_row_step make pool cap count idx offset ctx c1 c2 rows good e1 e2 good2 room = ground arith

row_back {ℓ} :
    {A : Type ℓ} (make : Bytes → ℕ → A) (pool : List Bytes) (cap count idx offset : ℕ) (out : Bytes)
    (done : List A)
    → idx < 2 ^ 16
    → offset < 2 ^ 32
    → length done < cap
    → read_rows make pool cap
        (suc count)
        (input (write_u16 (u16 idx) ++ write_u32 (u32 offset) ++ out))
        done
      ≡ read_rows make pool cap count (input out) (done ++ make (get_or pool idx []) offset ∷ [])
row_back make pool cap count idx offset out done small fits room =
    rw (small_mod idx (2 ^ 16) small, small_mod offset (2 ^ 32) fits)
      (read_row_step make pool cap count idx offset
        (input (write_u16 idx ++ write_u32 offset ++ out)) (input (write_u32 offset ++ out))
        (input out) done refl (u16_back idx (write_u32 offset ++ out) small)
        (u32_back offset out fits) refl room)

-- What the rows begin with.
write_rows_first :
    (img : BytecodeImage) (name : Bytes) (offset : ℕ) (rows : List (Bytes × ℕ)) (out : Bytes)
    → write_rows img ((name, offset) ∷ rows) ≡ some out
    → (idx : ℕ) × (more : Bytes) × (find_const img name ≡ some idx)
      × (write_rows img rows ≡ some more)
      × (out ≡ write_u16 (u16 idx) ++ write_u32 (u32 offset) ++ more)
unfolding write_rows
write_rows_first img name offset rows out e = elim (Option-cases (find_const img name)) [
  | inl missing ↦ cc (rw (missing, write_rows) at e)
  | inr (idx, found) ↦ elim (Option-cases (write_rows img rows)) [
    | inl failed ↦ ground arith
    | inr (more, written) ↦ (idx, more, found, written, ground arith)
  ]
]

pub rows_back {ℓ} :
    {A : Type ℓ} (make : Bytes → ℕ → A) (img : BytecodeImage) (rows : List (Bytes × ℕ))
    (out rest : Bytes) (done : List A) (cap : ℕ)
    → length done + length rows ≤ cap
    → length img.const_pool ≤ vm_const_pool_max
    → All (λ (row : Bytes × ℕ). row.1 < 2 ^ 32) rows
    → write_rows img rows ≡ some out
    → read_rows make img.const_pool cap (length rows) (input (out ++ rest)) done
      ≡ goes_on (input rest) (done ++ map (λ (name, offset). make name offset) rows)
rows_back make img [] out rest done cap room small all e =
    let none_left : out ≡ [] = unfold write_rows in cc in
    rw none_left (unfold read_rows in rw append-nil)
rows_back make img ((name, offset) ∷ rows) out rest done cap room small (fits, all) e =
    let (idx, more, found, written, split) = write_rows_first img name offset rows out e in
    let (k, at, here) =
      find_from-get_elem? 0 img.const_pool name idx (unfold find_const in found) in
    let below = get_elem?-lt_length img.const_pool k here in
    let idx_fits : idx < 2 ^ 16 = omega arith in
    let same : idx ≡ k = omega arith in
    let named : get_or img.const_pool idx [] ≡ name =
      get_elem?→get_or img.const_pool idx [] name (rw same here) in
    rw split (
      row_back make img.const_pool cap (length rows) idx offset (more ++ rest) done idx_fits fits
        (omega arith)
      ∙ rw named (
          rows_back make img rows more rest (done ++ make name offset ∷ []) cap
            (omega (arith, length-append done (make name offset ∷ []))) small all written
          ∙ rw append_assoc))
