-- ===== src/Vm/Image/Untrusted/Reads.antt =====
-- Reads of the parts of a file that consists of any bytes, and the outcomes of its sections.
use opsh_actual.Base.{
  ℕ, zero, suc, ◌<◌, ◌≡◌, refl, Bool, true, false, if◌then◌else◌, Option, none, some, [], ◌∷◌,
  length, All, Bytes, arith, Option-cases, inl, inr,
}
use opsh_actual.Vm.Image.Read.{
  ReadCtx, Outcome, goes_on, refuse, ◌then_with◌, next_byte, ctx_read_u8, ctx_read_u16,
  ctx_read_u32, split_at, take_bytes, ctx_read_bytes,
}

abbrev pub IsByte : ℕ → Type 0
IsByte b = b < 256

-- What is left of the file consists of bytes.
pub record HasBytes (ctx : ReadCtx) : Type 0 where
  pub bytes : All IsByte ctx.rest

pub u8_range :
    (ctx : ReadCtx) → HasBytes ctx → ((ctx_read_u8 ctx).0 < 256) × HasBytes (ctx_read_u8 ctx).1
unfolding ctx_read_u8
u8_range ctx h = by_flag ctx.error ctx.rest h.bytes
  where
    by_flag :
        (flag : Bool) (bs : Bytes)
        → All IsByte bs
        → ((next_byte flag bs ctx).0 < 256) × HasBytes (next_byte flag bs ctx).1
    by_flag true bs all = (omega arith, h)
    by_flag false [] all = (omega arith, record { bytes = tt })
    by_flag false (b ∷ bs) (small, all) = (small, record { bytes = all })

pub u16_range :
    (ctx : ReadCtx) → HasBytes ctx → ((ctx_read_u16 ctx).0 < 65536) × HasBytes (ctx_read_u16 ctx).1
unfolding ctx_read_u16
u16_range ctx h = let (lo, h1) = u8_range ctx h in let (hi, h2) = u8_range _ h1 in (omega arith, h2)

pub u32_bytes : (ctx : ReadCtx) → HasBytes ctx → HasBytes (ctx_read_u32 ctx).1
unfolding ctx_read_u32
u32_bytes ctx h =
    let (b0, h1) = u8_range ctx h in
    let (b1, h2) = u8_range _ h1 in
    let (b2, h3) = u8_range _ h2 in let (b3, h4) = u8_range _ h3 in h4

split_at_parts :
    (n : ℕ) (bs front back : Bytes)
    → All IsByte bs
    → split_at n bs ≡ some (front, back)
    → (length front ≡ n) × All IsByte back
unfolding split_at
split_at_parts zero bs front back all e =
    let nil : front ≡ [] = cc in let same : back ≡ bs = cc in rw (nil, same) (refl, all)
split_at_parts (suc n) [] front back all e = cc
split_at_parts (suc n) (b ∷ bs) front back (small, all) e = elim (Option-cases (split_at n bs)) [
  | inl short ↦ ground arith
  | inr ((f, k), found) ↦
      let (len, rest) = split_at_parts n bs f k all found in
      let head : front ≡ b ∷ f = ground arith in
      let same : back ≡ k = ground arith in rw (head, same) (omega arith, rest)
]

-- The bytes read are as many as asked for.
pub bytes_range :
    (ctx : ReadCtx) (n : ℕ)
    → HasBytes ctx
    → HasBytes (ctx_read_bytes ctx n).1
      × ((s : Bytes) → (ctx_read_bytes ctx n).0 ≡ some s → length s ≡ n)
unfolding ctx_read_bytes
bytes_range ctx n h =
    by_parts ctx.error (split_at n ctx.rest) (λ f k e. split_at_parts n _ f k h.bytes e)
  where
    by_parts :
        (flag : Bool) (parts : Option (Bytes × Bytes))
        → ((f k : Bytes) → parts ≡ some (f, k) → (length f ≡ n) × All IsByte k)
        → HasBytes (take_bytes flag parts ctx).1
          × ((s : Bytes) → (take_bytes flag parts ctx).0 ≡ some s → length s ≡ n)
    by_parts true parts split = (h, λ s e. cc)
    by_parts false none split = (record { bytes = tt }, λ s e. cc)
    by_parts false (some (f, k)) split =
        let (len, rest) = split f k refl in
        (record { bytes = rest }, λ s e. let same : s ≡ f = cc in rw same len)

-- A read either stops with NULL, or leaves bytes and a result with the property; it has no other
-- outcome.
pub data Fine {ℓ κ} {A : Type ℓ} (P : A → Type κ) : Outcome A → Type (ℓ ⊔ κ) where
  goes : {ctx : ReadCtx} {a : A} → HasBytes ctx → P a → Fine P (goes_on ctx a)
  refused : Fine P refuse

pub Fine-then {ℓ κ ℓ' κ'} :
    {A : Type ℓ} {B : Type ℓ'} {P : A → Type κ} {Q : B → Type κ'} {r : Outcome A}
    {f : ReadCtx → A → Outcome B}
    → Fine P r
    → ((ctx : ReadCtx) (a : A) → HasBytes ctx → P a → Fine Q (f ctx a))
    → Fine Q (r then_with f)
Fine-then (goes h p) next = next _ _ h p
Fine-then refused next = refused

pub Fine-if {ℓ κ} :
    {A : Type ℓ} {P : A → Type κ} (b : Bool) {x y : Outcome A}
    → (b ≡ true → Fine P x)
    → (b ≡ false → Fine P y)
    → Fine P (if b then x else y)
Fine-if true x y = x refl
Fine-if false x y = y refl

pub Fine-option {ℓ κ μ} :
    {A : Type ℓ} {B : Type μ} {P : A → Type κ} (o : Option B) {x : Outcome A} {y : B → Outcome A}
    → (o ≡ none → Fine P x)
    → ((b : B) → o ≡ some b → Fine P (y b))
    → Fine P (elim o [ none ↦ x | some b ↦ y b ])
Fine-option none x y = x refl
Fine-option (some b) x y = y b refl

pub either {ℓ κ} :
    {A : Type ℓ} (P : A → Type κ) (b : Bool) {x y : A} → P x → P y → P (if b then x else y)
either P true x y = x
either P false x y = y
