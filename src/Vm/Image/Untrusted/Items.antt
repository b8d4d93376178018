-- ===== src/Vm/Image/Untrusted/Items.antt =====
-- The constants and the rows of a table, read from any bytes.
use opsh_actual.Base.{
  ℕ, zero, suc, ◌+◌, ◌≤◌, ◌≡◌, refl, ap, ◌∙◌, ltb, some, List, [], ◌∷◌, ◌++◌, length, get_elem?,
  length-append, ◌<◌, get_or, All, Bytes, arith, inl, inr, ◌⊎◌,
}
use opsh_actual.Vm.Image.{BytecodeImage, vm_const_pool_max}
use opsh_actual.Vm.Image.Pool.{IsValidPool, image_add_const-Added}
use opsh_actual.Vm.Image.Read.{
  ReadCtx, opsb_max_string_size, ctx_read_u16, ctx_read_u32, ctx_read_bytes, c_string, read_consts,
  read_rows,
}
use opsh_actual.Vm.Image.Untrusted.Reads.{
  HasBytes, u16_range, u32_bytes, bytes_range, Fine, goes, refused, Fine-if, Fine-option,
}

-- What reading constants keeps of an image: all but its pool.
pub record Constants (start : BytecodeImage) (img : BytecodeImage) : Type 0 where
  pub valid : IsValidPool img
  pub kept : record img { const_pool = start.const_pool; const_cap = start.const_cap } ≡ start

pub read_consts-Fine :
    (count : ℕ) (ctx : ReadCtx) (start img : BytecodeImage)
    → HasBytes ctx
    → Constants start img
    → length img.const_pool + count ≤ vm_const_pool_max
    → Fine (Constants start) (read_consts count ctx img)
unfolding read_consts
read_consts-Fine zero ctx start img h c few = goes h c
read_consts-Fine (suc count) ctx start img h c few =
    let slen = (ctx_read_u32 ctx).0 in
    let c1 = (ctx_read_u32 ctx).1 in
    let (h2, whole) = bytes_range c1 slen (u32_bytes ctx h) in
    Fine-if ctx.error (λ bad. goes h c)
      λ good.
        Fine-if (ltb opsb_max_string_size slen) (λ long. refused)
          λ short.
            Fine-option (ctx_read_bytes c1 slen).0 (λ missing. goes h2 c)
              λ s got. elim (image_add_const-Added img (c_string s) c.valid) [
                | inl (run, absent, full) ↦ absurd (omega arith)
                | inr ((i, img'), run, added) ↦
                    let reset = λ (j : BytecodeImage).
                      let r : BytecodeImage = record j {
                        const_pool = start.const_pool;
                        const_cap = start.const_cap;
                      } in
                      r in
                    let c' : Constants start img' = record {
                      valid = added.valid;
                      kept = ap reset added.rest ∙ c.kept;
                    } in
                    rw run (
                      read_consts-Fine count (ctx_read_bytes c1 slen).1 start img' h2 c'
                        (omega (arith, added.one_more)))
              ]

-- A row's name is empty or a constant.
abbrev pub IsNamed : List Bytes → Bytes → Type 0
IsNamed pool name = (name ≡ []) ⊎ ((i : ℕ) × (get_elem? pool i ≡ some name))

get_or-IsNamed : (pool : List Bytes) (i : ℕ) → IsNamed pool (get_or pool i [])
get_or-IsNamed [] i = inl refl
get_or-IsNamed (s ∷ pool) zero = inr (0, refl)
get_or-IsNamed (s ∷ pool) (suc i) = elim (get_or-IsNamed pool i) [
  | inl e ↦ inl e
  | inr (j, e) ↦ inr (suc j, e)
]

All-append_one {ℓ κ} :
    {A : Type ℓ} (P : A → Type κ) (xs : List A) (a : A) → All P xs → P a → All P (xs ++ a ∷ [])
All-append_one P [] a all h = (h, tt)
All-append_one P (x ∷ xs) a (p, all) h = (p, All-append_one P xs a all h)

module _ {A : Type 0} (make : Bytes → ℕ → A) (name : A → Bytes) (pool : List Bytes) where
  abbrev pub AllNamed : List A → Type 0
  AllNamed rows = All (λ (a : A). IsNamed pool (name a)) rows

  -- The array has room for the rows that are to come, so no store misses it.
  pub read_rows-Fine :
      (cap count : ℕ) (ctx : ReadCtx) (rows : List A)
      → ((n : Bytes) (o : ℕ) → name (make n o) ≡ n)
      → length rows + count ≤ cap
      → HasBytes ctx
      → AllNamed rows
      → Fine AllNamed (read_rows make pool cap count ctx rows)
  unfolding read_rows
  read_rows-Fine cap zero ctx rows same room h all = goes h all
  read_rows-Fine cap (suc count) ctx rows same room h all =
      let (idx, h1) = u16_range ctx h in
      let h2 = u32_bytes _ h1 in
      let c2 = (ctx_read_u32 (ctx_read_u16 ctx).1).1 in
      let offset = (ctx_read_u32 (ctx_read_u16 ctx).1).0 in
      let text = get_or pool (ctx_read_u16 ctx).0 [] in
      let named : IsNamed pool (name (make text offset)) = rw same (get_or-IsNamed pool _) in
      let all' =
        All-append_one (λ (a : A). IsNamed pool (name a)) rows (make text offset) all named in
      let more : length (rows ++ make text offset ∷ []) + count ≤ cap =
        omega (arith, length-append rows (make text offset ∷ [])) in
      Fine-if ctx.error (λ bad. goes h all)
        λ good.
          Fine-if c2.error (λ bad. goes h2 all)
            λ good'.
              Fine-if (ltb (length rows) cap)
                (λ fits.
                  read_rows-Fine cap count c2 (rows ++ make text offset ∷ []) same more h2 all')
                λ full. absurd (let fits : length rows < cap = omega arith in ground arith)
