-- ===== src/Foundation/Hashtable/Shift.antt =====
-- The backward shift: the hole moves on until no entry's way crosses it.
use native.Mathlib.Nat.{mod-lt}
use opsh_actual.Base.{
  ℕ, ◌+◌, ◌≤◌, ◌<◌, ◌≡◌, ◌≢◌, refl, subst, sym, ◌∙◌, ap, true, false, none, some, length, set,
  length-set, get_or-set_self, get_or-set_ne, eq-cases, Bytes, arith, inl, inr,
}
use opsh_actual.Foundation.Hashtable.{Entry, Slots, shifts}
use opsh_actual.Foundation.Hashtable.Cycle.{
  dist, next, dist-lt, dist_self, dist_injective, dist_split, dist_between, next-lt, dist-next,
  shifts_iff_before,
}
use opsh_actual.Foundation.Hashtable.Placed.{slot, home, IsPlaced}
use opsh_actual.Foundation.Hashtable.View.{view, occupied}

module _ {ℓ} {V : Type ℓ} where
  abbrev pub clear : Slots V → ℕ → Slots V
  clear es h = set es h none

  -- What a cleared array holds, the array held elsewhere.
  pub cleared :
      (es : Slots V) (h j : ℕ) (e : Entry V)
      → h < length es
      → slot (clear es h) j ≡ some e
      → (j ≢ h) × (slot es j ≡ some e)
  cleared es h j e hh at = elim (eq-cases h j) [
    | inl p ↦
        absurd (none_some (sym (get_or-set_self es h none none hh) ∙ ap (slot (clear es h)) p ∙ at))
    | inr apart ↦ (λ q. apart (sym q), sym (get_or-set_ne es h j none none apart) ∙ at)
  ]
    where
      none_some : {a : Entry V} → none ≡ some a → ⊥
      none_some h = cc

  -- The state of the scan: the hole, which counts as empty, the position, and an empty slot ahead.
  pub record Gap (n : ℕ) (es : Slots V) (h p z : ℕ) : Type ℓ where
    pub size : length es ≡ n
    pub hole_lt : h < n
    pub scan_lt : p < n
    pub free_lt : z < n
    pub filled : slot es h ≢ none
    pub free : slot es z ≡ none
    pub apart : h ≢ p
    pub ahead : dist n h p ≤ dist n h z
    pub placed : IsPlaced n (slot (clear es h)) h
    pub crossing :
        (j : ℕ) (e : Entry V)
        → j < n
        → slot (clear es h) j ≡ some e
        → dist n (home n e) h < dist n (home n e) j
        → dist n h p ≤ dist n h j

  -- What the shift keeps of the array without its hole.
  pub record Closes (n : ℕ) (before after : Slots V) : Type ℓ where
    pub size : length after ≡ n
    pub placed : IsPlaced n (slot after) n
    pub same : (q : Bytes) → view after q ≡ view before q
    pub counted : occupied after ≡ occupied before

  pub some_none : {a : Entry V} → some a ≡ none → ⊥
  some_none h = cc

  pub some_eq : {a b : Entry V} → some a ≡ some b → a ≡ b
  some_eq h = cc

  module _ {n : ℕ} {es : Slots V} {h p z : ℕ} (gap : Gap n es h p z) where
    pub hole_in : h < length es
    hole_in = omega (arith, gap.size, gap.hole_lt)

    still_none : (j : ℕ) → slot es j ≡ none → slot (clear es h) j ≡ none
    still_none j gone = elim (eq-cases h j) [
      | inl e ↦ sym (ap (slot (clear es h)) e) ∙ get_or-set_self es h none none hole_in
      | inr apart ↦ get_or-set_ne es h j none none apart ∙ gone
    ]

    -- A way that crosses the hole crosses what the scan has reached.
    crosses_scan :
        (j : ℕ) (e : Entry V)
        → j < n
        → slot (clear es h) j ≡ some e
        → p ≢ j
        → dist n (home n e) h < dist n (home n e) j
        → dist n (home n e) p < dist n (home n e) j
    crosses_scan j e hj at other near =
        let s = home n e in
        let low : s < n = mod-lt e.hash (omega (arith, gap.hole_lt)) in
        let reach = gap.crossing j e hj at near in
        let differ : dist n h p ≢ dist n h j =
          λ q. other (dist_injective n h p j gap.hole_lt gap.scan_lt hj q) in
        omega (
          arith,
          dist_between n s h p j low gap.hole_lt gap.scan_lt hj (omega arith) reach,
          dist_split n s h j low gap.hole_lt hj (omega arith),
        )

    -- At an empty slot no way crosses the hole.
    pub Closes-at_empty : slot es p ≡ none → Closes n (clear es h) (clear es h)
    Closes-at_empty gone = record {
      size = length-set es h none ∙ gap.size;
      placed = record { chained = chain; unique = gap.placed.unique; hashed = gap.placed.hashed };
      same = λ q. refl;
      counted = refl;
    }
      where
        chain :
            (a j : ℕ) (e : Entry V)
            → a < n
            → j < n
            → slot (clear es h) j ≡ some e
            → dist n (home n e) a < dist n (home n e) j
            → a ≢ n
            → slot (clear es h) a ≢ none
        chain a j e ha hj at near not_end = elim (eq-cases a h) [
          | inl q ↦
              let other : p ≢ j =
                λ r. some_none (sym at ∙ ap (slot (clear es h)) (sym r) ∙ still_none p gone) in
              absurd (
                gap.placed.chained p j e gap.scan_lt hj at
                  (crosses_scan j e hj at other
                    (subst (λ b. dist n (home n e) b < dist n (home n e) j) q near))
                  (λ r. gap.apart (sym r)) (still_none p gone))
          | inr apart ↦ gap.placed.chained a j e ha hj at near apart
        ]

    module _ (ne : Entry V) (at : slot es p ≡ some ne) where
      pub home-lt : home n ne < n
      home-lt = mod-lt ne.hash (omega (arith, gap.hole_lt))

      pub scan_ne_free : p ≢ z
      scan_ne_free e = some_none (sym at ∙ ap (slot es) e ∙ gap.free)

      pub before_free : dist n h p < dist n h z
      before_free =
          let differ : dist n h p ≢ dist n h z =
            λ q. scan_ne_free (dist_injective n h p z gap.hole_lt gap.scan_lt gap.free_lt q) in
          omega (arith, gap.ahead)

      pub step : dist n h (next n p) ≡ dist n h p + 1
      step =
          dist-next n h p gap.hole_lt gap.scan_lt
            (omega (arith, before_free, dist-lt n h z gap.hole_lt gap.free_lt))

      pub at_scan : slot (clear es h) p ≡ some ne
      at_scan = get_or-set_ne es h p none none gap.apart ∙ at

      pub test :
          (shifts h p (home n ne) ≡ true → dist n (home n ne) h < dist n (home n ne) p)
          × (shifts h p (home n ne) ≡ false → dist n (home n ne) p ≤ dist n (home n ne) h)
      test = shifts_iff_before n h p (home n ne) gap.hole_lt gap.scan_lt home-lt gap.apart

      -- An entry that stays is not crossed, so the scan may pass it.
      pub Gap-stay : shifts h p (home n ne) ≡ false → Gap n es h (next n p) z
      Gap-stay stays = record {
        size = gap.size;
        hole_lt = gap.hole_lt;
        scan_lt = next-lt n p gap.scan_lt;
        free_lt = gap.free_lt;
        filled = gap.filled;
        free = gap.free;
        apart = λ e. zero_step (sym step ∙ sym (ap (dist n h) e) ∙ dist_self n h);
        ahead = omega (arith, step, before_free);
        placed = gap.placed;
        crossing = λ j e hj at' near. passed j e hj at' near (gap.crossing j e hj at' near);
      }
        where
          zero_step : dist n h p + 1 ≡ 0 → ⊥
          zero_step e = omega arith

          not_scan :
              (j : ℕ) (e : Entry V)
              → slot (clear es h) j ≡ some e
              → dist n (home n e) h < dist n (home n e) j
              → p ≢ j
          not_scan j e at' near q =
              let same : ne ≡ e = some_eq (sym at_scan ∙ ap (slot (clear es h)) q ∙ at') in
              let near' : dist n (home n ne) h < dist n (home n ne) p =
                subst (λ j'. dist n (home n ne) h < dist n (home n ne) j') (sym q)
                  (subst (λ a. dist n (home n a) h < dist n (home n a) j) (sym same) near) in
              omega (arith, test.1 stays)

          passed :
              (j : ℕ) (e : Entry V)
              → j < n
              → slot (clear es h) j ≡ some e
              → dist n (home n e) h < dist n (home n e) j
              → dist n h p ≤ dist n h j
              → dist n h (next n p) ≤ dist n h j
          passed j e hj at' near reach =
              let differ : dist n h p ≢ dist n h j =
                λ q. not_scan j e at' near (dist_injective n h p j gap.hole_lt gap.scan_lt hj q) in
              omega (arith, step)
