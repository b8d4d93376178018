-- ===== src/Foundation/Hashtable/Move.antt =====
-- One move of the backward shift, and its loop.
use Prim.Native.Nat.{bit_and}
use opsh_actual.Base.{
  ℕ, zero, suc, ◌+◌, ◌-◌, ◌^◌, ◌<◌, ◌≡◌, ◌≢◌, subst, sym, ◌∙◌, ap, true, none, some, length, set,
  length-set, get_or-set_self, get_or-set_ne, get_elem?-get_or, eq-cases, Bytes, arith, Bool-cases,
  Option-cases, inl, inr, ◌⊎◌,
}
use opsh_actual.Base.Bits.{bit_and_mask}
use opsh_actual.Base.Run.{Returns}
use opsh_actual.Foundation.Hashtable.{Entry, Slots, shifts, backward_shift, ht_fnv1a}
use opsh_actual.Foundation.Hashtable.Cycle.{
  dist, next, dist-lt, dist_self, dist-pos, dist_split, next-lt, dist-next, mask-next,
}
use opsh_actual.Foundation.Hashtable.Placed.{slot, home, Stores}
use opsh_actual.Foundation.Hashtable.Shift.{
  clear, cleared, Gap, Closes, Closes-at_empty, scan_ne_free, before_free, step, at_scan, test,
  Gap-stay, some_none, some_eq, hole_in,
}
use opsh_actual.Foundation.Hashtable.View.{view, occupied, Unique, same-view, occupied-set_taken}

module _ {ℓ} {V : Type ℓ} where
  module _ {n : ℕ} {es : Slots V} {h p z : ℕ} (gap : Gap n es h p z) (ne : Entry V)
      (at : slot es p ≡ some ne) where
    es₁ : Slots V
    es₁ = set es h (some ne)

    moved : Slots V
    unfolding es₁
    moved = clear es₁ p

    scan_in : p < length es₁
    unfolding es₁
    scan_in = omega (arith, gap.size, gap.scan_lt, length-set es h (some ne))

    -- The array after the move holds the entry in the hole, and the others where they were.
    moved-cases :
        (j : ℕ) (e : Entry V)
        → slot moved j ≡ some e
        → (j ≢ p) × (((j ≡ h) × (ne ≡ e)) ⊎ ((j ≢ h) × (slot (clear es h) j ≡ some e)))
    unfolding moved
    moved-cases j e at' =
        let (off, there) = cleared es₁ p j e scan_in at' in
        (
          off,
          elim (eq-cases h j) [
            | inl q ↦ inl (
              sym q,
              some_eq (
                  sym (get_or-set_self es h (some ne) none (hole_in gap))
                  ∙ ap (slot es₁) q
                  ∙ there),
            )
            | inr apart ↦ inr (
              λ r. apart (sym r),
              get_or-set_ne es h j none none apart
                  ∙ sym (get_or-set_ne es h j (some ne) none apart)
                  ∙ there,
            )
          ],
        )

    moved-other : (j : ℕ) → j ≢ h → j ≢ p → slot moved j ≡ slot (clear es h) j
    unfolding moved
    moved-other j off_hole off_scan =
        get_or-set_ne es₁ p j none none (λ q. off_scan (sym q))
        ∙ get_or-set_ne es h j (some ne) none (λ q. off_hole (sym q))
        ∙ sym (get_or-set_ne es h j none none (λ q. off_hole (sym q)))

    moved-hole : slot moved h ≡ some ne
    unfolding moved
    moved-hole =
        get_or-set_ne es₁ p h none none (λ q. gap.apart (sym q))
        ∙ get_or-set_self es h (some ne) none (hole_in gap)

    moved-scan : slot es₁ p ≡ some ne
    unfolding es₁
    moved-scan = get_or-set_ne es h p (some ne) none gap.apart ∙ at

    moved-size : length moved ≡ n
    unfolding moved
    moved-size = length-set es₁ p none ∙ length-set es h (some ne) ∙ gap.size

    one_step : dist n p (next n p) ≡ 1
    one_step =
        let wide : dist n p p + 1 < n =
          omega
            (arith, dist_self n p, before_free gap ne at, dist-lt n h z gap.hole_lt gap.free_lt) in
        omega (arith, dist_self n p, dist-next n p p gap.scan_lt gap.scan_lt wide)

    Unique-move : Unique n (slot moved)
    Unique-move i j a b hi hj at' at'' same = elim ((moved-cases i a at').1) [
      | inl (q, x) ↦ elim ((moved-cases j b at'').1) [
        | inl (q', x') ↦ q ∙ sym q'
        | inr (off, old) ↦ absurd (
            (moved-cases j b at'').0 (
              sym (
                gap.placed.unique p j ne b gap.scan_lt hj (at_scan gap ne at) old
                  (ap Entry.key x ∙ same))))
      ]
      | inr (off, old) ↦ elim ((moved-cases j b at'').1) [
        | inl (q', x') ↦ absurd (
            (moved-cases i a at').0 (
              gap.placed.unique i p a ne hi gap.scan_lt old (at_scan gap ne at)
                (same ∙ sym (ap Entry.key x'))))
        | inr (off', old') ↦ gap.placed.unique i j a b hi hj old old' same
      ]
    ]

    module _ (moves : shifts h p (home n ne) ≡ true) where
      chained-move :
          (a j : ℕ) (e : Entry V)
          → a < n
          → j < n
          → slot moved j ≡ some e
          → dist n (home n e) a < dist n (home n e) j
          → a ≢ p
          → slot moved a ≢ none
      chained-move a j e ha hj at' near off_scan = elim (eq-cases a h) [
        | inl q ↦ λ gone. some_none (sym moved-hole ∙ ap (slot moved) (sym q) ∙ gone)
        | inr off ↦ λ gone. full off (sym (moved-other a off off_scan) ∙ gone)
      ]
        where
          full : a ≢ h → slot (clear es h) a ≢ none
          full off = elim ((moved-cases j e at').1) [
            | inl (q, x) ↦
                let near' : dist n (home n ne) a < dist n (home n ne) h =
                  subst (λ b. dist n (home n ne) a < dist n (home n ne) b) q
                    (subst (λ b. dist n (home n b) a < dist n (home n b) j) (sym x) near) in
                gap.placed.chained a p ne ha gap.scan_lt (at_scan gap ne at)
                  (omega (arith, (test gap ne at).0 moves)) off
            | inr (off', old) ↦ gap.placed.chained a j e ha hj old near off
          ]

      Gap-move : Gap n es₁ p (next n p) z
      unfolding moved
      Gap-move = record {
        size = length-set es h (some ne) ∙ gap.size;
        hole_lt = gap.scan_lt;
        scan_lt = next-lt n p gap.scan_lt;
        free_lt = gap.free_lt;
        filled = λ gone. some_none (sym moved-scan ∙ gone);
        free =
            get_or-set_ne es h z (some ne) none (λ q. gap.filled (ap (slot es) q ∙ gap.free))
            ∙ gap.free;
        apart = λ q. no_step (sym one_step ∙ sym (ap (dist n p) q) ∙ dist_self n p);
        ahead =
            omega
              (arith, one_step, dist-pos n p z gap.scan_lt gap.free_lt (scan_ne_free gap ne at));
        placed = record {
          chained = chained-move;
          unique = Unique-move;
          hashed = λ j e hj at'. hashes j e hj ((moved-cases j e at').1);
        };
        crossing = λ j e hj at' near.
            omega (
              arith,
              one_step,
              dist-pos n p j gap.scan_lt hj (λ q. (moved-cases j e at').0 (sym q)),
            );
      }
        where
          no_step : ◌≡◌ {A = ℕ} 1 0 → ⊥
          no_step e = omega arith

          hashes :
              (j : ℕ) (e : Entry V)
              → j < n
              → ((j ≡ h) × (ne ≡ e)) ⊎ ((j ≢ h) × (slot (clear es h) j ≡ some e))
              → e.hash ≡ ht_fnv1a e.key
          hashes j e hj (inl (q, x)) =
              subst (λ a. a.hash ≡ ht_fnv1a a.key) x
                (gap.placed.hashed p ne gap.scan_lt (at_scan gap ne at))
          hashes j e hj (inr (off, old)) = gap.placed.hashed j e hj old

    to_old :
        (q : Bytes) (v : V)
        → Stores (length moved) (slot moved) q v
        → Stores (length (clear es h)) (slot (clear es h)) q v
    to_old q v (j, e, hj, at', k, w) =
        let size = length-set es h none ∙ gap.size in
        elim ((moved-cases j e at').1) [
          | inl (r, x) ↦ (
            p,
            ne,
            omega (arith, size, gap.scan_lt),
            at_scan gap ne at,
            ap Entry.key x ∙ k,
            ap Entry.value x ∙ w,
          )
          | inr (off, old) ↦ (j, e, omega (arith, size, moved-size), old, k, w)
        ]

    to_new :
        (q : Bytes) (v : V)
        → Stores (length (clear es h)) (slot (clear es h)) q v
        → Stores (length moved) (slot moved) q v
    to_new q v (j, e, hj, at', k, w) =
        let size = length-set es h none ∙ gap.size in
        elim (eq-cases j p) [
          | inl r ↦
              let x : ne ≡ e =
                some_eq (sym (at_scan gap ne at) ∙ ap (slot (clear es h)) (sym r) ∙ at') in
              (
                h,
                ne,
                omega (arith, gap.hole_lt, moved-size),
                moved-hole,
                ap Entry.key x ∙ k,
                ap Entry.value x ∙ w,
              )
          | inr off ↦ (
            j,
            e,
            omega (arith, size, moved-size),
            moved-other j ((cleared es h j e (hole_in gap) at').0) off ∙ at',
            k,
            w,
          )
        ]

    same-move : (q : Bytes) → view moved q ≡ view (clear es h) q
    same-move q =
        let size = length-set es h none ∙ gap.size in
        same-view moved (clear es h) q (rw moved-size Unique-move) (rw size gap.placed.unique)
          (to_old q) (to_new q)

    counted-move : occupied moved ≡ occupied (clear es h)
    unfolding moved
    counted-move = elim (Option-cases (slot es h)) [
      | inl gone ↦ absurd (gap.filled gone)
      | inr (a, stored) ↦ omega (
        arith,
        occupied-set_taken es₁ p ne none scan_in moved-scan,
        occupied-set_taken es h a (some ne) (hole_in gap) stored,
        occupied-set_taken es h a none (hole_in gap) stored,
      )
    ]

    -- What the rest of the scan keeps, it keeps of the array before the move.
    Closes-move : {after : Slots V} → Closes n (clear es₁ p) after → Closes n (clear es h) after
    unfolding moved
    Closes-move c = record {
      size = c.size;
      placed = c.placed;
      same = λ q. c.same q ∙ same-move q;
      counted = c.counted ∙ counted-move;
    }

  -- The scan ends, since an empty slot lies ahead, and closes the gap.
  pub backward_shift-Closes :
      (k fuel : ℕ) (es : Slots V) (h p z : ℕ)
      → Gap (2 ^ k) es h p z
      → dist (2 ^ k) h z < dist (2 ^ k) h p + fuel
      → Returns
          (backward_shift fuel es (2 ^ k - 1) h p)
          λ r. Closes (2 ^ k) (clear es h) (clear r.1 r.0)
  unfolding backward_shift es₁
  backward_shift-Closes k zero es h p z gap enough = absurd (omega (arith, gap.ahead))
  backward_shift-Closes k (suc fuel) es h p z gap enough =
      let n = 2 ^ k in
      let read = get_elem?-get_or es p none (omega (arith, gap.size, gap.scan_lt)) in
      elim (Option-cases (slot es p)) [
        | inl gone ↦ ((h, es), rw (read, gone), Closes-at_empty gap gone)
        | inr (ne, at) ↦
            let forward = step gap ne at in
            let go_on = mask-next k p gap.scan_lt in
            let natural : bit_and ne.hash (n - 1) ≡ home n ne = bit_and_mask k ne.hash in
            elim (Bool-cases (shifts h p (home n ne))) [
              | inl moves ↦
                  let whole = dist_split n h p z gap.hole_lt gap.scan_lt gap.free_lt gap.ahead in
                  let first : dist n p (next n p) ≡ 1 = one_step gap ne at in
                  let (r, run, c) =
                    backward_shift-Closes k fuel (set es h (some ne)) p (next n p) z
                      (Gap-move gap ne at moves) (omega arith) in
                  (r, rw (read, at, natural, moves, go_on) run, Closes-move gap ne at c)
              | inr stays ↦
                  let (r, run, c) =
                    backward_shift-Closes k fuel es h (next n p) z (Gap-stay gap ne at stays)
                      (omega arith) in
                  (r, rw (read, at, natural, stays, go_on) run, c)
            ]
      ]
