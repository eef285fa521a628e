-- ===== src/Seeding/Shuffle.antt =====
-- `shuffled`: whatever the draws, the result is a permutation of the items.
use joust_backend.Prelude.{
  ℕ, zero, suc, ◌-◌, ◌≤◌, ◌<◌, ◌≡◌, ap, ◌∙◌, List, [], ◌∷◌, some, Perm, length, get_elem?, set,
  length-set, get_elem?-set_self, get_elem?-set_ne, get_elem?-lt, arith,
}
use mathlib.Core.List.Perm
use native.Mathlib.Decide.{ℕ_discrete}
use joust_backend.Seeding.{swap, shuffle_loop, shuffled}

module _ {ℓ} {A : Type ℓ} where
  -- A write exchanges the written value for the old one.
  set-perm : (l : List A) (i : ℕ) (v w : A) → get_elem? l i ≡ some v → Perm (v ∷ set l i w) (w ∷ l)
  set-perm [] i v w h = cc
  set-perm (x ∷ l) zero v w h = let e : x ≡ v = cc in rw e (Perm.swap w v l)
  set-perm (x ∷ l) (suc i) v w h =
      Perm.trans (Perm.swap x v (set l i w))
        (Perm.trans (Perm.cons x (set-perm l i v w h)) (Perm.swap w x l))

  get_elem?-some-lt : (l : List A) (i : ℕ) (v : A) → get_elem? l i ≡ some v → i < length l
  get_elem?-some-lt [] i v h = cc
  get_elem?-some-lt (x ∷ l) zero v h = omega arith
  get_elem?-some-lt (x ∷ l) (suc i) v h = omega (arith, get_elem?-some-lt l i v h)

  -- After the first write, the second index still holds what the second write replaces.
  second_read :
      (l : List A) (i j : ℕ) (a b : A)
      → get_elem? l i ≡ some a
      → get_elem? l j ≡ some b
      → get_elem? (set l i b) j ≡ some b
  second_read l i j a b hi hj = elim (ℕ_discrete i j) [
    | yes e ↦ rw (← e) (get_elem?-set_self l i b (get_elem?-some-lt l i a hi))
    | no ne ↦ get_elem?-set_ne l b ne ∙ hj
  ]

  swap_lem :
      (l : List A) (i j : ℕ) (a b : A)
      → get_elem? l i ≡ some a
      → get_elem? l j ≡ some b
      → swap l i j ≡ set (set l i b) j a
  unfolding swap
  swap_lem l i j a b ea eb = rw (ea, swap) (rw eb)

  swap-perm : (l : List A) (i j : ℕ) → i < length l → j < length l → Perm (swap l i j) l
  swap-perm l i j hi hj =
      let (a, ea) = get_elem?-lt l i hi in
      let (b, eb) = get_elem?-lt l j hj in
      rw (swap_lem l i j a b ea eb) (
        Perm.cons_inv (
          Perm.trans (set-perm (set l i b) j b a (second_read l i j a b ea eb))
            (set-perm l i a b ea)))

  length-swap :
      (l : List A) (i j : ℕ) → i < length l → j < length l → length (swap l i j) ≡ length l
  length-swap l i j hi hj =
      let (a, ea) = get_elem?-lt l i hi in
      let (b, eb) = get_elem?-lt l j hj in
      ap length (swap_lem l i j a b ea eb) ∙ length-set (set l i b) j a ∙ length-set l i b

  shuffle_loop-perm :
      (draw : ℕ → ℕ)
      → ((i : ℕ) → draw i ≤ i)
      → (i : ℕ) (out : List A) → i ≤ length out - 1
      → Perm (shuffle_loop draw i out) out
  unfolding shuffle_loop
  shuffle_loop-perm draw bound zero out h = Perm.refl out
  shuffle_loop-perm draw bound (suc i) out h =
      let j = draw (suc i) in
      let hj : j < length out = omega (arith, bound (suc i)) in
      let same = length-swap out (suc i) j (omega arith) hj in
      Perm.trans (shuffle_loop-perm draw bound i (swap out (suc i) j) (omega arith))
        (swap-perm out (suc i) j (omega arith) hj)

  -- Drawing an index of at most `i` in each round, the shuffle returns every item exactly once.
  pub shuffled-perm :
      (draw : ℕ → ℕ) (items : List A) → ((i : ℕ) → draw i ≤ i) → Perm (shuffled draw items) items
  unfolding shuffled
  shuffled-perm draw items bound =
      shuffle_loop-perm draw bound (length items - 1) items (omega arith)
