-- ===== src/Swiss/Matching.antt =====
-- The outer loop of `buildSwissPairings`: an even field is paired off completely.
use joust_backend.Prelude.{
  ℕ, suc, ◌%◌, ◌≡◌, inl, inr, refl, sym, ap, ◌∙◌, List, [], ◌∷◌, some, Bool, true, false, not, ◌==◌,
  ==_iff, Bool-cases, Option-cases, All, Perm, length, select, arith,
}
use mathlib.Core.List
use mathlib.Core.List.Perm
use native.Mathlib.Bridge.{from_ℕ}
use joust_backend.Prelude.Dict.{contains, Distinct}
use joust_backend.Swiss.{pair_loop, choose}
use joust_backend.Swiss.Scan.{choose_best, choose-none}

-- The players of a list that are not used up.
unfoldable pub free_of : List ℕ → List ℕ → List ℕ
free_of used xs = select (λ c. not (contains c used)) xs

-- Everybody who is in some pairing.
pub players_of : List (ℕ × ℕ) → List ℕ
players_of [] = []
players_of ((a, b) ∷ pairings) = a ∷ b ∷ players_of pairings

free_skip :
    (used : List ℕ) (x : ℕ) (xs : List ℕ)
    → contains x used ≡ true
    → free_of used (x ∷ xs) ≡ free_of used xs
unfolding free_of
free_skip used x xs h = ground arith

free_keep :
    (used : List ℕ) (x : ℕ) (xs : List ℕ)
    → contains x used ≡ false
    → free_of used (x ∷ xs) ≡ x ∷ free_of used xs
unfolding free_of
free_keep used x xs h = ground arith

contains-ne :
    (p1 p2 x : ℕ) (used : List ℕ)
    → (x == p1) ≡ false
    → (x == p2) ≡ false
    → contains x (p2 ∷ p1 ∷ used) ≡ contains x used
unfolding contains
contains-ne p1 p2 x used h1 h2 = ground arith

contains-cons-false :
    (x k : ℕ) (xs : List ℕ)
    → contains k (x ∷ xs) ≡ false
    → ((x == k) ≡ false) × (contains k xs ≡ false)
unfolding contains
contains-cons-false x k xs h = ground arith

contains-cons-ne : (x k : ℕ) (xs : List ℕ) → (x == k) ≡ false → contains k (x ∷ xs) ≡ contains k xs
unfolding contains
contains-cons-ne x k xs h = ground arith

contains_head : (x : ℕ) (xs : List ℕ) → contains x (x ∷ xs) ≡ true
unfolding contains
contains_head x xs = ground arith

contains-nil : (k : ℕ) → contains k [] ≡ true → ⊥
unfolding contains
contains-nil k h = cc

length-from_ℕ {ℓ} : {A : Type ℓ} (xs : List A) → length xs ≡ from_ℕ (List.length xs)
length-from_ℕ [] = refl
length-from_ℕ (x ∷ xs) = ap suc (length-from_ℕ xs)

pub length-perm {ℓ} : {A : Type ℓ} {xs ys : List A} → Perm xs ys → length xs ≡ length ys
length-perm {xs = xs} {ys = ys} p =
    length-from_ℕ xs ∙ ap from_ℕ (Perm.length-eq p) ∙ sym (length-from_ℕ ys)

-- Using up two players who are not in the list changes nothing there.
free_of-absent :
    (p1 p2 : ℕ) (used xs : List ℕ)
    → contains p1 xs ≡ false
    → contains p2 xs ≡ false
    → free_of (p2 ∷ p1 ∷ used) xs ≡ free_of used xs
unfolding free_of
free_of-absent p1 p2 used [] h1 h2 = refl
free_of-absent p1 p2 used (x ∷ xs) h1 h2 =
    let (n1, r1) = contains-cons-false x p1 xs h1 in
    let (n2, r2) = contains-cons-false x p2 xs h2 in
    ground (arith, contains-ne p1 p2 x used n1 n2, free_of-absent p1 p2 used xs r1 r2)

-- Using up a free player of the list takes exactly that player out.
take_out :
    (p1 p2 : ℕ) (used xs : List ℕ)
    → Distinct xs
    → contains p1 xs ≡ false
    → contains p2 xs ≡ true
    → contains p2 used ≡ false
    → Perm (p2 ∷ free_of (p2 ∷ p1 ∷ used) xs) (free_of used xs)
take_out p1 p2 used [] d absent present free = absurd (contains-nil p2 present)
take_out p1 p2 used (x ∷ xs) (fresh, d) absent present free = elim (Bool-cases (x == p2)) [
  | inl same ↦
      let e : x ≡ p2 = (==_iff x p2).0 same in
      let rest =
        free_of-absent p1 p2 used xs (contains-cons-false x p1 xs absent).1 (rw e at fresh) in
      rw e (
        rw
          (
            free_skip (p2 ∷ p1 ∷ used) p2 xs (contains_head p2 (p1 ∷ used)),
            rest,
            free_keep used p2 xs free,
          )
          (Perm.refl _))
  | inr other ↦
      let here = contains-cons-ne x p2 xs other in
      let (n1, r1) = contains-cons-false x p1 xs absent in
      let ih = take_out p1 p2 used xs d r1 (sym here ∙ present) free in
      let gone = contains-ne p1 p2 x used n1 other in
      elim (Bool-cases (contains x used)) [
        | inl out ↦ rw (free_skip (p2 ∷ p1 ∷ used) x xs (gone ∙ out), free_skip used x xs out) ih
        | inr kept ↦
            rw (free_keep (p2 ∷ p1 ∷ used) x xs (gone ∙ kept), free_keep used x xs kept)
              (Perm.trans (Perm.swap x p2 _) (Perm.cons x ih))
      ]
]

free_of_none : (used xs : List ℕ) → All (λ c. contains c used ≡ true) xs → free_of used xs ≡ []
unfolding free_of
free_of_none used [] h = refl
free_of_none used (x ∷ xs) (here, rest) = ground (arith, free_of_none used xs rest)

module _ (diff : ℕ → ℕ → ℕ) (repeat : ℕ → ℕ → Bool) where
  pair_loop_used :
      (p1 : ℕ) (rest used : List ℕ)
      → contains p1 used ≡ true
      → pair_loop diff repeat (p1 ∷ rest) used ≡ pair_loop diff repeat rest used
  unfolding pair_loop
  pair_loop_used p1 rest used h = rw (h, pair_loop)

  pair_loop-some :
      (p1 p2 : ℕ) (rest used : List ℕ)
      → contains p1 used ≡ false
      → choose (diff p1) (repeat p1) used rest ≡ some p2
      → pair_loop diff repeat (p1 ∷ rest) used
        ≡ (p1, p2) ∷ pair_loop diff repeat rest (p2 ∷ p1 ∷ used)
  unfolding pair_loop
  pair_loop-some p1 p2 rest used h e = rw (h, pair_loop) (rw e)

  odd_one :
      (p1 : ℕ) (used rest : List ℕ)
      → contains p1 used ≡ false
      → free_of used rest ≡ []
      → length (free_of used (p1 ∷ rest)) % 2 ≡ 1
  odd_one p1 used rest h e = rw (free_keep used p1 rest h, e) (omega arith)

  -- An even number of free players, all different, is paired off: everybody is in one pairing.
  pub pair_loop-perm :
      (ids used : List ℕ)
      → Distinct ids
      → length (free_of used ids) % 2 ≡ 0
      → Perm (players_of (pair_loop diff repeat ids used)) (free_of used ids)
  unfolding pair_loop players_of free_of
  pair_loop-perm [] used d even = Perm.nil
  pair_loop-perm (p1 ∷ rest) used (fresh, d) even = elim (Bool-cases (contains p1 used)) [
    | inl out ↦
        rw (pair_loop_used p1 rest used out, free_skip used p1 rest out)
          (pair_loop-perm rest used d (rw (free_skip used p1 rest out) at even))
    | inr kept ↦ elim (Option-cases (choose (diff p1) (repeat p1) used rest)) [
      | inl nobody_left ↦
          let nothing =
            free_of_none used rest (choose-none (diff p1) (repeat p1) used rest nobody_left) in
          absurd (omega (arith, odd_one p1 used rest kept nothing))
      | inr (p2, e) ↦
          let best = choose_best (diff p1) (repeat p1) used rest p2 e in
          let out = take_out p1 p2 used rest d fresh best.0 best.1 in
          let grown : length (free_of used (p1 ∷ rest)) ≡ suc (length (free_of used rest)) =
            ap length (free_keep used p1 rest kept) in
          let taken : suc (length (free_of (p2 ∷ p1 ∷ used) rest)) ≡ length (free_of used rest) =
            length-perm out in
          rw (pair_loop-some p1 p2 rest used kept e, free_keep used p1 rest kept)
            (Perm.cons p1 (
              Perm.trans (Perm.cons p2 (pair_loop-perm rest (p2 ∷ p1 ∷ used) d (omega arith))) out))
    ]
  ]
