-- ===== src/Swiss/Scan.antt =====
-- The inner loop of `buildSwissPairings`: which opponent a player gets.
use joust_backend.Prelude.{
  ℕ, ◌≤◌, ◌≡◌, inl, inr, List, [], ◌∷◌, Option, none, some, All-map, Bool, true, false, Bool-cases,
  All, if◌then◌else◌, arith,
}
use joust_backend.Prelude.Dict.{contains, contains_self}
use joust_backend.Swiss.{Best, consider, scan, nobody, chosen, choose}

-- A difference `d` is no better than what was found.
abbrev pub Beaten : Option ℕ → ℕ → Type 0
Beaten none d = ⊥
Beaten (some e) d = e ≤ d

module _ (diff : ℕ → ℕ) (repeat : ℕ → Bool) (used : List ℕ) where
  -- A step of the scan.
  abbrev step : ℕ → Best → Best
  step c b = if contains c used then b else consider c (repeat c) (diff c) b

  step-Beaten :
      (c : ℕ) (b : Best) (d : ℕ)
      → (Beaten b.best_score_diff d → Beaten (step c b).best_score_diff d)
        × (Beaten b.fallback_score_diff d → Beaten (step c b).fallback_score_diff d)
  unfolding consider
  step-Beaten c b d = ground arith

  scan-Beaten :
      (cs : List ℕ) (b : Best) (d : ℕ)
      → (Beaten b.best_score_diff d → Beaten (scan diff repeat used cs b).best_score_diff d)
        × (Beaten b.fallback_score_diff d
            → Beaten (scan diff repeat used cs b).fallback_score_diff d)
  unfolding scan
  scan-Beaten [] b d = ((λ h. h), (λ h. h))
  scan-Beaten (c ∷ cs) b d =
      let now = step-Beaten c b d in
      let later = scan-Beaten cs (step c b) d in
      ((λ h. later.0 (now.0 h)), (λ h. later.1 (now.1 h)))

  -- A free candidate is no better than what its kind leaves.
  abbrev pub Weighed : Best → ℕ → Type 0
  Weighed b c =
      contains c used ≡ false
      → (repeat c ≡ false → Beaten b.best_score_diff (diff c))
        × (repeat c ≡ true → Beaten b.fallback_score_diff (diff c))

  step-Weighed : (c : ℕ) (b : Best) → Weighed (step c b) c
  unfolding consider
  step-Weighed c b = ground arith

  pub scan-Weighed : (cs : List ℕ) (b : Best) → All (Weighed (scan diff repeat used cs b)) cs
  unfolding scan
  scan-Weighed [] b = tt
  scan-Weighed (c ∷ cs) b = (
    (λ free.
        let now = step-Weighed c b free in
        let later = scan-Beaten cs (step c b) (diff c) in
        ((λ r. later.0 (now.0 r)), (λ r. later.1 (now.1 r)))),
    scan-Weighed cs (step c b),
  )

  -- What the scan found of one kind, if anything: a candidate with its difference.
  abbrev Found : (ℕ → Type 0) → Option ℕ → Option ℕ → Type 0
  Found P none none = Unit
  Found P (some q) (some d) = (d ≡ diff q) × P q
  Found P none (some d) = ⊥
  Found P (some q) none = ⊥

  -- `q` is a free candidate of the pool, and of the given kind.
  abbrev pub IsFree : List ℕ → Bool → ℕ → Type 0
  IsFree pool kind q = (contains q pool ≡ true) × (contains q used ≡ false) × (repeat q ≡ kind)

  abbrev IsConsistent : List ℕ → Best → Type 0
  IsConsistent pool b =
      Found (IsFree pool false) b.best_p2 b.best_score_diff
      × Found (IsFree pool true) b.fallback_p2 b.fallback_score_diff

  step-IsConsistent :
      (pool : List ℕ) (c : ℕ) (b : Best)
      → contains c pool ≡ true
      → IsConsistent pool b
      → IsConsistent pool (step c b)
  unfolding consider
  step-IsConsistent pool c b h k = ground arith

  scan-IsConsistent :
      (pool cs : List ℕ) (b : Best)
      → All (λ c. contains c pool ≡ true) cs
      → IsConsistent pool b
      → IsConsistent pool (scan diff repeat used cs b)
  unfolding scan
  scan-IsConsistent pool [] b h k = k
  scan-IsConsistent pool (c ∷ cs) b (here, rest) k =
      scan-IsConsistent pool cs (step c b) rest (step-IsConsistent pool c b here k)

  choose-IsConsistent : (cs : List ℕ) → IsConsistent cs (scan diff repeat used cs nobody)
  choose-IsConsistent cs = scan-IsConsistent cs cs nobody (contains_self cs) (tt, tt)

  -- Beside the free candidate `c` the pick `p2` is right: a rematch only if `c` is one too, and
  -- among those of its kind the closest in score.
  abbrev pub IsPickBeside : ℕ → ℕ → Type 0
  IsPickBeside p2 c =
      contains c used ≡ false
      → (repeat p2 ≡ true → repeat c ≡ true) × (repeat c ≡ repeat p2 → diff p2 ≤ diff c)

  pick_beside :
      (pool : List ℕ) (b : Best) (p2 : ℕ)
      → IsConsistent pool b
      → chosen b ≡ some p2
      → (c : ℕ) → Weighed b c
      → IsPickBeside p2 c
  unfolding chosen
  pick_beside pool b p2 k e c w free = ground (arith, w free)

  pick_free :
      (pool : List ℕ) (b : Best) (p2 : ℕ)
      → IsConsistent pool b
      → chosen b ≡ some p2
      → (contains p2 pool ≡ true) × (contains p2 used ≡ false)
  unfolding chosen
  pick_free pool b p2 k e = ground arith

  no_pick :
      (pool : List ℕ) (b : Best)
      → IsConsistent pool b
      → chosen b ≡ none
      → (c : ℕ) → Weighed b c
      → contains c used ≡ true
  unfolding chosen
  no_pick pool b k e c w = elim (Bool-cases (contains c used)) [
    | inl taken ↦ taken
    | inr free ↦ ground (arith, w free)
  ]

  -- The opponent that is chosen is a free candidate; it is a rematch only when every free candidate
  -- is one; and no free candidate of its kind is closer in score.
  pub choose_best :
      (cs : List ℕ) (p2 : ℕ)
      → choose diff repeat used cs ≡ some p2
      → (contains p2 cs ≡ true) × (contains p2 used ≡ false) × All (IsPickBeside p2) cs
  unfolding choose
  choose_best cs p2 e =
      let k = choose-IsConsistent cs in
      let free = pick_free cs (scan diff repeat used cs nobody) p2 k e in
      (
        free.0,
        free.1,
        All-map (pick_beside cs (scan diff repeat used cs nobody) p2 k e) cs
            (scan-Weighed cs nobody),
      )

  -- Nobody is chosen only when every candidate is taken.
  pub choose-none :
      (cs : List ℕ) → choose diff repeat used cs ≡ none → All (λ c. contains c used ≡ true) cs
  unfolding choose
  choose-none cs e =
      All-map (no_pick cs (scan diff repeat used cs nobody) (choose-IsConsistent cs) e) cs
        (scan-Weighed cs nobody)
