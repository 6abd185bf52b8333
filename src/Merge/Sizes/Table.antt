-- ===== src/Merge/Sizes/Table.antt =====
-- How the table of `bestSum` changes: entries appear, get shorter and stay combinations.
use stu_mgmt_service.Prelude.{
  ℕ, zero, suc, ◌+◌, ◌≤◌, ◌≡◌, refl, inl, inr, List, [], ◌∷◌, ◌++◌, Option, none, some, arith,
  length, length-append, sum, sum-nil, sum-cons, sum-append, All, All-append, ◌∈◌, ◌==◌,
  if◌then◌else◌, Option-cases, Bool-cases, Bool, true, false, ==_iff, All-self,
}
use mathlib.Core.Option.{some-injective}
use stu_mgmt_service.Merge.Sizes.{Table, read, write, improves, try_number, try_numbers, round}

pub read-write :
    (t : Table) (i j : ℕ) (v : List ℕ)
    → read (write t i v) j ≡ (if i == j then some v else read t j)
unfolding read write
read-write [] zero zero v = refl
read-write [] zero (suc j) v = ground arith
read-write [] (suc i) zero v = ground arith
read-write [] (suc i) (suc j) v = ground (arith, read-write [] i j v)
read-write (x ∷ t) zero zero v = refl
read-write (x ∷ t) zero (suc j) v = ground arith
read-write (x ∷ t) (suc i) zero v = ground arith
read-write (x ∷ t) (suc i) (suc j) v = ground (arith, read-write t i j v)

-- The entry is there and has at most `k` numbers.
abbrev pub Within : Option (List ℕ) → ℕ → Type 0
Within none k = ⊥
Within (some c) k = length c ≤ k

abbrev pub NoWorse : Table → Table → Type 0
NoWorse t u = (j k : ℕ) → Within (read t j) k → Within (read u j) k

pub Within-mono : (o : Option (List ℕ)) {k l : ℕ} → k ≤ l → Within o k → Within o l
Within-mono none h w = absurd w
Within-mono (some c) h w = omega arith

try_number-NoWorse : (i : ℕ) (t : Table) (num : ℕ) → NoWorse t (try_number i t num)
unfolding try_number improves
try_number-NoWorse i t num j k w = elim (Option-cases (read t i)) [
  | inl e ↦ rw (e, try_number) w
  | inr (row, e) ↦
      rw (e, try_number)
        (ground (arith, read-write t (i + num) j (row ++ num ∷ []), length-append row (num ∷ [])))
]

-- From an entry of `k` numbers one more is reached by `suc k`.
try_number_reaches :
    (i : ℕ) (t : Table) (num k : ℕ)
    → Within (read t i) k
    → Within (read (try_number i t num) (i + num)) (suc k)
unfolding try_number improves
try_number_reaches i t num k w = elim (Option-cases (read t i)) [
  | inl e ↦ absurd (rw e at w)
  | inr (row, e) ↦
      let w' : length row ≤ k = rw e at w in
      rw (e, try_number)
        (ground
          (arith, read-write t (i + num) (i + num) (row ++ num ∷ []), length-append row (num ∷ [])))
]

module _ (numbers : List ℕ) where
  -- A list of such numbers with this sum.
  abbrev pub Combination : ℕ → List ℕ → Type 0
  Combination s c = All (λ x. x ∈ numbers) c × (sum c ≡ s)

  abbrev pub IsSound : Table → Type 0
  IsSound t = (j : ℕ) (c : List ℕ) → read t j ≡ some c → Combination j c

  Combination-snoc :
      (i num : ℕ) (row : List ℕ)
      → num ∈ numbers
      → Combination i row
      → Combination (i + num) (row ++ num ∷ [])
  Combination-snoc i num row h c = (
    All-append (λ x. x ∈ numbers) row (num ∷ []) c.0 (h, tt),
    omega (arith, sum-append row (num ∷ []), sum-cons num [], sum-nil, c.1),
  )

  pub write-IsSound :
      (t : Table) (i : ℕ) (v : List ℕ) → Combination i v → IsSound t → IsSound (write t i v)
  write-IsSound t i v new s j c = elim (Bool-cases (i == j)) [
    | inl e ↦ rw (read-write t i j v, e) (λ p. rw (← some-injective _ _ p, ← (==_iff i j).0 e) new)
    | inr e ↦ rw (read-write t i j v, e) (s j c)
  ]

  if-IsSound : (b : Bool) (t u : Table) → IsSound t → IsSound u → IsSound (if b then t else u)
  if-IsSound true t u s r = s
  if-IsSound false t u s r = r

  try_number-IsSound :
      (i : ℕ) (t : Table) (num : ℕ) → num ∈ numbers → IsSound t → IsSound (try_number i t num)
  unfolding try_number
  try_number-IsSound i t num h s j c = elim (Option-cases (read t i)) [
    | inl e ↦ rw (e, try_number) (s j c)
    | inr (row, e) ↦
        let new = Combination-snoc i num row h (s i row e) in
        rw (e, try_number) (if-IsSound _ _ _ (write-IsSound t (i + num) _ new s) s j c)
  ]

pub try_numbers-NoWorse : (i : ℕ) (t : Table) (ns : List ℕ) → NoWorse t (try_numbers i t ns)
unfolding try_numbers
try_numbers-NoWorse i t [] j k w = w
try_numbers-NoWorse i t (num ∷ ns) j k w =
    try_numbers-NoWorse i (try_number i t num) ns j k (try_number-NoWorse i t num j k w)

try_numbers_reach :
    (i : ℕ) (t : Table) (ns : List ℕ) (k x : ℕ)
    → x ∈ ns
    → Within (read t i) k
    → Within (read (try_numbers i t ns) (i + x)) (suc k)
unfolding try_numbers
try_numbers_reach i t [] k x h w = absurd h
try_numbers_reach i t (num ∷ ns) k x (inl e) w =
    try_numbers-NoWorse i (try_number i t num) ns (i + x) (suc k)
      (rw e (try_number_reaches i t num k w))
try_numbers_reach i t (num ∷ ns) k x (inr h) w =
    try_numbers_reach i (try_number i t num) ns k x h (try_number-NoWorse i t num i k w)

-- The two facts about a whole round.
pub round-NoWorse : (ns : List ℕ) (t : Table) (i : ℕ) → NoWorse t (round ns t i)
unfolding round
round-NoWorse ns t i j k w = elim (Option-cases (read t i)) [
  | inl e ↦ rw (e, round) w
  | inr (row, e) ↦ rw (e, round) (try_numbers-NoWorse i t ns j k w)
]

pub round_reaches :
    (ns : List ℕ) (t : Table) (i k x : ℕ)
    → x ∈ ns
    → Within (read t i) k
    → Within (read (round ns t i) (i + x)) (suc k)
unfolding round
round_reaches ns t i k x h w = elim (Option-cases (read t i)) [
  | inl e ↦ absurd (rw e at w)
  | inr (row, e) ↦ rw (e, round) (try_numbers_reach i t ns k x h w)
]

module _ (numbers : List ℕ) where
  try_numbers-IsSound :
      (i : ℕ) (t : Table) (ns : List ℕ)
      → All (λ x. x ∈ numbers) ns
      → IsSound numbers t
      → IsSound numbers (try_numbers i t ns)
  unfolding try_numbers
  try_numbers-IsSound i t [] h s = s
  try_numbers-IsSound i t (num ∷ ns) h s =
      try_numbers-IsSound i (try_number i t num) ns h.1 (try_number-IsSound numbers i t num h.0 s)

  pub round-IsSound : (t : Table) (i : ℕ) → IsSound numbers t → IsSound numbers (round numbers t i)
  unfolding round
  round-IsSound t i s j c = elim (Option-cases (read t i)) [
    | inl e ↦ rw (e, round) (s j c)
    | inr (row, e) ↦ rw (e, round) (try_numbers-IsSound i t numbers (All-self numbers) s j c)
  ]
