-- ===== src/Merge/Sizes/Best.antt =====
-- `bestSum` returns a shortest combination, in descending order.
use mathlib.Core.Option
use mathlib.Core.Option.{some-injective}
use stu_mgmt_service.Prelude.{
  ℕ, zero, suc, ◌+◌, ◌≤◌, ◌<◌, ◌≡◌, refl, sym, ◌∙◌, inl, inr, List, [], ◌∷◌, Option, none, some,
  arith, length, sum, sum-nil, sum-cons, All, All-Unit, ◌∈◌, replicate, Bool-cases, ◌==◌, sort,
  IsSorted, IsConsistent, none-ne-some, sort-IsSorted, sort-All, sum-sort, length-sort,
}
use stu_mgmt_service.Merge.Sizes.{Table, read, write, round, fill, descending, best_sum}
use stu_mgmt_service.Merge.Sizes.Table.{
  Within, Within-mono, Combination, IsSound, round-NoWorse, round_reaches, round-IsSound,
  read-write, write-IsSound,
}

descending-IsConsistent : IsConsistent descending (λ x. Unit {0})
descending-IsConsistent = record {
  antisymm = λ x y _ _ h. ground arith;
  trans = λ x y z _ _ _ h k. ground arith;
}

module _ (numbers : List ℕ) where
  -- All that the first `k` rounds had to reach is reached.
  record IsFilled (k : ℕ) (t : Table) : Type 0 where
    sound : IsSound numbers t
    start : Within (read t 0) 0
    reached :
        (i x : ℕ) (d : List ℕ)
        → i < k
        → x ∈ numbers
        → Combination numbers i d
        → Within (read t (i + x)) (suc (length d))

  -- Then no combination of a sum up to `k` is shorter than the entry for that sum.
  IsFilled-optimal :
      {k : ℕ} {t : Table}
      → IsFilled k t
      → (d : List ℕ) (j : ℕ) → j ≤ k
      → Combination numbers j d
      → Within (read t j) (length d)
  IsFilled-optimal {t} f [] j h c = let e : j ≡ 0 = omega (arith, c.1, sum-nil) in rw e f.start
  IsFilled-optimal {t} f (zero ∷ d) j h c =
      Within-mono (read t j) {k = length d} (omega arith)
        (IsFilled-optimal f d j h (c.0.1, omega (arith, c.1, sum-cons 0 d)))
  IsFilled-optimal {t} f (suc x ∷ d) j h c =
      let e : j ≡ sum d + suc x = omega (arith, c.1, sum-cons (suc x) d) in
      rw e (f.reached (sum d) (suc x) d (omega arith) c.0.0 (c.0.1, refl))

  round-IsFilled : (k : ℕ) (t : Table) → IsFilled k t → IsFilled (suc k) (round numbers t k)
  round-IsFilled k t f = record {
    sound = round-IsSound numbers t k f.sound;
    start = round-NoWorse numbers t k 0 0 f.start;
    reached = λ i x d h m c. elim (Bool-cases (i == k)) [
      | inl e ↦
          let same : i ≡ k = ground arith in
          rw same (
            round_reaches numbers t k (length d) x m
              (IsFilled-optimal f d k (omega arith) (c.0, omega (arith, c.1))))
      | inr e ↦ round-NoWorse numbers t k (i + x) _ (f.reached i x d (ground arith) m c)
    ];
  }

  fill-IsFilled :
      (rounds i : ℕ) (t : Table) → IsFilled i t → IsFilled (i + rounds) (fill numbers rounds i t)
  unfolding fill
  fill-IsFilled zero i t f = let e : i + 0 ≡ i = omega arith in rw e f
  fill-IsFilled (suc rounds) i t f =
      let e : i + suc rounds ≡ suc i + rounds = omega arith in
      rw e (fill-IsFilled rounds (suc i) (round numbers t i) (round-IsFilled i t f))

  abbrev start_table : ℕ → Table
  start_table n = write (replicate (n + 1) none) 0 []

  read-replicate : (n j : ℕ) → read (replicate n none) j ≡ none
  unfolding read
  read-replicate zero j = refl
  read-replicate (suc n) zero = refl
  read-replicate (suc n) (suc j) = read-replicate n j

  start-IsFilled : (n : ℕ) → IsFilled 0 (start_table n)
  start-IsFilled n = record {
    sound =
        write-IsSound numbers (replicate (n + 1) none) 0 [] (tt, sum-nil)
          λ j c e. absurd (none-ne-some (rw (read-replicate (n + 1) j) at e));
    start = rw (read-write (replicate (n + 1) none) 0 0 []) (omega arith);
    reached = λ i x d h. absurd (omega arith);
  }

  filled : (n : ℕ) → IsFilled n (fill numbers n 0 (start_table n))
  filled n = let e : 0 + n ≡ n = omega arith in rw e at (fill-IsFilled n 0 _ (start-IsFilled n))

  entry_of_result :
      (o : Option (List ℕ)) (c : List ℕ)
      → Option.map (sort descending) o ≡ some c
      → (d : List ℕ) × (o ≡ some d) × (c ≡ sort descending d)
  entry_of_result none c e = absurd (none-ne-some e)
  entry_of_result (some d) c e = (d, refl, sym (some-injective _ _ e))

  -- What `best_sum` returns is a combination of the numbers with the sum, in descending order.
  pub best_sum_sound :
      (target_sum : ℕ) (c : List ℕ)
      → best_sum target_sum numbers ≡ some c
      → All (λ x. x ∈ numbers) c × (sum c ≡ target_sum) × IsSorted descending c
  unfolding best_sum
  best_sum_sound n c h =
      let (d, e, p) = entry_of_result _ c h in
      let s = (filled n).sound n d e in
      rw p (
        sort-All descending (λ x. x ∈ numbers) d s.0,
        sum-sort descending d ∙ s.1,
        sort-IsSorted descending-IsConsistent d (All-Unit d),
      )

  some_entry :
      (o : Option (List ℕ)) (k : ℕ)
      → Within o k
      → (c : List ℕ) × (Option.map (sort descending) o ≡ some c) × (length c ≤ k)
  some_entry none k w = absurd w
  some_entry (some c) k w = (sort descending c, refl, omega (arith, length-sort descending c))

  pub shortest_entry :
      (n : ℕ) (d : List ℕ)
      → Combination numbers n d
      → (c : List ℕ) × (best_sum n numbers ≡ some c) × (length c ≤ length d)
  unfolding best_sum
  shortest_entry n d c = some_entry _ (length d) (IsFilled-optimal (filled n) d n (omega arith) c)

  -- Where a combination `d` of the numbers has the sum, `best_sum` returns a combination of the
  -- numbers with that sum, in descending order, that is not longer than `d`.
  pub best_sum_optimal :
      (target_sum : ℕ) (d : List ℕ)
      → Combination numbers target_sum d
      → (c : List ℕ) × (best_sum target_sum numbers ≡ some c)
        × All (λ x. x ∈ numbers) c
        × (sum c ≡ target_sum)
        × IsSorted descending c
        × (length c ≤ length d)
  best_sum_optimal n d h =
      let (c, found, shortest) = shortest_entry n d h in
      let (members, total, sorted) = best_sum_sound n c found in
      (c, found, members, total, sorted, shortest)
