-- ===== src/Merge/Ranking/Weeks.antt =====
-- `countUniqueWeeks` ends, and counts the weeks of dates in chronological order.
use stu_mgmt_service.Prelude.{
  ℕ, zero, suc, ◌+◌, ◌*◌, ◌≤◌, ◌<◌, ◌≡◌, refl, sym, ap, inl, inr, nat_eq, ◌==◌, ==_iff, Bool, true,
  false, List, [], ◌∷◌, map, some, arith, length, All, Bool-cases, if◌then◌else◌, delete, to_set,
  delete_absent, delete-cons, to_set-cons, delete-to_set-nil, ◌∙◌, delete_mem, to_set_mem, ◌∈◌,
  All-∈, String, string_eq, map_get, map_set, map_get-map_set, ===_refl, ◌===◌, ◌⊎◌,
}
use stu_mgmt_service.Merge.Ranking.{
  ActivityDto, count_weeks_from, count_unique_weeks, count_active_weeks_from, count_active_weeks,
}

-- Each number is at most all the later ones.
abbrev pub IsAscending : List ℕ → Type 0
IsAscending [] = Unit
IsAscending (x ∷ xs) = All (λ y. x ≤ y) xs × IsAscending xs

-- How often the week changes.
changes : ℕ → List ℕ → ℕ
changes w [] = 0
changes w (v ∷ vs) =
    let same = changes w vs in let other = suc (changes v vs) in if w == v then same else other

length-delete-to_set :
    (w : ℕ) (vs : List ℕ) → IsAscending (w ∷ vs) → length (delete w (to_set vs)) ≡ changes w vs
unfolding changes
length-delete-to_set w [] a = ap length (delete-to_set-nil w)
length-delete-to_set w (v ∷ vs) a =
    let gone = delete_absent w (delete v (to_set vs)) absent in
    let rest = length-delete-to_set v vs a.1 in
    rw (to_set-cons v vs, delete-cons w v (delete v (to_set vs)))
      (elim (Bool-cases (w == v)) [
        | inl e ↦
            let same = (==_iff w v).0 e in rw (e, gone) (rest ∙ ap (λ t. changes t vs) (sym same))
        | inr e ↦ rw (e, gone) (ap suc rest)
      ])
  where
    absent : w ∈ delete v (to_set vs) → ⊥
    absent i =
        let (m, n) = delete_mem v w (to_set vs) i in
        let above : v ≤ w = All-∈ (λ y. v ≤ y) vs w a.1.0 (to_set_mem w vs m) in n (omega arith)

length-to_set :
    (w : ℕ) (vs : List ℕ) → IsAscending (w ∷ vs) → length (to_set (w ∷ vs)) ≡ suc (changes w vs)
length-to_set w vs a = rw (to_set-cons w vs) (ap suc (length-delete-to_set w vs a))

to_set-nil : length (to_set {A = ℕ} []) ≡ 0
unfolding to_set
to_set-nil = refl

-- The key is in the map.
abbrev pub HasEntry : String → List (String × ℕ) → Type 0
HasEntry id m = (n : ℕ) × (map_get id m ≡ some n)

HasEntry-map_set_self : (id : String) (v : ℕ) (m : List (String × ℕ)) → HasEntry id (map_set id v m)
HasEntry-map_set_self id v m = (v, rw (map_get-map_set id id v m, ===_refl id))

HasEntry-map_set :
    (k id : String) (v : ℕ) (m : List (String × ℕ)) → HasEntry id m → HasEntry id (map_set k v m)
HasEntry-map_set k id v m (n, h) = elim (Bool-cases (k === id)) [
  | inl e ↦ (v, rw (map_get-map_set k id v m, e))
  | inr e ↦ (n, rw (map_get-map_set k id v m, e) h)
]

module _ {Date : Type 0} (is_same_week : Date → Date → Bool) where
  count_weeks_stay :
      (fuel : ℕ) (current next : Date) (rest : List Date) (count : ℕ)
      → is_same_week current next ≡ true
      → count_weeks_from is_same_week (suc fuel) current (next ∷ rest) count
        ≡ count_weeks_from is_same_week fuel current rest count
  unfolding count_weeks_from
  count_weeks_stay fuel current next rest count h = rw (h, count_weeks_from)

  count_weeks_move :
      (fuel : ℕ) (current next : Date) (rest : List Date) (count : ℕ)
      → is_same_week current next ≡ false
      → count_weeks_from is_same_week (suc fuel) current (next ∷ rest) count
        ≡ count_weeks_from is_same_week fuel next (next ∷ rest) (count + 1)
  unfolding count_weeks_from
  count_weeks_move fuel current next rest count h = rw (h, count_weeks_from)

  module _ (week : Date → ℕ) (same_iff : (d e : Date) → is_same_week d e ≡ (week d == week e)) where
    count_weeks_from_total :
        (fuel : ℕ) (current : Date) (rest : List Date) (count : ℕ)
        → 2 * length rest < fuel
        → count_weeks_from is_same_week fuel current rest count
          ≡ some (count + changes (week current) (map week rest))
    unfolding changes count_weeks_from
    count_weeks_from_total zero current rest count h = absurd (omega arith)
    count_weeks_from_total (suc fuel) current [] count h = ap some (omega arith)
    count_weeks_from_total (suc zero) current (next ∷ rest) count h = absurd (omega arith)
    count_weeks_from_total (suc (suc fuel)) current (next ∷ rest) count h =
        elim (Bool-cases (week current == week next)) [
          | inl e ↦
              count_weeks_stay (suc fuel) current next rest count (same_iff current next ∙ e)
              ∙ count_weeks_from_total (suc fuel) current rest count (omega arith)
              ∙ rw e
          | inr e ↦
              count_weeks_move (suc fuel) current next rest count (same_iff current next ∙ e)
              ∙ count_weeks_stay fuel next next rest (count + 1)
                  (same_iff next next ∙ (==_iff (week next) (week next)).1 refl)
              ∙ count_weeks_from_total fuel next rest (count + 1) (omega arith)
              ∙ rw e (ap some (omega arith))
        ]

    -- Whatever the order of the dates, the loop ends.
    pub count_unique_weeks_total :
        (dates : List Date) → (n : ℕ) × (count_unique_weeks is_same_week dates ≡ some n)
    unfolding count_unique_weeks
    count_unique_weeks_total [] = (0, refl)
    count_unique_weeks_total (date ∷ []) = (1, refl)
    count_unique_weeks_total (date ∷ next ∷ rest) =
        (_, count_weeks_from_total _ date (next ∷ rest) 1 (omega arith))

    count_active_weeks_from_total :
        (activity : List (ActivityDto Date)) (counts : List (String × ℕ))
        → (result : List (String × ℕ)) × (count_active_weeks_from is_same_week activity counts
            ≡ some result)
          × ((id : String)
              → HasEntry id counts ⊎ (id ∈ map (λ (a : ActivityDto Date). a.user_id) activity)
              → HasEntry id result)
    unfolding count_active_weeks_from
    count_active_weeks_from_total [] counts =
        (counts, refl, λ id. elim [ inl h ↦ h | inr i ↦ absurd i ])
    count_active_weeks_from_total (act ∷ acts) counts =
        let (weeks, e) = count_unique_weeks_total act.dates in
        let (result, p, kept) =
          count_active_weeks_from_total acts (map_set act.user_id weeks counts) in
        (
          result,
          rw e p,
          λ id. elim [
            | inl h ↦ kept id (inl (HasEntry-map_set act.user_id id weeks counts h))
            | inr (inl q) ↦ kept id (inl (rw q (HasEntry-map_set_self act.user_id weeks counts)))
            | inr (inr i) ↦ kept id (inr i)
          ],
        )

    -- The counting ends, and every student with activity data has an entry.
    pub count_active_weeks_total :
        (activity : List (ActivityDto Date))
        → (counts : List (String × ℕ)) × (count_active_weeks is_same_week activity ≡ some counts)
          × ((id : String)
              → id ∈ map (λ (a : ActivityDto Date). a.user_id) activity
              → HasEntry id counts)
    unfolding count_active_weeks
    count_active_weeks_total activity =
        let (result, p, kept) = count_active_weeks_from_total activity [] in
        (result, p, λ id i. kept id (inr i))

    -- Where two dates are in the same week exactly if `week` gives one number, and the dates are in
    -- chronological order, the loop ends and the result is the number of different weeks.
    pub count_unique_weeks_counts :
        (dates : List Date)
        → IsAscending (map week dates)
        → count_unique_weeks is_same_week dates ≡ some (length (to_set (map week dates)))
    unfolding count_unique_weeks changes
    count_unique_weeks_counts [] a = ap some (sym to_set-nil)
    count_unique_weeks_counts (date ∷ []) a = ap some (sym (length-to_set (week date) [] a))
    count_unique_weeks_counts (date ∷ next ∷ rest) a =
        count_weeks_from_total _ date (next ∷ rest) 1 (omega arith)
        ∙ ap some (omega (arith, length-to_set (week date) (map week (next ∷ rest)) a))
