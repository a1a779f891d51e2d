-- ===== src/Health/Window.antt =====
-- What `recent_results` of app/providers/health.py returns of the stored calls.
use weiquan_agent.Prelude.{
  ℕ, zero, suc, ◌≤◌, String, Bool, true, false, ◌&&◌, List, [], ◌∷◌, ◌++◌, leb, length, take, keep,
  count, ◌≡◌, ◌⊎◌, refl, ap, ◌∙◌, inl, inr, Bool-cases, arith, All, All-map, ◌==◌, string_eq,
}
use weiquan_agent.Health.{CallResult, Store, earlier, insert_latest, latest_first, recent_results}

-- A call of the provider, not before the start of the window.
abbrev pub is_within : String → ℕ → CallResult → Bool
is_within provider since r = r.provider == provider && leb since r.occurred_at

-- No call is later than one before it.
abbrev pub IsLatestFirst : List CallResult → Type 0
IsLatestFirst [] = Unit
IsLatestFirst (r ∷ rs) = All (λ x. x.occurred_at ≤ r.occurred_at) rs × IsLatestFirst rs

-- The calls `seen` and the calls `older` are the stored calls of the window, each as often as it is
-- stored, from the latest to the earliest, and only what exceeds the limit is left to `older`.
pub record IsWindow (provider : String) (since limit : ℕ) (stored seen : List CallResult)
    : Type 0 where
  pub older : List CallResult
  pub same :
      (q : CallResult → Bool)
      → count q (seen ++ older) ≡ count (λ r. is_within provider since r && q r) stored
  pub ordered : IsLatestFirst (seen ++ older)
  pub limited : (length seen ≡ limit) ⊎ ((length seen ≤ limit) × (older ≡ []))

count-insert_latest :
    (q : CallResult → Bool) (r : CallResult) (xs : List CallResult)
    → count q (insert_latest r xs) ≡ count q (r ∷ xs)
unfolding insert_latest
count-insert_latest q r [] = refl
count-insert_latest q r (x ∷ xs) = elim (Bool-cases (earlier r x)) [
  | inl e ↦ rw e (omega (arith, count-insert_latest q r xs))
  | inr e ↦ rw e refl
]

count-latest_first :
    (q : CallResult → Bool) (xs : List CallResult) → count q (latest_first xs) ≡ count q xs
unfolding latest_first
count-latest_first q [] = refl
count-latest_first q (x ∷ xs) =
    omega (arith, count-insert_latest q x (latest_first xs), count-latest_first q xs)

All-insert_latest :
    (P : CallResult → Type 0) (r : CallResult) (xs : List CallResult)
    → P r
    → All P xs
    → All P (insert_latest r xs)
unfolding insert_latest
All-insert_latest P r [] h k = (h, tt)
All-insert_latest P r (x ∷ xs) h k = elim (Bool-cases (earlier r x)) [
  | inl e ↦ rw e (k.0, All-insert_latest P r xs h k.1)
  | inr e ↦ rw e (h, k)
]

earlier-le : (a b : CallResult) → earlier a b ≡ true → a.occurred_at ≤ b.occurred_at
unfolding earlier
earlier-le a b h = ground (arith, h)

not_earlier-le : (a b : CallResult) → earlier a b ≡ false → b.occurred_at ≤ a.occurred_at
unfolding earlier
not_earlier-le a b h = ground (arith, h)

insert_latest-IsLatestFirst :
    (r : CallResult) (xs : List CallResult) → IsLatestFirst xs → IsLatestFirst (insert_latest r xs)
unfolding insert_latest
insert_latest-IsLatestFirst r [] h = (tt, tt)
insert_latest-IsLatestFirst r (x ∷ xs) h = elim (Bool-cases (earlier r x)) [
  | inl e ↦ rw e (
    All-insert_latest (λ y. y.occurred_at ≤ x.occurred_at) r xs (earlier-le r x e) h.0,
    insert_latest-IsLatestFirst r xs h.1,
  )
  | inr e ↦ rw e (
    (not_earlier-le r x e, All-map _ _ (λ y le. omega (arith, le, not_earlier-le r x e)) xs h.0),
    h,
  )
]

latest_first-IsLatestFirst : (xs : List CallResult) → IsLatestFirst (latest_first xs)
unfolding latest_first
latest_first-IsLatestFirst [] = tt
latest_first-IsLatestFirst (x ∷ xs) =
    insert_latest-IsLatestFirst x (latest_first xs) (latest_first-IsLatestFirst xs)

count-keep :
    (q p : CallResult → Bool) (xs : List CallResult)
    → count q (keep p xs) ≡ count (λ r. p r && q r) xs
count-keep q p [] = refl
count-keep q p (x ∷ xs) = elim (Bool-cases (p x)) [
  | inl e ↦ rw e (omega (arith, count-keep q p xs))
  | inr e ↦ rw e (omega (arith, count-keep q p xs))
]

-- A list is what a limit takes of it, and a rest.
split_at :
    (n : ℕ) (xs : List CallResult)
    → (rest : List CallResult) × (take n xs ++ rest ≡ xs)
      × ((length (take n xs) ≡ n) ⊎ ((length (take n xs) ≤ n) × (rest ≡ [])))
split_at zero xs = (xs, refl, inl refl)
split_at (suc n) [] = ([], refl, inr (omega arith, refl))
split_at (suc n) (x ∷ xs) =
    let (rest, whole, full) = split_at n xs in
    (rest, ap (λ (l : List CallResult). x ∷ l) whole, ground (arith, full))

pub recent_results_lem :
    (provider : String) (since limit : ℕ) (s : Store)
    → IsWindow provider since limit s.results (recent_results provider since limit s)
unfolding recent_results
recent_results_lem provider since limit s =
    let kept : List CallResult = keep (is_within provider since) s.results in
    let (rest, whole, full) = split_at limit (latest_first kept) in
    record {
      older = rest;
      same = λ q.
          rw whole (count-latest_first q kept ∙ count-keep q (is_within provider since) s.results);
      ordered = rw whole (latest_first-IsLatestFirst kept);
      limited = full;
    }
