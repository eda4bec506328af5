-- ===== src/Ledger/Top.antt =====
-- The ranking behind the dashboard, topN_ of internal/ledger/ledger.go.
use mathlib.Core.List.{Perm, append-nil}
use mathlib.Core.List.Perm
use heave.Prelude.{
  ℕ, zero, suc, ◌≤◌, ◌<◌, ◌≡◌, refl, ap, ◌∙◌, ◌==◌, Bytes, inl, inr, ◌⊎◌, true, false, ◌&&◌, List,
  [], ◌∷◌, ◌++◌, ltb, if◌then◌else◌, arith, All, Bool-cases, length, take, drop,
}
use heave.Ledger.{NamedStat, str_lt, dearer, insert_sorted, sort_stats, top_n}

-- The order of names, byte by byte, a prefix first.
abbrev pub NameLe : Bytes → Bytes → Type 0
NameLe [] t = Unit
NameLe (a ∷ s) [] = ⊥
NameLe (a ∷ s) (b ∷ t) = (a < b) ⊎ ((a ≡ b) × NameLe s t)

NameLe-trans : (s t u : Bytes) → NameLe s t → NameLe t u → NameLe s u
NameLe-trans [] t u h k = tt
NameLe-trans (a ∷ s) [] u h k = absurd h
NameLe-trans (a ∷ s) (b ∷ t) [] h k = absurd k
NameLe-trans (a ∷ s) (b ∷ t) (c ∷ u) (inl h) (inl k) = inl (omega arith)
NameLe-trans (a ∷ s) (b ∷ t) (c ∷ u) (inl h) (inr k) = let e = k.0 in inl (omega arith)
NameLe-trans (a ∷ s) (b ∷ t) (c ∷ u) (inr h) (inl k) = let e = h.0 in inl (omega arith)
NameLe-trans (a ∷ s) (b ∷ t) (c ∷ u) (inr h) (inr k) = inr (h.0 ∙ k.0, NameLe-trans s t u h.1 k.1)

str_lt-NameLe : (s t : Bytes) → str_lt s t ≡ true → NameLe s t
unfolding str_lt
str_lt-NameLe [] t h = tt
str_lt-NameLe (a ∷ s) [] h = absurd (ground arith)
str_lt-NameLe (a ∷ s) (b ∷ t) h = elim (Bool-cases (ltb a b)) [
  | inl less ↦ inl (ground arith)
  | inr same ↦ inr (ground arith, str_lt-NameLe s t (ground arith))
]

not_str_lt-NameLe : (s t : Bytes) → str_lt s t ≡ false → NameLe t s
unfolding str_lt
not_str_lt-NameLe s [] h = tt
not_str_lt-NameLe [] (b ∷ t) h = absurd (ground arith)
not_str_lt-NameLe (a ∷ s) (b ∷ t) h = elim (Bool-cases (ltb b a)) [
  | inl less ↦ inl (ground arith)
  | inr same ↦ inr (ground arith, not_str_lt-NameLe s t (ground arith))
]

-- The dearer first, and the names of equal cost in order.
abbrev pub Before : NamedStat → NamedStat → Type 0
Before x y =
    (y.stat.cost_usd < x.stat.cost_usd)
    ⊎ ((x.stat.cost_usd ≡ y.stat.cost_usd) × NameLe x.name y.name)

Before-trans : (x y z : NamedStat) → Before x y → Before y z → Before x z
Before-trans x y z (inl h) (inl k) = inl (omega arith)
Before-trans x y z (inl h) (inr k) = let e = k.0 in inl (omega arith)
Before-trans x y z (inr h) (inl k) = let e = h.0 in inl (omega arith)
Before-trans x y z (inr h) (inr k) = inr (h.0 ∙ k.0, NameLe-trans x.name y.name z.name h.1 k.1)

-- Every entry is ranked before all that follow it.
abbrev pub IsRanked : List NamedStat → Type 0
IsRanked [] = Unit
IsRanked (x ∷ xs) = All (Before x) xs × IsRanked xs

dearer-Before : (a b : NamedStat) → dearer a b ≡ true → Before a b
unfolding dearer
dearer-Before a b h = elim (Bool-cases (a.stat.cost_usd == b.stat.cost_usd)) [
  | inl even ↦ inr (ground arith, str_lt-NameLe a.name b.name (ground arith))
  | inr apart ↦ inl (ground arith)
]

not_dearer-Before : (a b : NamedStat) → dearer a b ≡ false → Before b a
unfolding dearer
not_dearer-Before a b h = elim (Bool-cases (a.stat.cost_usd == b.stat.cost_usd)) [
  | inl even ↦ inr (ground arith, not_str_lt-NameLe a.name b.name (ground arith))
  | inr apart ↦ inl (ground arith)
]

All-Before :
    (x y : NamedStat) (zs : List NamedStat) → Before x y → All (Before y) zs → All (Before x) zs
All-Before x y [] h a = tt
All-Before x y (z ∷ zs) h a = (Before-trans x y z h a.0, All-Before x y zs h a.1)

All-insert_sorted :
    (x first : NamedStat) (ys : List NamedStat)
    → Before first x
    → All (Before first) ys
    → All (Before first) (insert_sorted x ys)
unfolding insert_sorted
All-insert_sorted x first [] h a = (h, tt)
All-insert_sorted x first (y ∷ ys) h a = elim (Bool-cases (dearer y x)) [
  | inl early ↦ rw early (a.0, All-insert_sorted x first ys h a.1)
  | inr late ↦ rw late (h, a)
]

insert_sorted-IsRanked :
    (x : NamedStat) (ys : List NamedStat) → IsRanked ys → IsRanked (insert_sorted x ys)
unfolding insert_sorted
insert_sorted-IsRanked x [] r = (tt, tt)
insert_sorted-IsRanked x (y ∷ ys) r = elim (Bool-cases (dearer y x)) [
  | inl early ↦
      rw early
        (All-insert_sorted x y ys (dearer-Before y x early) r.0, insert_sorted-IsRanked x ys r.1)
  | inr late ↦
      let first = not_dearer-Before y x late in rw late ((first, All-Before x y ys first r.0), r)
]

length-insert_sorted :
    (x : NamedStat) (ys : List NamedStat) → length (insert_sorted x ys) ≡ suc (length ys)
unfolding insert_sorted
length-insert_sorted x [] = refl
length-insert_sorted x (y ∷ ys) = ground (arith, length-insert_sorted x ys)

length-sort_stats : (xs : List NamedStat) → length (sort_stats xs) ≡ length xs
unfolding sort_stats
length-sort_stats [] = refl
length-sort_stats (x ∷ xs) = length-insert_sorted x (sort_stats xs) ∙ ap suc (length-sort_stats xs)

length-take-eq : (n : ℕ) (xs : List NamedStat) → n ≤ length xs → length (take n xs) ≡ n
length-take-eq zero xs h = refl
length-take-eq (suc n) [] h = absurd (omega arith)
length-take-eq (suc n) (x ∷ xs) h = ap suc (length-take-eq n xs (omega arith))

insert_sorted-perm : (x : NamedStat) (ys : List NamedStat) → Perm (insert_sorted x ys) (x ∷ ys)
unfolding insert_sorted
insert_sorted-perm x [] = Perm.refl (x ∷ [])
insert_sorted-perm x (y ∷ ys) = elim (Bool-cases (dearer y x)) [
  | inl first ↦ rw first (Perm.trans (Perm.cons y (insert_sorted-perm x ys)) (Perm.swap x y ys))
  | inr second ↦ rw second (Perm.refl (x ∷ y ∷ ys))
]

sort_stats-IsRanked : (xs : List NamedStat) → IsRanked (sort_stats xs)
unfolding sort_stats
sort_stats-IsRanked [] = tt
sort_stats-IsRanked (x ∷ xs) = insert_sorted-IsRanked x (sort_stats xs) (sort_stats-IsRanked xs)

sort_stats-perm : (xs : List NamedStat) → Perm (sort_stats xs) xs
unfolding sort_stats
sort_stats-perm [] = Perm.refl []
sort_stats-perm (x ∷ xs) =
    Perm.trans (insert_sorted-perm x (sort_stats xs)) (Perm.cons x (sort_stats-perm xs))

take-append-drop : (n : ℕ) (xs : List NamedStat) → take n xs ++ drop n xs ≡ xs
take-append-drop zero xs = refl
take-append-drop (suc n) [] = refl
take-append-drop (suc n) (x ∷ xs) = ap (◌∷◌ x) (take-append-drop n xs)

-- What topN_ leaves out.
left_out : List NamedStat → ℕ → List NamedStat
left_out all n =
    let sorted = sort_stats all in if ltb 0 n && ltb n (length sorted) then drop n sorted else []

top_n-append : (all : List NamedStat) (n : ℕ) → top_n all n ++ left_out all n ≡ sort_stats all
unfolding top_n left_out
top_n-append all n = elim (Bool-cases (ltb 0 n && ltb n (length (sort_stats all)))) [
  | inl cut ↦ rw cut (take-append-drop n (sort_stats all))
  | inr whole ↦ rw whole (append-nil (sort_stats all))
]

-- How many entries the top n has: all of them for n = 0, else n or all if there are fewer.
abbrev pub top_size : ℕ → ℕ → ℕ
top_size n all = if n == 0 then all else (if ltb n all then n else all)

top_n-length : (all : List NamedStat) (n : ℕ) → length (top_n all n) ≡ top_size n (length all)
unfolding top_n
top_n-length all n =
    let same = length-sort_stats all in
    elim (Bool-cases (ltb 0 n && ltb n (length (sort_stats all)))) [
      | inl cut ↦ rw cut (length-take-eq n (sort_stats all) (ground arith) ∙ ground arith)
      | inr whole ↦ rw whole (ground arith)
    ]

-- The top n with what is left out are all the entries, each once, the dearest first and those of
-- equal cost by name; the top n are all of them for n = 0, else n of them, or all where there are
-- fewer.
pub top_n-best :
    (all : List NamedStat) (n : ℕ)
    → (rest : List NamedStat) × Perm (top_n all n ++ rest) all
      × IsRanked (top_n all n ++ rest)
      × (length (top_n all n) ≡ top_size n (length all))
top_n-best all n = (
  left_out all n,
  rw (top_n-append all n) (sort_stats-perm all),
  rw (top_n-append all n) (sort_stats-IsRanked all),
  top_n-length all n,
)
