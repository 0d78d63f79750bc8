-- ===== src/SvLog/Keys.antt =====
-- The dicts of the SV log parser and their sorted keys.
use risc_v_pipeline_sim.Common.{
  ℕ, ◌<◌, ◌≡◌, refl, ap, ◌∙◌, arith, Bool, true, false, ◌||◌, none, some, inl, inr, List, [], ◌∷◌,
  leb, ◌==◌, if◌then◌else◌, All, Bool-cases,
}
use risc_v_pipeline_sim.SvLog.{Dict, set_item, get_item, keys, insert_sorted, sorted}

abbrev pub contains : ℕ → List ℕ → Bool
contains k [] = false
contains k (x ∷ xs) = x == k || contains k xs

-- Every number is smaller than all that follow.
abbrev pub Increasing : List ℕ → Type 0
Increasing [] = Unit
Increasing (x ∷ xs) = All (λ y. x < y) xs × Increasing xs

abbrev pub NoRepeat : List ℕ → Type 0
NoRepeat [] = Unit
NoRepeat (x ∷ xs) = (contains x xs ≡ false) × NoRepeat xs

module _ {V : Type 0} where
  pub get_item-set_item :
      (k j : ℕ) (v : V) (d : Dict V)
      → get_item j (set_item k v d) ≡ (if k == j then some v else get_item j d)
  unfolding get_item set_item
  get_item-set_item k j v [] = ground arith
  get_item-set_item k j v ((i, w) ∷ rest) = ground (arith, get_item-set_item k j v rest)

  contains-keys-set_item :
      (k j : ℕ) (v : V) (d : Dict V)
      → contains j (keys (set_item k v d)) ≡ (k == j || contains j (keys d))
  unfolding set_item
  contains-keys-set_item k j v [] = ground arith
  contains-keys-set_item k j v ((i, w) ∷ rest) = ground (arith, contains-keys-set_item k j v rest)

  -- A dict has a key once, however often it is set.
  pub set_item-NoRepeat :
      (k : ℕ) (v : V) (d : Dict V) → NoRepeat (keys d) → NoRepeat (keys (set_item k v d))
  unfolding set_item
  set_item-NoRepeat k v [] h = ground arith
  set_item-NoRepeat k v ((i, w) ∷ rest) h =
      ground (arith, set_item-NoRepeat k v rest h.1, contains-keys-set_item k i v rest)

  pub contains-keys :
      (k : ℕ) (d : Dict V)
      → contains k (keys d) ≡ elim (get_item k d) [ none ↦ false | some v ↦ true ]
  unfolding get_item
  contains-keys k [] = refl
  contains-keys k ((i, w) ∷ rest) = ground (arith, contains-keys k rest)

contains-insert_sorted :
    (j k : ℕ) (xs : List ℕ) → contains j (insert_sorted k xs) ≡ (k == j || contains j xs)
contains-insert_sorted j k [] = ground arith
contains-insert_sorted j k (x ∷ xs) = ground (arith, contains-insert_sorted j k xs)

pub contains-sorted : (j : ℕ) (xs : List ℕ) → contains j (sorted xs) ≡ contains j xs
unfolding sorted
contains-sorted j [] = refl
contains-sorted j (x ∷ xs) =
    contains-insert_sorted j x (sorted xs) ∙ ap (λ b. x == j || b) (contains-sorted j xs)

All-insert_sorted :
    (n k : ℕ) (xs : List ℕ) → n < k → All (λ y. n < y) xs → All (λ y. n < y) (insert_sorted k xs)
All-insert_sorted n k [] h a = (h, tt)
All-insert_sorted n k (x ∷ xs) h a = ground (arith, All-insert_sorted n k xs h a.1)

All-lower : (n k : ℕ) (xs : List ℕ) → n < k → All (λ y. k < y) xs → All (λ y. n < y) xs
All-lower n k [] h a = tt
All-lower n k (x ∷ xs) h a = (omega arith, All-lower n k xs h a.1)

insert_sorted-Increasing :
    (k : ℕ) (xs : List ℕ) → contains k xs ≡ false → Increasing xs → Increasing (insert_sorted k xs)
insert_sorted-Increasing k [] e h = (tt, tt)
insert_sorted-Increasing k (x ∷ xs) e h = elim (Bool-cases (leb k x)) [
  | inl before ↦
      let below : k < x = ground arith in rw before ((below, All-lower k x xs below h.0), h)
  | inr after ↦ rw after (
    All-insert_sorted x k xs (ground arith) h.0,
    insert_sorted-Increasing k xs (ground arith) h.1,
  )
]

pub sorted-Increasing : (xs : List ℕ) → NoRepeat xs → Increasing (sorted xs)
unfolding sorted
sorted-Increasing [] h = tt
sorted-Increasing (x ∷ xs) h =
    insert_sorted-Increasing x (sorted xs) (contains-sorted x xs ∙ h.0) (sorted-Increasing xs h.1)
