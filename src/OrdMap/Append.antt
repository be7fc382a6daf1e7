-- ===== src/OrdMap/Append.antt =====
-- The map operations on a list in two parts, where the first has only keys below the one in hand.
use wtf.Prelude.{ℕ, ◌<◌, ◌≤◌, ◌≡◌, refl, none, some, [], ◌∷◌, ◌++◌, arith, All}
use wtf.OrdMap.{OrdMap, lower_bound, before, lookup, assign, insert_new, erase}

module _ {ℓ} {V : Type ℓ} where
  abbrev pub Below : ℕ → OrdMap V → Type 0
  Below k = All (λ e. e.0 < k)

  pub Below-mono : {j k : ℕ} (p : OrdMap V) → j ≤ k → Below j p → Below k p
  Below-mono [] h b = tt
  Below-mono (e ∷ p) h b = (omega arith, Below-mono p h b.1)

  pub Below-snoc : (k j : ℕ) (v : V) (p : OrdMap V) → k < j → Below k p → Below j (p ++ (k, v) ∷ [])
  Below-snoc k j v [] h b = (h, tt)
  Below-snoc k j v (e ∷ p) h b = (omega arith, Below-snoc k j v p h b.1)

  pub lower_bound-append :
      (k : ℕ) (p m : OrdMap V) → Below k p → lower_bound k (p ++ m) ≡ lower_bound k m
  lower_bound-append k [] m b = refl
  lower_bound-append k (e ∷ p) m b = ground (arith, lower_bound-append k p m b.1)

  pub lookup-append : (k : ℕ) (p m : OrdMap V) → Below k p → lookup k (p ++ m) ≡ lookup k m
  lookup-append k [] m b = refl
  lookup-append k (e ∷ p) m b = ground (arith, lookup-append k p m b.1)

  pub assign-append :
      (k : ℕ) (v : V) (p m : OrdMap V) → Below k p → assign k v (p ++ m) ≡ p ++ assign k v m
  assign-append k v [] m b = refl
  assign-append k v (e ∷ p) m b = ground (arith, assign-append k v p m b.1)

  pub insert_new-append :
      (k : ℕ) (v : V) (p m : OrdMap V) → Below k p → insert_new k v (p ++ m) ≡ p ++ insert_new k v m
  insert_new-append k v [] m b = refl
  insert_new-append k v (e ∷ p) m b = ground (arith, insert_new-append k v p m b.1)

  pub erase-append : (k : ℕ) (p m : OrdMap V) → Below k p → erase k (p ++ m) ≡ p ++ erase k m
  erase-append k [] m b = refl
  erase-append k (e ∷ p) m b = ground (arith, erase-append k p m b.1)

  -- The entry that stands just before the bound.
  pub before-append :
      (k j : ℕ) (v : V) (p m : OrdMap V)
      → Below j p
      → j < k
      → before k m ≡ none
      → before k (p ++ (j, v) ∷ m) ≡ some (j, v)
  before-append k j v [] m b h e = ground arith
  before-append k j v (x ∷ p) m b h e = ground (arith, before-append k j v p m b.1)
