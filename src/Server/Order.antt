-- ===== src/Server/Order.antt =====
-- A vector of servers in the order of their ids, and the operations that keep it.
use wtf.Prelude.{
  ℕ, zero, suc, ◌<◌, ◌≤◌, ◌≡◌, ◌≢◌, refl, true, none, List, [], ◌∷◌, arith, All, dec_lt, ◌⊎◌, inl,
  inr, subst,
}
use wtf.Barrier.{fill_from_back}
use wtf.Server.{
  Server, get_server, put_server, sink, new_server, swap_out, insert_sorted, stable_sort,
}

module _ {Loc : Type 0} where
  -- The ids rise along the list, from `n` on: no two servers share one.
  abbrev pub Ascending : ℕ → List (Server Loc) → Type 0
  Ascending n [] = Unit {0}
  Ascending n (s ∷ l) = (n ≤ s.id) × Ascending (suc s.id) l

  -- No server has the id.
  abbrev pub Without : ℕ → List (Server Loc) → Type 0
  Without sid = All (λ (s : Server Loc). s.id ≢ sid)

  abbrev pub Distinct : List (Server Loc) → Type 0
  Distinct [] = Unit {0}
  Distinct (s ∷ l) = Without s.id l × Distinct l

  pub Without-get : (sid : ℕ) (l : List (Server Loc)) → get_server sid l ≡ none → Without sid l
  unfolding get_server
  Without-get sid [] e = tt
  Without-get sid (s ∷ l) e = (λ q. ground arith, Without-get sid l (ground arith))

  Ascending-mono : (n k : ℕ) (l : List (Server Loc)) → k ≤ n → Ascending n l → Ascending k l
  Ascending-mono n k [] h a = tt
  Ascending-mono n k (s ∷ l) h a = (omega arith, a.1)

  pub Without-below : (n k : ℕ) (l : List (Server Loc)) → Ascending n l → k < n → Without k l
  Without-below n k [] a h = tt
  Without-below n k (s ∷ l) a h = (λ q. omega arith, Without-below (suc s.id) k l a.1 (omega arith))

  pub Distinct-Ascending : (n : ℕ) (l : List (Server Loc)) → Ascending n l → Distinct l
  Distinct-Ascending n [] a = tt
  Distinct-Ascending n (s ∷ l) a =
      (Without-below (suc s.id) s.id l a.1 (omega arith), Distinct-Ascending (suc s.id) l a.1)

  pub put_server-Ascending :
      (n : ℕ) (t : Server Loc) (l : List (Server Loc))
      → Ascending n l
      → Ascending n (put_server t l)
  unfolding put_server
  put_server-Ascending n t [] a = tt
  put_server-Ascending n t (s ∷ l) a = ground (arith, put_server-Ascending (suc s.id) t l a.1)

  -- Sorting.
  insert_sorted-Ascending :
      (n : ℕ) (t : Server Loc) (l : List (Server Loc))
      → Ascending n l
      → Without t.id l
      → n ≤ t.id
      → Ascending n (insert_sorted t l)
  unfolding insert_sorted
  insert_sorted-Ascending n t [] a w h = (h, tt)
  insert_sorted-Ascending n t (s ∷ l) a w h =
      ground (arith, w.0, insert_sorted-Ascending (suc s.id) t l a.1 w.1)

  Without-insert_sorted :
      (sid : ℕ) (t : Server Loc) (l : List (Server Loc))
      → t.id ≢ sid
      → Without sid l
      → Without sid (insert_sorted t l)
  unfolding insert_sorted
  Without-insert_sorted sid t [] p a = (p, tt)
  Without-insert_sorted sid t (s ∷ l) p a = ground (arith, Without-insert_sorted sid t l p a.1)

  Without-stable_sort :
      (sid : ℕ) (l : List (Server Loc)) → Without sid l → Without sid (stable_sort l)
  unfolding stable_sort
  Without-stable_sort sid [] a = tt
  Without-stable_sort sid (s ∷ l) a =
      Without-insert_sorted sid s (stable_sort l) a.0 (Without-stable_sort sid l a.1)

  pub stable_sort-Ascending : (l : List (Server Loc)) → Distinct l → Ascending 0 (stable_sort l)
  unfolding stable_sort
  stable_sort-Ascending [] d = tt
  stable_sort-Ascending (s ∷ l) d =
      insert_sorted-Ascending 0 s (stable_sort l) (stable_sort-Ascending l d.1)
        (Without-stable_sort s.id l d.0) (omega arith)

  insert_sorted-first :
      (n : ℕ) (t : Server Loc) (l : List (Server Loc))
      → Ascending n l
      → t.id < n
      → insert_sorted t l ≡ t ∷ l
  unfolding insert_sorted
  insert_sorted-first n t [] a h = refl
  insert_sorted-first n t (s ∷ l) a h = ground arith

  -- A vector in order is left as it is.
  pub stable_sort-same : (n : ℕ) (l : List (Server Loc)) → Ascending n l → stable_sort l ≡ l
  unfolding stable_sort
  stable_sort-same n [] a = refl
  stable_sort-same n (s ∷ l) a =
      rw (stable_sort-same (suc s.id) l a.1) (insert_sorted-first (suc s.id) s l a.1 (omega arith))

  -- `new_server`
  sink-first :
      (n : ℕ) (t : Server Loc) (l : List (Server Loc))
      → Ascending n l
      → t.id < n
      → sink t l ≡ (true, t ∷ l)
  unfolding sink
  sink-first n t [] a h = refl
  sink-first n t (s ∷ l) a h = ground (arith, sink-first (suc s.id) t l a.1)

  new_server-insert_sorted :
      (n : ℕ) (t : Server Loc) (l : List (Server Loc))
      → Ascending n l
      → Without t.id l
      → new_server t l ≡ insert_sorted t l
  unfolding new_server sink insert_sorted
  new_server-insert_sorted n t [] a w = refl
  new_server-insert_sorted n t (s ∷ l) a w = elim (dec_lt s.id t.id) [
    | yes h ↦ ground (arith, new_server-insert_sorted (suc s.id) t l a.1 w.1)
    | no h ↦
        let above : t.id < s.id = ground (arith, w.0) in
        ground (arith, sink-first (suc s.id) t l a.1)
  ]

  pub new_server-Ascending :
      (t : Server Loc) (l : List (Server Loc))
      → Ascending 0 l
      → Without t.id l
      → Ascending 0 (new_server t l)
  new_server-Ascending t l a w =
      rw (new_server-insert_sorted 0 t l a w) (insert_sorted-Ascending 0 t l a w (omega arith))

  -- The loop of `server_forget`.
  Without-fill : (sid : ℕ) (l : List (Server Loc)) → Without sid l → Without sid (fill_from_back l)
  unfolding fill_from_back
  Without-fill sid [] a = tt
  Without-fill sid (x ∷ []) a = a
  Without-fill sid (x ∷ y ∷ l) a = ground (arith, Without-fill sid (y ∷ l) a.1)

  Distinct-fill : (l : List (Server Loc)) → Distinct l → Distinct (fill_from_back l)
  unfolding fill_from_back
  Distinct-fill [] d = tt
  Distinct-fill (x ∷ []) d = d
  Distinct-fill (x ∷ y ∷ l) d =
      ground (arith, Distinct-fill (y ∷ l) d.1, Without-fill x.id (y ∷ l) d.0)

  List-cases :
      (l : List (Server Loc))
      → (l ≡ []) ⊎ ((s : Server Loc) × (r : List (Server Loc)) × (l ≡ s ∷ r))
  List-cases [] = inl refl
  List-cases (s ∷ r) = inr (s, r, refl)

  Without-swap_out :
      (fuel sid k : ℕ) (l : List (Server Loc)) → Without k l → Without k (swap_out fuel sid l)
  unfolding swap_out
  Without-swap_out zero sid k l a = a
  Without-swap_out (suc fuel) sid k [] a = tt
  Without-swap_out (suc fuel) sid k (s ∷ l) a = elim (List-cases (fill_from_back l)) [
    | inl e ↦ ground (arith, Without-swap_out fuel sid k l a.1, e)
    | inr (t, r, e) ↦
        let f : Without k (t ∷ r) = subst (Without k) e (Without-fill k l a.1) in
        ground (arith, Without-swap_out fuel sid k l a.1, Without-swap_out fuel sid k r f.1, e)
  ]

  swap_out-Distinct :
      (fuel sid : ℕ) (l : List (Server Loc)) → Distinct l → Distinct (swap_out fuel sid l)
  unfolding swap_out
  swap_out-Distinct zero sid l d = d
  swap_out-Distinct (suc fuel) sid [] d = tt
  swap_out-Distinct (suc fuel) sid (s ∷ l) d = elim (List-cases (fill_from_back l)) [
    | inl e ↦
        ground (arith, swap_out-Distinct fuel sid l d.1, Without-swap_out fuel sid s.id l d.0, e)
    | inr (t, r, e) ↦
        let f : Distinct (t ∷ r) = subst Distinct e (Distinct-fill l d.1) in
        ground (
          arith,
          swap_out-Distinct fuel sid l d.1,
          Without-swap_out fuel sid s.id l d.0,
          swap_out-Distinct fuel sid r f.1,
          Without-swap_out fuel sid t.id r f.0,
          e,
        )
  ]

  -- The vector that `server_forget` leaves.
  pub forget-Ascending :
      (fuel sid : ℕ) (l : List (Server Loc))
      → Ascending 0 l
      → Ascending 0 (stable_sort (swap_out fuel sid l))
  forget-Ascending fuel sid l a =
      stable_sort-Ascending (swap_out fuel sid l)
        (swap_out-Distinct fuel sid l (Distinct-Ascending 0 l a))
