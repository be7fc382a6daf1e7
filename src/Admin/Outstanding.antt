-- ===== src/Admin/Outstanding.antt =====
-- The operations of an id that wait to be given back.
use wtf.Prelude.{
  ℕ, ◌+◌, ◌≡◌, refl, sym, ap, ◌∙◌, Bool, true, false, Option, none, some, List, [], ◌∷◌, ◌++◌, ◌==◌,
  ltb, if◌then◌else◌, arith, Bool-cases, inl, inr,
}
use wtf.OrdMap.{OrdMap, lookup, assign, erase}
use wtf.Admin.{Op, Admin, Result, gives, fails, Round, return, again}

-- Whether the operation has the id and was not given back.
abbrev pub holds : ℕ → Op → ℕ
holds i op = if op.done then 0 else if op.id == i then 1 else 0

abbrev pub in_map : ℕ → OrdMap Op → ℕ
in_map i [] = 0
in_map i ((k, op) ∷ m) = holds i op + in_map i m

abbrev pub in_list : ℕ → List Op → ℕ
in_list i [] = 0
in_list i (op ∷ l) = holds i op + in_list i l

abbrev pub in_option : ℕ → Option Op → ℕ
in_option i none = 0
in_option i (some op) = holds i op

-- The operations of an id that wait to be given back.
abbrev pub outstanding : {C : Type 0} → ℕ → Admin C → ℕ
outstanding i s = in_map i s.coord_ops + in_list i s.yieldable + in_option i s.yielding

pub found_none :
    (b : Bool) (v : Op) (r : Option Op)
    → (if b then some v else r) ≡ none
    → (b ≡ false) × (r ≡ none)
found_none true v r e = absurd (cc)
found_none false v r e = (refl, e)

pub in_map-assign :
    (i k : ℕ) (op : Op) (m : OrdMap Op)
    → lookup k m ≡ none
    → in_map i (assign k op m) ≡ holds i op + in_map i m
in_map-assign i k op [] e = refl
in_map-assign i k op ((j, v) ∷ m) e =
    let (q, r) = found_none (j == k) v (lookup k m) e in
    elim (Bool-cases (ltb j k)) [
      | inl z ↦ rw z (omega (arith, in_map-assign i k op m r))
      | inr z ↦ rw z (rw q refl)
    ]

pub in_map-erase :
    (i k : ℕ) (op : Op) (m : OrdMap Op)
    → lookup k m ≡ some op
    → in_map i m ≡ holds i op + in_map i (erase k m)
in_map-erase i k op [] e = absurd (cc)
in_map-erase i k op ((j, v) ∷ m) e = elim (Bool-cases (j == k)) [
  | inl q ↦ rw q (ap (λ o. in_option i o + in_map i m) (sym (first (j == k) v (lookup k m) q) ∙ e))
  | inr q ↦
      let r = sym (second (j == k) v (lookup k m) q) ∙ e in
      rw q (omega (arith, in_map-erase i k op m r))
]
  where
    first : (b : Bool) (v : Op) (r : Option Op) → b ≡ true → (if b then some v else r) ≡ some v
    first b v r e = rw e refl

    second : (b : Bool) (v : Op) (r : Option Op) → b ≡ false → (if b then some v else r) ≡ r
    second b v r e = rw e refl

pub in_list-push :
    (i : ℕ) (op : Op) (l : List Op) → in_list i (l ++ (op ∷ [])) ≡ holds i op + in_list i l
in_list-push i op [] = refl
in_list-push i op (v ∷ l) = omega (arith, in_list-push i op l)

-- How often a result gives the id.
abbrev pub given : ℕ → Result → ℕ
given i (gives j) = if j == i then 1 else 0
given i (fails code) = 0

abbrev pub returned : ℕ → Round Result → ℕ
returned i (return r) = given i r
returned i again = 0
