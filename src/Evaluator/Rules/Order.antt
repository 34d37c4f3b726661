-- ===== src/Evaluator/Rules/Order.antt =====
-- The order in which `evaluateRules` of evaluation/evaluator.go tries rules: the sort by priority,
-- which the code makes in place on the flag that the repository still holds.
use mathlib.Core.Path.{subst, ap₂}
use mathlib.Core.List.{Permᴰ}
use ff_golang_server_sdk.Common.{
  ◌≡◌, ◌≢◌, refl, sym, ap, ◌∙◌, true, false, Option, none, some, List, [], ◌∷◌, arith, Bool-cases,
  inl, inr, All, ◌⊎◌,
}
use ff_golang_server_sdk.Common.Int.{ℤ, pos, negsuc, ltb_ℤ, ◌≤ℤ◌}
use ff_golang_server_sdk.Go.{Runtime}
use ff_golang_server_sdk.Rest.{ServingRule}
use ff_golang_server_sdk.Target.{Target}
use ff_golang_server_sdk.Evaluator.Clause.{Included}
use ff_golang_server_sdk.Evaluator.Rules.{insert_rule, sort_rules, evaluate_rules}

-- Priorities do not fall along the list.
abbrev pub IsSorted : List ServingRule → Type 0
IsSorted [] = Unit
IsSorted (r ∷ rules) = All (λ s. r.priority ≤ℤ s.priority) rules × IsSorted rules

abbrev pub AtLeast : ℤ → List ServingRule → Type 0
AtLeast p = All (λ s. p ≤ℤ s.priority)

AtLeast-mono : (p q : ℤ) (rules : List ServingRule) → p ≤ℤ q → AtLeast q rules → AtLeast p rules
AtLeast-mono p q [] le h = tt
AtLeast-mono p q (s ∷ rules) le h = (omega (arith, h.0), AtLeast-mono p q rules le h.1)

insert-AtLeast :
    (p : ℤ) (r : ServingRule) (rules : List ServingRule)
    → p ≤ℤ r.priority
    → AtLeast p rules
    → AtLeast p (insert_rule r rules)
unfolding insert_rule
insert-AtLeast p r [] le h = (le, tt)
insert-AtLeast p r (s ∷ rules) le h = elim (Bool-cases (ltb_ℤ s.priority r.priority)) [
  | inl e ↦ rw e (h.0, insert-AtLeast p r rules le h.1)
  | inr e ↦ rw e (le, h)
]

insert-IsSorted :
    (r : ServingRule) (rules : List ServingRule) → IsSorted rules → IsSorted (insert_rule r rules)
unfolding insert_rule
insert-IsSorted r [] h = (tt, tt)
insert-IsSorted r (s ∷ rules) h = elim (Bool-cases (ltb_ℤ s.priority r.priority)) [
  | inl e ↦ rw e (insert-AtLeast s.priority r rules (ground arith) h.0, insert-IsSorted r rules h.1)
  | inr e ↦
      let le : r.priority ≤ℤ s.priority = ground arith in
      rw e ((le, AtLeast-mono r.priority s.priority rules le h.0), h)
]

-- Sorting the rules puts their priorities in ascending order.
pub sort_rules-IsSorted : (rules : List ServingRule) → IsSorted (sort_rules rules)
unfolding sort_rules
sort_rules-IsSorted [] = tt
sort_rules-IsSorted (r ∷ rules) = insert-IsSorted r (sort_rules rules) (sort_rules-IsSorted rules)

insert-sorted :
    (r : ServingRule) (rules : List ServingRule)
    → AtLeast r.priority rules
    → insert_rule r rules ≡ r ∷ rules
unfolding insert_rule
insert-sorted r [] h = refl
insert-sorted r (s ∷ rules) h = ground (arith, h.0)

sort-sorted : (rules : List ServingRule) → IsSorted rules → sort_rules rules ≡ rules
unfolding sort_rules
sort-sorted [] h = refl
sort-sorted (r ∷ rules) h = rw (sort-sorted rules h.1) (insert-sorted r rules h.0)

-- The in-place sort of the shared rules changes no later evaluation.
pub evaluate_rules-sort :
    (rt : Runtime) (included : Included rt) (rules : List ServingRule)
    (target : Option (Target rt.Float))
    → evaluate_rules rt included (sort_rules rules) target ≡ evaluate_rules rt included rules target
unfolding evaluate_rules
evaluate_rules-sort rt included rules none = refl
evaluate_rules-sort rt included rules (some t) =
    rw (sort-sorted (sort_rules rules) (sort_rules-IsSorted rules))

-- No two rules have the same priority.
abbrev pub HasDistinct : List ServingRule → Type 0
HasDistinct [] = Unit
HasDistinct (r ∷ rules) = All (λ s. r.priority ≢ s.priority) rules × HasDistinct rules

ltb_apart :
    (a b : ℤ)
    → a ≢ b
    → ((ltb_ℤ a b ≡ true) × (ltb_ℤ b a ≡ false)) ⊎ ((ltb_ℤ a b ≡ false) × (ltb_ℤ b a ≡ true))
ltb_apart (pos m) (pos n) h = ground arith
ltb_apart (pos m) (negsuc n) h = ground arith
ltb_apart (negsuc m) (pos n) h = ground arith
ltb_apart (negsuc m) (negsuc n) h = ground arith

ltb_between : (a b c : ℤ) → ltb_ℤ b a ≡ false → ltb_ℤ b c ≡ true → ltb_ℤ a c ≡ true
ltb_between a b c h k = ground arith

insert_comm :
    (r s : ServingRule) (rules : List ServingRule)
    → r.priority ≢ s.priority
    → insert_rule r (insert_rule s rules) ≡ insert_rule s (insert_rule r rules)
unfolding insert_rule
insert_comm r s [] h = elim (ltb_apart r.priority s.priority h) [
  | inl (below, above) ↦ rw below (rw above)
  | inr (below, above) ↦ rw below (rw above)
]
insert_comm r s (u ∷ rules) h = elim (Bool-cases (ltb_ℤ u.priority r.priority)) [
  | inl ur ↦ elim (Bool-cases (ltb_ℤ u.priority s.priority)) [
    | inl us ↦ simp (ur, us) (ap (λ l. u ∷ l) (insert_comm r s rules h))
    | inr us ↦
        let sr : ltb_ℤ s.priority r.priority ≡ true =
          ltb_between s.priority u.priority r.priority us ur in
        simp (us, ur, sr)
  ]
  | inr ur ↦ elim (Bool-cases (ltb_ℤ u.priority s.priority)) [
    | inl us ↦
        let rs : ltb_ℤ r.priority s.priority ≡ true =
          ltb_between r.priority u.priority s.priority ur us in
        simp (us, ur, rs)
    | inr us ↦ elim (ltb_apart r.priority s.priority h) [
      | inl (below, above) ↦ simp (us, ur, above, below)
      | inr (below, above) ↦ simp (us, ur, above, below)
    ]
  ]
]

Distinct-perm :
    {xs ys : List ServingRule} (p : ℤ)
    → Permᴰ xs ys
    → All (λ s. p ≢ s.priority) xs
    → All (λ s. p ≢ s.priority) ys
Distinct-perm p Permᴰ.nil h = tt
Distinct-perm p (Permᴰ.cons e d) h =
    (λ f. h.0 (f ∙ sym (ap (λ s. s.priority) e)), Distinct-perm p d h.1)
Distinct-perm p (Permᴰ.swap e f) h = (
  λ k. h.1.0 (k ∙ sym (ap (λ s. s.priority) f)),
  (λ k. h.0 (k ∙ sym (ap (λ s. s.priority) e)), h.1.1),
)
Distinct-perm p (Permᴰ.trans d e) h = Distinct-perm p e (Distinct-perm p d h)

HasDistinct-perm : {xs ys : List ServingRule} → Permᴰ xs ys → HasDistinct xs → HasDistinct ys
HasDistinct-perm Permᴰ.nil h = tt
HasDistinct-perm (Permᴰ.cons {a} {b} {l₁} {l₂} e d) h = (
  subst (λ (r : ServingRule). All (λ s. r.priority ≢ s.priority) l₂) e
      (Distinct-perm a.priority d h.0),
  HasDistinct-perm d h.1,
)
HasDistinct-perm (Permᴰ.swap {a} {b} {a'} {b'} {l} e f) h = (
  (
    λ k. h.0.0 (
        ap (λ (s : ServingRule). s.priority) e
        ∙ sym k
        ∙ sym (ap (λ (s : ServingRule). s.priority) f)),
    subst (λ (r : ServingRule). All (λ s. r.priority ≢ s.priority) l) f h.1.0,
  ),
  (subst (λ (r : ServingRule). All (λ s. r.priority ≢ s.priority) l) e h.0.1, h.1.1),
)
HasDistinct-perm (Permᴰ.trans d e) h = HasDistinct-perm e (HasDistinct-perm d h)

sort-perm :
    {xs ys : List ServingRule} → Permᴰ xs ys → HasDistinct xs → sort_rules xs ≡ sort_rules ys
unfolding sort_rules
sort-perm Permᴰ.nil h = refl
sort-perm (Permᴰ.cons e d) h = ap₂ insert_rule e (sort-perm d h.1)
sort-perm (Permᴰ.swap {a} {b} {a'} {b'} {l} e f) h =
    insert_comm a b (sort_rules l) h.0.0
    ∙ ap₂ (λ (x y : ServingRule). insert_rule x (insert_rule y (sort_rules l))) f e
sort-perm (Permᴰ.trans d e) h = sort-perm d h ∙ sort-perm e (HasDistinct-perm d h)

-- Rules of distinct priorities give the same variation in whatever order the service lists them.
pub evaluate_rules-perm :
    (rt : Runtime) (included : Included rt) {xs ys : List ServingRule}
    (target : Option (Target rt.Float))
    → Permᴰ xs ys
    → HasDistinct xs
    → evaluate_rules rt included xs target ≡ evaluate_rules rt included ys target
unfolding evaluate_rules
evaluate_rules-perm rt included none d h = refl
evaluate_rules-perm rt included (some t) d h = rw (sort-perm d h)
