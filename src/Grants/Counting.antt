-- ===== src/Grants/Counting.antt =====
-- What `set` and `unset` do to each counter of the index.
use mathlib.Core.List.Memᴰ.{Memᴰ, head, tail}
use bigip_kubernetes_gateway.Base.{
  ℕ, ◌+◌, ◌-◌, ◌*◌, ◌%◌, ◌<◌, ◌≤◌, String, ◌≡◌, refl, sym, ◌∙◌, ap, ◌≢◌, none, inl, inr, List, [],
  ◌∷◌, map, arith, nat_eq, ◌==◌, eq_iff, if◌then◌else◌, or_default, Bool-cases, Option-cases,
}
use bigip_kubernetes_gateway.Base.Lists.{count}
use bigip_kubernetes_gateway.Base.GoMap.{lookup, insert, lookup-insert, lookup-delete}
use bigip_kubernetes_gateway.Api.{GrantFrom, GrantTo, ReferenceGrant}
use bigip_kubernetes_gateway.External.{External}
use bigip_kubernetes_gateway.Grants.{
  Counters, FromTo, increment, decrement, decrement_to, stringify_rg_from, stringify_rg_to,
  increment_all, set_from, set, decrement_all, unset_from, unset,
}

-- The counter of a target, 0 where there is none.
unfoldable pub counter : String → Counters → ℕ
counter t c = or_default 0 (lookup t c)

unfoldable pub value : String → String → FromTo → ℕ
unfolding counter
value f t m = counter t (or_default [] (lookup f m))

value-insert :
    (f g t : String) (c : Counters) (m : FromTo)
    → value f t (insert g c m) ≡ (if g == f then counter t c else value f t m)
unfolding value
value-insert f g t c m = rw lookup-insert (ground (arith, eq_iff g f))

counter-increment :
    (s t : String) (c : Counters)
    → (s ≡ t → counter t c + 1 < 256)
    → counter t (increment s c) ≡ (if s == t then counter t c + 1 else counter t c)
unfolding counter increment
counter-increment s t c h = rw lookup-insert (ground (arith, eq_iff s t))

counter-decrement_to :
    (s t : String) (n : ℕ) (c : Counters)
    → counter t (decrement_to s n c) ≡ (if s == t then n else counter t c)
unfolding counter decrement_to
counter-decrement_to s t n c = elim (Bool-cases (nat_eq n 0)) [
  | inl z ↦ rw z (rw lookup-delete (ground (arith, eq_iff s t)))
  | inr z ↦ rw z (rw lookup-insert (ground (arith, eq_iff s t)))
]

counter-decrement :
    (s t : String) (c : Counters)
    → counter t c < 256
    → (s ≡ t → 0 < counter t c)
    → counter t (decrement s c) ≡ (if s == t then counter t c - 1 else counter t c)
unfolding counter decrement
counter-decrement s t c h k = elim (Option-cases (lookup s c)) [
  | inl missing ↦ rw (missing, decrement) (ground (arith, eq_iff s t))
  | inr (n, found) ↦
      rw (found, decrement)
        (rw (counter-decrement_to s t ((n + 255) % 256) c) (ground (arith, eq_iff s t)))
]

module _ ⦃ext : External⦄ where
  -- The keys of a grant's sources and targets.
  unfoldable pub from_keys : ReferenceGrant → List String
  from_keys rg = map stringify_rg_from rg.from

  unfoldable pub to_keys : ReferenceGrant → List String
  to_keys rg = map (stringify_rg_to rg.namespace) rg.to

  -- How often `set` increments the counter of a pair of keys.
  unfoldable pub weight : String → String → ReferenceGrant → ℕ
  unfolding from_keys to_keys
  weight f t rg = count f (from_keys rg) * count t (to_keys rg)

  counter-increment_all :
      (ns t : String) (to : List GrantTo) (c : Counters)
      → counter t c + count t (map (stringify_rg_to ns) to) < 256
      → counter t (increment_all ns to c) ≡ counter t c + count t (map (stringify_rg_to ns) to)
  unfolding increment_all count
  counter-increment_all ns t [] c h = omega arith
  counter-increment_all ns t (g ∷ to) c h =
      let s = stringify_rg_to ns g in
      ground
        (arith, eq_iff s t, counter-increment s t c, counter-increment_all ns t to (increment s c))

  counter-decrement_all :
      (ns t : String) (to : List GrantTo) (c : Counters)
      → counter t c < 256
      → count t (map (stringify_rg_to ns) to) ≤ counter t c
      → counter t (decrement_all ns to c) ≡ counter t c - count t (map (stringify_rg_to ns) to)
  unfolding decrement_all count
  counter-decrement_all ns t [] c h k = omega arith
  counter-decrement_all ns t (g ∷ to) c h k =
      let s = stringify_rg_to ns g in
      ground
        (arith, eq_iff s t, counter-decrement s t c, counter-decrement_all ns t to (decrement s c))

  -- One round of the outer loops: the counters of one source change by `n`.
  round_up :
      (key f t : String) (n : ℕ) (c : Counters) (m : FromTo)
      → (key ≡ f → counter t c ≡ value f t m + n)
      → value f t (insert key c m) ≡ value f t m + (if key == f then 1 else 0) * n
  round_up key f t n c m h = rw value-insert (elim (Bool-cases (key == f)) [
    | inl same ↦ rw same (h ((eq_iff key f).0 same) ∙ omega arith)
    | inr other ↦ rw other (omega arith)
  ])

  round_down :
      (key f t : String) (n : ℕ) (c : Counters) (m : FromTo)
      → (key ≡ f → counter t c ≡ value f t m - n)
      → value f t (insert key c m) ≡ value f t m - (if key == f then 1 else 0) * n
  round_down key f t n c m h = rw value-insert (elim (Bool-cases (key == f)) [
    | inl same ↦ rw same (h ((eq_iff key f).0 same) ∙ omega arith)
    | inr other ↦ rw other (omega arith)
  ])

  count-cons :
      (f g : String) (l : List String) → count f (g ∷ l) ≡ (if g == f then 1 else 0) + count f l
  unfolding count
  count-cons f g l = ground arith

  value_at :
      (f g t : String) (m : FromTo) → g ≡ f → counter t (or_default [] (lookup g m)) ≡ value f t m
  unfolding value
  value_at f g t m e = rw e

  -- The step of the induction, with the arithmetic apart.
  regroup_add : (v b k n : ℕ) → v + b * n + k * n ≡ v + (b + k) * n
  regroup_add v b k n = omega arith

  regroup_sub : (v b k n : ℕ) → v - b * n - k * n ≡ v - (b + k) * n
  regroup_sub v b k n = omega arith

  fits_one :
      (v : ℕ) (key f : String) (k n : ℕ)
      → key ≡ f
      → v + ((if key == f then 1 else 0) + k) * n < 256
      → v + n < 256
  fits_one v key f k n same h = omega (arith, rw ((eq_iff key f).1 same) at h)

  covers_one :
      (v : ℕ) (key f : String) (k n : ℕ)
      → key ≡ f
      → ((if key == f then 1 else 0) + k) * n ≤ v
      → n ≤ v
  covers_one v key f k n same h = omega (arith, rw ((eq_iff key f).1 same) at h)

  leaves : (v b k n : ℕ) → (b + k) * n ≤ v → k * n ≤ v - b * n
  leaves v b k n h = omega arith

  present_after :
      (j key : String) (c : Counters) (m : FromTo)
      → lookup j m ≢ none
      → lookup j (insert key c m) ≢ none
  present_after j key c m h e = ground (arith, lookup-insert key j c m)

  value-set_from :
      (ns f t : String) (to : List GrantTo) (from : List GrantFrom) (m : FromTo)
      → value f t m + count f (map stringify_rg_from from) * count t (map (stringify_rg_to ns) to)
        < 256
      → value f t (set_from ns to from m)
        ≡ value f t m + count f (map stringify_rg_from from) * count t (map (stringify_rg_to ns) to)
  unfolding set_from
  value-set_from ns f t to [] m h = unfold count in omega arith
  value-set_from ns f t to (g ∷ from) m h =
      let key = stringify_rg_from g in
      let n = count t (map (stringify_rg_to ns) to) in
      let k = count f (map stringify_rg_from from) in
      let b : ℕ = if key == f then 1 else 0 in
      let c = or_default [] (lookup key m) in
      let bound : value f t m + (b + k) * n < 256 = rw count-cons at h in
      let round : value f t (insert key (increment_all ns to c) m) ≡ value f t m + b * n =
        round_up key f t n (increment_all ns to c) m (λ same.
          counter-increment_all ns t to c
            (rw (value_at f key t m same) (fits_one (value f t m) key f k n same bound))
          ∙ ap (λ v. v + n) (value_at f key t m same)) in
      value-set_from ns f t to from (insert key (increment_all ns to c) m)
        (rw (round, regroup_add (value f t m) b k n) bound)
      ∙ ap (λ v. v + k * n) round
      ∙ regroup_add (value f t m) b k n
      ∙ ap (λ v. value f t m + v * n) (sym (count-cons f key (map stringify_rg_from from)))

  value-unset_from :
      (ns f t : String) (to : List GrantTo) (from : List GrantFrom) (m : FromTo)
      → value f t m < 256
      → ((g : String) → Memᴰ g (map stringify_rg_from from) → lookup g m ≢ none)
      → count f (map stringify_rg_from from) * count t (map (stringify_rg_to ns) to) ≤ value f t m
      → value f t (unset_from ns to from m)
        ≡ value f t m - count f (map stringify_rg_from from) * count t (map (stringify_rg_to ns) to)
  unfolding unset_from
  value-unset_from ns f t to [] m h p k = unfold count in omega arith
  value-unset_from ns f t to (g ∷ from) m h p le =
      elim (Option-cases (lookup (stringify_rg_from g) m)) [
        | inl missing ↦ absurd (p (stringify_rg_from g) (head refl) missing)
        | inr (c, found) ↦
            let key = stringify_rg_from g in
            let n = count t (map (stringify_rg_to ns) to) in
            let k = count f (map stringify_rg_from from) in
            let b : ℕ = if key == f then 1 else 0 in
            let next = insert key (decrement_all ns to c) m in
            let bound : (b + k) * n ≤ value f t m = rw count-cons at le in
            let at_key : key ≡ f → counter t c ≡ value f t m =
              λ same. ap (λ o. counter t (or_default [] o)) (sym found) ∙ value_at f key t m same in
            let round : value f t next ≡ value f t m - b * n =
              round_down key f t n (decrement_all ns to c) m (λ same.
                counter-decrement_all ns t to c (rw (at_key same) h)
                  (rw (at_key same) (covers_one (value f t m) key f k n same bound))
                ∙ ap (λ v. v - n) (at_key same)) in
            rw (found, unset_from)
              (value-unset_from ns f t to from next (rw round (omega arith))
                  (λ j i. present_after j key (decrement_all ns to c) m (p j (tail i)))
                  (rw round (leaves (value f t m) b k n bound))
                ∙ ap (λ v. v - k * n) round
                ∙ regroup_sub (value f t m) b k n
                ∙ ap (λ v. value f t m - v * n)
                    (sym (count-cons f key (map stringify_rg_from from))))
      ]

  -- `set` adds a grant's weight to every counter, as long as the counter stays below 256.
  pub value-set :
      (f t : String) (rg : ReferenceGrant) (m : FromTo)
      → value f t m + weight f t rg < 256
      → value f t (set rg m) ≡ value f t m + weight f t rg
  unfolding set weight from_keys to_keys
  value-set f t rg m h = value-set_from rg.namespace f t rg.to rg.from m h

  -- `unset` takes it off again, if the index knows the grant's sources.
  pub value-unset :
      (f t : String) (rg : ReferenceGrant) (m : FromTo)
      → value f t m < 256
      → ((g : String) → Memᴰ g (from_keys rg) → lookup g m ≢ none)
      → weight f t rg ≤ value f t m
      → value f t (unset rg m) ≡ value f t m - weight f t rg
  unfolding unset weight from_keys to_keys
  value-unset f t rg m h p k = value-unset_from rg.namespace f t rg.to rg.from m h p k
