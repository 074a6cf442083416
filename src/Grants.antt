-- ===== src/Grants.antt =====
-- internal/pkg/utils.go: the index `ReferenceGrantFromTo`, from a source's key to the targets that
-- some reference grant opens to it, each with a counter. A counter is an int8, kept here as its bit
-- pattern: 0 to 127 stand for themselves, 128 to 255 for the negative numbers.
pub mod Counting
pub mod Sources
use bigip_kubernetes_gateway.Base.{
  ℕ, zero, suc, ◌+◌, ◌%◌, String, Bool, false, ◌&&◌, Option, none, some, List, [], ◌∷◌, map, ltb,
  nat_eq, ◌==◌, if◌then◌else◌, or_default,
}
use bigip_kubernetes_gateway.Base.GoMap.{GoMap, lookup, insert, delete}
use bigip_kubernetes_gateway.Api.{GrantFrom, GrantTo, ReferenceGrant}
use bigip_kubernetes_gateway.External.{External}

abbrev pub Counters : Type 0
Counters = GoMap ℕ

abbrev pub FromTo : Type 0
FromTo = GoMap Counters

-- `+= 1` and `-= 1` on an int8; a missing key reads as 0.
increment : String → Counters → Counters
increment t c = insert t ((or_default 0 (lookup t c) + 1) % 256) c

decrement_to : String → ℕ → Counters → Counters
decrement_to t n c = if nat_eq n 0 then delete t c else insert t n c

decrement : String → Counters → Counters
unfolding decrement_to
decrement t c = elim (lookup t c) [ none ↦ c | some n ↦ decrement_to t ((n + 255) % 256) c ]

-- v > 0 for an int8
abbrev pub is_positive : ℕ → Bool
is_positive v = ltb 0 v && ltb v 128

module _ ⦃ext : External⦄ where
  unfoldable pub stringify_rg_from : GrantFrom → String
  stringify_rg_from rgf =
      let g = if rgf.group == "" then "-" else rgf.group in
      let ns = if rgf.namespace == "" then "-" else rgf.namespace in
      ext.keyname (g ∷ rgf.kind ∷ ns ∷ [])

  unfoldable pub stringify_rg_to : String → GrantTo → String
  stringify_rg_to ns rgt =
      let g = if rgt.group == "" then "-" else rgt.group in
      ext.keyname (g ∷ rgt.kind ∷ ns ∷ or_default "*" rgt.name ∷ [])

  -- The inner loop of `set`.
  increment_all : String → List GrantTo → Counters → Counters
  increment_all ns [] c = c
  increment_all ns (t ∷ ts) c = increment_all ns ts (increment (stringify_rg_to ns t) c)

  -- The outer loop of `set`; a source that has no counters yet gets an empty map.
  set_from : String → List GrantTo → List GrantFrom → FromTo → FromTo
  set_from ns to [] m = m
  set_from ns to (f ∷ fs) m =
      let from = stringify_rg_from f in
      set_from ns to fs (insert from (increment_all ns to (or_default [] (lookup from m))) m)

  pub set : ReferenceGrant → FromTo → FromTo
  unfolding set_from
  set rg m = set_from rg.namespace rg.to rg.from m

  -- The inner loop of `unset`.
  decrement_all : String → List GrantTo → Counters → Counters
  decrement_all ns [] c = c
  decrement_all ns (t ∷ ts) c = decrement_all ns ts (decrement (stringify_rg_to ns t) c)

  -- The outer loop of `unset`; a source that is not in the index ends it.
  unset_from : String → List GrantTo → List GrantFrom → FromTo → FromTo
  unset_from ns to [] m = m
  unset_from ns to (f ∷ fs) m =
      let from = stringify_rg_from f in
      elim (lookup from m) [
        | none ↦ m
        | some c ↦ unset_from ns to fs (insert from (decrement_all ns to c) m)
      ]

  pub unset : ReferenceGrant → FromTo → FromTo
  unfolding unset_from
  unset rg m = unset_from rg.namespace rg.to rg.from m

-- A counter is there and positive.
unfoldable pub exists_in : String → Option Counters → Bool
exists_in to none = false
exists_in to (some toes) = elim (lookup to toes) [ none ↦ false | some v ↦ is_positive v ]

unfoldable pub exists : String → String → FromTo → Bool
unfolding exists_in
exists from to m = exists_in to (lookup from m)
