-- ===== src/External/Sample.antt =====
-- The functions that the gateway calls, as concrete functions that the tests run.
pub mod Lawful
use bigip_kubernetes_gateway.Base.{
  String, Bool, true, false, ◌&&◌, Option, none, some, List, [], ◌∷◌, ◌==◌, if◌then◌else◌,
}
use bigip_kubernetes_gateway.Base.Text.{join, ◌⧺◌}
use bigip_kubernetes_gateway.Api.{Labels}
use bigip_kubernetes_gateway.External.{External}

abbrev pub contains : List String → String → Bool
contains [] s = false
contains (a ∷ l) s = if a == s then true else contains l s

abbrev pub unified : List String → List String
unified [] = []
unified (a ∷ l) = let rest = unified l in if contains l a then rest else a ∷ rest

abbrev pub labels_equal : Labels → Labels → Bool
labels_equal [] [] = true
labels_equal ((k, v) ∷ a) ((k', v') ∷ b) = k == k' && (v == v' && labels_equal a b)
labels_equal _ _ = false

abbrev pub merge_errors : List (Option String) → Option String
merge_errors [] = none
merge_errors (none ∷ errs) = merge_errors errs
merge_errors (some e ∷ errs) = elim (merge_errors errs) [
  | none ↦ some e
  | some e' ↦ some (e ⧺ "; " ⧺ e')
]

abbrev pub sample : External
sample = record {
  keyname = λ l. join "/" l;
  unified = unified;
  contains = contains;
  labels_equal = labels_equal;
  merge_errors = merge_errors;
  selector_matches = λ s l. elim s [ none ↦ some false | some t ↦ some (contains (t ∷ []) "") ];
}
