-- ===== src/External.antt =====
-- The functions of github.com/f5devcentral/f5-bigip-rest-go/utils and of k8s.io/apimachinery that
-- the gateway calls, as a parameter, with the documented behaviour that the gateway relies on.
pub mod Sample
use mathlib.Core.List.Memᴰ.{Memᴰ}
use bigip_kubernetes_gateway.Base.{String, ◌≡◌, ◌≢◌, ◌↔◌, Bool, true, Option, none, List, [], ◌∷◌}
use bigip_kubernetes_gateway.Base.Text.{join}
use bigip_kubernetes_gateway.Api.{Labels}

abbrev pub NoneEmpty : List String → Type 0
NoneEmpty [] = Unit
NoneEmpty (s ∷ l) = (s ≢ "") × NoneEmpty l

abbrev pub AllNone : List (Option String) → Type 0
AllNone [] = Unit
AllNone (e ∷ l) = (e ≡ none) × AllNone l

pub record External : Type 0 where
  -- utils.Keyname
  pub keyname : List String → String
  -- utils.Unified and utils.Contains
  pub unified : List String → List String
  pub contains : List String → String → Bool
  -- utils.DeepEqual on the labels of a namespace
  pub labels_equal : Labels → Labels → Bool
  -- utils.MergeErrors, on errors that stand by their texts: `none` is nil.
  pub merge_errors : List (Option String) → Option String
  -- metav1.LabelSelectorAsSelector, then Matches: `none` is the error of the first.
  pub selector_matches : Option String → Labels → Option Bool

-- What the gateway relies on, a hypothesis of the theorems that need it.
pub record IsLawful (ext : External) : Type 0 where
  -- Keyname joins names that are not empty by slashes.
  pub keyname-eq-join : (l : List String) → NoneEmpty l → ext.keyname l ≡ join "/" l
  -- Unified drops repetitions and nothing else; Contains looks for an element.
  pub unified-mem : (l : List String) (s : String) → Memᴰ s (ext.unified l) ↔ Memᴰ s l
  pub contains_iff : (l : List String) (s : String) → (ext.contains l s ≡ true) ↔ Memᴰ s l
  -- MergeErrors gives nil exactly for a list of nils.
  pub merge_errors_iff : (l : List (Option String)) → (ext.merge_errors l ≡ none) ↔ AllNone l
