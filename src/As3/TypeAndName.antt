-- ===== src/As3/TypeAndName.antt =====
-- A typed name is taken apart at its last slash.
use bigip_kubernetes_gateway.Base.{String, ◌≡◌, refl, ap, List, [], ◌∷◌, ◌++◌}
use bigip_kubernetes_gateway.Base.Text.{◌⧺◌, Lacks, split-append, join-split}
use bigip_kubernetes_gateway.As3.{all_but_last, last, type_and_name}

pub all_but_last-append : (l : List String) (n : String) → all_but_last (l ++ n ∷ []) ≡ l
all_but_last-append [] n = refl
all_but_last-append (a ∷ []) n = refl
all_but_last-append (a ∷ (b ∷ l)) n = ap (λ r. a ∷ r) (all_but_last-append (b ∷ l) n)

pub last-append : (l : List String) (n : String) → last (l ++ n ∷ []) ≡ n
last-append [] n = refl
last-append (a ∷ []) n = refl
last-append (a ∷ (b ∷ l)) n = last-append (b ∷ l) n

-- A type, slashes and all, and a name without one are given back as they were put together.
pub type_and_name-join : (t n : String) → Lacks "/" n → type_and_name (t ⧺ "/" ⧺ n) ≡ (t, n)
unfolding type_and_name
type_and_name-join t n h = rw (split-append, all_but_last-append, last-append, join-split)
