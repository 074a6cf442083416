-- ===== src/Json.antt =====
-- The `interface{}` values of AS3 declarations, with Go's `map[string]interface{}` inside them.
use bigip_kubernetes_gateway.Base.{ℕ, String, Bool, List, [], ◌∷◌}
use bigip_kubernetes_gateway.Base.GoMap.{GoMap}

mutual
  pub data Json : Type 0 where
    text : String → Json
    number : ℕ → Json
    boolean : Bool → Json
    array : Items → Json
    object : Members → Json

  pub data Items : Type 0 where
    nil : Items
    item : Json → Items → Items

  pub data Members : Type 0 where
    end : Members
    member : String → Json → Members → Members

-- A map literal, and a map read back.
abbrev pub members : GoMap Json → Members
members [] = end
members ((k, v) ∷ m) = member k v (members m)

abbrev pub fields : Members → GoMap Json
fields end = []
fields (member k v m) = (k, v) ∷ fields m

abbrev pub items : List Json → Items
items [] = nil
items (v ∷ vs) = item v (items vs)
