-- ===== src/Cache/Refer/Names.antt =====
-- A test of the names that Kubernetes admits, which runs on concrete names.
use Prim.Native.Char.{code}
use bigip_kubernetes_gateway.Base.{String, ◌≡◌, Bool, true, not, ◌&&◌, ◌==◌, eq_iff, arith, nat_eq}
use bigip_kubernetes_gateway.Base.Text.{Lacks}
use bigip_kubernetes_gateway.Cache.Refer.Keys.{IsName, IsGroup}

abbrev lacks_slash : String → Bool
lacks_slash String.[] = true
lacks_slash (String.◌∷◌ c s) = not (nat_eq (code c) (code "/")) && lacks_slash s

Lacks-of_lacks_slash : (s : String) → lacks_slash s ≡ true → Lacks "/" s
Lacks-of_lacks_slash String.[] h = tt
Lacks-of_lacks_slash (String.◌∷◌ c s) h = (ground arith, Lacks-of_lacks_slash s (ground arith))

abbrev is_group : String → Bool
is_group s = not (s == "-") && lacks_slash s

abbrev is_name : String → Bool
is_name s = not (s == "") && (not (s == "*") && is_group s)

pub group : {s : String} → is_group s ≡ true → IsGroup s
group {s} h = record {
  ne_dash = ground (arith, eq_iff s "-");
  lacks = Lacks-of_lacks_slash s (ground arith);
}

pub name : {s : String} → is_name s ≡ true → IsName s
name {s} h = record {
  ne_empty = ground (arith, eq_iff s "");
  ne_dash = ground (arith, eq_iff s "-");
  ne_star = ground (arith, eq_iff s "*");
  lacks = Lacks-of_lacks_slash s (ground arith);
}
