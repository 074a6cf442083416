-- ===== src/Cache/Secrets.antt =====
-- internal/pkg/cache.go: the certificates of gateways, from both ends.
use bigip_kubernetes_gateway.Base.{
  String, Bool, true, not, ◌&&◌, Option, none, some, List, [], ◌∷◌, ◌++◌, ◌==◌, if◌then◌else◌,
  or_default,
}
use bigip_kubernetes_gateway.Base.Attempt.{Attempt, done, fails, ◌>>=◌}
use bigip_kubernetes_gateway.Base.GoMap.{GoMap, lookup, insert, values}
use bigip_kubernetes_gateway.Base.Text.{◌⧺◌}
use bigip_kubernetes_gateway.Api.{Gateway, Listener, ListenerTls, SecretRef, Secret}
use bigip_kubernetes_gateway.External.{External}
use bigip_kubernetes_gateway.Names.{gw_listener_name, validate_secret_type}
use bigip_kubernetes_gateway.Cache.{SigCache, object_key}
use bigip_kubernetes_gateway.Cache.Refer.{can_refer}

-- A listener without a mode terminates TLS.
abbrev pub terminates : Option String → Bool
terminates none = true
terminates (some mode) = mode == "Terminate"

-- What the loop over a gateway's listeners has come to.
pub data Scan : Type 0 where
  found missing : Scan
  stopped : String → Scan

module _ ⦃ext : External⦄ where
  abbrev pub names_secret : Gateway → Secret → SecretRef → Bool
  names_secret gw scrt ref =
      or_default gw.namespace ref.namespace == scrt.namespace && ref.name == scrt.name

  unfoldable pub scan_named : Gateway → Secret → SigCache → Option String → Scan
  scan_named gw scrt c (some err) = stopped err
  scan_named gw scrt c none =
      if not (can_refer gw.meta scrt.meta c)
      then stopped (
          "'"
          ⧺ object_key gw.namespace gw.name
          ⧺ "' cannot refer to secret '"
          ⧺ object_key scrt.namespace scrt.name
          ⧺ "'")
      else found

  -- The first reference that names the secret decides.
  unfoldable pub scan_refs : Gateway → Secret → SigCache → List SecretRef → Scan
  scan_refs gw scrt c [] = missing
  scan_refs gw scrt c (ref ∷ refs) =
      let rest = scan_refs gw scrt c refs in
      if names_secret gw scrt ref
      then scan_named gw scrt c (validate_secret_type ref.group ref.kind)
      else rest

  unfoldable pub scan_tls : Gateway → Secret → SigCache → Option ListenerTls → Scan
  scan_tls gw scrt c none = stopped "invalid tls setting in listener"
  scan_tls gw scrt c (some tls) =
      if terminates tls.mode then scan_refs gw scrt c tls.certificate_refs else missing

  unfoldable pub scan_gateway : Gateway → Secret → SigCache → List Listener → Scan
  scan_gateway gw scrt c [] = missing
  scan_gateway gw scrt c (ls ∷ rest) =
      let later = scan_gateway gw scrt c rest in
      if ls.protocol == "HTTPS"
      then elim (scan_tls gw scrt c ls.tls) [
        | missing ↦ later
        | found ↦ found
        | stopped e ↦ stopped e
      ]
      else later

  -- The gateways that were found so far, and the error that ended the loop.
  unfoldable pub refs_of_secret : Secret → SigCache → List Gateway → List Gateway × Option String
  refs_of_secret scrt c [] = ([], none)
  refs_of_secret scrt c (gw ∷ gws) =
      let (refs, err) = refs_of_secret scrt c gws in
      elim (scan_gateway gw scrt c gw.listeners) [
        | found ↦ (gw ∷ refs, err)
        | missing ↦ (refs, err)
        | stopped e ↦ ([], some e)
      ]

  unfoldable pub gateway_refs_of_secret : Option Secret → SigCache → List Gateway × Option String
  gateway_refs_of_secret none c = ([], none)
  gateway_refs_of_secret (some scrt) c = refs_of_secret scrt c (values c.gateway)

  unfoldable pub checked_secret :
      Gateway → SigCache → SecretRef → String → Option Secret → Attempt Secret
  checked_secret gw c ref n none = fails ("secret " ⧺ n ⧺ " not exist or cannnot refer to")
  checked_secret gw c ref n (some scrt) =
      if can_refer gw.meta scrt.meta c
      then elim (validate_secret_type ref.group ref.kind) [
        | none ↦ done scrt
        | some err ↦ fails err
      ]
      else fails ("secret " ⧺ n ⧺ " not exist or cannnot refer to")

  unfoldable pub certificates : Gateway → SigCache → List SecretRef → Attempt (List Secret)
  certificates gw c [] = done []
  certificates gw c (ref ∷ refs) =
      let n = object_key (or_default gw.namespace ref.namespace) ref.name in
      do
        scrt ← checked_secret gw c ref n (lookup n c.secret)
        rest ← certificates gw c refs
        done (scrt ∷ rest)

  unfoldable pub tls_secrets : Gateway → SigCache → Option ListenerTls → Attempt (List Secret)
  tls_secrets gw c none = fails "invalid listener.TLS setting"
  tls_secrets gw c (some tls) =
      if terminates tls.mode then certificates gw c tls.certificate_refs else done []

  unfoldable pub listener_secrets : Gateway → SigCache → Listener → Attempt (List Secret)
  listener_secrets gw c ls = if ls.protocol == "HTTPS" then tls_secrets gw c ls.tls else done []

  -- The map under construction; an error drops it, as the callers do.
  unfoldable pub add_listener_secrets :
      Gateway → SigCache → List Listener → GoMap (List Secret) → Attempt (GoMap (List Secret))
  add_listener_secrets gw c [] rlt = done rlt
  add_listener_secrets gw c (ls ∷ rest) rlt =
      let lsname = gw_listener_name gw ls in
      do
        scrts ← listener_secrets gw c ls
        add_listener_secrets gw c rest
            (insert lsname (or_default [] (lookup lsname rlt) ++ scrts) rlt)

  unfoldable pub attached_secrets : Option Gateway → SigCache → Attempt (GoMap (List Secret))
  attached_secrets none c = done []
  attached_secrets (some gw) c = add_listener_secrets gw c gw.listeners []
