-- ===== src/K8s/Nodes/Laws.antt =====
-- What an update of the cache of nodes leaves.
use bigip_kubernetes_gateway.Base.{
  String, ◌≡◌, ◌≢◌, refl, true, false, Option, none, some, arith, eq_iff, Bool-cases, inl, inr,
  Outcome, returns,
}
use bigip_kubernetes_gateway.Base.GoMap.{insert, delete, lookup-insert, lookup-delete}
use bigip_kubernetes_gateway.K8s.Nodes.{
  Node, K8Node, NodeCache, Unmarshalled, Built, built, refused, broken, set, unset, get,
  store_built, build_node, is_unreachable, detect_cni_type,
}

-- The cache after an update of node `n`, and the error that it returned.
pub record Updated (n : Node) (b : Built) (c c' : NodeCache) (err : Option String) : Type 0 where
  pub others : (j : String) → n.name ≢ j → get j c' ≡ get j c
  pub refused_unchanged : err ≢ none → c' ≡ c
  pub unreachable_removed : is_unreachable n.taints ≡ true → (get n.name c' ≡ none) × (err ≡ none)
  pub stored :
      is_unreachable n.taints ≡ false
      → err ≡ none
      → (k : K8Node) × (b ≡ built k) × (get n.name c' ≡ some k)

stored-Updated :
    (n : Node) (b : Built) (c c' : NodeCache) (err : Option String)
    → is_unreachable n.taints ≡ false
    → store_built n.name b c ≡ returns (c', err)
    → Updated n b c c' err
unfolding store_built get
stored-Updated n (built k) c c' err r e =
    let e1 : insert n.name k c ≡ c' = cc in
    let e2 : none ≡ err = cc in
    record {
      others = λ j ne. rw (← e1) (ground (arith, lookup-insert n.name j k c, eq_iff n.name j));
      refused_unchanged = λ ne. absurd (ne (cc));
      unreachable_removed = λ y. cc;
      stored = λ y z. (
        k,
        refl,
        rw (← e1) (ground (arith, lookup-insert n.name n.name k c, eq_iff n.name n.name)),
      );
    }
stored-Updated n (refused msg) c c' err r e =
    let e1 : c ≡ c' = cc in
    record {
      others = λ j ne. rw e1;
      refused_unchanged = λ ne. cc;
      unreachable_removed = λ y. cc;
      stored = λ y z. cc;
    }
stored-Updated n broken c c' err r e = cc

removed-Updated :
    (n : Node) (b : Built) (c c' : NodeCache) (err : Option String)
    → is_unreachable n.taints ≡ true
    → delete n.name c ≡ c'
    → none ≡ err
    → Updated n b c c' err
unfolding get
removed-Updated n b c c' err r e1 e2 = record {
  others = λ j ne. rw (← e1) (ground (arith, lookup-delete n.name j c, eq_iff n.name j));
  refused_unchanged = λ ne. absurd (ne (cc));
  unreachable_removed =
      λ y. (rw (← e1) (ground (arith, lookup-delete n.name n.name c, eq_iff n.name n.name)), cc);
  stored = λ y z. cc;
}

removed_step :
    (n : Node) (b : Built) (c c' : NodeCache) (err : Option String)
    → is_unreachable n.taints ≡ true
    → ◌≡◌ {A = Outcome (NodeCache × Option String)}
        (returns (unset n.name c, none))
        (returns (c', err))
    → Updated n b c c' err
unfolding unset
removed_step n b c c' err r e =
    let e1 : delete n.name c ≡ c' = cc in
    let e2 : none ≡ err = cc in removed-Updated n b c c' err r e1 e2

-- When Set returns, other nodes are as they were; an error leaves the whole cache as it was; an
-- unreachable node is gone; and any other node is stored as it was built.
pub set-Updated :
    (unmarshal : String → Unmarshalled) (n : Node) (c c' : NodeCache) (err : Option String)
    → set unmarshal n c ≡ returns (c', err)
    → Updated n (build_node unmarshal n (detect_cni_type n.conditions)) c c' err
unfolding set
set-Updated unmarshal n c c' err e = elim (Bool-cases (is_unreachable n.taints)) [
  | inl y ↦ removed_step n _ c c' err y (rw y at e)
  | inr r ↦ stored-Updated n _ c c' err r (rw r at e)
]
