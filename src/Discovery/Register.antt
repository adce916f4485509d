-- ===== src/Discovery/Register.antt =====
-- `registerSelf` of common/zooClient.cpp, with ZooKeeper's tree of nodes and its calls as parameters.
use websocket_test.Base.{
  ℕ, ◌<◌, ◌≡◌, ◌≢◌, refl, sym, ap, ◌∙◌, subst, arith, List, [], ◌∷◌, ◌++◌, ◌==◌, length,
  length-append, Bool-cases, inl, inr, ==_iff,
}
use websocket_test.Discovery.{
  HostInfo, NodeReply, no_node, owned_by, ZooCall, create_node, create_ephemeral, delete_node,
  slash, father_calls, stale_calls, father_path, full_path, register_self, generate_addr_info,
}

-- No node, or one that a session owns: a node that belongs to none is owned by 0.
abbrev pub IsEphemeral : NodeReply → Type 0
IsEphemeral no_node = Unit {0}
IsEphemeral (owned_by s) = 0 < s

-- Calls that succeed, and what they do to the node that `zoo_exists` finds.
pub record ZooLaws {T : Type 0} (exists : List ℕ → T → NodeReply) (call : ℕ → ZooCall → T → T)
    : Type 0 where
  pub created : (s : ℕ) (p : List ℕ) (t : T) → exists p (call s (create_node p) t) ≢ no_node
  pub create_keeps :
      (s : ℕ) (p q : List ℕ) (t : T) → p ≢ q → exists p (call s (create_node q) t) ≡ exists p t
  pub deleted :
      (s o : ℕ) (p : List ℕ) (t : T)
      → exists p t ≡ owned_by o
      → 0 < o
      → exists p (call s (delete_node p) t) ≡ no_node
  pub delete_keeps :
      (s : ℕ) (p q : List ℕ) (t : T) → p ≢ q → exists p (call s (delete_node q) t) ≡ exists p t
  -- An ephemeral node below one that is there, and a node that is there already.
  pub owned :
      (s : ℕ) (p name : List ℕ) (t : T)
      → exists p t ≢ no_node
      → exists (p ++ (slash ∷ name)) t ≡ no_node
      → exists (p ++ (slash ∷ name)) (call s (create_ephemeral (p ++ (slash ∷ name))) t)
        ≡ owned_by s
  pub exists_already :
      (s o : ℕ) (p : List ℕ) (t : T)
      → exists p t ≡ owned_by o
      → exists p (call s (create_ephemeral p) t) ≡ owned_by o

module _ {T : Type 0} (exists : List ℕ → T → NodeReply) (call : ℕ → ZooCall → T → T) where
  abbrev pub calls : ℕ → List ZooCall → T → T
  calls s [] t = t
  calls s (z ∷ zs) t = calls s zs (call s z t)

  module _ (print_u : ℕ → List ℕ) (local : HostInfo) (s : ℕ) (laws : ZooLaws exists call) where
    abbrev father : List ℕ
    father = father_path local

    abbrev full : List ℕ
    full = full_path print_u local

    full-ne-father : full ≢ father
    unfolding full_path
    full-ne-father e = omega (
      arith,
      ap length e,
      length-append (father_path local) (slash ∷ generate_addr_info print_u local),
    )

    father-ne-full : father ≢ full
    father-ne-full e = full-ne-father (sym e)

    -- The last call, below a father that is there.
    create_full :
        (t : T)
        → exists father t ≢ no_node
        → exists full t ≡ no_node
        → exists full (call s (create_ephemeral full) t) ≡ owned_by s
    unfolding full_path
    create_full t f e = laws.owned s father (generate_addr_info print_u local) t f e

    after_father :
        (t : T) (r : NodeReply)
        → exists father t ≢ no_node
        → exists full t ≡ r
        → IsEphemeral r
        → exists full (calls s (stale_calls full s r ++ (create_ephemeral full ∷ [])) t)
          ≡ owned_by s
    unfolding stale_calls
    after_father t no_node f e i = create_full t f e
    after_father t (owned_by o) f e i = elim (Bool-cases (o == s)) [
      | inl y ↦ rw y (laws.exists_already s o full t e ∙ ap owned_by ((==_iff o s).0 y))
      | inr n ↦ rw n (
          create_full (call s (delete_node full) t)
            (subst (λ r. r ≢ no_node) (sym (laws.delete_keeps s father full t father-ne-full)) f)
            (laws.deleted s o full t e i))
    ]

    -- After the calls of registerSelf, where ZooKeeper's calls succeed, the node of the host is
    -- there and belongs to the current session, whether there was no node, its own, or one that
    -- another session left behind; a node that is there before is an ephemeral one.
    pub register_self-owns :
        (t : T)
        → IsEphemeral (exists full t)
        → exists full (calls s (register_self print_u local s (exists father t) (exists full t)) t)
          ≡ owned_by s
    unfolding register_self father_calls
    register_self-owns t i = with_father (exists father t) refl
      where
        with_father :
            (r : NodeReply)
            → exists father t ≡ r
            → exists full (
                calls s
                  (father_calls father r
                    ++ (stale_calls full s (exists full t) ++ (create_ephemeral full ∷ [])))
                  t)
              ≡ owned_by s
        with_father no_node e =
            let kept = laws.create_keeps s full father t full-ne-father in
            after_father (call s (create_node father) t) (exists full t) (laws.created s father t)
              kept i
        with_father (owned_by o) e =
            after_father t (exists full t) (subst (λ r. r ≢ no_node) (sym e) (λ z. cc)) refl i
