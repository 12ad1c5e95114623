-- ===== src/Storage/Sdr/Walk.antt =====
-- The linked list of SDRs, and the loops from its head.
use ipmigod.Base.{
  ℕ, zero, suc, ◌+◌, ◌≤◌, ◌<◌, ◌≡◌, refl, ◌⊎◌, inl, inr, Bool, true, Option, none, some, List, [],
  ◌∷◌, ◌++◌, get_elem?, modify, length, length-append, length-modify, get_elem?-IsSome_of_lt, All,
  All-append, All-modify, Returns, returns, if-Returns, Safe, returned, option-Safe, or_panic-Safe,
  sym, arith,
}
use mathlib.Core.Path.{subst}
use ipmigod.Bmc.{Sdr, Sdrs}
use ipmigod.Bmc.Sized.{IsSized}
use ipmigod.Storage.Sdr.{find_sdr, link_sdr}

-- A pointer is nil, or leads to a node from index `k` on, of `n` nodes.
abbrev pub PointsFrom : ℕ → ℕ → Option ℕ → Type 0
PointsFrom k n ptr = (ptr ≡ none) ⊎ ((i : ℕ) × (ptr ≡ some i) × (k ≤ i) × (i < n))

-- Every node from index `k` on leads to a later one of the `n` nodes, or is the last.
abbrev pub LinksAscend : ℕ → ℕ → List Sdr → Type 0
LinksAscend n k [] = Unit {0}
LinksAscend n k (s ∷ ss) = PointsFrom (suc k) n s.next × LinksAscend n (suc k) ss

-- A repository is well-formed: its head, its tail and the links of its nodes lead to nodes, links only
-- to later ones, and the record of every node fills its array.
pub record SdrsAreLinked (sdrs : Sdrs) : Type 0 where
  pub head : PointsFrom 0 (length sdrs.nodes) sdrs.sdrs
  pub tail : PointsFrom 0 (length sdrs.nodes) sdrs.tail_sdr
  pub links : LinksAscend (length sdrs.nodes) 0 sdrs.nodes
  pub sized : All IsSized sdrs.nodes

pub PointsFrom-mono :
    (k k' n n' : ℕ) (ptr : Option ℕ) → k' ≤ k → n ≤ n' → PointsFrom k n ptr → PointsFrom k' n' ptr
PointsFrom-mono k k' n n' ptr h l (inl e) = inl e
PointsFrom-mono k k' n n' ptr h l (inr (i, e, lo, hi)) = inr (i, e, omega arith, omega arith)

pub LinksAscend-get_elem? :
    (ss : List Sdr) (n k i : ℕ) (s : Sdr)
    → LinksAscend n k ss
    → get_elem? ss i ≡ some s
    → PointsFrom (suc (k + i)) n s.next
LinksAscend-get_elem? [] n k i s h e = cc
LinksAscend-get_elem? (x ∷ ss) n k zero s h e = ground arith
LinksAscend-get_elem? (x ∷ ss) n k (suc i) s h e =
    ground (arith, LinksAscend-get_elem? ss n (suc k) i s h.1 e)

-- The result of a search is a node that passes the test, where it stands.
abbrev pub FoundBy : (Sdr → Bool) → List Sdr → Option (ℕ × Sdr) → Type 0
FoundBy p nodes none = Unit {0}
FoundBy p nodes (some (i, s)) = (get_elem? nodes i ≡ some s) × (p s ≡ true)

module _ (p : Sdr → Bool) (nodes : List Sdr) (linked : LinksAscend (length nodes) 0 nodes) where
  -- A walk through linked nodes, from a pointer that leads to index `k` or beyond, ends without a
  -- panic when the fuel reaches from `k` to the end; what it returns is a node that passes the test,
  -- where it stands, or nothing.
  pub find_sdr-FoundBy :
      (fuel k : ℕ) (ptr : Option ℕ)
      → PointsFrom k (length nodes) ptr
      → length nodes ≤ k + fuel
      → Returns (FoundBy p nodes) (find_sdr p fuel nodes ptr)
  unfolding find_sdr
  find_sdr-FoundBy zero k none h enough = returns tt
  find_sdr-FoundBy zero k (some i) h enough = absurd (ground arith)
  find_sdr-FoundBy (suc fuel) k none h enough = returns tt
  find_sdr-FoundBy (suc fuel) k (some i) h enough =
      let (s, at) = get_elem?-IsSome_of_lt nodes i (ground arith) in
      let rest =
        find_sdr-FoundBy fuel (suc i) s.next
          (PointsFrom-mono (suc (0 + i)) (suc i) (length nodes) (length nodes) s.next (omega arith)
            (omega arith) (LinksAscend-get_elem? nodes (length nodes) 0 i s linked at))
          (ground arith) in
      rw (at, find_sdr) (if-Returns (p s) (λ e. returns (at, e)) (λ _. rest))

LinksAscend-mono : (ss : List Sdr) (n n' k : ℕ) → n ≤ n' → LinksAscend n k ss → LinksAscend n' k ss
LinksAscend-mono [] n n' k l h = tt
LinksAscend-mono (s ∷ ss) n n' k l h = (
  PointsFrom-mono (suc k) (suc k) n n' s.next (omega arith) l h.0,
  LinksAscend-mono ss n n' (suc k) l h.1,
)

append-LinksAscend :
    (ss : List Sdr) (s : Sdr) (n k : ℕ)
    → s.next ≡ none
    → LinksAscend n k ss
    → LinksAscend n k (ss ++ s ∷ [])
append-LinksAscend [] s n k e h = (inl e, tt)
append-LinksAscend (x ∷ ss) s n k e h = (h.0, append-LinksAscend ss s n (suc k) e h.1)

-- A write to a node keeps the links, if the new link leads to a later node.
pub modify-LinksAscend :
    (ss : List Sdr) (n k i j : ℕ) (f : Sdr → Sdr)
    → k + i ≡ j
    → ((s : Sdr) → PointsFrom (suc j) n s.next → PointsFrom (suc j) n (f s).next)
    → LinksAscend n k ss
    → LinksAscend n k (modify ss i f)
modify-LinksAscend [] n k i j f e keep h = tt
modify-LinksAscend (x ∷ ss) n k zero j f e keep h =
    let p : j ≡ k = omega arith in
    (
      subst (λ m. PointsFrom (suc m) n (f x).next) p
          (keep x (subst (λ m. PointsFrom (suc m) n x.next) (sym p) h.0)),
      h.1,
    )
modify-LinksAscend (x ∷ ss) n k (suc i) j f e keep h =
    (h.0, modify-LinksAscend ss n (suc k) i j f (omega arith) keep h.1)

-- A value is written.
pub set-SdrsAreLinked :
    (sdrs : Sdrs) (i : ℕ) (f : Sdr → Sdr)
    → ((s : Sdr) → (f s).next ≡ s.next)
    → ((s : Sdr) → IsSized s → IsSized (f s))
    → SdrsAreLinked sdrs
    → SdrsAreLinked (record sdrs { nodes = modify sdrs.nodes i f })
set-SdrsAreLinked sdrs i f same keeps v =
    let e = length-modify sdrs.nodes i f in
    record {
      head = PointsFrom-mono 0 0 _ _ sdrs.sdrs (omega arith) (omega (arith, e)) v.head;
      tail = PointsFrom-mono 0 0 _ _ sdrs.tail_sdr (omega arith) (omega (arith, e)) v.tail;
      links = LinksAscend-mono (modify sdrs.nodes i f) (length sdrs.nodes) _ 0 (omega (arith, e)) (
          modify-LinksAscend sdrs.nodes (length sdrs.nodes) 0 i i f (omega arith)
            (λ s h. subst (PointsFrom (suc i) (length sdrs.nodes)) (sym (same s)) h) v.links);
      sized = All-modify _ sdrs.nodes i f keeps v.sized;
    }

-- A new node at the end, not linked yet.
grown-SdrsAreLinked :
    (sdrs : Sdrs) (s : Sdr)
    → s.next ≡ none
    → IsSized s
    → SdrsAreLinked sdrs
    → SdrsAreLinked (record sdrs { nodes = sdrs.nodes ++ (s ∷ []) })
grown-SdrsAreLinked sdrs s e size v =
    let l : length sdrs.nodes ≤ length (sdrs.nodes ++ (s ∷ [])) =
      omega (arith, length-append sdrs.nodes (s ∷ [])) in
    record {
      head = PointsFrom-mono 0 0 _ _ sdrs.sdrs (omega arith) l v.head;
      tail = PointsFrom-mono 0 0 _ _ sdrs.tail_sdr (omega arith) l v.tail;
      links = append-LinksAscend sdrs.nodes s _ 0 e (LinksAscend-mono sdrs.nodes _ _ 0 l v.links);
      sized = All-append _ sdrs.nodes (s ∷ []) v.sized (size, tt);
    }

-- `addSdrEntry` links a new last node, whose record fills its array, behind the tail of a linked
-- repository. The repository is still linked, its records sized, unless the code panics.
pub link_sdr-SdrsAreLinked :
    (sdrs : Sdrs) (s : Sdr)
    → s.next ≡ none
    → IsSized s
    → SdrsAreLinked sdrs
    → Safe SdrsAreLinked
        (link_sdr (record sdrs { nodes = sdrs.nodes ++ (s ∷ []) }) (length sdrs.nodes))
unfolding link_sdr
link_sdr-SdrsAreLinked sdrs s e size v =
    let n = length sdrs.nodes in
    let grown = grown-SdrsAreLinked sdrs s e size v in
    let more = length-append sdrs.nodes (s ∷ []) in
    let new : PointsFrom 0 (length (sdrs.nodes ++ (s ∷ []))) (some n) =
      inr (n, refl, omega arith, omega (arith, more)) in
    option-Safe sdrs.sdrs
      (λ _. returned (record { head = new; tail = new; links = grown.links; sized = grown.sized }))
      λ h _. or_panic-Safe sdrs.tail_sdr λ t at.
        let before : t < n = ground (arith, v.tail) in
        let f : Sdr → Sdr = λ x. record x { next = some n } in
        let len = length-modify (sdrs.nodes ++ (s ∷ [])) t f in
        returned (record {
          head = PointsFrom-mono 0 0 _ _ sdrs.sdrs (omega arith) (omega (arith, len)) grown.head;
          tail = inr (n, refl, omega arith, omega (arith, len, more));
          links =
              LinksAscend-mono (modify (sdrs.nodes ++ (s ∷ [])) t f)
                (length (sdrs.nodes ++ (s ∷ []))) _ 0 (omega (arith, len))
                (modify-LinksAscend (sdrs.nodes ++ (s ∷ [])) _ 0 t t f (omega arith)
                  (λ x _. inr (n, refl, before, omega (arith, more))) grown.links);
          sized = All-modify _ (sdrs.nodes ++ (s ∷ [])) t f (λ x h. h) grown.sized;
        })
