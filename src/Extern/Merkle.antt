-- ===== src/Extern/Merkle.antt =====
-- `crdts::merkle_reg`: a grow-only register of nodes that name the nodes below them by hash. A
-- node's `children` are the nodes that it was written on; its `parents` were written on it. The
-- register holds a node once its children are there.
use mathlib.Core.List.{List, [], ◌∷◌}
use mathlib.Core.Logic.{◌↔◌, ◌≢◌}
use mathlib.Core.Option.{Option, none, some}
use mathlib.Core.Path.{◌≡◌}
use Prim.Native.Nat.{ℕ, suc, ◌+◌, ◌≤◌}
use safe_network_archive.Prelude.Lists.{In}

module _ {N H : Type 0} (node : H → Option N) where
  -- Every listed hash has its node.
  abbrev pub Known : List H → Type 0
  Known hs = (h : H) → In h hs → (n : N) × (node h ≡ some n)

  unfoldable pub lookup_all : List H → List N
  lookup_all [] = []
  lookup_all (h ∷ hs) = elim (node h) [ none ↦ lookup_all hs | some n ↦ n ∷ lookup_all hs ]

pub record MerkleReg (V : Type 0) : Type 1 where
  pub Hash : Type 0
  pub hash_discrete : Discrete Hash
  pub Node : Type 0
  pub Reg : Type 0
  pub value : Node → V
  pub children_of : Node → List Hash
  pub hash : Node → Hash
  pub new : Reg
  pub write : Reg → V → List Hash → Node
  pub apply : Node → Reg → Reg
  pub node : Reg → Hash → Option Node
  pub children : Reg → Hash → List Node
  pub parents : Reg → Hash → List Node
  pub read : Reg → List Node
  pub all_nodes : Reg → List Node
  -- The nodes, and those that wait for their children.
  pub num_nodes : Reg → ℕ
  pub num_orphans : Reg → ℕ
  -- A written node holds what it was given; the hashes do not collide.
  pub value-write : (r : Reg) (v : V) (hs : List Hash) → value (write r v hs) ≡ v
  pub children_of-write : (r : Reg) (v : V) (hs : List Hash) → children_of (write r v hs) ≡ hs
  pub hash_injective : (m n : Node) → hash m ≡ hash n → m ≡ n
  -- `apply` adds a node whose children are there. Where no other node waits for its children, it
  -- changes no other, and none waits afterwards.
  pub node-new : (h : Hash) → node new h ≡ none
  pub node-hash : (r : Reg) (h : Hash) (n : Node) → node r h ≡ some n → hash n ≡ h
  pub node-apply_self :
      (r : Reg) (n : Node) → Known (node r) (children_of n) → node (apply n r) (hash n) ≡ some n
  pub node-apply_ne :
      (r : Reg) (n : Node) (h : Hash)
      → num_orphans r ≡ 0
      → Known (node r) (children_of n)
      → h ≢ hash n
      → node (apply n r) h ≡ node r h
  pub num_orphans-apply :
      (r : Reg) (n : Node)
      → num_orphans r ≡ 0
      → Known (node r) (children_of n)
      → num_orphans (apply n r) ≡ 0
  -- `apply` brings one node at most, which may let waiting ones in.
  pub num_nodes-new : num_nodes new + num_orphans new ≡ 0
  pub num_nodes-apply :
      (n : Node) (r : Reg)
      → num_nodes (apply n r) + num_orphans (apply n r) ≤ suc (num_nodes r + num_orphans r)
  -- The reads.
  pub children-node :
      (r : Reg) (h : Hash) (n : Node)
      → node r h ≡ some n
      → children r h ≡ lookup_all (node r) (children_of n)
  pub parents_iff :
      (r : Reg) (h : Hash) (m : Node)
      → In m (parents r h) ↔ ((node r (hash m) ≡ some m) × In h (children_of m))
  pub read_iff :
      (r : Reg) (m : Node)
      → In m (read r) ↔ ((node r (hash m) ≡ some m) × (parents r (hash m) ≡ []))
  pub all_nodes_iff : (r : Reg) (m : Node) → In m (all_nodes r) ↔ (node r (hash m) ≡ some m)
