-- ===== src/Tests/Platform.antt =====
-- A concrete `bls` and a concrete Merkle register, which meet the interfaces of `Extern`. Keys and
-- signatures are numbers: key `k` signs `[key]` by `k * 1000 + key`. A node is its own hash.
use native.Mathlib.Decide.{ℕ_discrete}
use safe_network_archive.Dag.{SectionInfo}
use safe_network_archive.Extern.{BlsKeys, MerkleReg}
use safe_network_archive.Extern.Merkle.{Known, lookup_all}
use safe_network_archive.Prelude.{
  ℕ, zero, suc, ◌+◌, ◌*◌, ◌≤◌, length, ◌≡◌, ◌≢◌, refl, sym, ap, ◌↔◌, inl, inr, Bool, true, false,
  ◌||◌, List, [], ◌∷◌, Option, none, some, ◌==◌, if◌then◌else◌, In, arith, Bool-cases, nat_ord,
  select, In-select, select-In,
}

instance abbrev pub toy_bls : BlsKeys
toy_bls = record {
  PublicKey = ℕ;
  Signature = ℕ;
  key_ord = nat_ord;
  PublicKeySet = ℕ;
  public_key = λ s. s;
  serialize = λ k. some (k ∷ []);
  verify = λ k s bytes. elim bytes [ [] ↦ false | x ∷ xs ↦ s == k * 1000 + x ];
}

mutual
  pub data ToyNode : Type 0 where
    node : ℕ → ℕ → ToyKids → ToyNode

  pub data ToyKids : Type 0 where
    nil : ToyKids
    cons : ToyNode → ToyKids → ToyKids

unfoldable pub ToyNode-discrete : Discrete ToyNode
unfolding ℕ_discrete
ToyNode-discrete = hlevel ℕ_discrete

abbrev pub to_list : ToyKids → List ToyNode
to_list nil = []
to_list (cons n ns) = n ∷ to_list ns

abbrev pub from_list : List ToyNode → ToyKids
from_list [] = nil
from_list (n ∷ ns) = cons n (from_list ns)

pub to_list-from_list : (ns : List ToyNode) → to_list (from_list ns) ≡ ns
to_list-from_list [] = refl
to_list-from_list (n ∷ ns) = ap (◌∷◌ n) (to_list-from_list ns)

abbrev pub toy_value : ToyNode → SectionInfo
toy_value (node k s kids) = record { key = k; sig = s }

abbrev pub toy_children_of : ToyNode → List ToyNode
toy_children_of (node k s kids) = to_list kids

abbrev pub toy_eq : ToyNode → ToyNode → Bool
toy_eq m n = elim (ToyNode-discrete m n) [ yes _ ↦ true | no _ ↦ false ]

pub toy_eq_iff : (m n : ToyNode) → (toy_eq m n ≡ true) ↔ (m ≡ n)
toy_eq_iff m n =
    elim (ToyNode-discrete m n)
      as (λ d. ((elim d [ yes _ ↦ true | no _ ↦ false ]) ≡ true) ↔ (m ≡ n)) [
        | yes p ↦ (λ _. p, λ _. refl)
        | no p ↦ (λ h. cc h, λ q. absurd (p q))
      ]

abbrev pub toy_has : ToyNode → List ToyNode → Bool
toy_has h [] = false
toy_has h (n ∷ r) = toy_eq n h || toy_has h r

abbrev pub toy_node : List ToyNode → ToyNode → Option ToyNode
toy_node r h = if toy_has h r then some h else none

abbrev pub toy_known : List ToyNode → List ToyNode → Bool
toy_known r [] = true
toy_known r (h ∷ hs) = if toy_has h r then toy_known r hs else false

pub toy_has-In : (h : ToyNode) (r : List ToyNode) → In h r → toy_has h r ≡ true
toy_has-In h [] i = absurd i
toy_has-In h (n ∷ r) (inl e) = rw ((toy_eq_iff n h).1 (sym e))
toy_has-In h (n ∷ r) (inr i) = ground (arith, toy_has-In h r i)

pub In-toy_has : (h : ToyNode) (r : List ToyNode) → toy_has h r ≡ true → In h r
In-toy_has h [] e = cc
In-toy_has h (n ∷ r) e = elim (Bool-cases (toy_eq n h)) [
  | inl y ↦ inl (sym ((toy_eq_iff n h).0 y))
  | inr z ↦ inr (In-toy_has h r (rw z at e))
]

pub toy_known_lem : (r hs : List ToyNode) → Known (toy_node r) hs → toy_known r hs ≡ true
toy_known_lem r [] k = refl
toy_known_lem r (h ∷ hs) k =
    let (n, e) = k h (inl refl) in
    let t : toy_has h r ≡ true = ground arith in rw t (toy_known_lem r hs (λ h' i. k h' (inr i)))

abbrev pub is_nil : List ToyNode → Bool
is_nil [] = true
is_nil (n ∷ r) = false

pub toy_node_iff : (r : List ToyNode) (m : ToyNode) → (toy_node r m ≡ some m) ↔ In m r
toy_node_iff r m = (λ e. In-toy_has m r (ground arith), λ i. rw (toy_has-In m r i))

pub toy_node-hash : (r : List ToyNode) (h n : ToyNode) → toy_node r h ≡ some n → n ≡ h
toy_node-hash r h n e = ground arith

pub is_nil_iff : (l : List ToyNode) → (is_nil l ≡ true) ↔ (l ≡ [])
is_nil_iff [] = (λ _. refl, λ _. refl)
is_nil_iff (n ∷ r) = (λ e. cc, λ e. cc)

-- The register that takes the nodes below a node from `kids_of`.
module _ (kids_of : ToyNode → List ToyNode) where
  abbrev pub toy_apply : ToyNode → List ToyNode → List ToyNode
  toy_apply n r = if toy_has n r then r else if toy_known r (kids_of n) then n ∷ r else r

  pub length-toy_apply :
      (n : ToyNode) (r : List ToyNode) → length (toy_apply n r) + 0 ≤ suc (length r + 0)
  length-toy_apply n r = ground arith

  abbrev pub toy_children : List ToyNode → ToyNode → List ToyNode
  toy_children r h = if toy_has h r then lookup_all (toy_node r) (kids_of h) else []

  abbrev pub toy_parents : List ToyNode → ToyNode → List ToyNode
  toy_parents r h = select (λ n. toy_has h (kids_of n)) r

  abbrev pub toy_read : List ToyNode → List ToyNode
  toy_read r = select (λ n. is_nil (toy_parents r n)) r

  pub toy_apply_self :
      (r : List ToyNode) (n : ToyNode)
      → Known (toy_node r) (kids_of n)
      → toy_node (toy_apply n r) n ≡ some n
  toy_apply_self r n k = elim (Bool-cases (toy_has n r)) [
    | inl y ↦ rw (y, y)
    | inr z ↦ rw (z, toy_known_lem r (kids_of n) k, (toy_eq_iff n n).1 refl)
  ]

  pub toy_apply_ne :
      (r : List ToyNode) (n h : ToyNode)
      → Known (toy_node r) (kids_of n)
      → h ≢ n
      → toy_node (toy_apply n r) h ≡ toy_node r h
  toy_apply_ne r n h k d = ground (arith, toy_eq_iff n h)

  pub toy_children-node :
      (r : List ToyNode) (h n : ToyNode)
      → toy_node r h ≡ some n
      → toy_children r h ≡ lookup_all (toy_node r) (kids_of n)
  toy_children-node r h n e = elim (Bool-cases (toy_has h r)) [
    | inl y ↦ rw (y, toy_node-hash r h n e)
    | inr z ↦ absurd (ground arith)
  ]

  pub toy_parents_iff :
      (r : List ToyNode) (h m : ToyNode)
      → In m (toy_parents r h) ↔ ((toy_node r m ≡ some m) × In h (kids_of m))
  toy_parents_iff r h m = (
    λ i.
        let (j, t) = In-select (λ n. toy_has h (kids_of n)) m r i in
        ((toy_node_iff r m).1 j, In-toy_has h (kids_of m) t),
    λ p.
        select-In (λ n. toy_has h (kids_of n)) m r ((toy_node_iff r m).0 p.0)
          (toy_has-In h (kids_of m) p.1),
  )

  pub toy_read_iff :
      (r : List ToyNode) (m : ToyNode)
      → In m (toy_read r) ↔ ((toy_node r m ≡ some m) × (toy_parents r m ≡ []))
  toy_read_iff r m = (
    λ i.
        let (j, t) = In-select (λ n. is_nil (toy_parents r n)) m r i in
        ((toy_node_iff r m).1 j, (is_nil_iff (toy_parents r m)).0 t),
    λ p.
        select-In (λ n. is_nil (toy_parents r n)) m r ((toy_node_iff r m).0 p.0)
          ((is_nil_iff (toy_parents r m)).1 p.1),
  )

instance abbrev pub toy_merkle : MerkleReg SectionInfo
toy_merkle = record {
  Hash = ToyNode;
  hash_discrete = ToyNode-discrete;
  Node = ToyNode;
  Reg = List ToyNode;
  value = toy_value;
  children_of = toy_children_of;
  hash = λ n. n;
  new = [];
  write = λ r v hs. node (SectionInfo.key v) (SectionInfo.sig v) (from_list hs);
  apply = toy_apply toy_children_of;
  node = toy_node;
  children = toy_children toy_children_of;
  parents = toy_parents toy_children_of;
  read = toy_read toy_children_of;
  all_nodes = λ r. r;
  num_nodes = length;
  num_orphans = λ r. 0;
  num_nodes-new = omega arith;
  num_nodes-apply = length-toy_apply toy_children_of;
  value-write = λ r v hs. refl;
  children_of-write = λ r v hs. to_list-from_list hs;
  hash_injective = λ m n e. e;
  node-new = λ h. refl;
  node-hash = toy_node-hash;
  node-apply_self = toy_apply_self toy_children_of;
  node-apply_ne = λ r n h none_waits. toy_apply_ne toy_children_of r n h;
  num_orphans-apply = λ r n none_waits known. refl;
  children-node = toy_children-node toy_children_of;
  parents_iff = toy_parents_iff toy_children_of;
  read_iff = toy_read_iff toy_children_of;
  all_nodes_iff = λ r m. ((toy_node_iff r m).1, (toy_node_iff r m).0);
}

-- An entry as a chain of nodes, which stands first below a node of the register of entries.
abbrev pub entry_node : List ℕ → ToyNode
entry_node [] = node 0 0 nil
entry_node (x ∷ xs) = node (suc x) 0 (cons (entry_node xs) nil)

abbrev mutual
  pub node_entry : ToyNode → List ℕ
  node_entry (node zero s kids) = []
  node_entry (node (suc x) s kids) = x ∷ first_entry kids

  pub first_entry : ToyKids → List ℕ
  first_entry nil = []
  first_entry (cons n ns) = node_entry n

pub node_entry-entry_node : (xs : List ℕ) → node_entry (entry_node xs) ≡ xs
node_entry-entry_node [] = refl
node_entry-entry_node (x ∷ xs) = ap (◌∷◌ x) (node_entry-entry_node xs)

abbrev pub below_entry : ToyNode → List ToyNode
below_entry (node k s nil) = []
below_entry (node k s (cons n ns)) = to_list ns

abbrev pub entry_of : ToyNode → List ℕ
entry_of (node k s kids) = first_entry kids

instance abbrev pub toy_entries : MerkleReg (List ℕ)
toy_entries = record {
  Hash = ToyNode;
  hash_discrete = ToyNode-discrete;
  Node = ToyNode;
  Reg = List ToyNode;
  value = entry_of;
  children_of = below_entry;
  hash = λ n. n;
  new = [];
  write = λ r v hs. node 0 0 (cons (entry_node v) (from_list hs));
  apply = toy_apply below_entry;
  node = toy_node;
  children = toy_children below_entry;
  parents = toy_parents below_entry;
  read = toy_read below_entry;
  all_nodes = λ r. r;
  num_nodes = length;
  num_orphans = λ r. 0;
  num_nodes-new = omega arith;
  num_nodes-apply = length-toy_apply below_entry;
  value-write = λ r v hs. node_entry-entry_node v;
  children_of-write = λ r v hs. to_list-from_list hs;
  hash_injective = λ m n e. e;
  node-new = λ h. refl;
  node-hash = toy_node-hash;
  node-apply_self = toy_apply_self below_entry;
  node-apply_ne = λ r n h none_waits. toy_apply_ne below_entry r n h;
  num_orphans-apply = λ r n none_waits known. refl;
  children-node = toy_children-node below_entry;
  parents_iff = toy_parents_iff below_entry;
  read_iff = toy_read_iff below_entry;
  all_nodes_iff = λ r m. ((toy_node_iff r m).1, (toy_node_iff r m).0);
}
