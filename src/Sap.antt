-- ===== src/Sap.antt =====
-- Members and section authorities: `NodeId` of sn_interface/src/types/identities/node_id.rs,
-- `NodeState` of network_knowledge/node_state, `SectionAuthorityProvider` of
-- network_knowledge/section_authority_provider.rs, and `SectionSig` and `SectionSigned` of
-- messaging/system/section_sig.rs.
use safe_network_archive.Extern.{
  BlsKeys, PublicKey, Signature, PublicKeySet, XorNames, XorName, Prefix, Triggers, Trigger,
}
use safe_network_archive.Prelude.Orders.{pair_ord, option_ord, ord_by}
use safe_network_archive.Prelude.{
  if◌then◌else◌, ℕ, ◌≡◌, refl, Bool, true, false, List, map, Option, none, some, ◌=?◌, Ord, nat_ord,
  any, find, length,
}
use safe_network_archive.Prelude.Sets

-- A socket address is only compared: its code.
abbrev pub SocketAddr : Type 0
SocketAddr = ℕ

module _ ⦃x : XorNames⦄ where
  pub record NodeId : Type 0 where
    pub name : XorName
    pub addr : SocketAddr

  -- The age of a node is the last byte of its name.
  abbrev pub calc_age : XorName → ℕ
  calc_age name = x.last_byte name

  pub NodeId-injective :
      (m n : NodeId) → ◌≡◌ {A = XorName × ℕ} (m.name, m.addr) (n.name, n.addr) → m ≡ n
  NodeId-injective m n e = λ i. record { name = (e i).0; addr = (e i).1 }

  instance abbrev pub node_id_ord : Ord NodeId
  node_id_ord = ord_by (λ n. (n.name, n.addr)) NodeId-injective (pair_ord x.name_ord nat_ord)

  pub data MembershipState ⦃t : Triggers⦄ : Type 0 where
    joined left : MembershipState
    relocated : Trigger → MembershipState

module _ ⦃x : XorNames⦄ ⦃t : Triggers⦄ where
  pub record NodeState : Type 0 where
    pub node_id : NodeId
    pub state : MembershipState
    pub previous_name : Option XorName

  -- `derive(Ord)` of a membership state and of a node state.
  abbrev pub state_rank : MembershipState → Option (Option Trigger)
  state_rank MembershipState.joined = none
  state_rank MembershipState.left = some none
  state_rank (MembershipState.relocated trigger) = some (some trigger)

  pub state_rank-injective : (s u : MembershipState) → state_rank s ≡ state_rank u → s ≡ u
  state_rank-injective MembershipState.joined MembershipState.joined e = refl
  state_rank-injective MembershipState.joined MembershipState.left e = cc
  state_rank-injective MembershipState.joined (MembershipState.relocated v) e = cc
  state_rank-injective MembershipState.left MembershipState.joined e = cc
  state_rank-injective MembershipState.left MembershipState.left e = refl
  state_rank-injective MembershipState.left (MembershipState.relocated v) e = cc
  state_rank-injective (MembershipState.relocated w) MembershipState.joined e = cc
  state_rank-injective (MembershipState.relocated w) MembershipState.left e = cc
  state_rank-injective (MembershipState.relocated w) (MembershipState.relocated v) e = cc

  instance abbrev pub state_ord : Ord MembershipState
  state_ord = ord_by state_rank state_rank-injective (option_ord (option_ord t.trigger_ord))

  abbrev pub NodeStateParts : Type 0
  NodeStateParts = NodeId × (MembershipState × Option XorName)

  abbrev pub node_state_parts : NodeState → NodeStateParts
  node_state_parts n = (n.node_id, (n.state, n.previous_name))

  pub NodeState-injective : (m n : NodeState) → node_state_parts m ≡ node_state_parts n → m ≡ n
  NodeState-injective m n e =
      λ i. record { node_id = (e i).0; state = (e i).1.0; previous_name = (e i).1.1 }

  instance abbrev pub node_state_ord : Ord NodeState
  node_state_ord =
      ord_by node_state_parts NodeState-injective
        (pair_ord node_id_ord (pair_ord state_ord (option_ord x.name_ord)))

  abbrev pub node_name : NodeState → XorName
  node_name n = NodeId.name n.node_id

  abbrev pub node_age : NodeState → ℕ
  node_age n = calc_age (node_name n)

  abbrev pub is_joined : NodeState → Bool
  is_joined n = elim n.state [
    | MembershipState.joined ↦ true
    | MembershipState.left ↦ false
    | MembershipState.relocated trigger ↦ false
  ]

  -- `leave` asserts that the node is joined; `none` is the panic.
  unfoldable pub leave : NodeState → Option NodeState
  leave n = if is_joined n then some (record n { state = MembershipState.left }) else none

  unfoldable pub relocate : NodeState → Trigger → NodeState
  relocate n trigger = record n { state = MembershipState.relocated trigger }

  unfoldable pub is_relocated : NodeState → Bool
  is_relocated n = elim n.state [
    | MembershipState.joined ↦ false
    | MembershipState.left ↦ false
    | MembershipState.relocated trigger ↦ true
  ]

module _ ⦃b : BlsKeys⦄ ⦃x : XorNames⦄ ⦃t : Triggers⦄ where
  pub record SectionAuthorityProvider : Type 0 where
    pub prefix : Prefix
    pub public_key_set : PublicKeySet
    pub elders : List NodeId
    pub members : List NodeState
    pub membership_gen : ℕ

  -- `SectionAuthorityProvider::new` collects the elders and the members into sets.
  unfoldable pub new_sap :
      List NodeId → Prefix → List NodeState → PublicKeySet → ℕ → SectionAuthorityProvider
  new_sap elders prefix members pk_set membership_gen = record {
    prefix = prefix;
    public_key_set = pk_set;
    elders = Sets.from_iter elders;
    members = Sets.from_iter members;
    membership_gen = membership_gen;
  }

  abbrev pub section_key : SectionAuthorityProvider → PublicKey
  section_key sap = b.public_key sap.public_key_set

  abbrev pub elder_count : SectionAuthorityProvider → ℕ
  elder_count sap = length sap.elders

  instance abbrev name_order : Ord x.XorName
  name_order = x.name_ord

  unfoldable pub contains_elder : SectionAuthorityProvider → XorName → Bool
  contains_elder sap name = any (λ elder. NodeId.name elder =? name) sap.elders

  unfoldable pub get_elder : SectionAuthorityProvider → XorName → Option NodeId
  get_elder sap name = find (λ elder. NodeId.name elder =? name) sap.elders

  unfoldable pub names : SectionAuthorityProvider → List XorName
  names sap = Sets.from_iter (map (λ elder. NodeId.name elder) sap.elders)

  -- `SectionSigned<T>`, with the key and the signature of its `SectionSig`.
  pub record SectionSigned (T : Type 0) : Type 0 where
    pub value : T
    pub public_key : PublicKey
    pub signature : Signature

  abbrev pub SignedSap : Type 0
  SignedSap = SectionSigned SectionAuthorityProvider

  -- `bincode::serialize` of the values that are signed.
  pub record Bincode : Type 0 where
    pub serialize_sap : SectionAuthorityProvider → Option (List ℕ)
    pub serialize_node_state : NodeState → Option (List ℕ)

  unfoldable pub self_verify : ⦃c : Bincode⦄ → SignedSap → Bool
  self_verify ⦃c⦄ signed = elim (c.serialize_sap signed.value) [
    | none ↦ false
    | some bytes ↦ b.verify signed.public_key signed.signature bytes
  ]
