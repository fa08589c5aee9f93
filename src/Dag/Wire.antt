-- ===== src/Dag/Wire.antt =====
-- How a `SectionsDAG` is written and read: its `Serialize` and `Deserialize`, as far as the list of
-- its sections. A loop takes fuel, and `none` means that the fuel ran out.
use safe_network_archive.Dag.{SectionsDag, SectionInfo, new, key_of, parent_node, verify_and_insert}
use safe_network_archive.Errors.{Outcome}
use safe_network_archive.Extern.{BlsKeys, PublicKey, keys_ord, MerkleReg}
use safe_network_archive.Prelude.{
  ℕ, zero, suc, true, false, List, [], ◌∷◌, ◌++◌, Option, none, some, ok, ◌>>=◌,
}
use safe_network_archive.Prelude.Sets

module _ ⦃b : BlsKeys⦄ ⦃m : MerkleReg SectionInfo⦄ where
  -- A section with its parent's key.
  abbrev pub Section : Type 0
  Section = PublicKey × SectionInfo

  pub record Intermediate : Type 0 where
    pub genesis_key : PublicKey
    pub sections : List Section

  -- The loop from a leaf up. What is pushed to `ancestors` is taken in reverse afterwards, so here
  -- each section goes to the front.
  unfoldable pub climb :
      ℕ → SectionsDag → List PublicKey → m.Node → List Section → Option (List Section)
  climb zero self already_visited node ancestors = none
  climb (suc fuel) self already_visited node ancestors =
      elim (Sets.contains (key_of node) already_visited) [
        | true ↦ some ancestors
        | false ↦ elim (parent_node self (m.hash node)) [
          | none ↦ some ((self.genesis_key, m.value node) ∷ ancestors)
          | some parent ↦
              climb fuel self already_visited parent ((key_of parent, m.value node) ∷ ancestors)
        ]
      ]

  unfoldable pub visit_all : List Section → List PublicKey → List PublicKey
  visit_all [] already_visited = already_visited
  visit_all ((parent, info) ∷ sections) already_visited =
      visit_all sections (Sets.insert info.key already_visited)

  -- The sections for the leaves that are left.
  unfoldable pub climb_all : ℕ → SectionsDag → List PublicKey → List m.Node → Option (List Section)
  unfolding climb visit_all
  climb_all fuel self already_visited [] = some []
  climb_all fuel self already_visited (leaf ∷ leaves) =
      elim (climb fuel self already_visited leaf []) [
        | none ↦ none
        | some ancestors ↦ elim (climb_all fuel self (visit_all ancestors already_visited) leaves) [
          | none ↦ none
          | some sections ↦ some (ancestors ++ sections)
        ]
      ]

  unfoldable pub serialize : ℕ → SectionsDag → Option Intermediate
  unfolding climb_all
  serialize fuel self = elim (climb_all fuel self [] (m.read self.dag)) [
    | none ↦ none
    | some sections ↦ some (record { genesis_key = self.genesis_key; sections = sections })
  ]

  unfoldable pub insert_sections : SectionsDag → List Section → Outcome SectionsDag
  unfolding verify_and_insert
  insert_sections dag [] = ok dag
  insert_sections dag ((parent, info) ∷ sections) = do
    next ← verify_and_insert dag parent info.key info.sig
    insert_sections next sections

  unfoldable pub deserialize : Intermediate → Outcome SectionsDag
  unfolding insert_sections new
  deserialize inter = insert_sections (new inter.genesis_key) inter.sections
