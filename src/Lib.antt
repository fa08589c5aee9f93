-- ===== src/Lib.antt =====
-- The Safe Network: a verification library of the parts of its nodes that decide on knowledge.
--
-- A section of the network is the set of nodes whose names match a prefix. Its elders hold a BLS
-- key, and each new section key is signed by the one before it. A node keeps the keys in a DAG and
-- the latest section of each prefix in a tree; it takes an update of the tree only with a proof
-- chain, a DAG that leads from a key it knows to the section's. Elders watch the other nodes and
-- report those with too many issues, and at churn events the oldest nodes move to other sections.
-- Clients address data by XOR URLs, and keep registers whose entries form a Merkle DAG.
--
-- Files:
-- - Extern and its children are interfaces to the code of other packages: the `bls` keys (Bls), the
--   `crdts` Merkle register (Merkle), the `xor_name` names and prefixes (Names), the
--   `sn_consensus` decisions (Consensus), the threshold signatures (Shares), the keys of users
--   (Keys), the bytes and hashes of names (Contents), a constant of `self_encryption` (Encryption),
--   the bases of `multibase` (Bases), the tokens and DBCs of `sn_dbc` (Money), `f32` (F32) and `f64` (F64). The modules of Tests have concrete
--   instances of them.
-- - Prelude and its children: tests on numbers, lists, orders, ordered maps and sets, results. A
--   `BTreeMap` is an association list in the order of the keys, a `BTreeSet` a list in order.
-- - Errors: `Error` of sn_interface/src/network_knowledge/errors.rs.
-- - Dag: `SectionsDAG` of sn_interface/src/network_knowledge/sections_dag.rs. `new`, `has_key`,
--   `get_parent_key`, `verify_and_insert`, `insert_trusted_key` and the other reads keep their names;
--   Dag/Walk has the loops: `get_ancestors`, `self_verify`, `partial_dag`,
--   `single_branch_dag_for_key` and `merge`. Dag/Valid, Dag/Chain, Dag/Grow, Dag/Insert,
--   Dag/Ancestors, Dag/Cycle, Dag/Branch, Dag/Tip, Dag/Extend and Dag/Partial are the proofs.
--   Dag/Wire is its `Serialize` and `Deserialize`, as lists of sections; Dag/Keep, Dag/ReadBack,
--   Dag/Cover and Dag/RoundTrip are the proofs. Dag/Roots, Dag/Reach, Dag/Visits and Dag/Merge are
--   those of `merge`.
-- - Sap: `NodeId`, `NodeState`, `SectionAuthorityProvider`, `SectionSigned`, of
--   sn_interface/src/types/identities/node_id.rs, network_knowledge/node_state/mod.rs,
--   network_knowledge/section_authority_provider.rs and messaging/system/section_sig.rs.
-- - Tree: `SectionTree` of sn_interface/src/network_knowledge/section_tree/mod.rs.
--   `update_the_section_tree` is composed of `check_chain`, `check_sap` and `apply_update` in the
--   order of the source. Tree/Insert and Tree/Update are the proofs.
-- - Faults: `FaultDetection` of sn_fault_detection/src/lib.rs, and Faults/Scores of
--   sn_fault_detection/src/detection.rs. Faults/Tracking, Faults/Cleanup and Faults/Report
--   are the proofs.
-- - Membership: the section sizes of sn_interface/src/network_knowledge/mod.rs and
--   `NodeState::validate_node_state` of sn_interface/src/network_knowledge/node_state/mod.rs.
--   Membership/Sizes and Membership/Admission are the proofs.
-- - Aggregator: both aggregators of sn_interface/src/messaging/signature_aggregator.rs, over the
--   interface Extern/Shares; `aggregate` is their common body. Aggregator/Collect are the proofs.
-- - Cache: `Cache` of sn_interface/src/types/cache/mod.rs and `Item` of
--   sn_interface/src/types/cache/item.rs. Cache/Keys, Cache/Bound and Cache/Lookup are the proofs.
-- - History: `SectionMemberHistory` of
--   sn_interface/src/network_knowledge/section_member_history.rs, over the decisions of
--   Extern/Consensus. History/Replay, History/Members and History/Sync are the proofs.
-- - Knowledge: `NetworkKnowledge` of sn_interface/src/network_knowledge/mod.rs, over Tree and
--   History; `update_sap_knowledge_if_valid` is composed of `adopt_update`, `switch_own_section` and
--   `prune_and_switch`, the branches of the source. Knowledge/Update and Knowledge/Members are the
--   proofs.
-- - AntiEntropy: sn_node/src/node/messaging/anti_entropy.rs, over Knowledge. `check_for_entropy`
--   takes the destination and the bytes of a message; `handle_anti_entropy_msg` is the part that
--   changes the network knowledge. AntiEntropy/Chain, AntiEntropy/Reply, AntiEntropy/Accepted and
--   AntiEntropy/Sync are the proofs.
-- - Register: sn_interface/src/types/register: Register/Policy is policy.rs and metadata.rs,
--   Register/Crdt is reg_crdt.rs over Extern/Merkle, and Register/Data is mod.rs. Register/Access,
--   Register/Limits and Register/Entries are the proofs.
-- - Bytes: the big-endian bytes of machine-width numbers, of the standard library.
-- - SafeUrl: the names of XOR URLs of sn_api/src/safeurl/mod.rs, over Extern/Bases, and the media
--   types of xorurl_media_types.rs. SafeUrl/Codec has `name_to_base` and, as `from_top_name`, the part
--   of `from_xorurl` after the URL is split. SafeUrl/Fields and SafeUrl/RoundTrip are the proofs.
-- - Relocation: `find_nodes_to_relocate` of sn_node/src/node/relocation.rs, and `relocation_check` of
--   sn_interface/src/network_knowledge/mod.rs, over Knowledge and Extern/Contents. `candidates` are
--   the nodes before the oldest are taken. Relocation/Check and Relocation/Chosen are the proofs.
-- - UsedSpace: `UsedSpace` and `to_storage_level` of sn_node/src/storage/used_space.rs, over
--   Extern/F64. Each operation on the shared counters is one step. UsedSpace/Levels are the proofs.
-- - Fees: `RequiredFee` and `RequiredFeeContent` of sn_interface/src/types/fees, over Extern/Money.
--   `require` is `RequiredFee::new`. Fees/Readable are the proofs.
-- - Transfers: `select_inputs` of sn_client/src/api/transfers/mod.rs, over Extern/Money and Fees, with
--   the fees that a section answers as a function; a panic is `none`. `select_one` is a round of its
--   loop. Transfers/Attempts is the loop of `reissue_dbcs` that spends an input, with five rounds of
--   fuel, as many as the code allows. Transfers/Totals and Transfers/Balance are the proofs.
-- - Text: strings as lists of their bytes, with the methods of `str` that the other parts use.
-- - Files: the map of a container's files, of sn_api/src/app/files, over Text. Files/Info is `FileMeta`,
--   Files/RealPath is `realpath`, with its inner loop `walk` and its outer loop `walks` on fuel, whose
--   end `none` is; eighteen rounds are enough where it ends at all. Files/Changes is `FilesMapChange` and
--   `add_or_update_file_item`, with the records Paths and Local for the platform's paths, the local file
--   system and the storing client; `FileMeta::from_path` is an answer of the file system. Files/Names is
--   `get_base_paths`, Files/Sync is `files_map_sync`, one `sync_one` for each local change, Files/Link
--   is `files_map_add_link` and `files_map_create`, Files/Remove is `files_map_remove_path`, and
--   Files/Paths is `filesmap_chroot` with what calls it. The modules below these are the proofs.
-- - Tests: concrete runs, and the theorems applied to them.
--
-- A method that changes its object takes the state and returns the new one. A method whose errors
-- come before any change returns a result of the new state; one that may fail half way returns the
-- state and the result. The loops over the DAG take fuel, and `none` means that it ran out; in a DAG
-- that grew by signed insertions of new keys one round more than the number of keys is enough, and Dag/Merge gives a number for `merge`.
-- `Instant::now()` is an argument, in seconds, or in nanoseconds in Cache.
--
-- Not modelled: files on disk, serialisation and logging, the key generation and consensus packages,
-- the URLs and registers that lead to a container of files, and the asynchronous dispatch between the
-- parts, which only passes messages on.
pub mod Aggregator
pub mod AntiEntropy
pub mod Bytes
pub mod Cache
pub mod Dag
pub mod Errors
pub mod Extern
pub mod Faults
pub mod Fees
pub mod Files
pub mod History
pub mod Knowledge
pub mod Membership
pub mod Prelude
pub mod Register
pub mod Relocation
pub mod SafeUrl
pub mod Sap
pub mod Tests
pub mod Text
pub mod Transfers
pub mod Tree
pub mod UsedSpace
