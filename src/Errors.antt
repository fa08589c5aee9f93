-- ===== src/Errors.antt =====
-- `Error` of sn_interface/src/network_knowledge/errors.rs. The texts that some variants carry are
-- left out.
use safe_network_archive.Extern.{BlsKeys, PublicKey}
use safe_network_archive.Prelude.{Result}

module _ ⦃b : BlsKeys⦄ where
  pub data Error : Type 0 where
    file_handling directory_handling serialisation deserialisation : Error
    non_genesis_sap invalid_signature invalid_signature_share invalid_payload : Error
    key_not_found invalid_genesis_key missing_secret_key_share : PublicKey → Error
    invalid_branch multiple_branch_error untrusted_proof_chain : Error
    sap_key_not_covered_by_proof_chain untrusted_section_auth_provider : Error
    invalid_relocation_proof try_join_later no_matching_section : Error
    existing_member_socket_addr_conflict existing_member_name_conflict : Error
    not_a_member wrong_section consensus archived_node_rejoined ae_outdated : Error

  abbrev pub Outcome : Type 0 → Type 0
  Outcome = Result Error
