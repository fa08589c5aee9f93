-- ===== src/Tests/WireTests.antt =====
-- A DAG of three keys, written and read.
use safe_network_archive.Dag.{SectionsDag, new}
use safe_network_archive.Dag.Chain.{IsGrown}
use safe_network_archive.Dag.RoundTrip.{
  SameKeys, deserialize-serialize, AreNew, deserialize-IsGrown,
}
use safe_network_archive.Dag.Wire.{
  Intermediate, climb, visit_all, climb_all, serialize, insert_sections, deserialize,
}
use safe_network_archive.Extern.{keys_ord}
use safe_network_archive.Prelude.{◌≡◌, refl, [], ◌∷◌, some, ok, arith, nat_ord, select}
use safe_network_archive.Prelude.Sets
use safe_network_archive.Tests.DagTests.{dag_program, three, three-IsGrown}
use safe_network_archive.Tests.Platform.{toy_bls, toy_merkle}

abbrev three_written : Intermediate
three_written = record {
  genesis_key = 1;
  sections = (1, record { key = 2; sig = 1002 }) ∷ (2, record { key = 3; sig = 2003 }) ∷ [];
}

wire_program : Unit {0}
unfolding dag_program climb visit_all climb_all serialize insert_sections deserialize Sets.contains
    select
wire_program = tt

write_three : serialize 3 three ≡ some three_written
unfolding wire_program
write_three = refl

read_three : deserialize three_written ≡ ok three
unfolding wire_program
read_three = refl

deserialize-serialize_example :
    (inter : Intermediate) × (dag : SectionsDag) × (serialize 3 three ≡ some inter)
    × (deserialize inter ≡ ok dag)
    × IsGrown dag
    × SameKeys three dag
deserialize-serialize_example = deserialize-serialize three 3 three-IsGrown (omega arith)

three_written-AreNew : AreNew (new 1) three_written.sections
unfolding wire_program
three_written-AreNew = (refl, ((λ e. omega arith), tt), (refl, tt, tt))

deserialize-IsGrown_example : IsGrown three
deserialize-IsGrown_example =
    deserialize-IsGrown three_written three three_written-AreNew read_three
