-- ===== src/Operations/Examples.antt =====
-- A file of three entries, one of which names its operation again.
use fdra.Prelude.{none, some, List, [], ◌∷◌, ◌≡◌}
use fdra.Prelude.Int.{pos}
use fdra.Operations.{OpEntry, load}
use fdra.Operations.Load.{answers, answers_of, answers-load}
use Prim.Native.String.{String}

abbrev entry : String → OpEntry
entry name = record {
  name = name;
  opc = pos 1;
  num_operands = some (pos 2);
  num_res = some (pos 1);
  latency = none;
  commutative = some (pos 1);
  accumulative = none;
  bit_width = none;
}

abbrev entries : List OpEntry
entries = entry "ADD" ∷ entry "SUB" ∷ record (entry "ADD") { opc = pos 7 } ∷ []

answers-load_example :
    answers (load entries []) "ADD" ≡ answers_of (some (record (entry "ADD") { opc = pos 7 }))
answers-load_example = answers-load "ADD" entries
