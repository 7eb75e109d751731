-- ===== src/Operations/Load.antt =====
-- What the loaded table answers.
use fdra.Prelude.{
  Bool, true, false, Option, none, some, List, [], ◌∷◌, ◌≡◌, refl, arith, string_key, if◌then◌else◌,
  or_else,
}
use fdra.Prelude.Int.{ℤ}
use fdra.Prelude.Map
use fdra.Operations.{
  OpInfo, OpTable, OpEntry, unset, is_one, op_info, load, opc, num_operands, num_res, latency,
  bit_width, is_commutative, is_accumulative, op_capable,
}
use Prim.Native.String.{String}
use text.Mathlib.Text.{◌==◌}
use text.Mathlib.TextEquality.{eq_iff}

-- The last entry of the file with a name, independent of the table.
abbrev pub last_entry : String → List OpEntry → Option OpEntry
last_entry op [] = none
last_entry op (elem ∷ rest) = elim (last_entry op rest) [
  | some later ↦ some later
  | none ↦ if elem.name == op then some elem else none
]

abbrev found : OpTable → String → Option OpEntry → Option OpInfo
found table op none = Map.lookup op table
found table op (some elem) = some (op_info elem)

lookup-load :
    (op : String) (es : List OpEntry) (table : OpTable)
    → Map.lookup op (load es table) ≡ found table op (last_entry op es)
unfolding load
lookup-load op [] table = refl
lookup-load op (elem ∷ rest) table = ground (
  arith,
  lookup-load op rest (Map.insert elem.name (op_info elem) table),
  Map.lookup-insert op elem.name (op_info elem) table,
  eq_iff elem.name op,
)

-- The answers of the table to the queries about one operation, and those that an entry calls for.
pub record Answers : Type 0 where
  pub capable : Bool
  pub code : ℤ
  pub operands : ℤ
  pub results : ℤ
  pub cycles : ℤ
  pub width : ℤ
  pub commutes : Bool
  pub accumulates : Bool

abbrev pub answers : OpTable → String → Answers
answers table op = record {
  capable = op_capable table op;
  code = opc table op;
  operands = num_operands table op;
  results = num_res table op;
  cycles = latency table op;
  width = bit_width table op;
  commutes = is_commutative table op;
  accumulates = is_accumulative table op;
}

abbrev pub answers_of : Option OpEntry → Answers
answers_of none = record {
  capable = false;
  code = unset;
  operands = unset;
  results = unset;
  cycles = unset;
  width = unset;
  commutes = false;
  accumulates = false;
}
answers_of (some e) = record {
  capable = true;
  code = e.opc;
  operands = or_else unset e.num_operands;
  results = or_else unset e.num_res;
  cycles = or_else unset e.latency;
  width = or_else unset e.bit_width;
  commutes = is_one e.commutative;
  accumulates = is_one e.accumulative;
}

-- After the constructor has read the file, every query about an operation is answered by the last
-- entry of that name: -1 for a number and false for a flag that the entry lacks. An operation that
-- the file does not name is not supported, its numbers are -1 and its flags false.
pub answers-load :
    (op : String) (es : List OpEntry) → answers (load es []) op ≡ answers_of (last_entry op es)
unfolding opc num_operands num_res latency bit_width is_commutative is_accumulative op_capable
answers-load op es = ground (arith, lookup-load op es [])
