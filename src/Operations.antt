-- ===== src/Operations.antt =====
-- cgra-compiler/{include,src}/op: the table of the supported operations. The singleton is an
-- argument, `OpTable`. The JSON file is read by a library, so its operations enter as the list of
-- their fields, each of which may be missing but for the name and the operation code.
pub mod Load
mod Examples
use fdra.Prelude.{
  ℕ, Bool, true, false, Option, none, some, List, [], ◌∷◌, length, or_else, string_key,
}
use fdra.Prelude.Int.{ℤ, pos, negsuc, eq_ℤ}
use fdra.Prelude.Map
use fdra.Prelude.Map.{Map}
use Prim.Native.String.{String}

pub record OpInfo : Type 0 where
  pub opc : ℤ
  pub num_operands : ℤ
  pub num_res : ℤ
  pub latency : ℤ
  pub bit_width : ℤ
  pub commutative : Bool
  pub accumulative : Bool

abbrev pub OpTable : Type 0
OpTable = Map String OpInfo

-- An element of the array "Operations" of the file.
pub record OpEntry : Type 0 where
  pub name : String
  pub opc : ℤ
  pub num_operands : Option ℤ
  pub num_res : Option ℤ
  pub latency : Option ℤ
  pub commutative : Option ℤ
  pub accumulative : Option ℤ
  pub bit_width : Option ℤ

abbrev pub unset : ℤ
unset = negsuc 0

abbrev pub is_one : Option ℤ → Bool
is_one none = false
is_one (some n) = eq_ℤ n (pos 1)

-- The body of the constructor's loop, up to the write into the table.
abbrev pub op_info : OpEntry → OpInfo
op_info elem = record {
  opc = elem.opc;
  num_operands = or_else unset elem.num_operands;
  num_res = or_else unset elem.num_res;
  latency = or_else unset elem.latency;
  bit_width = or_else unset elem.bit_width;
  commutative = is_one elem.commutative;
  accumulative = is_one elem.accumulative;
}

-- The constructor's loop over the file, from the table so far.
pub load : List OpEntry → OpTable → OpTable
load [] table = table
load (elem ∷ rest) table = load rest (Map.insert elem.name (op_info elem) table)

pub num_ops : OpTable → ℕ
num_ops table = length table

-- The accessors answer -1 or false for an operation that the table lacks.
abbrev field {ℓ} : {A : Type ℓ} → A → (OpInfo → A) → OpTable → String → A
field d get table op = elim (Map.lookup op table) [ none ↦ d | some info ↦ get info ]

unfoldable pub opc : OpTable → String → ℤ
opc = field unset (λ info. info.opc)

unfoldable pub num_operands : OpTable → String → ℤ
num_operands = field unset (λ info. info.num_operands)

unfoldable pub num_res : OpTable → String → ℤ
num_res = field unset (λ info. info.num_res)

unfoldable pub latency : OpTable → String → ℤ
latency = field unset (λ info. info.latency)

unfoldable pub bit_width : OpTable → String → ℤ
bit_width = field unset (λ info. info.bit_width)

unfoldable pub is_commutative : OpTable → String → Bool
is_commutative = field false (λ info. info.commutative)

unfoldable pub is_accumulative : OpTable → String → Bool
is_accumulative = field false (λ info. info.accumulative)

unfoldable pub op_capable : OpTable → String → Bool
op_capable table op = Map.count op table
