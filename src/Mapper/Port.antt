-- ===== src/Mapper/Port.antt =====
-- The index of a port where the source allows -1, which is `none`.
use fdra.Prelude.{ℕ, Bool, true, false, Option, none, some, ◌≡◌, ◌↔◌, ◌==◌, ltb, arith, Key}

abbrev pub Port : Type 0
Port = Option ℕ

abbrev pub port_eq : Port → Port → Bool
port_eq none none = true
port_eq none (some q) = false
port_eq (some p) none = false
port_eq (some p) (some q) = p == q

abbrev pub port_lt : Port → Port → Bool
port_lt none none = false
port_lt none (some q) = true
port_lt (some p) none = false
port_lt (some p) (some q) = ltb p q

pub port_eq_iff : (p q : Port) → (port_eq p q ≡ true) ↔ (p ≡ q)
port_eq_iff none none = ground arith
port_eq_iff none (some q) = ground arith
port_eq_iff (some p) none = ground arith
port_eq_iff (some p) (some q) = ground arith

instance abbrev pub port_key : Key Port
port_key = record { beq = port_eq; blt = port_lt; beq_iff = port_eq_iff }

-- `port >= 0`
abbrev pub is_index : Port → Bool
is_index none = false
is_index (some p) = true
