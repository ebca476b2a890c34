-- ===== src/Opcodes/Mode.antt =====
-- src/opcodes.rs: how an operand is used.
use lakesis.Base.{Bool, true, false, ◌&&◌, if◌then◌else◌}

pub data OperandMode : Type 0 where
  read_only read_write : OperandMode

-- The derived `==`.
abbrev mode_eq : OperandMode → OperandMode → Bool
mode_eq read_only read_only = true
mode_eq read_write read_write = true
mode_eq _ _ = false

-- `self.can_be_used_as(other)`
unfoldable pub can_be_used_as : OperandMode → OperandMode → Bool
can_be_used_as self other =
    if mode_eq self other
    then true
    else if mode_eq self read_write && mode_eq other read_only
    then true
    else false
