-- ===== src/Graph.antt =====
-- compiler/src/graph/mod.rs: the behavior graph, its nodes, ports and edges. Paths are texts.
pub mod Ops
pub mod Wiring
pub mod Gaps
pub mod Validate
pub mod Builder
pub mod Built
use sigil_lang.Prelude.{
  ℕ, ◌≡◌, ◌↔◌, Bool, true, false, Option, none, some, List, [], arith, Text, Eq, ◌==◌, Map, find,
  keep, codes,
}
use sigil_lang.Ast.{Ty, bytes, int, float, string, Guarantee, Nodes}

pub data Direction : Type 0 where
  in_port out error : Direction

unfoldable pub direction_beq : Direction → Direction → Bool
direction_beq in_port in_port = true
direction_beq out out = true
direction_beq error error = true
direction_beq _ _ = false

pub direction_beq_iff : (a b : Direction) → (direction_beq a b ≡ true) ↔ (a ≡ b)
unfolding direction_beq
direction_beq_iff a b = ground arith

instance abbrev pub direction_eq : Eq Direction
direction_eq = record { beq = direction_beq; beq_iff = direction_beq_iff }

pub record Port : Type 0 where
  pub name : Text
  pub direction : Direction
  pub interpretation : Ty
  pub size : ℕ
  pub discarded : Bool

-- `Port::input`, `Port::output`, `Port::error`.
unfoldable pub input_port : Text → Ty → ℕ → Port
input_port n t s = record {
  name = n;
  direction = in_port;
  interpretation = t;
  size = s;
  discarded = false;
}

unfoldable pub output_port : Text → Ty → ℕ → Port
output_port n t s = record {
  name = n;
  direction = out;
  interpretation = t;
  size = s;
  discarded = false;
}

unfoldable pub error_port : Text → Ty → ℕ → Port
error_port n t s = record {
  name = n;
  direction = error;
  interpretation = t;
  size = s;
  discarded = false;
}

pub record Edge : Type 0 where
  pub id : ℕ
  pub from_node : ℕ
  pub from_port : Text
  pub to_node : ℕ
  pub to_port : Text

pub record Gap : Type 0 where
  pub node_id : ℕ
  pub node_name : Text
  pub port_name : Text
  pub direction : Direction
  pub port_type : Ty
  pub port_size : ℕ
  pub question : Text

pub record DependencyRef : Type 0 where
  pub name : Text
  pub hash : Text

-- Bit patterns, as in `Ast`.
pub data ExampleValue : Type 0 where
  int_value float_value : ℕ → ExampleValue
  bytes_value str_value : List ℕ → ExampleValue

pub record ExamplePair : Type 0 where
  pub inputs : List ExampleValue
  pub outputs : List ExampleValue

pub data BehaviorKind : Type 0 where
  leaf_kind composite_kind native_kind : BehaviorKind

pub data Implementation : Type 0 where
  leaf composite : Nodes → Implementation

pub record BehaviorNode : Type 0 where
  pub id : ℕ
  pub name : Text
  pub hash : Text
  pub kind : BehaviorKind
  pub ports : List Port
  pub guarantees : List Guarantee
  pub requires : List DependencyRef
  pub implementation : Option Implementation
  pub examples : List ExamplePair
  pub description : Option Text
  pub source_path : Option Text

pub record ContractRef : Type 0 where
  pub name : Text
  pub hash : Text
  pub ports : List Port
  pub guarantees : List Guarantee
  pub library_path : Text

pub record ProjectGraph : Type 0 where
  pub nodes : Map ℕ BehaviorNode
  pub library_nodes : Map Text ContractRef
  pub edges : List Edge
  pub next_node_id : ℕ
  pub next_edge_id : ℕ

pub data BehaviorLookup : Type 0 where
  local : BehaviorNode → BehaviorLookup
  library : ContractRef → BehaviorLookup

pub data EdgeError : Type 0 where
  node_not_found : ℕ → EdgeError
  port_not_found : Text → Text → EdgeError
  wrong_direction : Text → Text → Text → EdgeError
  type_mismatch : Text → Text → EdgeError
  size_mismatch : ℕ → ℕ → EdgeError
  already_connected : Text → Text → EdgeError

-- `{:?}` of a type.
abbrev pub debug_type : Ty → Text
debug_type bytes = codes "Bytes"
debug_type int = codes "Int"
debug_type float = codes "Float"
debug_type string = codes "String"
