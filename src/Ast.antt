-- ===== src/Ast.antt =====
-- compiler/src/ast.rs: the syntax tree of a behavior. `Box` is transparent. A `Vec` or `Option` that
-- holds the type which is being declared is a type of the same block (`Exprs`, `Offset`, `Nodes`).
use sigil_lang.Prelude.{ℕ, ◌≡◌, ◌↔◌, Bool, true, false, Option, none, List, [], arith, Text, Eq}

-- lexer.rs: where a token or a statement stands.
pub record Span : Type 0 where
  pub line : ℕ
  pub col : ℕ
  pub len : ℕ

pub data Ty : Type 0 where
  bytes int float string : Ty

pub data Guarantee : Type 0 where
  pure no_alloc writes_output : Guarantee

pub record Parameter : Type 0 where
  pub name : Text
  pub typ : Ty
  pub size : ℕ

pub record BehaviorRef : Type 0 where
  pub name : Text
  pub hash : Text

pub record Requirements : Type 0 where
  pub behaviors : List BehaviorRef
  pub memory : List Text

pub record Contract : Type 0 where
  pub inputs : List Parameter
  pub outputs : List Parameter
  pub requires : Requirements
  pub guarantees : List Guarantee

-- An `i64` is its two's complement bit pattern, and an `f64` its IEEE 754 bit pattern: both below
-- 2 ^ 64.
mutual
  pub data Expr : Type 0 where
    int_lit float_lit : ℕ → Expr
    string_lit var : Text → Expr
    field : Expr → Text → Expr
    load : Expr → ℕ → Offset → Expr
    alloc : Expr → Ty → Bool → Expr
    iadd isub imul idiv imod : Expr → Expr → ℕ → Expr
    ineg : Expr → ℕ → Expr
    fadd fsub fmul fdiv : Expr → Expr → ℕ → Expr
    fneg : Expr → ℕ → Expr
    ieq ine ilt igt ile ige : Expr → Expr → ℕ → Expr
    feq fne flt fgt fle fge : Expr → Expr → ℕ → Expr
    and or xor : Expr → Expr → ℕ → Expr
    not : Expr → ℕ → Expr
    shl shr sar : Expr → Expr → ℕ → Expr
    atomic_load : Expr → ℕ → Expr
    atomic_store : Expr → Expr → ℕ → Expr
    cas : Expr → Expr → Expr → ℕ → Expr
    atomic_add atomic_sub : Expr → Expr → ℕ → Expr
    ftoi itof : Expr → ℕ → ℕ → Expr
    call : Text → Exprs → Expr
    channel : Ty → Expr → Expr
    channel_receive : Text → Expr
    spawn : Text → Exprs → Expr
    wait : Text → Expr

  pub data Offset : Type 0 where
    no_offset : Offset
    at_offset : Expr → Offset

  pub data Exprs : Type 0 where
    nil : Exprs
    cons : Expr → Exprs → Exprs

mutual
  pub data Node : Type 0 where
    node : Span → NodeKind → Node

  pub data NodeKind : Type 0 where
    assignment : Text → Expr → NodeKind
    label : Text → NodeKind
    scope : Nodes → NodeKind
    branch : Expr → Text → Text → NodeKind
    jump : Text → NodeKind
    set : Text → Expr → NodeKind
    discard : Expr → NodeKind
    store : Text → Expr → ℕ → Offset → NodeKind
    free : Text → NodeKind
    spawn_node : Text → Text → Exprs → NodeKind
    wait_node : Text → Text → NodeKind
    wait_all : List Text → List Text → NodeKind
    wait_any : Text → Text → List Text → NodeKind
    channel_send : Text → Expr → NodeKind
    channel_close : Text → NodeKind
    call_node : Option Text → Text → Exprs → List Text → NodeKind

  pub data Nodes : Type 0 where
    end : Nodes
    next : Node → Nodes → Nodes

pub record PlatformImpl : Type 0 where
  pub platform : Option Text
  pub nodes : Nodes

pub record Composition : Type 0 where
  pub nodes : Nodes

pub record Behavior : Type 0 where
  pub name : Text
  pub description : Option Text
  pub contract : Contract
  pub hash : Text
  pub implementations : List PlatformImpl
  pub composition : Option Composition
  pub is_native : Bool

pub record MemoryDecl : Type 0 where
  pub name : Text
  pub typ : Ty
  pub size : ℕ

pub record Pattern : Type 0 where
  pub name : Text
  pub memory : List MemoryDecl
  pub on_create : Nodes
  pub behaviors : List Behavior
  pub on_destroy : Nodes

pub record Library : Type 0 where
  pub name : Text
  pub behaviors : List Behavior

pub record Executable : Type 0 where
  pub name : Text
  pub description : Option Text
  pub uses : List Text
  pub entry : Nodes

-- `Node::line`.
abbrev pub span_of : Node → Span
span_of (node s k) = s

abbrev pub kind_of : Node → NodeKind
kind_of (node s k) = k

abbrev pub line_of : Node → ℕ
line_of n = (span_of n).line

abbrev pub empty_contract : Contract
empty_contract = record {
  inputs = [];
  outputs = [];
  requires = record { behaviors = []; memory = [] };
  guarantees = [];
}

-- `Behavior::new`.
unfoldable pub new_behavior : Text → Behavior
new_behavior n = record {
  name = n;
  description = none;
  contract = empty_contract;
  hash = [];
  implementations = [];
  composition = none;
  is_native = false;
}

unfoldable pub ty_beq : Ty → Ty → Bool
ty_beq bytes bytes = true
ty_beq int int = true
ty_beq float float = true
ty_beq string string = true
ty_beq _ _ = false

pub ty_beq_iff : (a b : Ty) → (ty_beq a b ≡ true) ↔ (a ≡ b)
unfolding ty_beq
ty_beq_iff a b = ground arith

instance abbrev pub ty_eq : Eq Ty
ty_eq = record { beq = ty_beq; beq_iff = ty_beq_iff }

unfoldable pub guarantee_beq : Guarantee → Guarantee → Bool
guarantee_beq pure pure = true
guarantee_beq no_alloc no_alloc = true
guarantee_beq writes_output writes_output = true
guarantee_beq _ _ = false

pub guarantee_beq_iff : (a b : Guarantee) → (guarantee_beq a b ≡ true) ↔ (a ≡ b)
unfolding guarantee_beq
guarantee_beq_iff a b = ground arith

instance abbrev pub guarantee_eq : Eq Guarantee
guarantee_eq = record { beq = guarantee_beq; beq_iff = guarantee_beq_iff }
