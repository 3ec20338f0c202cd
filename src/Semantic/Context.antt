-- ===== src/Semantic/Context.antt =====
-- compiler/src/semantic/context.rs: what the analysis knows at a statement.
use sigil_lang.Prelude.{
  ℕ, Bool, true, false, not, Option, none, some, List, [], ◌∷◌, ◌++◌, map, Text, text_eq, ◌==◌, Map,
  lookup, insert, contains, add, keep,
}
use sigil_lang.Ast.{Ty, Guarantee, guarantee_eq, Parameter, Contract, Behavior}

pub data VarOrigin : Type 0 where
  input output : ℕ → VarOrigin
  alloc : Option ℕ → VarOrigin
  load_result computed : VarOrigin
  call_result : Option ℕ → VarOrigin

pub data HandleState : Type 0 where
  owned borrowed : HandleState
  freed : ℕ → HandleState
  not_a_handle : HandleState

pub record ActiveBorrow : Type 0 where
  pub pattern_name : Text
  pub spawn_line : ℕ
  pub spawn_handle : Text

pub record VarInfo : Type 0 where
  pub typ : Option Ty
  pub size : ℕ
  pub initialized : Bool
  pub origin : VarOrigin
  pub state : HandleState
  pub shared : Bool
  pub channel_element_type : Option Ty

unfoldable pub allocated_size : VarInfo → Option ℕ
allocated_size v = elim v.origin [
  | VarOrigin.input declared ↦ some declared
  | VarOrigin.output declared ↦ some declared
  | VarOrigin.alloc allocated ↦ allocated
  | VarOrigin.call_result total ↦ total
  | VarOrigin.load_result ↦ none
  | VarOrigin.computed ↦ none
]

pub record AnalysisContext : Type 0 where
  pub labels : Map Text ℕ
  pub variables : Map Text VarInfo
  pub inputs : Map Text Parameter
  pub outputs : Map Text Parameter
  pub written_outputs : List Text
  pub guarantees : List Guarantee
  pub current_line : ℕ
  pub has_unscoped_alloc : Bool
  pub scope_depth : ℕ
  pub has_channel_ops : Bool
  pub has_non_output_writes : Bool
  pub dependency_contracts : Map Text Contract
  pub pattern_names : List Text
  pub spawn_borrows : Map Text (List ActiveBorrow)

abbrev pub parameter_info : Bool → VarOrigin → Parameter → VarInfo
parameter_info initialized origin p = record {
  typ = some p.typ;
  size = p.size;
  initialized = initialized;
  origin = origin;
  state = borrowed;
  shared = false;
  channel_element_type = none;
}

-- The bodies of the loops over the inputs and over the outputs.
unfoldable pub register_input : Parameter → AnalysisContext → AnalysisContext
register_input p ctx = record ctx {
  inputs = insert p.name p ctx.inputs;
  variables = insert p.name (parameter_info true (VarOrigin.input p.size) p) ctx.variables;
}

unfoldable pub register_output : Parameter → AnalysisContext → AnalysisContext
register_output p ctx = record ctx {
  outputs = insert p.name p ctx.outputs;
  variables = insert p.name (parameter_info false (VarOrigin.output p.size) p) ctx.variables;
}

unfoldable pub register_inputs : List Parameter → AnalysisContext → AnalysisContext
unfolding register_input
register_inputs [] ctx = ctx
register_inputs (p ∷ ps) ctx = register_inputs ps (register_input p ctx)

unfoldable pub register_outputs : List Parameter → AnalysisContext → AnalysisContext
unfolding register_output
register_outputs [] ctx = ctx
register_outputs (p ∷ ps) ctx = register_outputs ps (register_output p ctx)

-- `AnalysisContext::new`.
unfoldable pub new_context : Behavior → Map Text Contract → List Text → AnalysisContext
unfolding register_inputs register_outputs
new_context behavior dependencies patterns = register_outputs behavior.contract.outputs (
    register_inputs behavior.contract.inputs (record {
      labels = [];
      variables = [];
      inputs = [];
      outputs = [];
      written_outputs = [];
      guarantees = behavior.contract.guarantees;
      current_line = 1;
      has_unscoped_alloc = false;
      scope_depth = 0;
      has_channel_ops = false;
      has_non_output_writes = false;
      dependency_contracts = dependencies;
      pattern_names = patterns;
      spawn_borrows = [];
    }))

abbrev pub has_key {ℓ} : {V : Type ℓ} → Text → Map Text V → Bool
has_key k m = elim (lookup k m) [ some v ↦ true | none ↦ false ]

-- The line of the first definition, if there is one, and the context after.
unfoldable pub define_label : Text → ℕ → AnalysisContext → Option ℕ × AnalysisContext
define_label name line ctx = elim (lookup name ctx.labels) [
  | some first ↦ (some first, ctx)
  | none ↦ (none, record ctx { labels = insert name line ctx.labels })
]

unfoldable pub label_exists : Text → AnalysisContext → Bool
label_exists name ctx = has_key name ctx.labels

-- `define_var` with what `infer_expr_info` returns as one record.
unfoldable pub define_var : Text → VarInfo → AnalysisContext → AnalysisContext
define_var name info ctx = record ctx {
  variables = insert name (record info { initialized = true }) ctx.variables;
}

unfoldable pub var_exists : Text → AnalysisContext → Bool
var_exists name ctx = has_key name ctx.variables

unfoldable pub borrows_of : Text → Map Text (List ActiveBorrow) → List ActiveBorrow
borrows_of handle m = elim (lookup handle m) [ some bs ↦ bs | none ↦ [] ]

unfoldable pub get_active_borrow : Text → AnalysisContext → Option ActiveBorrow
unfolding borrows_of
get_active_borrow handle ctx = elim (borrows_of handle ctx.spawn_borrows) [
  | [] ↦ none
  | b ∷ bs ↦ some b
]

unfoldable pub add_spawn_borrow : Text → Text → ℕ → Text → AnalysisContext → AnalysisContext
unfolding borrows_of
add_spawn_borrow handle pattern_name line spawn_handle ctx =
    let borrow : ActiveBorrow = record {
      pattern_name = pattern_name;
      spawn_line = line;
      spawn_handle = spawn_handle;
    } in
    record ctx {
      spawn_borrows =
          insert handle (borrows_of handle ctx.spawn_borrows ++ (borrow ∷ [])) ctx.spawn_borrows;
    }

unfoldable pub release_spawn_borrows : Text → AnalysisContext → AnalysisContext
release_spawn_borrows spawn_handle ctx = record ctx {
  spawn_borrows =
      map (λ (k, bs). (k, keep (λ b. not (b.spawn_handle == spawn_handle)) bs)) ctx.spawn_borrows;
}

unfoldable pub mark_output_written : Text → AnalysisContext → AnalysisContext
mark_output_written name ctx = elim (lookup name ctx.outputs) [
  | some p ↦ record ctx { written_outputs = add name ctx.written_outputs }
  | none ↦ ctx
]

unfoldable pub has_guarantee : Guarantee → AnalysisContext → Bool
has_guarantee g ctx = contains ctx.guarantees g
