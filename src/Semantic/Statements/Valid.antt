-- ===== src/Semantic/Statements/Valid.antt =====
-- What it takes for a statement to pass the linear pass, and what the next statements know.
use sigil_lang.Prelude.{
  ℕ, ◌+◌, ◌%◌, ◌^◌, List, [], ◌∷◌, Map, ◌≡◌, ◌⊎◌, true, false, Option, none, some, Text, text_eq,
  lookup, insert,
}
use sigil_lang.Ast.{
  Ty, bytes, string, Parameter, Contract, Expr, Offset, no_offset, Node, node, NodeKind, Nodes, end,
  next,
}
use sigil_lang.Semantic.Context.{
  VarOrigin, VarInfo, HandleState, owned, freed, not_a_handle, has_key,
}
use sigil_lang.Semantic.Checks.{Facts}
use sigil_lang.Semantic.Values.Meaning.{known, type_of, size_of, origin_of, state_of, is_shared_of}
use sigil_lang.Semantic.Bounds.{IsInBounds}
use sigil_lang.Semantic.Calls.{Matches}
use sigil_lang.Semantic.Exprs.Valid.{IsIntSize, IsDefined, IsValid, IsValidOffset, AreValid}

abbrev pub HasLabel : Facts → Text → Type 0
HasLabel F l = has_key l F.labels ≡ true

-- The target of a store is defined, and not shared.
abbrev pub IsStorable : Option VarInfo → Type 0
IsStorable none = false ≡ true
IsStorable (some v) = v.shared ≡ false

abbrev pub HasOutputSize : ℕ → Offset → Option Parameter → Type 0
HasOutputSize size no_offset (some p) = size ≡ p.size
HasOutputSize size _ _ = Unit

abbrev pub HasOutputType : Option Ty → Option Parameter → Type 0
HasOutputType (some found) (some p) = (found ≡ p.typ) ⊎ ((p.typ ≡ string) × (found ≡ bytes))
HasOutputType _ _ = Unit

abbrev pub HasElementType : Option Ty → Option Ty → Type 0
HasElementType (some expected) (some found) = found ≡ expected
HasElementType _ _ = Unit

-- The behavior owns the handle, or has freed it before.
abbrev pub IsOwned : HandleState → Type 0
IsOwned owned = Unit
IsOwned (freed _) = Unit
IsOwned _ = false ≡ true

abbrev pub MayFree : Option VarInfo → Type 0
MayFree none = false ≡ true
MayFree (some v) = IsOwned v.state

abbrev pub with_variable : Text → VarInfo → Facts → Facts
with_variable x v F = record F {
  variables = insert x (record v { initialized = true }) F.variables;
}

-- A variable that is assigned an expression: of a channel it has the type of the elements, too.
abbrev pub element_of : Expr → Option Ty
element_of (Expr.channel t capacity) = some t
element_of _ = none

abbrev pub variable_of : Map Text VarInfo → Expr → VarInfo
variable_of vars e = record {
  typ = type_of vars e;
  size = size_of vars e;
  initialized = true;
  origin = origin_of vars e;
  state = state_of vars e;
  shared = is_shared_of vars e;
  channel_element_type = element_of e;
}

-- A variable that is assigned the result of a call: if the contract is known, the sizes of its
-- outputs together, in 64 bits.
abbrev pub sizes : List Parameter → ℕ
sizes [] = 0
sizes (p ∷ ps) = p.size + sizes ps

abbrev pub size_of_outputs : Option Contract → Option ℕ
size_of_outputs none = none
size_of_outputs (some c) = some (sizes c.outputs % 2 ^ 64)

abbrev pub result_of : Option Contract → VarInfo
result_of c = record {
  typ = none;
  size = 8;
  initialized = true;
  origin = VarOrigin.call_result (size_of_outputs c);
  state = not_a_handle;
  shared = false;
  channel_element_type = none;
}

abbrev pub with_result : Option Text → Text → Facts → Facts
with_result none behavior F = F
with_result (some t) behavior F = with_variable t (result_of (lookup behavior F.contracts)) F

-- What is known after a statement.
unfoldable mutual
  pub after : NodeKind → Facts → Facts
  after (NodeKind.assignment t e) F = with_variable t (variable_of F.variables e) F
  after (NodeKind.call_node t behavior _ _) F = with_result t behavior F
  after (NodeKind.scope ns) F = after_all ns F
  after _ F = F

  pub after_all : Nodes → Facts → Facts
  after_all end F = F
  after_all (next n ns) F = after_all ns (after_one n F)

  pub after_one : Node → Facts → Facts
  after_one (node sp k) F = after k F

-- A statement is valid where these facts are known.
unfoldable mutual
  unfolding after

  pub IsValidStatement : NodeKind → Facts → Type 0
  IsValidStatement (NodeKind.assignment t e) F = IsValid F e
  IsValidStatement (NodeKind.store t v n o) F =
      ((((IsStorable (lookup t F.variables) × IsValid F v) × IsValidOffset F o) × IsIntSize n)
        × IsInBounds F t n o)
      × HasOutputSize n o (lookup t F.outputs)
  IsValidStatement (NodeKind.set t v) F =
      (IsDefined F t × IsValid F v) × HasOutputType (type_of F.variables v) (lookup t F.outputs)
  IsValidStatement (NodeKind.branch c t f) F = (IsValid F c × HasLabel F t) × HasLabel F f
  IsValidStatement (NodeKind.jump l) F = HasLabel F l
  IsValidStatement (NodeKind.call_node _ behavior args _) F =
      AreValid F args × Matches F args (lookup behavior F.contracts)
  IsValidStatement (NodeKind.free x) F = MayFree (lookup x F.variables)
  IsValidStatement (NodeKind.scope ns) F = AreValidStatements ns F
  IsValidStatement (NodeKind.channel_send c v) F =
      IsDefined F c
      × (IsValid F v
          × HasElementType (known (lookup c F.variables)).channel_element_type
              (type_of F.variables v))
  IsValidStatement (NodeKind.channel_close c) F = IsDefined F c
  IsValidStatement (NodeKind.discard e) F = IsValid F e
  IsValidStatement _ F = Unit

  pub AreValidStatements : Nodes → Facts → Type 0
  AreValidStatements end F = Unit
  AreValidStatements (next n ns) F = IsValidNode n F × AreValidStatements ns (after_one n F)

  pub IsValidNode : Node → Facts → Type 0
  IsValidNode (node sp k) F = IsValidStatement k F
