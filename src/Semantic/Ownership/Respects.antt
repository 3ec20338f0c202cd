-- ===== src/Semantic/Ownership/Respects.antt =====
-- What the statements of a path respect.
use sigil_lang.Prelude.{◌≡◌, Bool, true, false, not, ◌&&◌, ◌||◌, List, [], ◌∷◌, Text, text_eq, ◌==◌}
use sigil_lang.Ast.{Expr, Node, NodeKind, kind_of}
use sigil_lang.Semantic.Ownership.{key_eq}

-- Sets of names.
abbrev pub Names : Type 0
Names = Text → Bool

-- The variable itself, or what a field or a load takes it from, is not freed.
unfoldable pub UsesNone : Names → Expr → Type 0
UsesNone freed (Expr.var x) = freed x ≡ false
UsesNone freed (Expr.load e _ _) = UsesNone freed e
UsesNone freed (Expr.field e _) = UsesNone freed e
UsesNone freed _ = Unit

abbrev pub IsStored : Names → Expr → Type 0
IsStored stored (Expr.var x) = stored x ≡ true
IsStored stored _ = Unit

-- A load by name reads what was stored.
unfoldable pub LoadsStored : Names → Expr → Type 0
LoadsStored stored (Expr.load e _ _) = IsStored stored e × LoadsStored stored e
LoadsStored stored _ = Unit

abbrev pub Respects : Names → Names → NodeKind → Type 0
Respects freed stored (NodeKind.free x) = freed x ≡ false
Respects freed stored (NodeKind.assignment t e) = UsesNone freed e × LoadsStored stored e
Respects freed stored (NodeKind.store t _ _ _) = freed t ≡ false
Respects freed stored _ = Unit

abbrev pub freed_after : NodeKind → Names → Names
freed_after (NodeKind.free x) freed y = x == y || freed y
freed_after (NodeKind.assignment t _) freed y = not (t == y) && freed y
freed_after _ freed y = freed y

abbrev pub stored_after : NodeKind → Names → Names
stored_after (NodeKind.store t _ _ _) stored y = t == y || stored y
stored_after _ stored y = stored y

-- Every statement of a path respects what was freed and stored on it before.
abbrev pub AllRespect : Names → Names → List Node → Type 0
AllRespect freed stored [] = Unit
AllRespect freed stored (n ∷ ns) =
    Respects freed stored (kind_of n)
    × AllRespect (freed_after (kind_of n) freed) (stored_after (kind_of n) stored) ns
