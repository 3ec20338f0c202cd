-- ===== src/Parser/Contracts.antt =====
-- compiler/src/parser.rs: the sections of a contract.
pub mod Total
use sigil_lang.Prelude.{
  ℕ, zero, suc, ◌+◌, Bool, true, false, not, ◌&&◌, Option, none, some, List, [], ◌∷◌, ◌++◌, length,
  ok, ◌==◌,
}
use sigil_lang.Ast.{
  Ty, ty_eq, Guarantee, Parameter, BehaviorRef, Requirements, Contract, empty_contract,
}
use sigil_lang.Lexer.Tokens.{Token, TokenKind}
use sigil_lang.Parser.Cursor.{peek, advance, skip_newlines}
use sigil_lang.Parser.References.{word_of, parse_behavior_refs}
use sigil_lang.Parser.Outcome.{Outcome, Parser, ◌>>=◌, continue, return}
use sigil_lang.Parser.Sections.{after_keyword, parse_sections}
use sigil_lang.Parser.Words.{expect_identifier, parse_type, parse_integer}
use sigil_lang.Parser.Names.{names}

abbrev pub is_integer : TokenKind → Bool
is_integer (TokenKind.integer _) = true
is_integer _ = false

-- A `string` may leave its size out.
unfoldable pub parse_size : Ty → Parser ℕ
unfolding parse_integer peek
parse_size t ts = elim (t == Ty.string && not (is_integer (peek ts).kind)) [
  | true ↦ some (ok (0, ts))
  | false ↦ parse_integer ts
]

unfoldable pub parse_parameter : Parser Parameter
unfolding expect_identifier parse_type parse_size
parse_parameter = do
  name ← expect_identifier
  typ ← parse_type
  size ← parse_size typ
  return (record { name = name; typ = typ; size = size })

-- Each line of dependencies takes one unit of fuel. `refs` are those of the last line.
unfoldable pub parse_requires_within : ℕ → List BehaviorRef → Parser (List BehaviorRef)
unfolding parse_behavior_refs skip_newlines peek
parse_requires_within zero refs ts = none
parse_requires_within (suc fuel) refs ts =
    let us = skip_newlines ts in
    elim (word_of (peek us).kind) [
      | some s ↦
          continue (parse_behavior_refs us) (λ refs' rest. parse_requires_within fuel refs' rest)
      | none ↦ some (ok (refs, us))
    ]

unfoldable pub parse_requires : Parser Requirements
unfolding parse_requires_within skip_newlines
parse_requires ts =
    continue (parse_requires_within (length ts + 1) [] (skip_newlines ts))
      (λ refs. return (record { behaviors = refs; memory = [] }))

abbrev pub guarantee_of : TokenKind → Option Guarantee
guarantee_of TokenKind.pure = some Guarantee.pure
guarantee_of TokenKind.no_alloc = some Guarantee.no_alloc
guarantee_of TokenKind.writes_output = some Guarantee.writes_output
guarantee_of _ = none

unfoldable pub parse_guarantees : Parser (List Guarantee)
parse_guarantees [] = some (ok ([], []))
parse_guarantees (t ∷ ts) =
    let more = parse_guarantees ts in
    elim (guarantee_of t.kind) [
      | some g ↦ continue more (λ gs. return (g ∷ gs))
      | none ↦ some (ok ([], t ∷ ts))
    ]

-- What a keyword of a contract starts; any other token ends the contract.
unfoldable pub contract_section : Contract → TokenKind → Option (Parser Contract)
unfolding parse_parameter parse_requires parse_guarantees names skip_newlines
contract_section c TokenKind.input =
    some (after_keyword do p ← parse_parameter; return (record c { inputs = c.inputs ++ (p ∷ []) }))
contract_section c TokenKind.output =
    some
      (after_keyword do p ← parse_parameter; return (record c { outputs = c.outputs ++ (p ∷ []) }))
contract_section c TokenKind.requires = some (
    after_keyword
      λ ts. (do r ← parse_requires; return (record c { requires = r })) (skip_newlines ts))
contract_section c TokenKind.guarantees =
    some (after_keyword do gs ← parse_guarantees; return (record c { guarantees = gs }))
contract_section c TokenKind.memory = some (
    after_keyword do
      ms ← names
      return (record c { requires = record c.requires { memory = c.requires.memory ++ ms } }))
contract_section c _ = none

unfoldable pub finish_contract : Contract → TokenKind → Parser Contract
finish_contract c k ts = some (ok (c, ts))

unfoldable pub parse_contract : Parser Contract
unfolding parse_sections contract_section finish_contract
parse_contract = parse_sections contract_section finish_contract empty_contract
