-- ===== src/Lexer/Tokens.antt =====
-- compiler/src/lexer.rs: the kinds of token, and the keywords.
use sigil_lang.Prelude.{ℕ, none, some, [], ◌∷◌, Text, codes, Map, text_eq, lookup}
use sigil_lang.Ast.{Span}

-- `Integer` and `FloatLit` hold 64-bit patterns, as in `Ast`.
pub data TokenKind : Type 0 where
  behavior description contract hash implementation composition native end pattern_keyword
        end_pattern on_create on_destroy library end_library executable end_executable entry uses
        memory scope end_scope :
      TokenKind
  input output requires guarantees : TokenKind
  pure no_alloc writes_output : TokenKind
  int float bytes string : TokenKind
  label branch jump : TokenKind
  call set discard : TokenKind
  spawn wait wait_all wait_any channel channel_send channel_receive channel_close shared : TokenKind
  alloc load store free : TokenKind
  atomic_load atomic_store cas atomic_add atomic_sub : TokenKind
  iadd isub imul idiv imod ineg : TokenKind
  ieq ine ilt igt ile ige : TokenKind
  fadd fsub fmul fdiv fneg : TokenKind
  feq fne flt fgt fle fge : TokenKind
  ftoi itof : TokenKind
  and or xor not shl shr sar : TokenKind
  integer : ℕ → TokenKind
  float_lit : ℕ → TokenKind
  string_lit : Text → TokenKind
  identifier : Text → TokenKind
  equals arrow dot at comma colon left_bracket right_bracket : TokenKind
  raw_text : Text → TokenKind
  newline : TokenKind
  indent : ℕ → TokenKind
  eof : TokenKind

pub record Token : Type 0 where
  pub kind : TokenKind
  pub span : Span

-- The keywords and their kinds, in the order of the `match`.
abbrev pub keywords : Map Text TokenKind
keywords =
    (codes "BEHAVIOR", behavior)
    ∷ (codes "DESCRIPTION", description)
    ∷ (codes "CONTRACT", contract)
    ∷ (codes "HASH", hash)
    ∷ (codes "IMPLEMENTATION", implementation)
    ∷ (codes "COMPOSITION", composition)
    ∷ (codes "NATIVE", native)
    ∷ (codes "END", end)
    ∷ (codes "PATTERN", pattern_keyword)
    ∷ (codes "END_PATTERN", end_pattern)
    ∷ (codes "ON_CREATE", on_create)
    ∷ (codes "ON_DESTROY", on_destroy)
    ∷ (codes "LIBRARY", library)
    ∷ (codes "END_LIBRARY", end_library)
    ∷ (codes "EXECUTABLE", executable)
    ∷ (codes "END_EXECUTABLE", end_executable)
    ∷ (codes "ENTRY", entry)
    ∷ (codes "USES", uses)
    ∷ (codes "MEMORY", memory)
    ∷ (codes "SCOPE", scope)
    ∷ (codes "END_SCOPE", end_scope)
    ∷ (codes "INPUT", input)
    ∷ (codes "OUTPUT", output)
    ∷ (codes "REQUIRES", requires)
    ∷ (codes "GUARANTEES", guarantees)
    ∷ (codes "pure", pure)
    ∷ (codes "no_alloc", no_alloc)
    ∷ (codes "writes_output", writes_output)
    ∷ (codes "int", int)
    ∷ (codes "float", float)
    ∷ (codes "bytes", bytes)
    ∷ (codes "string", string)
    ∷ (codes "LABEL", label)
    ∷ (codes "BRANCH", branch)
    ∷ (codes "JUMP", jump)
    ∷ (codes "CALL", call)
    ∷ (codes "SET", set)
    ∷ (codes "DISCARD", discard)
    ∷ (codes "SPAWN", spawn)
    ∷ (codes "WAIT", wait)
    ∷ (codes "WAIT_ALL", wait_all)
    ∷ (codes "WAIT_ANY", wait_any)
    ∷ (codes "CHANNEL", channel)
    ∷ (codes "CHANNEL_SEND", channel_send)
    ∷ (codes "CHANNEL_RECEIVE", channel_receive)
    ∷ (codes "CHANNEL_CLOSE", channel_close)
    ∷ (codes "SHARED", shared)
    ∷ (codes "ALLOC", alloc)
    ∷ (codes "LOAD", load)
    ∷ (codes "STORE", store)
    ∷ (codes "FREE", free)
    ∷ (codes "ATOMIC_LOAD", atomic_load)
    ∷ (codes "ATOMIC_STORE", atomic_store)
    ∷ (codes "CAS", cas)
    ∷ (codes "ATOMIC_ADD", atomic_add)
    ∷ (codes "ATOMIC_SUB", atomic_sub)
    ∷ (codes "IADD", iadd)
    ∷ (codes "ISUB", isub)
    ∷ (codes "IMUL", imul)
    ∷ (codes "IDIV", idiv)
    ∷ (codes "IMOD", imod)
    ∷ (codes "INEG", ineg)
    ∷ (codes "IEQ", ieq)
    ∷ (codes "INE", ine)
    ∷ (codes "ILT", ilt)
    ∷ (codes "IGT", igt)
    ∷ (codes "ILE", ile)
    ∷ (codes "IGE", ige)
    ∷ (codes "FADD", fadd)
    ∷ (codes "FSUB", fsub)
    ∷ (codes "FMUL", fmul)
    ∷ (codes "FDIV", fdiv)
    ∷ (codes "FNEG", fneg)
    ∷ (codes "FEQ", feq)
    ∷ (codes "FNE", fne)
    ∷ (codes "FLT", flt)
    ∷ (codes "FGT", fgt)
    ∷ (codes "FLE", fle)
    ∷ (codes "FGE", fge)
    ∷ (codes "FTOI", ftoi)
    ∷ (codes "ITOF", itof)
    ∷ (codes "AND", and)
    ∷ (codes "OR", or)
    ∷ (codes "XOR", xor)
    ∷ (codes "NOT", not)
    ∷ (codes "SHL", shl)
    ∷ (codes "SHR", shr)
    ∷ (codes "SAR", sar)
    ∷ []

unfoldable pub keyword_or_ident : Text → Span → Token
keyword_or_ident word s = elim (lookup word keywords) [
  | some k ↦ record { kind = k; span = s }
  | none ↦ record { kind = identifier word; span = s }
]
