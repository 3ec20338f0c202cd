-- ===== src/Semantic/Contracts.antt =====
-- compiler/src/semantic/mod.rs: the sizes and the hash of a contract. SHA-256 and the hexadecimal
-- printer are arguments.
use sigil_lang.Prelude.{
  ℕ, ◌≡◌, refl, ◌↔◌, Bool, true, false, some, List, [], ◌∷◌, ◌++◌, Text, text_beq, codes, nat_beq,
}
use sigil_lang.Ast.{Ty, int, float, bytes, string, Parameter, Behavior}
use sigil_lang.ContractHash.{compute_contract_hash}
use sigil_lang.Semantic.Errors.{invalid_int_size, invalid_float_size, hash_mismatch}
use sigil_lang.Semantic.Checks.{
  State, Step, require, is_int_size, is_float_size, Decides, Decides-nothing, Decides-then,
  Decides-require,
}

abbrev pub in_parameter : Text → Text
in_parameter name = codes "Parameter '" ++ name ++ codes "'"

-- Bytes of size 0 are only warned of.
unfoldable pub warn_size : Text → ℕ → Step
warn_size name size s = elim (nat_beq size 0) [
  | true ↦ record s {
    warnings =
        s.warnings
        ++ (record { message = in_parameter name ++ codes " has size 0"; line = 0 } ∷ []);
  }
  | false ↦ s
]

unfoldable pub validate_size : Ty → Text → ℕ → Step
unfolding require warn_size
validate_size int name size =
    require (is_int_size size) (invalid_int_size size) 0 (some (in_parameter name))
validate_size float name size =
    require (is_float_size size) (invalid_float_size size) 0 (some (in_parameter name))
validate_size bytes name size = warn_size name size
validate_size string name size = λ s. s

unfoldable pub validate_param_size : Parameter → Step
unfolding validate_size
validate_param_size p = validate_size p.typ p.name p.size

unfoldable pub validate_params : List Parameter → Step
unfolding validate_param_size
validate_params [] s = s
validate_params (p ∷ ps) s = validate_params ps (validate_param_size p s)

-- A hash that is declared is the computed one.
unfoldable pub check_hash : Text → Text → Step
unfolding require
check_hash [] computed s = s
check_hash (c ∷ cs) computed s =
    require (text_beq (c ∷ cs) computed) (hash_mismatch (c ∷ cs) computed) 0
      (some (codes "update HASH to the computed value to fix")) s

unfoldable pub validate_contract : (List ℕ → List ℕ) → (List ℕ → Text) → Behavior → Step
unfolding validate_params check_hash compute_contract_hash
validate_contract sha256 hex_encode b s =
    check_hash b.hash (compute_contract_hash sha256 hex_encode b.contract)
      (validate_params b.contract.outputs (validate_params b.contract.inputs s))

abbrev pub HasSize : Ty → ℕ → Type 0
HasSize int size = is_int_size size ≡ true
HasSize float size = is_float_size size ≡ true
HasSize _ size = Unit

abbrev pub HaveSizes : List Parameter → Type 0
HaveSizes [] = Unit
HaveSizes (p ∷ ps) = HasSize p.typ p.size × HaveSizes ps

abbrev pub IsHash : Text → Text → Type 0
IsHash [] computed = Unit
IsHash (c ∷ cs) computed = text_beq (c ∷ cs) computed ≡ true

warn_size-Decides : (name : Text) (size : ℕ) (s : State) → Decides s (warn_size name size s) Unit
unfolding warn_size
warn_size-Decides name size s = go (nat_beq size 0)
  where
    go :
        (b : Bool)
        → Decides s
            (elim b [
              | true ↦ record s {
                warnings =
                    s.warnings
                    ++ (record { message = in_parameter name ++ codes " has size 0"; line = 0 }
                        ∷ []);
              }
              | false ↦ s
            ])
            Unit
    go true = record { kept = refl; exact = (λ h. (h, tt), λ h. h.0) }
    go false = Decides-nothing s

validate_size-Decides :
    (t : Ty) (name : Text) (size : ℕ) (s : State)
    → Decides s (validate_size t name size s) (HasSize t size)
unfolding validate_size
validate_size-Decides int name size s =
    Decides-require (is_int_size size) (invalid_int_size size) 0 (some (in_parameter name)) s
validate_size-Decides float name size s =
    Decides-require (is_float_size size) (invalid_float_size size) 0 (some (in_parameter name)) s
validate_size-Decides bytes name size s = warn_size-Decides name size s
validate_size-Decides string name size s = Decides-nothing s

validate_params-Decides :
    (ps : List Parameter) (s : State) → Decides s (validate_params ps s) (HaveSizes ps)
unfolding validate_params validate_param_size
validate_params-Decides [] s = Decides-nothing s
validate_params-Decides (p ∷ ps) s =
    Decides-then (λ _. HaveSizes ps) (validate_size-Decides p.typ p.name p.size s)
      (validate_params-Decides ps (validate_param_size p s))

check_hash-Decides :
    (declared computed : Text) (s : State)
    → Decides s (check_hash declared computed s) (IsHash declared computed)
unfolding check_hash
check_hash-Decides [] computed s = Decides-nothing s
check_hash-Decides (c ∷ cs) computed s =
    Decides-require (text_beq (c ∷ cs) computed) (hash_mismatch (c ∷ cs) computed) 0
      (some (codes "update HASH to the computed value to fix")) s

-- The check of a contract adds no error exactly if every integer has 1, 2, 4 or 8 bytes, every float
-- 4 or 8, and a hash that is declared is the computed one.
pub validate_contract_iff :
    (sha256 : List ℕ → List ℕ) (hex_encode : List ℕ → Text) (b : Behavior) (s : State)
    → ((validate_contract sha256 hex_encode b s).errors ≡ []) ↔ (
        (s.errors ≡ [])
        × ((HaveSizes b.contract.inputs × HaveSizes b.contract.outputs)
            × IsHash b.hash (compute_contract_hash sha256 hex_encode b.contract)))
unfolding validate_contract
validate_contract_iff sha256 hex_encode b s =
    let s1 = validate_params b.contract.inputs s in
    let s2 = validate_params b.contract.outputs s1 in
    let computed = compute_contract_hash sha256 hex_encode b.contract in
    (Decides-then (λ _. IsHash b.hash computed)
      (Decides-then (λ _. HaveSizes b.contract.outputs)
        (validate_params-Decides b.contract.inputs s)
        (validate_params-Decides b.contract.outputs s1))
      (check_hash-Decides b.hash computed s2)).exact
