-- ===== src/ContractHash.antt =====
-- compiler/src/hash.rs: the hash that identifies a contract. SHA-256 and the hexadecimal printer are
-- other people's code: `compute_contract_hash` takes them as functions.
pub mod Unique
pub mod Collision
use sigil_lang.Prelude.{ℕ, zero, suc, ◌/◌, ◌%◌, List, [], ◌∷◌, ◌++◌, map, Text, codes}
use sigil_lang.Chars.{utf8}
use sigil_lang.Ast.{
  Ty, bytes, int, float, string, Guarantee, pure, no_alloc, writes_output, Parameter, BehaviorRef,
  Contract,
}

unfoldable pub type_to_byte : Ty → ℕ
type_to_byte int = 1
type_to_byte float = 2
type_to_byte bytes = 3
type_to_byte string = 4

unfoldable pub guarantee_to_byte : Guarantee → ℕ
guarantee_to_byte pure = 1
guarantee_to_byte no_alloc = 2
guarantee_to_byte writes_output = 3

-- `usize::to_le_bytes`, for a number of `n` bytes.
unfoldable pub to_le_bytes : ℕ → ℕ → List ℕ
to_le_bytes zero x = []
to_le_bytes (suc n) x = (x % 256) ∷ to_le_bytes n (x / 256)

-- The bodies of the loops over inputs, outputs and requires.
unfoldable pub parameter_bytes : List Parameter → List ℕ
parameter_bytes [] = []
parameter_bytes (p ∷ ps) =
    utf8 p.name ++ (type_to_byte p.typ ∷ (to_le_bytes 8 p.size ++ parameter_bytes ps))

unfoldable pub reference_bytes : List BehaviorRef → List ℕ
reference_bytes [] = []
reference_bytes (r ∷ rs) = utf8 r.name ++ (b'@' ∷ (utf8 r.hash ++ reference_bytes rs))

abbrev pub outputs_tag : List ℕ
outputs_tag = codes "OUTPUTS:"

abbrev pub requires_tag : List ℕ
requires_tag = codes "REQUIRES:"

abbrev pub guarantees_tag : List ℕ
guarantees_tag = codes "GUARANTEES:"

-- All that is fed to the hasher, in order.
unfoldable pub contract_bytes : Contract → List ℕ
contract_bytes c =
    codes "INPUTS:"
    ++ (parameter_bytes c.inputs
        ++ (outputs_tag
            ++ (parameter_bytes c.outputs
                ++ (requires_tag
                    ++ (reference_bytes c.requires.behaviors
                        ++ (guarantees_tag ++ map guarantee_to_byte c.guarantees))))))

-- `&result[..n]`.
abbrev pub take : ℕ → List ℕ → List ℕ
take zero xs = []
take (suc n) [] = []
take (suc n) (x ∷ xs) = x ∷ take n xs

unfoldable pub compute_contract_hash : (List ℕ → List ℕ) → (List ℕ → Text) → Contract → Text
compute_contract_hash sha256 hex_encode c = hex_encode (take 4 (sha256 (contract_bytes c)))
