-- ===== src/Examples/Contracts.antt =====
-- Concrete contracts for the theorems on `ContractHash`.
use sigil_lang.Prelude.{ℕ, ◌≡◌, refl, List, [], ◌∷◌, ◌++◌, codes, arith}
use sigil_lang.Ast.{int, bytes, pure, Contract}
use sigil_lang.ContractHash.{compute_contract_hash}
use sigil_lang.ContractHash.Unique.{IsCanonical, contract_bytes-injective}
use sigil_lang.ContractHash.Collision.{pinned, with_behaviors, compute_contract_hash-unpinned}

abbrev contract : Contract
contract = record {
  inputs = record { name = codes "a"; typ = int; size = 8 } ∷ [];
  outputs = record { name = codes "y"; typ = bytes; size = 1024 } ∷ [];
  requires = record { behaviors = pinned (codes "sink") (codes "0a1b2c3d") ∷ []; memory = [] };
  guarantees = pure ∷ [];
}

contract-IsCanonical : IsCanonical contract
contract-IsCanonical = record {
  inputs = (((refl, tt), omega arith), tt);
  outputs = (((refl, tt), omega arith), tt);
  requires = (
    (
      (refl, (refl, (refl, (refl, tt)))),
      (refl, (refl, (refl, (refl, (refl, (refl, (refl, (refl, tt)))))))),
      refl,
    ),
    tt,
  );
}

contract_bytes-injective_example :
    (contract.inputs ≡ contract.inputs)
    × (contract.outputs ≡ contract.outputs)
    × (contract.requires.behaviors ≡ contract.requires.behaviors)
    × (contract.guarantees ≡ contract.guarantees)
contract_bytes-injective_example =
    contract_bytes-injective contract contract contract-IsCanonical contract-IsCanonical refl

-- A hash that is the bytes themselves.
abbrev no_hash : List ℕ → List ℕ
no_hash bs = bs

compute_contract_hash-unpinned_example :
    compute_contract_hash no_hash no_hash
      (with_behaviors contract (pinned (codes "a") (codes "0a1b2c3d") ∷ pinned (codes "b") [] ∷ []))
    ≡ compute_contract_hash no_hash no_hash (
        with_behaviors contract
          (pinned (codes "a") [] ∷ pinned (codes "0a1b2c3d" ++ codes "b") [] ∷ []))
compute_contract_hash-unpinned_example =
    compute_contract_hash-unpinned no_hash no_hash contract (codes "a") (codes "0a1b2c3d")
      (codes "b")
