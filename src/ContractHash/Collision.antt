-- ===== src/ContractHash/Collision.antt =====
-- The limits of the contract hash: hashes of dependencies are not delimited.
use mathlib.Core.List.{append_assoc}
use sigil_lang.Prelude.{ℕ, ◌≡◌, refl, sym, ap, ◌∙◌, List, [], ◌∷◌, ◌++◌, Text}
use sigil_lang.Chars.{utf8_char, utf8}
use sigil_lang.Ast.{BehaviorRef, Contract}
use sigil_lang.ContractHash.{reference_bytes, contract_bytes, compute_contract_hash}

utf8-append : (s t : Text) → utf8 (s ++ t) ≡ utf8 s ++ utf8 t
unfolding utf8
utf8-append [] t = refl
utf8-append (c ∷ s) t =
    ap (λ x. utf8_char c ++ x) (utf8-append s t) ∙ sym (append_assoc (utf8_char c) _ _)

abbrev pub pinned : Text → Text → BehaviorRef
pinned n h = record { name = n; hash = h }

-- The contract with these dependencies in place of its own.
abbrev pub with_behaviors : Contract → List BehaviorRef → Contract
with_behaviors c rs = record c { requires = record c.requires { behaviors = rs } }

-- If the second of two dependencies has no hash, then its name can be moved over to the hash of the
-- first: for each contract, the dependencies `a@h x@` and `a@ hx@` give the same contract hash.
pub compute_contract_hash-unpinned :
    (sha256 : List ℕ → List ℕ) (hex_encode : List ℕ → Text) (c : Contract) (a h x : Text)
    → compute_contract_hash sha256 hex_encode (with_behaviors c (pinned a h ∷ pinned x [] ∷ []))
      ≡ compute_contract_hash sha256 hex_encode
          (with_behaviors c (pinned a [] ∷ pinned (h ++ x) [] ∷ []))
unfolding compute_contract_hash contract_bytes reference_bytes utf8
compute_contract_hash-unpinned sha256 hex_encode c a h x =
    rw (utf8-append h x, append_assoc (utf8 h) (utf8 x) (b'@' ∷ [])) refl
