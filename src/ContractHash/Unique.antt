-- ===== src/ContractHash/Unique.antt =====
-- The bytes that are hashed determine the contract.
use sigil_lang.Prelude.{
  ℕ, zero, suc, ◌*◌, ◌/◌, ◌^◌, ◌<◌, ◌≡◌, refl, ap, sym, ◌∙◌, ◌≢◌, Bool, true, false, ◌||◌, List, [],
  ◌∷◌, ◌++◌, map, Text, codes, arith, All, All-map, length, nat_beq,
}
use mathlib.Core.List.{append_assoc}
use sigil_lang.Chars.{is_ascii_alphanumeric, utf8, utf8-ascii}
use sigil_lang.Ast.{Ty, Guarantee, Parameter, BehaviorRef, Contract}
use sigil_lang.ContractHash.{
  type_to_byte, guarantee_to_byte, to_le_bytes, parameter_bytes, reference_bytes, contract_bytes,
}

-- The characters of an identifier (lexer.rs, `read_identifier`).
abbrev pub is_ident_char : ℕ → Bool
is_ident_char c = is_ascii_alphanumeric c || nat_beq c b'_' || nat_beq c b'-'

abbrev pub IsIdentChar : ℕ → Type 0
IsIdentChar c = is_ident_char c ≡ true

abbrev pub IsName : Text → Type 0
IsName s = All IsIdentChar s

abbrev pub IsSized : Parameter → Type 0
IsSized p = IsName p.name × (p.size < 2 ^ 64)

-- A dependency that is pinned by a hash of eight characters.
abbrev pub IsPinned : BehaviorRef → Type 0
IsPinned r = IsName r.name × IsName r.hash × (length r.hash ≡ 8)

-- What the parser accepts, with every dependency pinned.
pub record IsCanonical (c : Contract) : Type 0 where
  pub inputs : All IsSized c.inputs
  pub outputs : All IsSized c.outputs
  pub requires : All IsPinned c.requires.behaviors

ident-ascii : (c : ℕ) → IsIdentChar c → c < 128
ident-ascii c h = ground arith

pub utf8-name : (s : Text) → IsName s → utf8 s ≡ s
utf8-name s h = utf8-ascii s (All-map ident-ascii s h)

cons_injective {ℓ} : {A : Type ℓ} {x y : A} {xs ys : List A} → x ∷ xs ≡ y ∷ ys → (x ≡ y) × (xs ≡ ys)
cons_injective e = (cc, cc)

ident_differs : (x y : ℕ) → IsIdentChar x → is_ident_char y ≡ false → x ≢ y
ident_differs x y hx hy e = ground (arith, ap is_ident_char e)

-- The first byte that cannot stand in a name ends it.
pub name_ends :
    (xs ys : Text) (a b : ℕ) (r t : List ℕ)
    → IsName xs
    → IsName ys
    → is_ident_char a ≡ false
    → is_ident_char b ≡ false
    → xs ++ (a ∷ r) ≡ ys ++ (b ∷ t)
    → (xs ≡ ys) × (a ≡ b) × (r ≡ t)
name_ends [] [] a b r t hx hy na nb e = (refl, cc, cc)
name_ends [] (y ∷ ys) a b r t hx hy na nb e =
    absurd (ident_differs y a hy.0 na (sym (cons_injective e).0))
name_ends (x ∷ xs) [] a b r t hx hy na nb e =
    absurd (ident_differs x b hx.0 nb (cons_injective e).0)
name_ends (x ∷ xs) (y ∷ ys) a b r t hx hy na nb e =
    let h = cons_injective e in
    let (p, q, s) = name_ends xs ys a b r t hx.1 hy.1 na nb h.1 in (cc (h.0, p), q, s)

same_length : (xs ys r t : List ℕ) → length xs ≡ length ys → xs ++ r ≡ ys ++ t → (xs ≡ ys) × (r ≡ t)
same_length [] [] r t n e = (refl, e)
same_length [] (y ∷ ys) r t n e = absurd (omega arith)
same_length (x ∷ xs) [] r t n e = absurd (omega arith)
same_length (x ∷ xs) (y ∷ ys) r t n e =
    let h = cons_injective e in
    let (p, q) = same_length xs ys r t (omega arith) h.1 in (cc (h.0, p), q)

length-to_le_bytes : (n x : ℕ) → length (to_le_bytes n x) ≡ n
unfolding to_le_bytes
length-to_le_bytes zero x = refl
length-to_le_bytes (suc n) x = ap suc (length-to_le_bytes n (x / 256))

-- The count of numbers of `n` bytes.
abbrev byte_range : ℕ → ℕ
byte_range zero = 1
byte_range (suc n) = 256 * byte_range n

to_le_bytes-injective :
    (n x y : ℕ) → x < byte_range n → y < byte_range n → to_le_bytes n x ≡ to_le_bytes n y → x ≡ y
unfolding to_le_bytes
to_le_bytes-injective zero x y hx hy e = omega arith
to_le_bytes-injective (suc n) x y hx hy e =
    let (low, high) = cons_injective e in
    omega (arith, to_le_bytes-injective n (x / 256) (y / 256) (omega arith) (omega arith) high)

size_ends :
    (x y : ℕ) (r t : List ℕ)
    → x < 2 ^ 64
    → y < 2 ^ 64
    → to_le_bytes 8 x ++ r ≡ to_le_bytes 8 y ++ t
    → (x ≡ y) × (r ≡ t)
size_ends x y r t hx hy e =
    let (p, q) = same_length _ _ r t (length-to_le_bytes 8 x ∙ sym (length-to_le_bytes 8 y)) e in
    (to_le_bytes-injective 8 x y hx hy p, q)

type_to_byte-injective : (a b : Ty) → type_to_byte a ≡ type_to_byte b → a ≡ b
unfolding type_to_byte
type_to_byte-injective a b e = ground arith

type_to_byte-ends : (a : Ty) → (is_ident_char (type_to_byte a) ≡ false) × (type_to_byte a < 58)
unfolding type_to_byte
type_to_byte-ends a = ground arith

guarantee_to_byte-injective : (a b : Guarantee) → guarantee_to_byte a ≡ guarantee_to_byte b → a ≡ b
unfolding guarantee_to_byte
guarantee_to_byte-injective a b e = ground arith

guarantees_unique :
    (gs hs : List Guarantee) → map guarantee_to_byte gs ≡ map guarantee_to_byte hs → gs ≡ hs
guarantees_unique [] [] e = refl
guarantees_unique [] (h ∷ hs) e = cc
guarantees_unique (g ∷ gs) [] e = cc
guarantees_unique (g ∷ gs) (h ∷ hs) e =
    let (p, q) = cons_injective e in
    cc (guarantee_to_byte-injective g h p, guarantees_unique gs hs q)

parameter_split :
    (p : Parameter) (ps : List Parameter) (z : List ℕ)
    → IsName p.name
    → parameter_bytes (p ∷ ps) ++ z
      ≡ p.name ++ (type_to_byte p.typ ∷ (to_le_bytes 8 p.size ++ (parameter_bytes ps ++ z)))
unfolding parameter_bytes
parameter_split p ps z h = rw (utf8-name p.name h) (simp append_assoc)

reference_split :
    (p : BehaviorRef) (ps : List BehaviorRef) (z : List ℕ)
    → IsPinned p
    → reference_bytes (p ∷ ps) ++ z ≡ p.name ++ (b'@' ∷ (p.hash ++ (reference_bytes ps ++ z)))
unfolding reference_bytes
reference_split p ps z h = rw (utf8-name p.name h.0) (rw (utf8-name p.hash h.1) (simp append_assoc))

-- A section ends at the tag of the next section, `w` and a colon.
module _ (w : Text) (tag : IsName w) where
  parameters_unique :
      (ps qs : List Parameter) (r t : List ℕ)
      → All IsSized ps
      → All IsSized qs
      → parameter_bytes ps ++ (w ++ (b':' ∷ r)) ≡ parameter_bytes qs ++ (w ++ (b':' ∷ t))
      → (ps ≡ qs) × (r ≡ t)
  unfolding parameter_bytes
  parameters_unique [] [] r t hp hq e =
      let (_, _, rest) = name_ends w w b':' b':' r t tag tag refl refl e in (refl, rest)
  parameters_unique [] (q ∷ qs) r t hp hq e =
      let (_, colon, _) =
        name_ends w q.name b':' _ r _ tag hq.0.0 refl (type_to_byte-ends q.typ).0
          (e ∙ parameter_split q qs _ hq.0.0) in
      absurd (omega (arith, (type_to_byte-ends q.typ).1))
  parameters_unique (p ∷ ps) [] r t hp hq e =
      let (_, colon, _) =
        name_ends p.name w _ b':' _ t hp.0.0 tag (type_to_byte-ends p.typ).0 refl
          (sym (parameter_split p ps _ hp.0.0) ∙ e) in
      absurd (omega (arith, (type_to_byte-ends p.typ).1))
  parameters_unique (p ∷ ps) (q ∷ qs) r t hp hq e =
      let (name, typ, e₁) =
        name_ends p.name q.name _ _ _ _ hp.0.0 hq.0.0 (type_to_byte-ends p.typ).0
          (type_to_byte-ends q.typ).0
          (sym (parameter_split p ps _ hp.0.0) ∙ e ∙ parameter_split q qs _ hq.0.0) in
      let (size, e₂) = size_ends p.size q.size _ _ hp.0.1 hq.0.1 e₁ in
      let (rest, tail) = parameters_unique ps qs r t hp.1 hq.1 e₂ in
      (cc (name, type_to_byte-injective p.typ q.typ typ, size, rest), tail)

  references_unique :
      (ps qs : List BehaviorRef) (r t : List ℕ)
      → All IsPinned ps
      → All IsPinned qs
      → reference_bytes ps ++ (w ++ (b':' ∷ r)) ≡ reference_bytes qs ++ (w ++ (b':' ∷ t))
      → (ps ≡ qs) × (r ≡ t)
  unfolding reference_bytes
  references_unique [] [] r t hp hq e =
      let (_, _, rest) = name_ends w w b':' b':' r t tag tag refl refl e in (refl, rest)
  references_unique [] (q ∷ qs) r t hp hq e =
      let (_, colon, _) =
        name_ends w q.name b':' b'@' r _ tag hq.0.0 refl refl (e ∙ reference_split q qs _ hq.0) in
      absurd (omega arith)
  references_unique (p ∷ ps) [] r t hp hq e =
      let (_, colon, _) =
        name_ends p.name w b'@' b':' _ t hp.0.0 tag refl refl
          (sym (reference_split p ps _ hp.0) ∙ e) in
      absurd (omega arith)
  references_unique (p ∷ ps) (q ∷ qs) r t hp hq e =
      let (name, _, e₁) =
        name_ends p.name q.name b'@' b'@' _ _ hp.0.0 hq.0.0 refl refl
          (sym (reference_split p ps _ hp.0) ∙ e ∙ reference_split q qs _ hq.0) in
      let (hash, e₂) = same_length p.hash q.hash _ _ (hp.0.2 ∙ sym hq.0.2) e₁ in
      let (rest, tail) = references_unique ps qs r t hp.1 hq.1 e₂ in (cc (name, hash, rest), tail)

-- Two contracts whose names are identifiers, whose sizes fit 64 bits and whose dependencies are all
-- pinned by eight characters feed the same bytes to the hasher only if they have the same inputs,
-- outputs, dependencies and guarantees.
pub contract_bytes-injective :
    (c d : Contract)
    → IsCanonical c
    → IsCanonical d
    → contract_bytes c ≡ contract_bytes d
    → (c.inputs ≡ d.inputs)
      × (c.outputs ≡ d.outputs)
      × (c.requires.behaviors ≡ d.requires.behaviors)
      × (c.guarantees ≡ d.guarantees)
unfolding contract_bytes
contract_bytes-injective c d hc hd e =
    let (_, e₀) = same_length (codes "INPUTS:") (codes "INPUTS:") _ _ refl e in
    let (inputs, e₁) =
      parameters_unique (codes "OUTPUTS") (ground arith) c.inputs d.inputs _ _ hc.inputs hd.inputs
        e₀ in
    let (outputs, e₂) =
      parameters_unique (codes "REQUIRES") (ground arith) c.outputs d.outputs _ _ hc.outputs
        hd.outputs e₁ in
    let (requires, e₃) =
      references_unique (codes "GUARANTEES") (ground arith) c.requires.behaviors
        d.requires.behaviors _ _ hc.requires hd.requires e₂ in
    (inputs, outputs, requires, guarantees_unique c.guarantees d.guarantees e₃)
