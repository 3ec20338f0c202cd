-- ===== src/Cfg/Builder/Labels.antt =====
-- A label leads to the block that has it.
pub mod Heads
pub mod Starts
use mathlib.Core.Bool.{false≢true}
use mathlib.Core.Path.{subst}
use mathlib.Core.Option.{some-injective}
use sigil_lang.Prelude.{
  ℕ, zero, suc, ◌+◌, ◌≡◌, refl, sym, ap, ◌∙◌, ◌⊎◌, inl, inr, true, false, Option, none, some, List,
  [], ◌∷◌, ◌++◌, map, arith, Text, text_eq, eq_iff, ◌==◌, Map, All, All-map, length, length-append,
  get_elem?, lookup, insert, Bool-cases,
}
use sigil_lang.Ast.{Node, NodeKind, kind_of, label, jump, branch}
use sigil_lang.Cfg.{
  Terminator, fallthrough, return, BasicBlock, CfgBuilder, new_builder, finish_block, register,
  build, push_statement, start_label, visit, visit_all, first_pass, is_nil,
}
use sigil_lang.Cfg.Builder.Numbers.{strip, strip-second_pass}

-- The label of the block at an index.
abbrev pub label_at : List BasicBlock → ℕ → Option Text
label_at bs i = elim (get_elem? bs i) [ some b ↦ b.label | none ↦ none ]

label_at-append :
    (bs cs : List BasicBlock) (i : ℕ) (l : Text)
    → label_at bs i ≡ some l
    → label_at (bs ++ cs) i ≡ some l
label_at-append [] cs i l h = cc
label_at-append (b ∷ bs) cs zero l h = h
label_at-append (b ∷ bs) cs (suc i) l h = label_at-append bs cs i l h

label_at-last :
    (bs : List BasicBlock) (b : BasicBlock) → label_at (bs ++ (b ∷ [])) (length bs) ≡ b.label
label_at-last [] b = refl
label_at-last (c ∷ bs) b = label_at-last bs b

All-insert {ℓ} :
    {V : Type 0} (P : Text × V → Type ℓ) (k : Text) (v : V) (m : Map Text V)
    → P (k, v)
    → All P m
    → All P (insert k v m)
unfolding insert
All-insert P k v [] p h = (p, tt)
All-insert P k v ((j, w) ∷ m) p h = elim (Bool-cases (j == k)) [
  | inl e ↦ rw e (p, h.1)
  | inr e ↦ rw e (h.0, All-insert P k v m p h.1)
]

-- The block is finished, or it is the current one.
abbrev IsPlaced : CfgBuilder → Text × ℕ → Type 0
IsPlaced s (l, j) =
    (label_at s.blocks j ≡ some l)
    ⊎ ((j ≡ s.next_id)
        × (s.current_block.label ≡ some l)
        × (is_nil s.current_block.statements ≡ false))

record IsLabelled (s : CfgBuilder) : Type 0 where
  placed : All (IsPlaced s) s.label_to_block
  counter : s.next_id ≡ length s.blocks
  -- Only a block with statements has a label.
  blank : is_nil s.current_block.statements ≡ true → s.current_block.label ≡ none

finish-IsPlaced :
    (t : Terminator) (s : CfgBuilder) (p : Text × ℕ)
    → s.next_id ≡ length s.blocks
    → IsPlaced s p
    → IsPlaced (finish_block t s) p
unfolding finish_block
finish-IsPlaced t s (l, j) n (inl done) = inl (label_at-append s.blocks _ j l done)
finish-IsPlaced t s (l, j) n (inr (here, named, _)) =
    inl (rw (here, n) (label_at-last s.blocks _ ∙ named))

register-All {ℓ} :
    (P : Text × ℕ → Type ℓ) (o : Option Text) (j : ℕ) (m : Map Text ℕ)
    → ((l : Text) → o ≡ some l → P (l, j))
    → All P m
    → All P (register o j m)
register-All P none j m new h = h
register-All P (some l) j m new h = All-insert P l j m (new l refl) h

finish-IsLabelled : (t : Terminator) (s : CfgBuilder) → IsLabelled s → IsLabelled (finish_block t s)
finish-IsLabelled t s h = record {
  placed =
      unfold finish_block in
      register-All _ s.current_block.label s.next_id s.label_to_block
        (λ l e. inl (rw h.counter (label_at-last s.blocks _ ∙ e)))
        (All-map (λ p. unfold finish_block in finish-IsPlaced t s p h.counter) s.label_to_block
          h.placed);
  counter =
      unfold finish_block in
      omega (
        arith,
        h.counter,
        length-append s.blocks (record s.current_block { id = s.next_id; terminator = t } ∷ []),
      );
  blank = unfold finish_block in λ _. refl;
}

is_nil-snoc {ℓ} : {A : Type ℓ} (xs : List A) (x : A) → is_nil (xs ++ (x ∷ [])) ≡ false
is_nil-snoc [] x = refl
is_nil-snoc (y ∷ xs) x = refl

push-IsLabelled : (i : ℕ) (s : CfgBuilder) → IsLabelled s → IsLabelled (push_statement i s)
unfolding push_statement
push-IsLabelled i s h = record {
  placed = All-map keep_place s.label_to_block h.placed;
  counter = h.counter;
  blank = λ e. absurd (false≢true (sym (is_nil-snoc s.current_block.statements i) ∙ e));
}
  where
    keep_place : (p : Text × ℕ) → IsPlaced s p → IsPlaced (push_statement i s) p
    keep_place (l, j) (inl done) = inl done
    keep_place (l, j) (inr (here, named, _)) =
        inr (here, named, is_nil-snoc s.current_block.statements i)

-- A label in front of an empty block.
abbrev named_block : Text → CfgBuilder → CfgBuilder
named_block l s = record s {
  current_block = record s.current_block { label = some l };
  label_to_block = insert l s.next_id s.label_to_block;
}

named-IsLabelled :
    (i : ℕ) (l : Text) (s : CfgBuilder)
    → is_nil s.current_block.statements ≡ true
    → IsLabelled s
    → IsLabelled (push_statement i (named_block l s))
unfolding push_statement
named-IsLabelled i l s e h = record {
  placed =
      All-insert _ l s.next_id s.label_to_block
        (inr (refl, refl, is_nil-snoc s.current_block.statements i))
        (All-map keep_place s.label_to_block h.placed);
  counter = h.counter;
  blank = λ n. absurd (false≢true (sym (is_nil-snoc s.current_block.statements i) ∙ n));
}
  where
    keep_place : (p : Text × ℕ) → IsPlaced s p → IsPlaced (push_statement i (named_block l s)) p
    keep_place (k, j) (inl done) = inl done
    keep_place (k, j) (inr (_, _, full)) = absurd (false≢true (sym full ∙ e))

visit-IsLabelled : (i : ℕ) (k : NodeKind) (s : CfgBuilder) → IsLabelled s → IsLabelled (visit i k s)
unfolding visit start_label
visit-IsLabelled i (label l) s h = elim (Bool-cases (is_nil s.current_block.statements)) [
  | inl e ↦ rw e (named-IsLabelled i l s e h)
  | inr e ↦ rw e (
      named-IsLabelled i l (finish_block fallthrough s) (unfold finish_block in refl)
        (finish-IsLabelled fallthrough s h))
]
visit-IsLabelled i (jump l) s h = finish-IsLabelled _ _ (push-IsLabelled i s h)
visit-IsLabelled i (branch c t f) s h = finish-IsLabelled _ _ (push-IsLabelled i s h)
visit-IsLabelled i _ s h = push-IsLabelled i s h

visit_all-IsLabelled :
    (i : ℕ) (ns : List Node) (s : CfgBuilder) → IsLabelled s → IsLabelled (visit_all i ns s)
unfolding visit_all
visit_all-IsLabelled i [] s h = h
visit_all-IsLabelled i (n ∷ ns) s h =
    visit_all-IsLabelled (i + 1) ns _ (visit-IsLabelled i (kind_of n) s h)

abbrev IsFinished : CfgBuilder → Type 0
IsFinished s = All (λ p. label_at s.blocks p.1 ≡ some p.0) s.label_to_block

IsLabelled-IsFinished :
    (s : CfgBuilder) → is_nil s.current_block.statements ≡ true → IsLabelled s → IsFinished s
IsLabelled-IsFinished s e h = All-map done s.label_to_block h.placed
  where
    done : (p : Text × ℕ) → IsPlaced s p → label_at s.blocks p.1 ≡ some p.0
    done (l, j) (inl d) = d
    done (l, j) (inr (_, _, full)) = absurd (false≢true (sym full ∙ e))

first_pass-IsFinished : (ns : List Node) → IsFinished (first_pass ns new_builder)
unfolding first_pass
first_pass-IsFinished ns = elim (Bool-cases (is_nil s.current_block.statements)) [
  | inl e ↦ elim (Bool-cases (is_nil s.blocks)) [
    | inl f ↦ rw (e, f) end
    | inr f ↦ rw (e, f) (IsLabelled-IsFinished s e h)
  ]
  | inr e ↦ rw e end
]
  where
    s : CfgBuilder
    s = visit_all 0 ns new_builder

    h : IsLabelled s
    h =
        visit_all-IsLabelled 0 ns new_builder
          (record { placed = tt; counter = refl; blank = λ _. refl })

    end : IsFinished (finish_block return s)
    end =
        IsLabelled-IsFinished (finish_block return s) (unfold finish_block in refl)
          (finish-IsLabelled return s h)

pub All-lookup {ℓ} :
    {A : Type 0} (P : Text × A → Type ℓ) (k : Text) (v : A) (m : Map Text A)
    → All P m
    → lookup k m ≡ some v
    → P (k, v)
unfolding lookup
All-lookup P k v [] h e = absurd (cc)
All-lookup {A} P k v ((j, w) ∷ m) h e = elim (Bool-cases (j == k)) [
  | inl q ↦
      let value = some-injective w v (rw q at e) in
      let pair : ◌≡◌ {A = Text × A} (j, w) (k, v) = cc ((eq_iff j k).0 q, value) in subst P pair h.0
  | inr q ↦ All-lookup P k v m h.1 (rw q at e)
]

label_at-strip : (bs : List BasicBlock) (j : ℕ) → label_at (map strip bs) j ≡ label_at bs j
label_at-strip [] j = refl
label_at-strip (b ∷ bs) zero = refl
label_at-strip (b ∷ bs) (suc j) = label_at-strip bs j

pub build-label_at :
    (ns : List Node) (l : Text) (j : ℕ)
    → lookup l (build ns).label_to_block ≡ some j
    → label_at (build ns).blocks j ≡ some l
unfolding build
build-label_at ns l j h =
    sym (label_at-strip _ j)
    ∙ ap (λ bs. label_at bs j) (strip-second_pass s.label_to_block (length s.blocks) 0 s.blocks)
    ∙ label_at-strip s.blocks j
    ∙ All-lookup _ l j s.label_to_block (first_pass-IsFinished ns) h
  where
    s : CfgBuilder
    s = first_pass ns new_builder
