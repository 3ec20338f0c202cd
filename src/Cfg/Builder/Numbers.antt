-- ===== src/Cfg/Builder/Numbers.antt =====
-- A block's id is its index, and the second pass changes nothing but the links.
use mathlib.Core.List.{map-append}
use sigil_lang.Prelude.{
  ℕ, zero, suc, ◌+◌, ◌≡◌, refl, sym, ap, ◌∙◌, inl, inr, List, [], ◌∷◌, ◌++◌, map, arith, Text,
  text_eq, Map, length, length-append, modify, get_elem?, ltb, lookup, Bool-cases, Option-cases,
}
use native.Mathlib.Nat.{zero-add}
use sigil_lang.Ast.{Node, NodeKind, kind_of, label, jump, branch}
use sigil_lang.Cfg.{
  Terminator, fallthrough, return, BasicBlock, CfgBuilder, new_builder, finish_block,
  push_statement, start_label, visit, visit_all, first_pass, connect, connect_label, connect_next,
  link, link_at, second_pass, build, is_nil, jump_to, branch_to,
}
use sigil_lang.Cfg.Builder.Partition.{count_from}

abbrev pub ids : List BasicBlock → List ℕ
ids bs = map (λ b. b.id) bs

count_from-suc : (i n : ℕ) → count_from i (suc n) ≡ count_from i n ++ ((i + n) ∷ [])
count_from-suc i zero = let e : i ≡ i + 0 = omega arith in rw (← e) refl
count_from-suc i (suc n) =
    let e : i + 1 + n ≡ i + suc n = omega arith in
    ap (λ xs. i ∷ xs) (rw (← e) (count_from-suc (i + 1) n))

count_from_zero-suc : (n : ℕ) → count_from 0 (suc n) ≡ count_from 0 n ++ (n ∷ [])
count_from_zero-suc n = count_from-suc 0 n ∙ ap (λ k. count_from 0 n ++ (k ∷ [])) (zero-add n)

record IsNumbered (s : CfgBuilder) : Type 0 where
  numbers : ids s.blocks ≡ count_from 0 (length s.blocks)
  counter : s.next_id ≡ length s.blocks

finish-IsNumbered : (t : Terminator) (s : CfgBuilder) → IsNumbered s → IsNumbered (finish_block t s)
unfolding finish_block
finish-IsNumbered t s h =
    let n : length (s.blocks ++ (record s.current_block { id = s.next_id; terminator = t } ∷ []))
        ≡ suc (length s.blocks) =
      omega (
        arith,
        length-append s.blocks (record s.current_block { id = s.next_id; terminator = t } ∷ []),
      ) in
    record {
      numbers = rw n (
          map-append (λ b. b.id) s.blocks _
          ∙ rw (h.numbers, h.counter) (sym (count_from_zero-suc (length s.blocks))));
      counter = rw n (omega (arith, h.counter));
    }

start-IsNumbered : (l : Text) (s : CfgBuilder) → IsNumbered s → IsNumbered (start_label l s)
unfolding start_label
start-IsNumbered l s h = elim (Bool-cases (is_nil s.current_block.statements)) [
  | inl e ↦ rw e (record { numbers = h.numbers; counter = h.counter })
  | inr e ↦ rw e (
      let f = finish-IsNumbered fallthrough s h in
      record { numbers = f.numbers; counter = f.counter })
]

push-IsNumbered : (i : ℕ) (s : CfgBuilder) → IsNumbered s → IsNumbered (push_statement i s)
unfolding push_statement
push-IsNumbered i s h = record { numbers = h.numbers; counter = h.counter }

visit-IsNumbered : (i : ℕ) (k : NodeKind) (s : CfgBuilder) → IsNumbered s → IsNumbered (visit i k s)
unfolding visit
visit-IsNumbered i (label l) s h = push-IsNumbered i _ (start-IsNumbered l s h)
visit-IsNumbered i (jump l) s h = finish-IsNumbered _ _ (push-IsNumbered i s h)
visit-IsNumbered i (branch c t f) s h = finish-IsNumbered _ _ (push-IsNumbered i s h)
visit-IsNumbered i _ s h = push-IsNumbered i s h

visit_all-IsNumbered :
    (i : ℕ) (ns : List Node) (s : CfgBuilder) → IsNumbered s → IsNumbered (visit_all i ns s)
unfolding visit_all
visit_all-IsNumbered i [] s h = h
visit_all-IsNumbered i (n ∷ ns) s h =
    visit_all-IsNumbered (i + 1) ns _ (visit-IsNumbered i (kind_of n) s h)

first_pass-IsNumbered : (ns : List Node) → IsNumbered (first_pass ns new_builder)
unfolding first_pass
first_pass-IsNumbered ns = elim (Bool-cases (is_nil s.current_block.statements)) [
  | inl e ↦ elim (Bool-cases (is_nil s.blocks)) [
    | inl f ↦ rw (e, f) (finish-IsNumbered return s h)
    | inr f ↦ rw (e, f) h
  ]
  | inr e ↦ rw e (finish-IsNumbered return s h)
]
  where
    s : CfgBuilder
    s = visit_all 0 ns new_builder

    h : IsNumbered s
    h = visit_all-IsNumbered 0 ns new_builder (record { numbers = refl; counter = refl })

-- A block without its links.
abbrev pub strip : BasicBlock → BasicBlock
strip b = record b { successors = []; predecessors = [] }

strip-modify :
    (bs : List BasicBlock) (i : ℕ) (f : BasicBlock → BasicBlock)
    → ((b : BasicBlock) → strip (f b) ≡ strip b)
    → map strip (modify bs i f) ≡ map strip bs
strip-modify [] i f h = refl
strip-modify (b ∷ bs) zero f h = ap (λ c. c ∷ map strip bs) (h b)
strip-modify (b ∷ bs) (suc i) f h = ap (λ cs. strip b ∷ cs) (strip-modify bs i f h)

ids-map-strip : (bs : List BasicBlock) → ids (map strip bs) ≡ ids bs
ids-map-strip [] = refl
ids-map-strip (b ∷ bs) = ap (λ is. b.id ∷ is) (ids-map-strip bs)

length-map-strip : (bs : List BasicBlock) → length (map strip bs) ≡ length bs
length-map-strip [] = refl
length-map-strip (b ∷ bs) = ap suc (length-map-strip bs)

pub length-strip : (bs cs : List BasicBlock) → map strip bs ≡ map strip cs → length bs ≡ length cs
length-strip bs cs e = sym (length-map-strip bs) ∙ ap length e ∙ length-map-strip cs

ids-strip :
    (bs cs : List BasicBlock)
    → map strip bs ≡ map strip cs
    → ids cs ≡ count_from 0 (length cs)
    → ids bs ≡ count_from 0 (length bs)
ids-strip bs cs e h =
    sym (ids-map-strip bs)
    ∙ ap ids e
    ∙ ids-map-strip cs
    ∙ h
    ∙ ap (count_from 0) (sym (length-strip bs cs e))

pub strip-connect :
    (i id j k : ℕ) (bs : List BasicBlock) → map strip (connect i id j k bs) ≡ map strip bs
unfolding connect
strip-connect i id j k bs = elim (Bool-cases (ltb k (length bs'))) [
  | inl e ↦ rw e (strip-modify bs' k _ (λ b. refl) ∙ first)
  | inr e ↦ rw e first
]
  where
    bs' : List BasicBlock
    bs' = modify bs i (λ b. record b { successors = b.successors ++ (j ∷ []) })

    first : map strip bs' ≡ map strip bs
    first = strip-modify bs i _ (λ b. refl)

strip-connect_label :
    (labels : Map Text ℕ) (i id : ℕ) (l : Text) (bs : List BasicBlock)
    → map strip (connect_label labels i id l bs) ≡ map strip bs
unfolding connect_label
strip-connect_label labels i id l bs = elim (Option-cases (lookup l labels)) [
  | inl e ↦ rw (e, connect_label) refl
  | inr (j, e) ↦ rw (e, connect_label) (strip-connect i id j j bs)
]

strip-connect_next :
    (i id : ℕ) (bs : List BasicBlock) → map strip (connect_next i id bs) ≡ map strip bs
unfolding connect_next
strip-connect_next i id bs = elim (Option-cases (get_elem? bs (i + 1))) [
  | inl e ↦ rw (e, connect_next) refl
  | inr (b, e) ↦ rw (e, connect_next) (strip-connect i id b.id (i + 1) bs)
]

strip-link :
    (labels : Map Text ℕ) (i id : ℕ) (t : Terminator) (bs : List BasicBlock)
    → map strip (link labels i id t bs) ≡ map strip bs
unfolding link
strip-link labels i id fallthrough bs = strip-connect_next i id bs
strip-link labels i id (jump_to l) bs = strip-connect_label labels i id l bs
strip-link labels i id (branch_to t f) bs =
    strip-connect_label labels i id f _ ∙ strip-connect_label labels i id t bs
strip-link labels i id return bs = refl

pub strip-link_at :
    (labels : Map Text ℕ) (i : ℕ) (bs : List BasicBlock)
    → map strip (link_at labels i bs) ≡ map strip bs
unfolding link_at
strip-link_at labels i bs = elim (Option-cases (get_elem? bs i)) [
  | inl e ↦ rw (e, link_at) refl
  | inr (b, e) ↦ rw (e, link_at) (strip-link labels i b.id b.terminator bs)
]

pub strip-second_pass :
    (labels : Map Text ℕ) (n i : ℕ) (bs : List BasicBlock)
    → map strip (second_pass labels n i bs) ≡ map strip bs
unfolding second_pass
strip-second_pass labels zero i bs = refl
strip-second_pass labels (suc n) i bs =
    strip-second_pass labels n (i + 1) _ ∙ strip-link_at labels i bs

-- In the graph that is built, the id of the block at an index is the index.
pub build-ids : (ns : List Node) → ids (build ns).blocks ≡ count_from 0 (length (build ns).blocks)
unfolding build
build-ids ns =
    ids-strip _ _ (strip-second_pass s.label_to_block (length s.blocks) 0 s.blocks) numbered.numbers
  where
    s : CfgBuilder
    s = first_pass ns new_builder

    numbered : IsNumbered s
    numbered = first_pass-IsNumbered ns
