-- ===== src/Cfg/Builder/Labels/Heads.antt =====
-- compiler/src/cfg.rs: a block that has a label starts at it.
use mathlib.Core.Path.{subst}
use mathlib.Core.Option.{some-injective}
use sigil_lang.Prelude.{
  ℕ, suc, ◌+◌, ◌≡◌, refl, sym, ap, ◌∙◌, inl, inr, true, some, List, [], ◌∷◌, ◌++◌, map, arith, Text,
  text_eq, All, All-append, length, get_elem?, Bool-cases,
}
use sigil_lang.Ast.{Node, NodeKind, kind_of, label, jump, branch}
use sigil_lang.Cfg.{
  Terminator, fallthrough, return, BasicBlock, CfgBuilder, new_builder, finish_block, build,
  push_statement, start_label, visit, visit_all, first_pass, is_nil,
}
use sigil_lang.Cfg.Builder.Numbers.{strip, strip-second_pass}

-- The statement at this index is the label.
abbrev pub IsLabelAt : List Node → Text → ℕ → Type 0
IsLabelAt ns l i = (n : Node) × (get_elem? ns i ≡ some n) × (kind_of n ≡ label l)

-- The first statement of the block is the label.
abbrev pub StartsAtLabel : List Node → Text → BasicBlock → Type 0
StartsAtLabel ns l b = (i : ℕ) × (rest : List ℕ) × (b.statements ≡ i ∷ rest) × IsLabelAt ns l i

abbrev pub Headed : List Node → BasicBlock → Type 0
Headed ns b = (l : Text) → b.label ≡ some l → StartsAtLabel ns l b

record AreHeaded (ns : List Node) (s : CfgBuilder) : Type 0 where
  done : All (Headed ns) s.blocks
  current : Headed ns s.current_block

finish-AreHeaded :
    (ns : List Node) (t : Terminator) (s : CfgBuilder)
    → AreHeaded ns s
    → AreHeaded ns (finish_block t s)
unfolding finish_block
finish-AreHeaded ns t s h = record {
  done = All-append (Headed ns) s.blocks _ h.done (h.current, tt);
  current = λ l e. absurd (cc (e));
}

push-AreHeaded :
    (ns : List Node) (i : ℕ) (s : CfgBuilder) → AreHeaded ns s → AreHeaded ns (push_statement i s)
unfolding push_statement
push-AreHeaded ns i s h = record { done = h.done; current = λ l e. longer (h.current l e) }
  where
    longer :
        {l : Text}
        → StartsAtLabel ns l s.current_block
        → StartsAtLabel ns l
            (record s.current_block { statements = s.current_block.statements ++ (i ∷ []) })
    longer (j, rest, e, at) = (j, rest ++ (i ∷ []), ap (λ xs. xs ++ (i ∷ [])) e, at)

label-AreHeaded :
    (ns : List Node) (i : ℕ) (l : Text) (s : CfgBuilder) (n : Node)
    → get_elem? ns i ≡ some n
    → kind_of n ≡ label l
    → AreHeaded ns s
    → AreHeaded ns (push_statement i (start_label l s))
unfolding push_statement start_label finish_block
label-AreHeaded ns i l s n e k h = elim (Bool-cases (is_nil s.current_block.statements)) [
  | inl blank ↦ rw blank (record {
    done = h.done;
    current = λ m q. (i, [], first s.current_block.statements blank, (n, e, same m q));
  })
  | inr full ↦ rw full (record {
    done = (finish-AreHeaded ns fallthrough s h).done;
    current = λ m q. (i, [], refl, (n, e, same m q));
  })
]
  where
    same : (m : Text) → some l ≡ some m → kind_of n ≡ label m
    same m q = k ∙ ap label (some-injective l m q)

    first : (xs : List ℕ) → is_nil xs ≡ true → xs ++ (i ∷ []) ≡ i ∷ []
    first [] q = refl
    first (x ∷ xs) q = cc

visit-AreHeaded :
    (ns : List Node) (i : ℕ) (n : Node) (s : CfgBuilder)
    → get_elem? ns i ≡ some n
    → AreHeaded ns s
    → (k : NodeKind) → kind_of n ≡ k
    → AreHeaded ns (visit i k s)
unfolding visit
visit-AreHeaded ns i n s e h (label l) q = label-AreHeaded ns i l s n e q h
visit-AreHeaded ns i n s e h (jump l) q = finish-AreHeaded ns _ _ (push-AreHeaded ns i s h)
visit-AreHeaded ns i n s e h (branch c t f) q = finish-AreHeaded ns _ _ (push-AreHeaded ns i s h)
visit-AreHeaded ns i n s e h k q = push-AreHeaded ns i s h

visit_all-AreHeaded :
    (all : List Node) (i : ℕ) (ns : List Node) (s : CfgBuilder)
    → ((m : ℕ) → get_elem? all (m + i) ≡ get_elem? ns m)
    → AreHeaded all s
    → AreHeaded all (visit_all i ns s)
unfolding visit_all
visit_all-AreHeaded all i [] s at h = h
visit_all-AreHeaded all i (n ∷ ns) s at h =
    visit_all-AreHeaded all (i + 1) ns _
      (λ m. let e : m + (i + 1) ≡ suc m + i = omega arith in ap (get_elem? all) e ∙ at (suc m))
      (visit-AreHeaded all i n s (let z : i ≡ 0 + i = omega arith in ap (get_elem? all) z ∙ at 0) h
        (kind_of n) refl)

first_pass-AreHeaded : (ns : List Node) → AreHeaded ns (first_pass ns new_builder)
unfolding first_pass
first_pass-AreHeaded ns = elim (Bool-cases (is_nil s.current_block.statements)) [
  | inl e ↦ elim (Bool-cases (is_nil s.blocks)) [
    | inl f ↦ rw (e, f) (finish-AreHeaded ns return s h)
    | inr f ↦ rw (e, f) h
  ]
  | inr e ↦ rw e (finish-AreHeaded ns return s h)
]
  where
    s : CfgBuilder
    s = visit_all 0 ns new_builder

    h : AreHeaded ns s
    h =
        visit_all-AreHeaded ns 0 ns new_builder (λ m. ap (get_elem? ns) (omega arith))
          (record { done = tt; current = λ l e. absurd (cc (e)) })

-- The second pass changes neither labels nor statements.
All-strip :
    (ns : List Node) (bs cs : List BasicBlock)
    → map strip bs ≡ map strip cs
    → All (Headed ns) bs
    → All (Headed ns) cs
All-strip ns [] [] e h = tt
All-strip ns [] (c ∷ cs) e h = absurd (cc (e))
All-strip ns (b ∷ bs) [] e h = absurd (cc (e))
All-strip ns (b ∷ bs) (c ∷ cs) e h = (headed (cc (e)), All-strip ns bs cs (cc (e)) h.1)
  where
    headed : strip b ≡ strip c → Headed ns c
    headed same = subst (Headed ns) same h.0

pub build-AreHeaded : (ns : List Node) → All (Headed ns) (build ns).blocks
unfolding build
build-AreHeaded ns =
    let s = first_pass ns new_builder in
    All-strip ns s.blocks _ (sym (strip-second_pass s.label_to_block (length s.blocks) 0 s.blocks))
      (first_pass-AreHeaded ns).done
