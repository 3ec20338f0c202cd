-- ===== src/Graph/Gaps.antt =====
-- compiler/src/graph/gaps.rs, and the methods of `ProjectGraph` that ask it.
pub mod Complete
use sigil_lang.Prelude.{
  nat_beq, ℕ, ◌+◌, ◌-◌, ◌^◌, ◌%◌, Bool, true, false, not, ◌&&◌, Option, none, some, List, [], ◌∷◌,
  ◌++◌, Text, codes, ◌==◌, text_eq, length, leb, if◌then◌else◌,
}
use sigil_lang.Ast.{bytes}
use sigil_lang.Decimal.{decimal}
use sigil_lang.Graph.{
  Direction, in_port, out, error, Port, Gap, DependencyRef, BehaviorNode, BehaviorLookup,
  ProjectGraph, debug_type,
}
use sigil_lang.Graph.Ops.{values, lookup_behavior, lookup_hash, port_has_source, port_has_consumer}

-- "Behavior 'NODE' VERB 'PORT' (TYPE, SIZE bytes) — QUESTION".
port_question : BehaviorNode → Port → Text → Text → Text
port_question n p verb question =
    codes "Behavior '"
    ++ (n.name
        ++ (verb
            ++ (p.name
                ++ (codes "' ("
                    ++ (debug_type p.interpretation
                        ++ (codes ", " ++ (decimal p.size ++ (codes " bytes) — " ++ question))))))))

port_gap : BehaviorNode → Port → Text → Text → Gap
unfolding port_question
port_gap n p verb question = record {
  node_id = n.id;
  node_name = n.name;
  port_name = p.name;
  direction = p.direction;
  port_type = p.interpretation;
  port_size = p.size;
  question = port_question n p verb question;
}

-- The body of the loop over the ports, by the port's direction.
gaps_of_port : Direction → ProjectGraph → BehaviorNode → Port → List Gap
unfolding port_gap
gaps_of_port in_port g n p =
    if port_has_source g n.id p.name
    then []
    else port_gap n p (codes "' needs input '") (codes "where does this data come from?") ∷ []
gaps_of_port out g n p =
    if not p.discarded && not (port_has_consumer g n.id p.name)
    then port_gap n p (codes "' produces output '") (codes "what should happen with this data?")
      ∷ []
    else []
gaps_of_port error g n p =
    if not p.discarded && not (port_has_consumer g n.id p.name)
    then port_gap n p (codes "' can produce error '") (codes "how should this error be handled?")
      ∷ []
    else []

port_gaps : ProjectGraph → BehaviorNode → List Port → List Gap
port_gaps g n [] = []
port_gaps g n (p ∷ ps) = gaps_of_port p.direction g n p ++ port_gaps g n ps

pub find_port_gaps : ProjectGraph → BehaviorNode → List Gap
find_port_gaps g n = port_gaps g n n.ports

dependency_gap : BehaviorNode → DependencyRef → Text → Gap
dependency_gap n d question = record {
  node_id = n.id;
  node_name = n.name;
  port_name = d.name;
  direction = in_port;
  port_type = bytes;
  port_size = 0;
  question = question;
}

stale_question : BehaviorNode → DependencyRef → Text → Text
stale_question n d actual =
    codes "Behavior '"
    ++ (n.name
        ++ (codes "' expects '"
            ++ (d.name
                ++ (codes "@"
                    ++ (d.hash
                        ++ (codes "' but '"
                            ++ (d.name
                                ++ (codes "' is now @"
                                    ++ (actual
                                        ++ codes
                                            " — the dependency's contract changed. Accept the update?")))))))))

missing_question : BehaviorNode → DependencyRef → Text
missing_question n d =
    codes "Behavior '"
    ++ (n.name
        ++ (codes "' requires '"
            ++ (d.name
                ++ (codes "' but it's not defined — what should '" ++ (d.name ++ codes "' do?")))))

-- `is_empty` of a text.
abbrev pub is_empty : Text → Bool
is_empty [] = true
is_empty (_ ∷ _) = false

-- The `match` on what the graph has under the dependency's name.
gaps_of_lookup : Option BehaviorLookup → BehaviorNode → DependencyRef → List Gap
unfolding dependency_gap
gaps_of_lookup (some found) n d =
    if not (is_empty d.hash) && not (lookup_hash found == d.hash)
    then dependency_gap n d (stale_question n d (lookup_hash found)) ∷ []
    else []
gaps_of_lookup none n d = dependency_gap n d (missing_question n d) ∷ []

gaps_of_dependency : ProjectGraph → BehaviorNode → DependencyRef → List Gap
unfolding gaps_of_lookup
gaps_of_dependency g n d = gaps_of_lookup (lookup_behavior g d.name) n d

dependency_gaps : ProjectGraph → BehaviorNode → List DependencyRef → List Gap
dependency_gaps g n [] = []
dependency_gaps g n (d ∷ ds) = gaps_of_dependency g n d ++ dependency_gaps g n ds

pub find_dependency_gaps : ProjectGraph → BehaviorNode → List Gap
find_dependency_gaps g n = dependency_gaps g n n.requires

node_gaps : ProjectGraph → List BehaviorNode → List Gap
node_gaps g [] = []
node_gaps g (n ∷ ns) = find_port_gaps g n ++ (find_dependency_gaps g n ++ node_gaps g ns)

pub find_gaps : ProjectGraph → List Gap
find_gaps g = node_gaps g (values g)

pub is_complete : ProjectGraph → Bool
is_complete g = elim (find_gaps g) [ [] ↦ true | _ ∷ _ ↦ false ]

total_ports : List BehaviorNode → ℕ
total_ports [] = 0
total_ports (n ∷ ns) = length n.ports + total_ports ns

-- The share of connected ports, as its numerator and denominator: of no ports, all are. The `usize`
-- subtraction is checked in a debug build: `none` is its panic.
unfoldable pub completeness_pct : ProjectGraph → Option (ℕ × ℕ)
unfolding total_ports
completeness_pct g =
    let gaps = length (find_gaps g) in
    let total = total_ports (values g) in
    if nat_beq total 0
    then some (1, 1)
    else if leb gaps total
    then some (total - gaps, total)
    else none
