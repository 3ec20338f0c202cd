-- ===== src/Lib.antt =====
-- The Sigil compiler: what its front end does with a behavior and with a project's behaviors.
--
-- A behavior is a contract (inputs, outputs, dependencies, guarantees) and a body. The lexer turns
-- its text into tokens, the parser those into a syntax tree, and a hash of the contract pins the
-- behavior wherever another one depends on it. A project's behaviors form a graph whose edges join
-- output ports to input ports; what is not connected or not defined is a gap, and the graph is
-- checked as a whole. The semantic analysis checks a behavior by itself: its contract, its
-- statements in their order, its role, and the paths of the control flow graph of its body.
--
-- Files and what they model:
--   Chars, Decimal           characters, UTF-8 and decimal numbers of Rust's standard library
--   Ast                      compiler/src/ast.rs: Behavior, Contract, Node, Expr
--   Lexer.Tokens             compiler/src/lexer.rs: TokenKind, keyword_or_ident
--   Lexer.Numbers            the number parsers of the standard library that the lexer calls
--   Lexer.State              compiler/src/lexer.rs: Lexer, advance, skip_whitespace, read_identifier
--   Lexer.Readers            compiler/src/lexer.rs: read_string, words, indentation, comments
--   Lexer.Lex                compiler/src/lexer.rs: read_number, next_token, lex
--   Source                   compiler/src/source.rs: SourceFile
--   Parser.Cursor            compiler/src/parser.rs: peek, advance, skip_newlines
--   Parser.Errors            compiler/src/error.rs and parser.rs: CompilerError::parse
--   Parser.Outcome           results of parsers, and what holds of them
--   Parser.Words             compiler/src/parser.rs: expect, expect_identifier, parse_type
--   Parser.Hash              compiler/src/parser.rs: expect_hex_string
--   Parser.References        compiler/src/parser.rs: parse_behavior_refs
--   Parser.Names             compiler/src/parser.rs: the loops over names
--   Parser.Exprs             compiler/src/parser.rs: parse_expr; Grammar describes expressions
--   Parser.Statements        compiler/src/parser.rs: parse_node, parse_implementation
--   Parser.Sections          compiler/src/parser.rs: the loops over sections
--   Parser.Contracts         compiler/src/parser.rs: parse_contract
--   Parser.Descriptions      compiler/src/parser.rs: parse_description
--   Parser.Behaviors         compiler/src/parser.rs: parse_behavior
--   Parser.Units             compiler/src/parser.rs: parse_pattern, parse_library, parse_executable
--   ContractHash             compiler/src/hash.rs: compute_contract_hash
--   Graph, Graph.Ops         compiler/src/graph/mod.rs: the graph and its methods
--   Graph.Gaps               compiler/src/graph/gaps.rs: find_gaps
--   Graph.Validate           compiler/src/graph/validate.rs: resolution, hashes, purity
--   Graph.Builder            compiler/src/graph/builder.rs: behavior_to_node and derived edges
--   Worklist                 the loop over a stack and a visited set that validate.rs and cfg.rs
--                            both write out
--   Cfg                      compiler/src/cfg.rs: CFG, CFGBuilder
--   Cfg.Scopes               compiler/src/cfg.rs: flatten_scopes
--   Cfg.Terminate            compiler/src/cfg.rs: all_paths_terminate
--   Cfg.Paths                compiler/src/cfg.rs: all_paths
--   Semantic.Errors          compiler/src/semantic/types.rs: SemanticError, ErrorKind
--   Semantic.Context         compiler/src/semantic/context.rs: AnalysisContext
--   Semantic.Checks          compiler/src/semantic/mod.rs: SemanticAnalyzer, sizes
--   Semantic.Values          compiler/src/semantic/mod.rs: try_eval_const, infer_expr_info
--   Semantic.Bounds          compiler/src/semantic/mod.rs: check_bounds, check_value_operand
--   Semantic.Calls           compiler/src/semantic/mod.rs: validate_call_args
--   Semantic.Exprs           compiler/src/semantic/mod.rs: validate_expr
--   Semantic.Contracts       compiler/src/semantic/mod.rs: validate_contract
--   Semantic.Labels          compiler/src/semantic/mod.rs: collect_labels
--   Semantic.Guarantees      compiler/src/semantic/mod.rs: validate_guarantees
--   Semantic.Statements      compiler/src/semantic/mod.rs: validate_node, validate_nodes
--   Semantic.Ownership       compiler/src/semantic/mod.rs: validate_ownership_cfg
--   Semantic.Analysis        compiler/src/semantic/mod.rs: analyze
--   Semantic.Roles           compiler/src/semantic/mod.rs: check_composite_purity, check_leaf_no_call
--   Semantic.Outputs         compiler/src/semantic/mod.rs: check_outputs_consumed
--   Cache                    compiler/src/cache.rs: CacheManifest
--   Cache.Deps               compiler/src/cache.rs: compute_deps_hash
-- The other files prove; Examples holds concrete inputs. Some say first what is to be proved, apart
-- from the code: Parser.Exprs.Grammar and Parser.Statements.Grammar the language, Semantic.Values.Operands
-- and Semantic.Values.Meaning what an expression is, Semantic.Exprs.Valid and Semantic.Statements.Valid
-- what is valid, Semantic.Outputs.Uses what is used, and Semantic.Roles.Wiring what only routes.
--
-- How code becomes definitions. A method that changes its object takes the old state and returns the
-- new one. Texts are lists of code points, hash maps are association lists and hash sets lists, in
-- the order of insertion; the source's order of iteration is unspecified. An `i64` or `f64` is its
-- 64-bit pattern. Counters of ids wrap at 2 ^ 64; lines, columns and lengths are unbounded, since a
-- text that long does not fit in memory. SHA-256, the hexadecimal printer and `parse::<f64>` are
-- arguments of the definitions that use them, and the theorems hold for all of them.
--
-- Loops. `lex` has one unit of fuel more than the text has characters: every token but the last
-- takes a character. Within a token each comment takes a unit, and at least one character. The
-- loops of the parser have one unit more than there are tokens, and two for each token where they
-- call one another: a token is read between a call and the next but one. The
-- worklist has one unit for each root and for each edge: no key is expanded twice. The backward loop
-- of `all_paths_terminate` has one unit more than there are blocks: every round but the last adds
-- one. The recursion of `all_paths` has one unit more than there are blocks, and the loop over live
-- places one unit more than the edges have places. The theorems show that no fuel runs out.
--
-- Not modelled: the search for circular dependencies and the topological order, and the data flow
-- states, which nothing calls. Of the cache, files are the set of the paths that exist, and what
-- `load` reads is any manifest.
-- The code generator, the linker, the diagnostics and the command line are calls of other programs
-- and libraries, or input and output.
pub mod Prelude
pub mod Chars
pub mod Ast
pub mod Decimal
pub mod Lexer
pub mod Source
pub mod Parser
pub mod Worklist
pub mod ContractHash
pub mod Graph
pub mod Cfg
pub mod Cache
pub mod Semantic
pub mod Examples
