-- ===== src/Deps/Tests.antt =====
-- A program that needs libc.so.6 and libm.so, both found in the folder l and the same program again;
-- and a small graph.
use libthe_seed.Prelude.{
  ℕ, zero, suc, ◌≡◌, ◌⊎◌, none, ◌>>=◌, refl, inl, inr, true, false, List, [], ◌∷◌, ◌++◌, some, any,
  same_name, same_name_eq, Bool-cases, arith, ok, value, length, get_or, Succeeds,
}
use libthe_seed.Bounded.Order.{Bytes}
use libthe_seed.Bounded.Elements.{first_high, element, matches}
use libthe_seed.Elf.Tests.{program, libc, libm, list_program}
use libthe_seed.Deps.Graph.{empty_graph, FileSystem, elf}
use libthe_seed.Deps.Format.{is_macho, parse_bytes}
use libthe_seed.Deps.Resolve.{resolve_new, find_in_folders, read_node, parsed_node, node_key}
use libthe_seed.Deps.Report.{
  normalise_inputs, collect_inputs, put_input, sort_inputs, insert_input, list_all_dependencies,
}
use libthe_seed.Deps.Credits.{
  Marks, credit_nodes, credit_inputs, walk_from, walk_loop, offer_all, offer, credit,
}
use libthe_seed.Deps.Reach.{IsCredit}
use libthe_seed.Deps.Walked.{InBounds}
use libthe_seed.Deps.Counting.{Listed}
use libthe_seed.Deps.Bounds.{World, IsSound, IsFolder}
use libthe_seed.Deps.Credited.{credit_nodes_correct}
use libthe_seed.Deps.Names.{IsPlainName, entered, resolve_new-IsPlainName}
use libthe_seed.Deps.Request.{IsAnswer, list_all_dependencies_correct}

-- 0 → 1 → 2 → 1, and 3 needs nothing.
abbrev edges : ℕ → List ℕ
edges zero = 1 ∷ []
edges (suc zero) = 2 ∷ []
edges (suc (suc zero)) = 1 ∷ []
edges (suc (suc (suc v))) = []

credit_small :
    credit_nodes edges 4 (0 ∷ 3 ∷ 2 ∷ [])
    ≡ some
        (record { seen = 0 ∷ 3 ∷ 3 ∷ 0 ∷ []; credits = [] ∷ (0 ∷ 2 ∷ []) ∷ (0 ∷ 2 ∷ []) ∷ [] ∷ [] })
unfolding credit_nodes credit_inputs walk_from walk_loop offer_all offer credit
credit_small = refl

edges-InBounds : InBounds edges 4
edges-InBounds zero lt = (omega arith, tt)
edges-InBounds (suc zero) lt = (omega arith, tt)
edges-InBounds (suc (suc zero)) lt = (omega arith, tt)
edges-InBounds (suc (suc (suc v))) lt = tt

credit_nodes_correct_example :
    (m : Marks) × (credit_nodes edges 4 (0 ∷ 3 ∷ 2 ∷ []) ≡ some m)
    × (length m.credits ≡ 4)
    × ((v : ℕ) → IsCredit edges v 0 (0 ∷ 3 ∷ 2 ∷ []) (get_or m.credits v []))
credit_nodes_correct_example =
    credit_nodes_correct edges 4 (0 ∷ 3 ∷ 2 ∷ []) edges-InBounds (omega arith)
      (omega arith, (omega arith, (omega arith, tt)))

abbrev input : Bytes
input = b'p' ∷ []

abbrev folder : Bytes
folder = b'l' ∷ []

-- Every path is a regular file with its own name, and every file is the program.
abbrev disk : FileSystem
disk = record {
  canonical = λ path. some path;
  is_regular_file = λ path. true;
  is_directory = λ path. true;
  entry_exists = λ path. true;
  list_folder = λ folder. [];
  join = λ folder name. folder ++ b'/' ∷ name;
  read_file_bytes = λ path. ok program;
}

abbrev world : World
world = record {
  fs = disk;
  search_paths = folder ∷ [];
  names = libc ∷ libm ∷ [];
  keys = input ∷ (folder ++ b'/' ∷ libc) ∷ (folder ++ b'/' ∷ libm) ∷ [];
}

read_program : (path : Bytes) → read_node disk path ≡ ok (parsed_node path elf (libc ∷ libm ∷ []))
unfolding read_node is_macho parse_bytes first_high element matches
read_program path = rw list_program refl

Listed-cases : (name a b : Bytes) → Listed name (a ∷ b ∷ []) → (name ≡ a) ⊎ (name ≡ b)
unfolding any
Listed-cases name a b h = elim (Bool-cases (same_name name a)) [
  | inl first ↦ inl (same_name_eq name a first)
  | inr other ↦ inr (same_name_eq name b (ground (arith, h, other)))
]

folder-IsFolder : IsFolder world folder
unfolding any node_key same_name
folder-IsFolder name (inl listed) = elim (Listed-cases name libc libm listed) [
  | inl e ↦ rw e refl
  | inr e ↦ rw e refl
]
folder-IsFolder name (inr entry) = absurd (cc)

world-IsSound : IsSound world
unfolding any same_name
world-IsSound = record {
  reads = λ path. value (omega arith, omega arith);
  recorded = λ path. rw (read_program path) (value (refl, (refl, tt)));
  joined = (folder-IsFolder, tt);
}

list_all_dependencies_correct_example :
    Succeeds
      (IsAnswer world (normalise_inputs disk (input ∷ [])))
      (list_all_dependencies disk 5 (input ∷ []) (folder ∷ []))
unfolding any same_name normalise_inputs node_key collect_inputs put_input sort_inputs insert_input
list_all_dependencies_correct_example =
    list_all_dependencies_correct world 5 (input ∷ []) world-IsSound (refl, tt) (omega arith)
      (omega arith)

resolve_new-IsPlainName_example :
    (IsPlainName libc
      × (resolve_new disk (folder ∷ []) empty_graph libc false ≡ (
          find_in_folders disk empty_graph libc false (folder ∷ []) >>= λ found.
          ok (entered libc false found))))
    ⊎ ((¬ IsPlainName libc)
        × (resolve_new disk (folder ∷ []) empty_graph libc false
            ≡ ok (entered libc false (empty_graph, none))))
resolve_new-IsPlainName_example = resolve_new-IsPlainName disk (folder ∷ []) empty_graph libc false
