-- ===== src/Deps.antt =====
-- src/DependencyLister.cpp and src/internal/DependencyGraph.hpp: which libraries a set of programs
-- needs. Graph has the data and the file system, Format and Resolve go from a file or a recorded name
-- to a node, Credits walks the graph from each input and Report is the whole request. Of the proofs,
-- Reach, Offer, Walked and Credited are about the walk; Counting, Bounds, Opening, Listings, Building
-- and Complete about the bounds of the graph; Resolution, Resolving, Searching and Expanding about which
-- node a path or a recorded name gets; Request puts them together.
pub mod Graph
pub mod Format
pub mod Resolve
pub mod Credits
pub mod Report
mod Names
mod Reach
mod Offer
mod Walked
mod Credited
mod Counting
mod Bounds
mod Opening
mod Listings
mod Building
mod Complete
mod Resolution
mod Resolving
mod Searching
mod Expanding
mod Request
mod Tests
