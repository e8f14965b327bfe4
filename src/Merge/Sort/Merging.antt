-- ===== src/Merge/Sort/Merging.antt =====
-- A round of do_sort_merge, on every branch.
use cetus.Merge.Sort.Loop.{Round}
