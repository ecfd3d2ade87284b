-- ===== src/BackRefs/Tests.antt =====
-- A thread of two posts, of which the second refers to the first, twice, and to itself.
use nksrv.Base.{◌≡◌, refl, List, [], ◌∷◌, codes, bytes_eq}
use nksrv.BackRefs.{
  Reference, PostInfo, back_to, index_of, add_back, target, procrefs, process_loop,
  process_back_references,
}
use nksrv.BackRefs.Referrers.{backs}
use nksrv.BackRefs.Turned.{TurnedPosts, Collapsed, process_back_references-Collapsed}

abbrev thread : List PostInfo
thread =
    record { id = codes "a1"; references = []; back_references = [] }
    ∷ record {
      id = codes "b2";
      references = back_to (codes "a1") ∷ back_to (codes "a1") ∷ back_to (codes "b2") ∷ [];
      back_references = [];
    }
    ∷ []

turned :
    backs 0 (process_back_references (codes "b") (codes "t") thread) ≡ back_to (codes "b2") ∷ []
unfolding process_back_references process_loop procrefs target add_back index_of bytes_eq
turned = refl

process_back_references-Collapsed_example :
    (bs : List Reference) × TurnedPosts (codes "b") (codes "t") thread 0 0 thread bs
    × Collapsed [] bs (backs 0 (process_back_references (codes "b") (codes "t") thread))
process_back_references-Collapsed_example =
    process_back_references-Collapsed (codes "b") (codes "t") thread 0
