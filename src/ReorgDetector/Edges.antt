-- ===== src/ReorgDetector/Edges.antt =====
-- The detector broadcasts the edges of the sequence of tips that it observes.
use sv2_p2pool.Prelude.{
  ◌≡◌, refl, ◌==◌, bytes_eq, bytes_eqb_iff, if◌then◌else◌, List, [], ◌∷◌, Option, none, some, arith,
}
use sv2_p2pool.Bitcoin.{Hash}
use sv2_p2pool.ReorgDetector.{poll_once, broadcasts}

-- The tips among the answers: `None` is no answer.
pub tips : List (Option Hash) → List Hash
tips [] = []
tips (none ∷ polls) = tips polls
tips (some tip ∷ polls) = tip ∷ tips polls

-- The tips of a sequence that differ from the one just before.
pub changes_after : Hash → List Hash → List Hash
changes_after prev [] = []
changes_after prev (tip ∷ rest) =
    let later = changes_after tip rest in if tip == prev then later else tip ∷ later

abbrev pub changes : List Hash → List Hash
changes [] = []
changes (first ∷ rest) = changes_after first rest

changes_after_same :
    (tip prev : Hash) (rest : List Hash)
    → tip ≡ prev
    → changes_after tip rest ≡ changes_after prev rest
changes_after_same tip prev rest e = rw e

broadcasts-after :
    (prev : Hash) (polls : List (Option Hash))
    → broadcasts (some prev) polls ≡ changes_after prev (tips polls)
unfolding broadcasts poll_once tips changes_after
broadcasts-after prev [] = refl
broadcasts-after prev (none ∷ polls) = broadcasts-after prev polls
broadcasts-after prev (some tip ∷ polls) = ground (
  arith,
  bytes_eqb_iff tip prev,
  broadcasts-after prev polls,
  broadcasts-after tip polls,
  changes_after_same tip prev (tips polls),
)

-- A run that starts with no last tip broadcasts, in order, exactly those observed tips that differ
-- from the tip observed just before: the first tip and answers of `None` are silent.
pub broadcasts-eq-changes :
    (polls : List (Option Hash)) → broadcasts none polls ≡ changes (tips polls)
unfolding broadcasts poll_once tips
broadcasts-eq-changes [] = refl
broadcasts-eq-changes (none ∷ polls) = broadcasts-eq-changes polls
broadcasts-eq-changes (some tip ∷ polls) = broadcasts-after tip polls
